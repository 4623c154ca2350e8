-- ===== src/Tests/Devices.antt =====
-- Instances of the theorems on devices.
use jae_so.Common.{
  ℕ, ◌+◌, ◌<◌, ◌≤◌, ◌≢◌, ◌%◌, ◌≡◌, refl, ◌⊎◌, none, some, [], ◌∷◌, arith, ◌==◌, if◌then◌else◌,
}
use jae_so.Kernel.Machine.{Kernel, DevReg}
use jae_so.Kernel.Cmd.{Returns}
use jae_so.Asl.Find.{seek}
use jae_so.Syscalls.Waiters.{Waiters}
use jae_so.Interrupts.{find_device, handle_devices, pseudo_tick}
use jae_so.Interrupts.Deliver.{one, Finished, device, Delivered, handle_devices-Delivered}
use jae_so.Interrupts.Tick.{added, Ticked, pseudo_tick-Ticked}
use jae_so.Common.Int.{pos}
use jae_so.Memory.{p_list, s_procq}
use jae_so.Clist.{enqueue}
use jae_so.Interrupts.Device.{shifted, NonePending, find_device_lem}
use jae_so.Interrupts.Terminal.{signalled, acknowledge-HasReceived}
use jae_so.Kernel.Arch.{dev_sem}
use jae_so.Tests.Fixture.{machine, zero_dev, exit_of}
use jae_so.Tests.Semaphores.{waiting, waiting-Blocked, waiting-Waiters}

find_device_lem_example :
    ((j : ℕ) × (j < 8)
      × (find_device 8 0 12 ≡ (some (0 + j), shifted j 12))
      × (shifted j 12 % 2 ≡ 1)
      × NonePending j 12)
    ⊎ ((find_device 8 0 12 ≡ (none, shifted 8 12)) × NonePending 8 12)
find_device_lem_example = find_device_lem 8 0 12

-- A terminal that has received a character.
abbrev with_character : DevReg
with_character = record zero_dev { recv_status = 5 }

acknowledge-HasReceived_example :
    (dev_sem machine 6 0 ≤ signalled machine 2 with_character)
    × (signalled machine 2 with_character ≢ dev_sem machine 5 2)
acknowledge-HasReceived_example =
    acknowledge-HasReceived machine 2 with_character refl (omega arith) refl

-- Process 3 waits for the first disk, which has finished with status 1.
abbrev finished : Kernel
finished = record waiting {
  sem_add = λ d. if d == 0 then 0x20000 else 0x30000;
  bitmap = λ l. 1;
  dev = λ l i. record zero_dev { status = 1 };
}

finished-Waiters : Waiters one finished 0x20000 0 (3 ∷ []) (0 ∷ 1 ∷ []) (5 ∷ []) []
unfolding exit_of seek
finished-Waiters = record {
  few = waiting-Blocked.few;
  active = waiting-Blocked.active;
  ascending = ((omega arith, tt), (tt, tt));
  known = refl;
  queue = waiting-Blocked.queue;
  free = waiting-Blocked.free;
  apart = waiting-Blocked.apart;
  ready = refl;
  not_ready = λ r x i j. elim i [ ];
  waits = waiting-Waiters.waits;
  asks = λ x i. refl;
}

finished-Finished : Finished machine 3 0 0 1 (record zero_dev { status = 1; command = 1 }) finished
unfolding find_device
finished-Finished = record { pending = refl; known = device (λ e. absurd (omega (arith, e))) }

handle_devices-Delivered_example :
    Returns
      (λ _ k'.
        Delivered finished 0x20000 0 3 1 [] [] k'
        × (k'.dev 3 0 ≡ record zero_dev { status = 1; command = 1 }))
      (handle_devices machine 3 finished)
handle_devices-Delivered_example =
    handle_devices-Delivered machine 3 0 0 1 0 3 (record zero_dev { status = 1; command = 1 })
      finished [] (0 ∷ 1 ∷ []) (5 ∷ []) [] finished-Finished finished-Waiters refl

-- Processes 3 and 7 wait for the pseudo clock, whose time is up.
abbrev sleeping : Kernel
sleeping = record waiting {
  links = enqueue (p_list 7) (s_procq 0) waiting.links;
  sem_add = λ d. if d == 0 then 0x30000 else 0x40000;
  pcb = λ p. record (waiting.pcb p) { p_cursem = some 0 };
  pseudo_clock_blk = pos 2;
  left_to_100 = 0;
  clock = λ i. 0;
  last_update = 0;
}

sleeping-Waiters : Waiters one sleeping 0x30000 0 (3 ∷ 7 ∷ []) (0 ∷ 1 ∷ []) (5 ∷ []) []
unfolding exit_of seek
sleeping-Waiters = record {
  few = omega arith;
  active = (refl, refl, (refl, tt), ((λ e. cc), ((λ e. cc), tt)), ((ground arith, tt), (tt, tt)));
  ascending = ((omega arith, tt), (tt, tt));
  known = refl;
  queue = (refl, refl, (refl, tt), ((λ e. cc), ((λ e. cc), tt)), ((ground arith, tt), (tt, tt)));
  free = (refl, refl, tt, ((λ e. cc), tt), (tt, tt));
  apart = waiting-Blocked.apart;
  ready = refl;
  not_ready = λ r x i j. elim i [ ];
  waits = λ x i. refl;
  asks = λ x i. refl;
}

-- The value of the semaphore is then 1.
pseudo_tick-Ticked_example :
    Returns (λ _ k'. Ticked 0x30000 (added 1) (3 ∷ 7 ∷ []) [] k') (pseudo_tick machine sleeping)
pseudo_tick-Ticked_example =
    pseudo_tick-Ticked machine sleeping 0 3 (7 ∷ []) (0 ∷ 1 ∷ []) (5 ∷ []) [] refl (omega arith)
      sleeping-Waiters refl refl
