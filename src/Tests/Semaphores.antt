-- ===== src/Tests/Semaphores.antt =====
-- Instances of the theorems on semaphores and interrupts.
use jae_so.Common.{inl, List, map, ◌++◌, ℕ, ◌≡◌, refl, some, [], ◌∷◌, arith, ◌==◌, if◌then◌else◌}
use jae_so.Common.Int.{ℤ, pos, negsuc, ◌+ℤ◌}
use jae_so.Memory.{p_list, s_link, s_procq, aslh, semd_free, ready_queue, Links}
use jae_so.Clist.{enqueue}
use jae_so.Kernel.Machine.{Kernel, set_word}
use jae_so.Kernel.Cmd.{done, Returns}
use jae_so.Asl.{insert_blocked, remove_blocked, out_blocked}
use jae_so.Asl.Insert.{CanEnrol, Enrolled, insert_blocked-Enrolled}
use jae_so.Asl.Roundtrip.{remove_blocked-insert_blocked}
use jae_so.Clist.Ring.{IsClist}
use jae_so.Asl.Find.{IsActive, seek}
use jae_so.Asl.Remove.{Blocked, Unblocked, remove_blocked-Unblocked}
use jae_so.Syscalls.Semop.{semop, wake_loop}
use jae_so.Syscalls.Free.{IsFree, IsInt, semop-free}
use jae_so.Syscalls.Waiters.{Waiters}
use jae_so.Asl.Out.{Known, Out, out_blocked-Out}
use jae_so.Syscalls.Signal.{Kept}
use jae_so.Syscalls.Grant.{granted, refused, surplus, semop-Granted, semop-Overdrawn}
use jae_so.Pcb.Queue.{IsQueue}
use jae_so.Syscalls.Park.{CanPark, Parked, semop-Parked}
use jae_so.Syscalls.Wake.{CanWake, Awake, woken, left, wake_loop-Awake}
use jae_so.Tests.Fixture.{machine, exit_of}
use jae_so.Tests.Blocks.{with_active, two_semds-IsActive}

with_active-IsFree : IsFree with_active 300 (0 ∷ 1 ∷ [])
unfolding seek
with_active-IsFree = record { few = omega arith; active = two_semds-IsActive; absent = refl }

zero_two : IsInt (pos 0 +ℤ pos 2)
unfolding ◌+ℤ◌
zero_two = omega arith

one_more : pos 1 +ℤ pos 0 ≡ pos 1
unfolding ◌+ℤ◌
one_more = refl

one_less : pos 1 +ℤ negsuc 4 ≡ negsuc 3
unfolding ◌+ℤ◌
one_less = refl

semop-free_example :
    semop machine 300 (pos 2) with_active ≡ done tt (set_word 300 (pos 0 +ℤ pos 2) with_active)
semop-free_example =
    semop-free machine with_active 300 (0 ∷ 1 ∷ []) with_active-IsFree (pos 2) zero_two tt

-- Process 3 is blocked on the semaphore at 100, process 4 on the one at 200, and descriptor 5 is
-- free.
abbrev waiting_links : Links
waiting_links =
    enqueue (p_list 4) (s_procq 1)
      (enqueue (p_list 3) (s_procq 0) (enqueue (s_link 5) semd_free with_active.links))

abbrev pub waiting : Kernel
waiting = record with_active {
  links = waiting_links;
  pcb = λ p. record (with_active.pcb p) {
    p_cursem = if p == 3 then some 0 else some 1;
    res_requested = 1;
  };
}

waiting-IsActive : IsActive waiting (0 ∷ 1 ∷ [])
unfolding exit_of
waiting-IsActive =
    (refl, refl, (refl, tt), ((λ e. cc), ((λ e. cc), tt)), ((ground arith, tt), (tt, tt)))

pub waiting-Blocked : Blocked waiting 100 0 3 [] (0 ∷ 1 ∷ []) (5 ∷ [])
unfolding exit_of seek
waiting-Blocked = record {
  few = omega arith;
  active = waiting-IsActive;
  known = refl;
  queue = (refl, refl, tt, ((λ e. cc), tt), (tt, tt));
  free = (refl, refl, tt, ((λ e. cc), tt), (tt, tt));
  apart = λ x y i j. ground arith;
}

remove_blocked-Unblocked_example :
    (σ : Links) × Unblocked waiting 100 0 3 [] (0 ∷ 1 ∷ []) (5 ∷ []) σ
remove_blocked-Unblocked_example =
    remove_blocked-Unblocked waiting 100 0 3 [] (0 ∷ 1 ∷ []) (5 ∷ []) waiting-Blocked

waiting-Known : Known waiting 0 (0 ∷ 1 ∷ []) (5 ∷ [])
waiting-Known = record {
  few = waiting-Blocked.few;
  active = waiting-IsActive;
  member = inl refl;
  free = waiting-Blocked.free;
  apart = waiting-Blocked.apart;
}

out_blocked-Out_example :
    (σ : Links) × (out_blocked 3 waiting ≡ done (some 3) (record waiting { links = σ }))
    × Out waiting_links 0 3 (3 ∷ []) (0 ∷ 1 ∷ []) (5 ∷ []) σ
out_blocked-Out_example =
    out_blocked-Out waiting 0 3 (3 ∷ []) (0 ∷ 1 ∷ []) (5 ∷ []) waiting-Known refl (omega arith)
      waiting-Blocked.queue (inl refl)

waiting-CanWake : CanWake waiting 100 (pos 1) 0 3 [] (0 ∷ 1 ∷ []) (5 ∷ []) []
unfolding exit_of
waiting-CanWake = record {
  blocked = waiting-Blocked;
  ascending = ((omega arith, tt), (tt, tt));
  ready = refl;
  apart = λ r x i j. elim i [ ];
  waits = refl;
  enough = refl;
}

wake_loop-Awake_example :
    (σ : Links) × (wake_loop machine 22 100 (pos 1) waiting
      ≡ wake_loop machine 21 100 (left (pos 1) 1) (woken machine 0 3 waiting σ))
    × Awake waiting 0 3 [] (0 ∷ 1 ∷ []) (5 ∷ []) [] σ
wake_loop-Awake_example =
    wake_loop-Awake machine waiting 100 (pos 1) 0 3 [] (0 ∷ 1 ∷ []) (5 ∷ []) [] 21 waiting-CanWake

pub waiting-Waiters : Waiters (λ x. 1) waiting 100 0 (3 ∷ []) (0 ∷ 1 ∷ []) (5 ∷ []) []
unfolding exit_of
waiting-Waiters = record {
  few = waiting-Blocked.few;
  active = waiting-Blocked.active;
  ascending = waiting-CanWake.ascending;
  known = waiting-Blocked.known;
  queue = waiting-Blocked.queue;
  free = waiting-Blocked.free;
  apart = waiting-Blocked.apart;
  ready = refl;
  not_ready = λ r x i j. elim i [ ];
  waits = λ x i. ground arith;
  asks = λ x i. refl;
}

semop-Granted_example :
    (k' : Kernel) × (semop machine 100 (pos 1) waiting
      ≡ done tt (set_word 100 (pos (surplus (λ x. 1) 1 (3 ∷ []))) k'))
    × Kept waiting k' (granted (λ x. 1) 1 (3 ∷ []))
    × ((ds' fs' : List ℕ) × Waiters
          (λ x. 1)
          k'
          100
          0
          (refused (λ x. 1) 1 (3 ∷ []))
          ds'
          fs'
          (granted (λ x. 1) 1 (3 ∷ [])))
semop-Granted_example =
    semop-Granted machine (λ x. 1) 100 0 0 1 waiting (3 ∷ []) (0 ∷ 1 ∷ []) (5 ∷ []) [] (omega arith)
      waiting-Waiters one_more (omega arith)

-- The value of the semaphore at 100 is -5.
abbrev overdrawn : Kernel
overdrawn = set_word 100 (negsuc 4) waiting

overdrawn-Waiters : Waiters (λ x. 1) overdrawn 100 0 (3 ∷ []) (0 ∷ 1 ∷ []) (5 ∷ []) []
unfolding exit_of seek
overdrawn-Waiters = record {
  few = waiting-Blocked.few;
  active = waiting-Blocked.active;
  ascending = waiting-CanWake.ascending;
  known = refl;
  queue = waiting-Blocked.queue;
  free = waiting-Blocked.free;
  apart = waiting-Blocked.apart;
  ready = refl;
  not_ready = waiting-Waiters.not_ready;
  waits = waiting-Waiters.waits;
  asks = λ x i. refl;
}

semop-Overdrawn_example :
    (k' : Kernel) × (xs : List ℕ) × (v : ℤ) × (semop machine 100 (pos 1) overdrawn
      ≡ done tt (set_word 100 v k'))
    × IsQueue k' ready_queue (3 ∷ xs)
semop-Overdrawn_example =
    semop-Overdrawn machine (λ x. 1) 100 0 0 3 3 overdrawn [] (0 ∷ 1 ∷ []) (5 ∷ []) [] (omega arith)
      overdrawn-Waiters one_less (omega arith) (omega arith)

-- Process 6 runs.
abbrev contending : Kernel
contending = record waiting { current_process = some 6 }

contending-CanPark : CanPark contending 100 0 6 3 [] (0 ∷ 1 ∷ [])
unfolding exit_of seek
contending-CanPark = record {
  current = refl;
  few = omega arith;
  active = waiting-IsActive;
  known = refl;
  queue = waiting-Blocked.queue;
  awake = λ x i. ground arith;
}

semop-Parked_example :
    Returns
      (λ _ k'. Parked machine 2 contending 100 0 6 3 [] k')
      (semop machine 100 (negsuc 1) contending)
semop-Parked_example = semop-Parked contending-CanPark machine 1

waiting-CanEnrol : CanEnrol waiting 150 5 (0 ∷ 1 ∷ []) []
unfolding exit_of seek
waiting-CanEnrol = record {
  few = omega arith;
  active = waiting-IsActive;
  absent = refl;
  free = waiting-Blocked.free;
  apart = λ x y i j. ground arith;
}

-- Process 6 blocks on the semaphore at 150, between the two.
insert_blocked-Enrolled_example : (σ : Links) × Enrolled waiting 150 5 6 (0 ∷ 1 ∷ []) [] σ
insert_blocked-Enrolled_example = insert_blocked-Enrolled waiting-CanEnrol 6

remove_blocked-insert_blocked_example :
    (k1 k2 : Kernel) × (insert_blocked 150 6 waiting ≡ done 0 k1)
    × (remove_blocked 150 k1 ≡ done (some 6) k2)
    × IsClist k2.links aslh (map s_link (0 ∷ 1 ∷ []))
    × IsClist k2.links semd_free (map s_link ([] ++ 5 ∷ []))
remove_blocked-insert_blocked_example =
    remove_blocked-insert_blocked waiting-CanEnrol (omega arith) waiting-CanWake.ascending 6
