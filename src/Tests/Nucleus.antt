-- ===== src/Tests/Nucleus.antt =====
-- Instances of the theorems on the scheduler, the times and the system calls.
use jae_so.Common.{ℕ, ◌≤◌, ◌<◌, ◌≡◌, refl, ◌∙◌, ◌⊎◌, ◌≢◌, none, some, [], ◌∷◌, arith, ◌/◌, ◌%◌}
use jae_so.Memory.{Loc, p_list, p_children, pcb_free, ready_queue}
use jae_so.Clist.Queue.{enqueue-append, enqueue-frame}
use jae_so.Kernel.Machine.{Kernel, pcb_state}
use jae_so.Kernel.Cmd.{stop, load, wait, halt, panic, Returns, Stops}
use jae_so.Scheduler.{scheduler}
use jae_so.Scheduler.Choice.{Dispatched, Waiting, scheduler-dispatch, scheduler-idle}
use jae_so.Syscalls.Process.{pid_selector, create_process}
use jae_so.Syscalls.Pid.{pid_selector_lem}
use jae_so.Syscalls.Create.{CanCreate, Created, create_process-Created}
use jae_so.Tests.Fixture.{machine, power_on}
use jae_so.Tests.Lists.{nothing, three-IsClist}
use jae_so.Tests.Blocks.{with_ready, free_links, free-IsClist}

-- Process 3 runs, and 50 microseconds have passed since the last handler.
abbrev running : Kernel
running = record power_on { current_process = some 3; last_update = 100; left_to_100 = 70000 }

scheduler-dispatch_example :
    Stops
      (λ x k'. (x ≡ load (pcb_state 0)) × Dispatched with_ready 0 (1 ∷ 2 ∷ []) k')
      (scheduler machine with_ready)
scheduler-dispatch_example = scheduler-dispatch machine with_ready 0 (1 ∷ 2 ∷ []) three-IsClist

-- One process, blocked on a device.
abbrev blocked : Kernel
blocked = record power_on { process_count = 1; soft_block_count = 1 }

scheduler-idle_example :
    ((((◌≡◌ {A = ℕ} 1 0) ⊎ (20 < 1)) × (scheduler machine blocked ≡ stop halt blocked))
      ⊎ (((0 < 1)
            × (1 ≤ 20)
            × (0 < 1)
            × Stops (λ x k'. (x ≡ wait) × Waiting blocked k') (scheduler machine blocked))
          ⊎ ((0 < 1)
              × (1 ≤ 20)
              × (◌≡◌ {A = ℕ} 1 0)
              × (scheduler machine blocked ≡ stop panic blocked))))
scheduler-idle_example = scheduler-idle machine blocked refl

pid_selector_lem_example :
    Returns
      (λ pid k'. (pid / 32 ≡ 2) × (pid % 32 ≡ 1) × (k'.abs_process_count ≡ 2) × (pid ≢ 0))
      (pid_selector blocked)
pid_selector_lem_example = pid_selector_lem blocked (omega arith) (omega arith)

-- Process 0 runs alone, and the blocks 4 and 5 are free.
abbrev alone : Kernel
alone = record power_on { links = free_links; current_process = some 0; process_count = 1 }

free_links-other : (b : Loc) → b ≢ pcb_free → ((x : ℕ) → b ≢ p_list x) → free_links b ≡ none
free_links-other b n s =
    enqueue-frame _ pcb_free (p_list 5) b (p_list 4 ∷ [])
      (enqueue-append nothing pcb_free (p_list 4) [] refl (λ e. cc) tt) (n, (s 5, (s 4, tt)))
    ∙ enqueue-frame nothing pcb_free (p_list 4) b [] refl (n, (s 4, tt))

alone-CanCreate : CanCreate alone 0 4 (5 ∷ []) [] []
alone-CanCreate = record {
  current = refl;
  room = omega arith;
  free = free-IsClist;
  ready = free_links-other ready_queue (λ e. cc) (λ x e. cc);
  family = free_links-other (p_children 0) (λ e. cc) (λ x e. cc);
  other = ground arith;
  ready_apart = λ r x i j. elim i [ ];
  family_apart = λ x i. elim i [ ];
}

create_process-Created_example :
    Returns (λ _ k'. Created 0x5000 alone 0 4 (5 ∷ []) [] [] k') (create_process 0x5000 alone)
create_process-Created_example = create_process-Created alone-CanCreate 0x5000
