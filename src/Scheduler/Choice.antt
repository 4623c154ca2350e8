-- ===== src/Scheduler/Choice.antt =====
-- Which process the scheduler runs, and what it does when none is ready.
use jae_so.Common.{
  ℕ, ◌≤◌, ◌<◌, ◌≡◌, refl, ◌∙◌, ◌≢◌, ◌⊎◌, inl, inr, some, List, [], ◌∷◌, map, Fresh, arith, ◌==◌,
  ltb, ◌||◌, true, false,
}
use jae_so.Memory.{Loc, p_list, ready_queue}
use jae_so.Kernel.Arch.{Arch}
use jae_so.Kernel.Machine.{Kernel, pcb_state, max_proc, time_slice, pseudo_clock}
use jae_so.Kernel.Cmd.{load, wait, halt, panic, stop, Stops}
use jae_so.Pcb.Queue.{IsQueue, head_proc_q-cons, head_proc_q-nil, remove_proc_q-cons}
use jae_so.Accounting.{get_todlo, on_handler_exit}
use jae_so.Accounting.Time.{count_down_le}
use jae_so.Scheduler.{dispatch, idle, scheduler, debug_bk_two}

-- The state in which the process `p` is loaded, from the head of the ready queue `p ∷ xs`.
pub record Dispatched (k : Kernel) (p : ℕ) (xs : List ℕ) (k' : Kernel) : Type 0 where
  pub current : k'.current_process ≡ some p
  pub ready : IsQueue k' ready_queue xs
  pub slice : (k'.pcb p).p_time_slice ≡ time_slice
  pub block : k'.pcb p ≡ record (k.pcb p) { p_time_slice = time_slice }
  pub timer : k'.timer ≤ time_slice
  pub others : (q : ℕ) → q ≢ p → k'.pcb q ≡ k.pcb q
  pub processes : k'.process_count ≡ k.process_count
  pub blocked : k'.soft_block_count ≡ k.soft_block_count
  pub semaphores : k'.sem_add ≡ k.sem_add
  pub cursem : (k'.pcb p).p_cursem ≡ (k.pcb p).p_cursem
  pub parent : (k'.pcb p).p_parent ≡ (k.pcb p).p_parent
  pub same : (b : Loc) → Fresh b (ready_queue ∷ map p_list (p ∷ xs)) → k'.links b ≡ k.links b

-- The state in which the processor waits for an interrupt.
pub record Waiting (k k' : Kernel) : Type 0 where
  pub links : k'.links ≡ k.links
  pub blocks : k'.pcb ≡ k.pcb
  pub current : k'.current_process ≡ k.current_process
  pub processes : k'.process_count ≡ k.process_count
  pub semaphores : k'.sem_add ≡ k.sem_add
  pub clock : k'.pseudo_clock_blk ≡ k.pseudo_clock_blk
  pub tick : k'.left_to_100 ≤ pseudo_clock

module _ (arch : Arch) (k : Kernel) where
  -- The test of the process count, with its meaning.
  count_cases :
      (((k.process_count ≡ 0) ⊎ (max_proc < k.process_count))
        × ((k.process_count == 0 || ltb max_proc k.process_count) ≡ true))
      ⊎ ((0 < k.process_count)
          × (k.process_count ≤ max_proc)
          × ((k.process_count == 0 || ltb max_proc k.process_count) ≡ false))
  count_cases = ground arith

  blocked_cases :
      ((0 < k.soft_block_count) × (ltb 0 k.soft_block_count ≡ true))
      ⊎ ((k.soft_block_count ≡ 0) × (ltb 0 k.soft_block_count ≡ false))
  blocked_cases = ground arith

  idle_run : IsQueue k ready_queue [] → scheduler arch k ≡ idle arch k
  unfolding scheduler
  idle_run c = rw (head_proc_q-nil k ready_queue c)

  idle_wait :
      (k.process_count == 0 || ltb max_proc k.process_count) ≡ false
      → ltb 0 k.soft_block_count ≡ true
      → Stops (λ x k'. (x ≡ wait) × Waiting k k') (idle arch k)
  unfolding idle get_todlo on_handler_exit
  idle_wait t u =
      rw (idle, t, u)
        (
          refl,
          record {
            links = refl;
            blocks = refl;
            current = refl;
            processes = refl;
            semaphores = refl;
            clock = refl;
            tick = count_down_le _ _;
          },
        )

  idle_halt :
      (k.process_count == 0 || ltb max_proc k.process_count) ≡ true → idle arch k ≡ stop halt k
  unfolding idle
  idle_halt t = rw (idle, t)

  idle_panic :
      (k.process_count == 0 || ltb max_proc k.process_count) ≡ false
      → ltb 0 k.soft_block_count ≡ false
      → idle arch k ≡ stop panic k
  unfolding idle
  idle_panic t u = rw (idle, t, u)

  -- With a well-formed ready queue that is not empty, the scheduler loads the state of its first
  -- process, which is then the current one, out of the queue, with a whole time slice, the rest of
  -- its block as it was, its registers included, and the timer at no more than the slice; no other
  -- block, neither count and no link but those of the ready queue changes.
  pub scheduler-dispatch :
      (p : ℕ) (xs : List ℕ)
      → IsQueue k ready_queue (p ∷ xs)
      → Stops (λ x k'. (x ≡ load (pcb_state p)) × Dispatched k p xs k') (scheduler arch k)
  unfolding scheduler dispatch get_todlo on_handler_exit debug_bk_two
  scheduler-dispatch p xs c =
      let r = remove_proc_q-cons k ready_queue p xs c in
      rw (head_proc_q-cons k ready_queue p xs c, r.1)
        (
          refl,
          record {
            current = refl;
            ready = r.2.queue;
            slice = ground arith;
            block = ground arith;
            timer = ground arith;
            others = λ q n. ground arith;
            processes = refl;
            blocked = refl;
            semaphores = refl;
            cursem = ground arith;
            parent = ground arith;
            same = r.2.same;
          },
        )

  -- With the ready queue empty, the scheduler halts if there are no processes or more than
  -- MAXPROC; else it waits for an interrupt if a process is soft-blocked, and panics if none is.
  -- Waiting leaves links, blocks, semaphores, the count of processes and the current process as
  -- they were and at most 100 ms to the next tick; halting and panicking change nothing.
  pub scheduler-idle :
      IsQueue k ready_queue []
      → (((k.process_count ≡ 0) ⊎ (max_proc < k.process_count)) × (scheduler arch k ≡ stop halt k))
        ⊎ (((0 < k.process_count)
              × (k.process_count ≤ max_proc)
              × (0 < k.soft_block_count)
              × Stops (λ x k'. (x ≡ wait) × Waiting k k') (scheduler arch k))
            ⊎ ((0 < k.process_count)
                × (k.process_count ≤ max_proc)
                × (k.soft_block_count ≡ 0)
                × (scheduler arch k ≡ stop panic k)))
  scheduler-idle c = elim count_cases [
    | inl h ↦ inl (h.0, idle_run c ∙ idle_halt h.1)
    | inr (lo, hi, t) ↦ inr (elim blocked_cases [
      | inl (b, u) ↦ inl (lo, hi, b, rw (idle_run c) (idle_wait t u))
      | inr (b, u) ↦ inr (lo, hi, b, idle_run c ∙ idle_panic t u)
    ])
  ]
