-- ===== src/Accounting/Time.antt =====
-- What onHandlerEnter and onHandlerExit do to the times and to the timer.
use jae_so.Common.{ℕ, ◌+◌, ◌-◌, ◌%◌, ◌^◌, ◌≤◌, ◌<◌, ◌≡◌, ◌≢◌, some, arith}
use jae_so.Kernel.Machine.{Kernel, pseudo_clock, sub32, add32}
use jae_so.Accounting.{count_down}

-- What is left to the tick is never more than a whole period, also when the count has wrapped.
pub count_down_le : (left elapsed : ℕ) → count_down left elapsed ≤ pseudo_clock
unfolding count_down
count_down_le left elapsed = ground arith

-- Before the tick is due, exactly the elapsed time is taken off.
pub count_down_lem :
    (left elapsed : ℕ)
    → left ≤ pseudo_clock
    → elapsed < 2 ^ 31
    → count_down left elapsed ≡ left - elapsed
unfolding count_down
count_down_lem left elapsed h e = ground arith

-- What is left of `left` after `elapsed`, as an `unsigned int`; 0 where more than a whole period is left.
abbrev pub Counted : ℕ → ℕ → ℕ → Type 0
Counted left elapsed rest =
    ((left + 2 ^ 32 - elapsed) % 2 ^ 32 ≤ pseudo_clock → rest ≡ (left + 2 ^ 32 - elapsed) % 2 ^ 32)
    × (pseudo_clock < (left + 2 ^ 32 - elapsed) % 2 ^ 32 → rest ≡ 0)

-- The timer is set to what comes first: the tick, or the end of the slice of the running process.
pub record TimerSet (k : Kernel) : Type 0 where
  pub tick : k.timer ≤ k.left_to_100
  pub slice : (p : ℕ) → k.current_process ≡ some p → k.timer ≤ (k.pcb p).p_time_slice
  pub first :
      (p : ℕ)
      → k.current_process ≡ some p
      → k.timer ≢ k.left_to_100
      → k.timer ≡ (k.pcb p).p_time_slice

-- The state after onHandlerEnter at the time `now`.
pub record Entered (now : ℕ) (k k' : Kernel) : Type 0 where
  pub updated : k'.last_update ≡ now
  pub bounded : k'.left_to_100 ≤ pseudo_clock
  pub counted : Counted k.left_to_100 (sub32 now k.last_update) k'.left_to_100
  pub timer : TimerSet k'
  pub same : k'.current_process ≡ k.current_process
  pub charged :
      (p : ℕ)
      → k.current_process ≡ some p
      → k'.pcb p ≡ record (k.pcb p) {
        p_global_time = add32 (k.pcb p).p_global_time (sub32 now k.last_update);
        p_user_time = add32 (k.pcb p).p_user_time (sub32 now k.last_update);
        p_time_slice = sub32 (k.pcb p).p_time_slice (sub32 now k.last_update);
      }
  pub others : (p : ℕ) → k.current_process ≢ some p → k'.pcb p ≡ k.pcb p

-- The state after onHandlerExit with the flag `flag`.
pub record Exited (now flag : ℕ) (k k' : Kernel) : Type 0 where
  pub updated : k'.last_update ≡ now
  pub bounded : k'.left_to_100 ≤ pseudo_clock
  pub counted : Counted k.left_to_100 (sub32 now k.last_update) k'.left_to_100
  pub timer : TimerSet k'
  pub same : k'.current_process ≡ k.current_process
  pub kept : (p : ℕ) → flag ≢ 1 → k'.pcb p ≡ k.pcb p
  pub others : (p : ℕ) → k.current_process ≢ some p → k'.pcb p ≡ k.pcb p
  pub charged :
      (p : ℕ)
      → k.current_process ≡ some p
      → flag ≡ 1
      → k'.pcb p ≡ record (k.pcb p) {
        p_global_time = add32 (k.pcb p).p_global_time (sub32 now k.last_update);
      }
