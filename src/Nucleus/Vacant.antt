-- ===== src/Nucleus/Vacant.antt =====
-- The timer interrupts while no process runs: handleTimer reads the time slice of the current process.
use jae_so.Common.{◌+◌, ◌≡◌, refl, ◌∙◌, none, some, true, false}
use jae_so.Kernel.Arch.{Arch}
use jae_so.Kernel.Machine.{Kernel, sub32}
use jae_so.Kernel.Cmd.{crash, Cmd, pure, modify_pcb}
use jae_so.Kernel.Rules.{and_then-crash}
use jae_so.Accounting.{get_todlo, on_handler_enter, copy_state}
use jae_so.Interrupts.{pseudo_tick, end_slice, handle_timer, dispatch_line, interrupt_handler}
use jae_so.Nucleus.{IsOrdered}
use jae_so.Nucleus.Frame.{
  Frame, Frame-of, Frame-trans, IsOrdered-Frame, SameDevices, on_handler_enter-Frame,
}
use jae_so.Nucleus.Timer.{Ticked, tick_cases}
use jae_so.Nucleus.Interrupt.{saved}

module _ (arch : Arch) where
  end_slice-crash : (k : Kernel) → k.current_process ≡ none → end_slice arch k ≡ crash
  unfolding end_slice
  end_slice-crash k c = rw c refl

  handle_timer-crash :
      (k : Kernel) → IsOrdered k → k.current_process ≡ none → handle_timer arch k ≡ crash
  unfolding handle_timer
  handle_timer-crash k o c =
      and_then-crash (λ _ k'. Ticked arch k k') (pseudo_tick arch k) _ (tick_cases arch k o)
        λ _ k' (o', e). end_slice-crash k' (e ∙ c)

  -- The line of the timer is the first of those that have interrupted.
  pub record HasTicked (k : Kernel) : Type 0 where
    pub no_ipi : arch.cause_ip_get k.cause arch.il_ipi ≡ false
    pub no_cputimer : arch.cause_ip_get k.cause arch.il_cputimer ≡ false
    pub timer : arch.cause_ip_get k.cause arch.il_timer ≡ true

  dispatch_line-crash :
      (k : Kernel)
      → IsOrdered k
      → k.current_process ≡ none
      → HasTicked k
      → dispatch_line arch k.cause k ≡ crash
  unfolding dispatch_line
  dispatch_line-crash k o c t = rw (t.no_ipi, t.no_cputimer, t.timer) (handle_timer-crash k o c)

  -- On a nucleus in order with no process running, when the timer has interrupted and neither an
  -- IPI nor the CPU timer has, InterruptExceptionHandler reads through NULL.
  pub interrupt_handler-crash :
      (k : Kernel)
      → IsOrdered k
      → k.current_process ≡ none
      → HasTicked k
      → interrupt_handler arch k ≡ crash
  unfolding interrupt_handler get_todlo
  interrupt_handler-crash k o c t =
      let k1 : Kernel = record k {
        int_old = record k.int_old { pc = sub32 k.int_old.pc 4 };
        clock_reads = k.clock_reads + 1;
      } in
      let f1 : Frame k k1 = Frame-of k k1 refl refl refl refl refl refl in
      and_then-crash (λ _ k2. Frame k1 k2 × SameDevices k1 k2)
        (on_handler_enter (k.clock k.clock_reads) k1) _
        (on_handler_enter-Frame (k.clock k.clock_reads) k1)
        λ _ k2 (f2, d2).
          and_then-crash (λ _ k3. Frame k2 k3 × SameDevices k2 k3)
            ((elim k2.current_process as (λ _. Cmd (Unit {0})) [
              | none ↦ pure tt
              | some p ↦ modify_pcb p (λ b. record b { p_s = copy_state k2.int_old })
            ])
              k2)
            _ (saved arch k2 k2.int_old k2.current_process)
            λ _ k3 (f3, d3).
              let f : Frame k k3 = Frame-trans k k1 k3 f1 (Frame-trans k1 k2 k3 f2 f3) in
              let e : k3.cause ≡ k.cause = d3.2 ∙ d2.2 in
              rw
                (dispatch_line-crash k3 (IsOrdered-Frame k k3 f o) (f.current ∙ c) (record {
                  no_ipi = rw e t.no_ipi;
                  no_cputimer = rw e t.no_cputimer;
                  timer = rw e t.timer;
                }))
                refl
