-- ===== src/Nucleus/Interrupt.antt =====
-- InterruptExceptionHandler keeps the nucleus in order.
use jae_so.Common.{
  ℕ, ◌+◌, ◌≡◌, refl, ◌∙◌, inl, inr, none, some, Option, List, [], ◌∷◌, true, In, if◌then◌else◌,
}
use jae_so.Kernel.Arch.{Arch}
use jae_so.Kernel.Machine.{State, Kernel, int_old_area, sub32}
use jae_so.Kernel.Cmd.{Returns, Cmd, pure, exit, load, modify_pcb, and_then}
use jae_so.Kernel.Rules.{Stops-returned, Returns-if}
use jae_so.Accounting.{get_todlo, on_handler_enter, on_handler_exit, copy_state}
use jae_so.Interrupts.{dispatch_line, interrupt_handler, handle_devices, handle_timer}
use jae_so.Scheduler.{scheduler}
use jae_so.Nucleus.{IsOrdered, EndsOrdered, Settles}
use jae_so.Nucleus.Devices.{HasRequest, handle_devices-IsOrdered}
use jae_so.Nucleus.Frame.{
  Frame, Frame-of, Frame-trans, IsOrdered-Frame, SameDevices, set_pcb-Frame, on_handler_enter-Frame,
  on_handler_exit-Frame,
}
use jae_so.Nucleus.Schedule.{scheduler-IsOrdered}
use jae_so.Nucleus.Timer.{handle_timer-IsOrdered}

module _ (arch : Arch) where
  abbrev device_lines : List ℕ
  device_lines =
      arch.il_disk ∷ arch.il_tape ∷ arch.il_ethernet ∷ arch.il_printer ∷ arch.il_terminal ∷ []

  -- A process runs when the timer interrupts, and a line that interrupts has a device that did.
  pub record CanServe (k : Kernel) : Type 0 where
    pub timer :
        arch.cause_ip_get k.cause arch.il_timer ≡ true → (p : ℕ) × (k.current_process ≡ some p)
    pub device :
        (line : ℕ)
        → In line device_lines
        → arch.cause_ip_get k.cause line ≡ true
        → HasRequest arch line k

  -- The same of a kernel with the same devices.
  CanServe-agree :
      (k k' : Kernel)
      → SameDevices k k'
      → k'.current_process ≡ k.current_process
      → CanServe k
      → CanServe k'
  CanServe-agree k k' (d, b, c) e s = record {
    timer = λ t. let r = s.timer (rw c at t) in (r.0, e ∙ r.1);
    device = λ line i t.
        let r = s.device line i (rw c at t) in
        record {
          dev = r.dev;
          result = r.result;
          pending = rw b r.pending;
          known = rw d r.known;
          inside = rw d r.inside;
        };
  }

  -- The choice goes on with `rest` unless the line has interrupted.
  served :
      (k : Kernel) (o : IsOrdered k) (s : CanServe k) (l : ℕ) (i : In l device_lines)
      (rest : Cmd (Unit {0}))
      → Returns (λ _ k'. IsOrdered k') (rest k)
      → Returns
          (λ _ k'. IsOrdered k')
          ((if arch.cause_ip_get k.cause l then handle_devices arch l else rest) k)
  served k o s l i rest h =
      Returns-if (λ _ k'. IsOrdered k') (arch.cause_ip_get k.cause l) (handle_devices arch l) rest k
        (λ e. handle_devices-IsOrdered arch l k o (s.device l i e)) (λ e. h)

  dispatch_line-IsOrdered :
      (k : Kernel)
      → IsOrdered k
      → CanServe k
      → Returns (λ _ k'. IsOrdered k') (dispatch_line arch k.cause k)
  unfolding dispatch_line
  dispatch_line-IsOrdered k o s =
      Returns-if (λ _ k'. IsOrdered k') (arch.cause_ip_get k.cause arch.il_ipi) (pure tt) _ k
        (λ e. o)
        λ _.
          Returns-if (λ _ k'. IsOrdered k') (arch.cause_ip_get k.cause arch.il_cputimer) (pure tt) _
            k (λ e. o)
            λ _.
              Returns-if (λ _ k'. IsOrdered k') (arch.cause_ip_get k.cause arch.il_timer)
                (handle_timer arch) _ k
                (λ e. let r = s.timer e in handle_timer-IsOrdered arch k r.0 o r.1)
                λ _. served k o s arch.il_disk (inl refl) _ (
                  served k o s arch.il_tape (inr (inl refl)) _ (
                    served k o s arch.il_ethernet (inr (inr (inl refl))) _ (
                      served k o s arch.il_printer (inr (inr (inr (inl refl)))) _
                        (served k o s arch.il_terminal (inr (inr (inr (inr (inl refl))))) _ o))))

  -- The registers of the process that was interrupted are saved.
  pub saved :
      (k : Kernel) (old : State) (c : Option ℕ)
      → Returns
          (λ _ k'. Frame k k' × SameDevices k k')
          ((elim c as (λ _. Cmd (Unit {0})) [
            | none ↦ pure tt
            | some p ↦ modify_pcb p (λ b. record b { p_s = copy_state old })
          ])
            k)
  saved k old none = (Frame-of k k refl refl refl refl refl refl, (refl, refl, refl))
  saved k old (some p) = (set_pcb-Frame k p _ refl refl, (refl, refl, refl))

  Ordered_exit :
      (k : Kernel)
      → IsOrdered k
      → (c : Option ℕ) → k.current_process ≡ c
      → EndsOrdered (
          (elim c as (λ _. Cmd (Unit {0})) [
            | some _ ↦ exit (load int_old_area)
            | none ↦ scheduler arch
          ])
            k)
  Ordered_exit k o (some p) e = (o, (p, e))
  Ordered_exit k o none e = scheduler-IsOrdered arch k o

  -- The end of the handler.
  leaving :
      (k : Kernel)
      → IsOrdered k
      → EndsOrdered (
          and_then
            (on_handler_exit
              (k.clock k.clock_reads)
              0
              (record k { clock_reads = k.clock_reads + 1 }))
            λ _ k'.
              (elim k'.current_process as (λ _. Cmd (Unit {0})) [
                | some _ ↦ exit (load int_old_area)
                | none ↦ scheduler arch
              ])
                k')
  leaving k o =
      let k1 : Kernel = record k { clock_reads = k.clock_reads + 1 } in
      Stops-returned (λ _ k2. Frame k1 k2) Settles (on_handler_exit (k.clock k.clock_reads) 0 k1) _
        (on_handler_exit-Frame (k.clock k.clock_reads) k1 0)
        λ _ k2 f.
          Ordered_exit k2
            (IsOrdered-Frame k k2
              (Frame-trans k k1 k2 (Frame-of k k1 refl refl refl refl refl refl) f) o)
            k2.current_process refl

  pub interrupt_handler-IsOrdered :
      (k : Kernel) → IsOrdered k → CanServe k → EndsOrdered (interrupt_handler arch k)
  unfolding interrupt_handler get_todlo
  interrupt_handler-IsOrdered k o s =
      let k1 : Kernel = record k {
        int_old = record k.int_old { pc = sub32 k.int_old.pc 4 };
        clock_reads = k.clock_reads + 1;
      } in
      let f1 : Frame k k1 = Frame-of k k1 refl refl refl refl refl refl in
      Stops-returned (λ _ k2. Frame k1 k2 × SameDevices k1 k2) Settles
        (on_handler_enter (k.clock k.clock_reads) k1) _
        (on_handler_enter-Frame (k.clock k.clock_reads) k1)
        λ _ k2 (f2, d2).
          Stops-returned (λ _ k3. Frame k2 k3 × SameDevices k2 k3) Settles
            ((elim k2.current_process as (λ _. Cmd (Unit {0})) [
              | none ↦ pure tt
              | some p ↦ modify_pcb p (λ b. record b { p_s = copy_state k2.int_old })
            ])
              k2)
            _ (saved k2 k2.int_old k2.current_process)
            λ _ k3 (f3, d3).
              let f : Frame k k3 = Frame-trans k k1 k3 f1 (Frame-trans k1 k2 k3 f2 f3) in
              let d : SameDevices k k3 = (d3.0 ∙ d2.0, d3.1 ∙ d2.1, d3.2 ∙ d2.2) in
              Stops-returned (λ _ k'. IsOrdered k') Settles (dispatch_line arch k3.cause k3) _
                (dispatch_line-IsOrdered k3 (IsOrdered-Frame k k3 f o)
                  (CanServe-agree k k3 d f.current s))
                λ _ k4 o4. leaving k4 o4
