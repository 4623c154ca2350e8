-- ===== src/Nucleus/PassUp.antt =====
-- Exceptions that are passed up to the process keep the nucleus in order.
use jae_so.Common.{
  ℕ, ◌+◌, ◌≡◌, refl, sym, ap, ◌∙◌, none, some, inl, inr, Option, ◌==◌, if◌then◌else◌, arith,
}
use jae_so.Kernel.Arch.{Arch}
use jae_so.Kernel.Machine.{State, StateRef, Kernel, Area, set_pcb, pgm_new, tlb_new}
use jae_so.Kernel.Cmd.{Returns, Ends, need, and_then}
use jae_so.Kernel.Rules.{
  Stops-and_then, Stops-returned, Ends-if, Ends-and_then, Ends-returned, Ends-of_Returns, Ends-done,
  Returns-both, Returns-weaken, Returns-if, need-some,
}
use jae_so.Accounting.{get_todlo, on_handler_enter, on_handler_exit, copy_state}
use jae_so.Syscalls.Areas.{Handler, sbk_hdl, tlb_hdl, pgm_hdl, area}
use jae_so.Syscalls.Process.{terminate_process}
use jae_so.Handlers.{
  leave, enter_sub, pass_up, common_sub_handler, pgm_trap_handler, tlb_handler, sys_above_bp,
  trap_user, breakpoint,
}
use jae_so.Nucleus.{IsOrdered, EndsOrdered, Settles}
use jae_so.Nucleus.Calls.{set_area-Frame, ended_now}
use jae_so.Nucleus.Frame.{
  Frame, Frame-of, Frame-trans, IsOrdered-Frame, SameDevices, set_pcb-Frame, on_handler_enter-Frame,
  on_handler_exit-Frame,
}
use jae_so.Nucleus.End.{HandlesOrEnds, HandlesOrEnds-Frame, MayEnd-Frame}
use jae_so.Nucleus.Schedule.{scheduler-IsOrdered}
use jae_so.Nucleus.Service.{
  SameCall, on_handler_enter-SameCall, on_handler_exit-SameCall, same_area,
}

module _ (arch : Arch) where
  pub leave-IsOrdered : (k : Kernel) → IsOrdered k → EndsOrdered (leave arch k)
  unfolding leave
  leave-IsOrdered k o = go k.current_process refl
    where
      go : (c : Option ℕ) → k.current_process ≡ c → EndsOrdered (leave arch k)
      go none e = rw e (
          scheduler-IsOrdered arch (record k { current_process = none })
            (IsOrdered-Frame k _ (Frame-of k _ refl refl refl (sym e) refl refl) o))
      go (some p) e = simp e (o, (p, refl))

  -- The time is read, and charged at the end of a handler.
  pub Ends-time :
      (flag : ℕ) (k : Kernel)
      → IsOrdered k
      → Ends IsOrdered Settles (
          on_handler_exit
            (k.clock k.clock_reads)
            flag
            (record k { clock_reads = k.clock_reads + 1 }))
  Ends-time flag k o =
      let k1 : Kernel = record k { clock_reads = k.clock_reads + 1 } in
      Ends-of_Returns (λ _ k2. Frame k1 k2) IsOrdered Settles
        (on_handler_exit (k.clock k.clock_reads) flag k1)
        (on_handler_exit-Frame (k.clock k.clock_reads) k1 flag)
        λ _ k2 g.
          IsOrdered-Frame k k2 (Frame-trans k k1 k2 (Frame-of k k1 refl refl refl refl refl refl) g)
            o

  -- sysAboveBP of a process that handles the exception itself, or may be ended.
  pub sys_above_bp-IsOrdered :
      (k : Kernel) (p : ℕ)
      → IsOrdered k
      → k.current_process ≡ some p
      → HandlesOrEnds k p (k.pcb p).sysbp.new_area.pc
      → Ends IsOrdered Settles (sys_above_bp arch k)
  unfolding sys_above_bp
  sys_above_bp-IsOrdered k p o c n =
      Ends-done IsOrdered Settles (need k.current_process k) _ p k
        (need-some k.current_process p k c)
        (Ends-if IsOrdered Settles ((k.pcb p).sysbp.new_area.pc == 0) _ _ k
          (λ t. elim n [ inl q ↦ absurd (q (ground arith)) | inr m ↦ ended_now arch k p o c m ])
          (λ t.
            IsOrdered-Frame (set_pcb p (record (k.pcb p) { sysbp = _ }) k) _
              (Frame-of _ _ refl refl refl refl refl refl)
              (IsOrdered-Frame k _ (set_pcb-Frame k p _ refl refl) o)))

  -- commonSubHandler, after the time is charged, of a process that handles the exception itself.
  pass_up-IsOrdered :
      (h : Handler) (ref : ℕ → StateRef) (rom : State) (k : Kernel) (p : ℕ)
      → IsOrdered k
      → Returns (λ _ k'. IsOrdered k') (pass_up arch h ref rom p k)
  unfolding pass_up
  pass_up-IsOrdered h ref rom k p o =
      IsOrdered-Frame (set_pcb p _ k) _ (Frame-of _ _ refl refl refl refl refl refl)
        (IsOrdered-Frame k _ (set_area-Frame k p h _) o)

  -- What the first part of a handler leaves.
  abbrev pub Begun : Kernel → Kernel → Type 0
  Begun k k' = Frame k k' × ((h : Handler) (x : ℕ) → area h (k'.pcb x) ≡ area h (k.pcb x))

  pub entered :
      (k : Kernel)
      → Returns
          (λ _ k'. Begun k k' × (k'.sysbp_old ≡ k.sysbp_old))
          (on_handler_enter (k.clock k.clock_reads) (record k { clock_reads = k.clock_reads + 1 }))
  entered k =
      let k1 : Kernel = record k { clock_reads = k.clock_reads + 1 } in
      Returns-weaken (λ _ k'. (Frame k1 k' × SameDevices k1 k') × SameCall k1 k')
        (λ _ k'. Begun k k' × (k'.sysbp_old ≡ k.sysbp_old))
        (on_handler_enter (k.clock k.clock_reads) k1)
        (Returns-both (λ _ k'. Frame k1 k' × SameDevices k1 k') (λ _ k'. SameCall k1 k')
          (on_handler_enter (k.clock k.clock_reads) k1)
          (on_handler_enter-Frame (k.clock k.clock_reads) k1)
          (on_handler_enter-SameCall (k.clock k.clock_reads) k1))
        λ _ k' ((f, d), c).
          ((Frame-trans k k1 k' (Frame-of k k1 refl refl refl refl refl refl) f, c.areas), c.rom)

  enter_sub-Begun : (k : Kernel) → Returns (λ _ k'. Begun k k') (enter_sub arch k)
  unfolding enter_sub get_todlo
  enter_sub-Begun k =
      Returns-if (λ _ k'. Begun k k') (k.by_sys_hdl == 0) _ _ k
        (λ e.
          Returns-weaken (λ _ k'. Begun k k' × (k'.sysbp_old ≡ k.sysbp_old)) (λ _ k'. Begun k k')
            (on_handler_enter (k.clock k.clock_reads)
              (record k { clock_reads = k.clock_reads + 1 }))
            (entered k) (λ _ k' b. b.0))
        (λ e. (Frame-of k _ refl refl refl refl refl refl, λ h x. refl))

  -- commonSubHandler of a process that handles the exception itself or may be ended, and what comes after.
  common_sub-IsOrdered :
      (h : Handler) (rom : Kernel → State) (ref : ℕ → StateRef) (k : Kernel) (p : ℕ)
      → IsOrdered k
      → k.current_process ≡ some p
      → HandlesOrEnds k p (area h (k.pcb p)).new_area.pc
      → EndsOrdered (and_then (common_sub_handler arch h rom ref k) λ _. leave arch)
  unfolding common_sub_handler get_todlo
  common_sub-IsOrdered h rom ref k p o c n =
      Stops-and_then IsOrdered Settles (common_sub_handler arch h rom ref k) (λ _. leave arch)
        (Ends-returned (λ _ k1. Begun k k1) IsOrdered Settles (enter_sub arch k) _
          (enter_sub-Begun k)
          λ _ k1 (f, a).
            let c1 : k1.current_process ≡ some p = f.current ∙ c in
            let k2 : Kernel = set_pcb p (record (k1.pcb p) { p_s = copy_state (rom k1) }) k1 in
            let f2 : Frame k k2 = Frame-trans k k1 k2 f (set_pcb-Frame k1 p _ refl refl) in
            let o2 : IsOrdered k2 = IsOrdered-Frame k k2 f2 o in
            Ends-done IsOrdered Settles (need k1.current_process k1) _ p k1
              (need-some k1.current_process p k1 c1)
              (Ends-and_then IsOrdered IsOrdered Settles
                ((if (area h (k2.pcb p)).new_area.pc == 0
                    then terminate_process arch 0
                    else pass_up arch h ref (rom k1) p)
                  k2)
                _
                (Ends-if IsOrdered Settles ((area h (k2.pcb p)).new_area.pc == 0) _ _ k2
                  (λ t.
                    let e : area h (k2.pcb p) ≡ area h (k.pcb p) =
                      same_area 0 k1 h p p (record (k1.pcb p) { p_s = copy_state (rom k1) }) refl
                        refl refl
                      ∙ a h p in
                    elim n [
                      | inl q ↦ absurd (q (ap (λ (x : Area). x.new_area.pc) (sym e) ∙ ground arith))
                      | inr m ↦ ended_now arch k2 p o2 c1 (MayEnd-Frame k k2 p f2 m)
                    ])
                  (λ t.
                    Ends-of_Returns (λ _ k'. IsOrdered k') IsOrdered Settles
                      (pass_up arch h ref (rom k1) p k2) (pass_up-IsOrdered h ref (rom k1) k2 p o2)
                      (λ _ k' i. i)))
                (λ _ k' i. Ends-time 0 k' i)))
        (λ _ k' i. leave-IsOrdered k' i)

  pub pgm_trap_handler-IsOrdered :
      (k : Kernel) (p : ℕ)
      → IsOrdered k
      → k.current_process ≡ some p
      → HandlesOrEnds k p (k.pcb p).pgmtr.new_area.pc
      → EndsOrdered (pgm_trap_handler arch k)
  unfolding pgm_trap_handler
  pgm_trap_handler-IsOrdered = common_sub-IsOrdered pgm_hdl (λ k. k.pgm_old) pgm_new

  pub tlb_handler-IsOrdered :
      (k : Kernel) (p : ℕ)
      → IsOrdered k
      → k.current_process ≡ some p
      → HandlesOrEnds k p (k.pcb p).tlb.new_area.pc
      → EndsOrdered (tlb_handler arch k)
  unfolding tlb_handler
  tlb_handler-IsOrdered = common_sub-IsOrdered tlb_hdl (λ k. k.tlb_old) tlb_new

  -- trap_user, of a process that handles program traps or may be ended.
  pub trap_user-IsOrdered :
      (k : Kernel) (p : ℕ)
      → IsOrdered k
      → k.current_process ≡ some p
      → HandlesOrEnds k p (k.pcb p).pgmtr.new_area.pc
      → EndsOrdered (trap_user arch k)
  unfolding trap_user get_todlo
  trap_user-IsOrdered k p o c n =
      let s : State = copy_state k.sysbp_old in
      let k1 : Kernel = record k {
        pgm_old = record s { cp15_cause = arch.exccode_set s.cp15_cause arch.exc_reservedinstr };
        by_sys_hdl = 1;
        clock_reads = k.clock_reads + 1;
      } in
      Stops-returned (λ _ k2. Frame k1 k2 × SameCall k1 k2) Settles
        (on_handler_exit (k.clock k.clock_reads) 1 k1) _
        (Returns-both (λ _ k2. Frame k1 k2) (λ _ k2. SameCall k1 k2)
          (on_handler_exit (k.clock k.clock_reads) 1 k1)
          (on_handler_exit-Frame (k.clock k.clock_reads) k1 1)
          (on_handler_exit-SameCall (k.clock k.clock_reads) k1 1))
        λ _ k2 (f, a).
          let f3 : Frame k k2 =
            Frame-trans k k1 k2 (Frame-of k k1 refl refl refl refl refl refl) f in
          pgm_trap_handler-IsOrdered k2 p (IsOrdered-Frame k k2 f3 o) (f.current ∙ c) (
            HandlesOrEnds-Frame k k2 p _ _ f3 (ap (λ (x : Area). x.new_area.pc) (a.areas pgm_hdl p))
              n)

  -- A breakpoint, or a call above the services of the nucleus.
  pub breakpoint-IsOrdered :
      (k : Kernel) (p : ℕ)
      → IsOrdered k
      → k.current_process ≡ some p
      → HandlesOrEnds k p (k.pcb p).sysbp.new_area.pc
      → Ends IsOrdered Settles (breakpoint arch k)
  unfolding breakpoint get_todlo
  breakpoint-IsOrdered k p o c n =
      Ends-returned (λ _ k1. Begun k k1 × (k1.sysbp_old ≡ k.sysbp_old)) IsOrdered Settles
        (on_handler_enter (k.clock k.clock_reads) (record k { clock_reads = k.clock_reads + 1 })) _
        (entered k)
        λ _ k1 ((f, a), r).
          Ends-and_then IsOrdered IsOrdered Settles (sys_above_bp arch k1) _
            (sys_above_bp-IsOrdered k1 p (IsOrdered-Frame k k1 f o) (f.current ∙ c)
              (HandlesOrEnds-Frame k k1 p _ _ f (ap (λ (x : Area). x.new_area.pc) (a sbk_hdl p)) n))
            (λ _ k' i. Ends-time 0 k' i)
