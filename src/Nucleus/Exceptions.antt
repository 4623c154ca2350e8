-- ===== src/Nucleus/Exceptions.antt =====
-- sysBP_Handler keeps the nucleus in order.
use jae_so.Common.{
  ℕ, ◌+◌, ◌≡◌, refl, sym, ap, ◌∙◌, subst, inl, inr, ◌⊎◌, some, true, false, Bool, ◌==◌, ◌&&◌,
  if◌then◌else◌, arith, leb,
}
use jae_so.Kernel.Arch.{Arch}
use jae_so.Kernel.Machine.{State, Kernel, Area, set_pcb, sysbp_old_area}
use jae_so.Kernel.Cmd.{Ends, need, exit, panic}
use jae_so.Kernel.Rules.{
  Stops-and_then, Stops-done, Ends-of_Stops, Ends-if, Ends-and_then, Ends-returned, need-some,
}
use jae_so.Accounting.{get_todlo, on_handler_enter, copy_state}
use jae_so.Syscalls.Areas.{Handler, sbk_hdl, tlb_hdl, pgm_hdl, area}
use jae_so.Handlers.{
  kernel_mode, def_sys, sys_above_bp, trap_user, syscall, breakpoint, sys_bp_handler,
}
use jae_so.Nucleus.{IsOrdered, EndsOrdered, Settles}
use jae_so.Nucleus.Frame.{Frame, Frame-of, Frame-trans, IsOrdered-Frame, set_pcb-Frame}
use jae_so.Nucleus.End.{MayEnd, MayEnd-Frame, HandlesOrEnds, HandlesOrEnds-Frame}
use jae_so.Nucleus.Service.{MayCall, dispatch_sys-IsOrdered, same_area}
use jae_so.Nucleus.PassUp.{
  leave-IsOrdered, Ends-time, sys_above_bp-IsOrdered, entered, trap_user-IsOrdered,
  breakpoint-IsOrdered, Begun,
}

-- Whether a1 names a service of the nucleus.
abbrev is_service : State → Bool
is_service s = leb 1 s.a1 && leb s.a1 11

-- The process `p` runs and has raised a breakpoint or made a system call, and it may be ended with its descendants if it
-- comes to that: by a call of terminateProcess or the second registration of an area, or since it
-- has no handler for a program trap, for a call above the services of the nucleus, or for a
-- breakpoint.
pub record MayRaise (arch : Arch) (k : Kernel) (p : ℕ) : Type 0 where
  pub current : k.current_process ≡ some p
  pub cause :
      (arch.exccode_get k.sysbp_old.cp15_cause ≡ arch.exc_syscall)
      ⊎ (arch.exccode_get k.sysbp_old.cp15_cause ≡ arch.exc_breakpoint)
  pub served :
      is_service k.sysbp_old ≡ true
      → kernel_mode arch k.sysbp_old.cpsr ≡ true
      → MayCall k.sysbp_old p k
  pub trapped :
      is_service k.sysbp_old ≡ true
      → kernel_mode arch k.sysbp_old.cpsr ≡ false
      → HandlesOrEnds k p (k.pcb p).pgmtr.new_area.pc
  pub above : is_service k.sysbp_old ≡ false → HandlesOrEnds k p (k.pcb p).sysbp.new_area.pc
  pub breaks :
      arch.exccode_get k.sysbp_old.cp15_cause ≡ arch.exc_breakpoint
      → HandlesOrEnds k p (k.pcb p).sysbp.new_area.pc

-- An area that is not registered, or a process that may be ended.
fresh-agree :
    (k k' : Kernel) (p pc pc' : ℕ)
    → Frame k k'
    → pc' ≡ pc
    → (pc ≡ 0) ⊎ MayEnd k p
    → (pc' ≡ 0) ⊎ MayEnd k' p
fresh-agree k k' p pc pc' f e (inl z) = inl (e ∙ z)
fresh-agree k k' p pc pc' f e (inr m) = inr (MayEnd-Frame k k' p f m)

MayRaise-agree :
    (arch : Arch) (k k' : Kernel) (p : ℕ)
    → Frame k k'
    → k'.sysbp_old ≡ k.sysbp_old
    → ((h : Handler) (x : ℕ) → area h (k'.pcb x) ≡ area h (k.pcb x))
    → MayRaise arch k p
    → MayRaise arch k' p
MayRaise-agree arch k k' p f r a s =
    let entry : (h : Handler) → (area h (k'.pcb p)).new_area.pc ≡ (area h (k.pcb p)).new_area.pc =
      λ h. ap (λ (x : Area). x.new_area.pc) (a h p) in
    record {
      current = f.current ∙ s.current;
      cause = rw r s.cause;
      served = λ i m.
          let q = s.served (rw r at i) (rw r at m) in
          subst (λ w. MayCall w p k') (sym r)
            (record {
              ends = λ w. MayEnd-Frame k k' p f (q.ends w);
              weight = q.weight;
              trap = q.trap;
              sysbp = λ w. fresh-agree k k' p _ _ f (entry sbk_hdl) (q.sysbp w);
              tlb = λ w. fresh-agree k k' p _ _ f (entry tlb_hdl) (q.tlb w);
              pgm = λ w. fresh-agree k k' p _ _ f (entry pgm_hdl) (q.pgm w);
            });
      trapped = λ i m.
          HandlesOrEnds-Frame k k' p _ _ f (entry pgm_hdl) (s.trapped (rw r at i) (rw r at m));
      above = λ i. HandlesOrEnds-Frame k k' p _ _ f (entry sbk_hdl) (s.above (rw r at i));
      breaks = λ i. HandlesOrEnds-Frame k k' p _ _ f (entry sbk_hdl) (s.breaks (rw r at i));
    }

module _ (arch : Arch) where
  syscall-IsOrdered :
      (k : Kernel) (p : ℕ)
      → IsOrdered k
      → MayRaise arch k p
      → Ends IsOrdered Settles (syscall arch k)
  unfolding syscall get_todlo def_sys
  syscall-IsOrdered k p o s =
      Ends-returned (λ _ k1. Begun arch k k1 × (k1.sysbp_old ≡ k.sysbp_old)) IsOrdered Settles
        (on_handler_enter (k.clock k.clock_reads) (record k { clock_reads = k.clock_reads + 1 })) _
        (entered arch k)
        λ _ k1 ((f, a), r).
          let s1 = MayRaise-agree arch k k1 p f r a s in
          let o1 : IsOrdered k1 = IsOrdered-Frame k k1 f o in
          Ends-and_then IsOrdered IsOrdered Settles
            ((if is_service k1.sysbp_old
                then if kernel_mode arch k1.sysbp_old.cpsr then def_sys arch else trap_user arch
                else sys_above_bp arch)
              k1)
            _
            (Ends-if IsOrdered Settles (is_service k1.sysbp_old) _ _ k1
              (λ i.
                Ends-if IsOrdered Settles (kernel_mode arch k1.sysbp_old.cpsr) _ _ k1
                  (λ m. dispatch_sys-IsOrdered arch k1 p o1 s1.current k1.sysbp_old (s1.served i m))
                  (λ m.
                    Ends-of_Stops Settles IsOrdered (trap_user arch k1)
                      (trap_user-IsOrdered arch k1 p o1 s1.current (s1.trapped i m))))
              (λ i. sys_above_bp-IsOrdered arch k1 p o1 s1.current (s1.above i)))
            (λ _ k' i. Ends-time arch 1 k' i)

  pub sys_bp_handler-IsOrdered :
      (k : Kernel) (p : ℕ) → IsOrdered k → MayRaise arch k p → EndsOrdered (sys_bp_handler arch k)
  unfolding sys_bp_handler
  sys_bp_handler-IsOrdered k p o s =
      let k1 : Kernel = record k { state_loaded = sysbp_old_area } in
      let k2 : Kernel = set_pcb p (record (k.pcb p) { p_s = copy_state k.sysbp_old }) k1 in
      let f : Frame k k2 =
        Frame-trans k k1 k2 (Frame-of k k1 refl refl refl refl refl refl)
          (set_pcb-Frame k1 p _ refl refl) in
      let o2 : IsOrdered k2 = IsOrdered-Frame k k2 f o in
      let s2 : MayRaise arch k2 p =
        MayRaise-agree arch k k2 p f refl (λ h x. same_area 0 k h p x _ refl refl refl) s in
      Stops-done Settles (need k1.current_process k1) _ p k1
        (need-some k1.current_process p k1 s.current)
        (Stops-and_then IsOrdered Settles
          ((if arch.exccode_get k.sysbp_old.cp15_cause == arch.exc_syscall
              then syscall arch
              else if arch.exccode_get k.sysbp_old.cp15_cause == arch.exc_breakpoint
              then breakpoint arch
              else exit panic)
            k2)
          _
          (Ends-if IsOrdered Settles (arch.exccode_get k.sysbp_old.cp15_cause == arch.exc_syscall) _
            _ k2 (λ e. syscall-IsOrdered k2 p o2 s2)
            (λ e.
              Ends-if IsOrdered Settles
                (arch.exccode_get k.sysbp_old.cp15_cause == arch.exc_breakpoint) _ _ k2
                (λ b. breakpoint-IsOrdered arch k2 p o2 s2.current (s2.breaks (ground arith)))
                (λ b. elim s.cause [
                  | inl w ↦ absurd (ground arith)
                  | inr w ↦ absurd (ground arith)
                ])))
          (λ _ k' i. leave-IsOrdered arch k' i))
