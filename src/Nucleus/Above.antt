-- ===== src/Nucleus/Above.antt =====
-- A process that has set a handler for breakpoints and for calls above those of the nucleus:
-- sysBP_Handler with sysAboveBP.
use jae_so.Common.{
  ℕ, ◌+◌, ◌≡◌, ◌≢◌, ◌⊎◌, inl, inr, refl, sym, ap, ◌∙◌, false, ◌==◌, ==_refl, ne→==, leb, ◌&&◌,
  arith, some, subst, bit_or, bit_and, ◌*◌, ◌%◌, ◌^◌, ◌-◌,
}
use jae_so.Accounting.{get_todlo, on_handler_enter, on_handler_exit, copy_state}
use jae_so.Handlers.{above_state, leave, sys_above_bp, syscall, breakpoint, sys_bp_handler}
use jae_so.Kernel.Arch.{Arch}
use jae_so.Kernel.Cmd.{Cmd, Exit, Returns, Stops, load, need, and_then}
use jae_so.Kernel.Machine.{State, Area, Kernel, set_pcb, sysbp_new, sysbp_old_area}
use jae_so.Kernel.Rules.{
  Returns-both, Returns-weaken, Returns-and_then, Stops-returned, Stops-done, need-some,
}
use jae_so.Memory.{Links}
use jae_so.Nucleus.Frame.{Frame, SameDevices, on_handler_enter-Frame}
use jae_so.Nucleus.Service.{SameCall, on_handler_enter-SameCall, same_area}
use jae_so.Nucleus.Trap.{Timed, exit_times, leave-run}
use jae_so.Syscalls.Areas.{sbk_hdl}

-- The handler's registers `a`, with the arguments of the call, a1 with the mode of the caller in its
-- top four bits.
abbrev pub with_call : State → State → State
with_call s a = record a {
  a1 = bit_or (bit_and s.a1 (2 ^ 28 - 1)) (s.cpsr * 2 ^ 28 % 2 ^ 32);
  a2 = s.a2;
  a3 = s.a3;
  a4 = s.a4;
}

module _ (arch : Arch) where
  -- The pass-up is prepared: the registers `s` are saved and the handler's are made from `a`.
  record Passed (p : ℕ) (s a : State) (l : Links) (k' : Kernel) : Type 0 where
    pub saved : (k'.pcb p).sysbp.old_area ≡ s
    pub new : (k'.pcb p).sysbp.new_area ≡ with_call s a
    pub same : k'.links ≡ l
    pub current : k'.current_process ≡ some p
    pub loaded : k'.state_loaded ≡ sysbp_new p

  -- The process `p` goes on in its handler.
  pub record PassedUp (p : ℕ) (s a : State) (l : Links) (x : Exit) (k' : Kernel) : Type 0 where
    pub exit : x ≡ load (sysbp_new p)
    pub saved : (k'.pcb p).sysbp.old_area ≡ s
    pub new : (k'.pcb p).sysbp.new_area ≡ with_call s a
    pub same : k'.links ≡ l
    pub current : k'.current_process ≡ some p

  -- After the time is charged at the start.
  sys_above_bp-Passed :
      (k : Kernel) (p : ℕ)
      → k.current_process ≡ some p
      → (k.pcb p).sysbp.new_area.pc ≢ 0
      → Returns
          (λ _ k'. Passed p k.sysbp_old (k.pcb p).sysbp.new_area k.links k')
          (sys_above_bp arch k)
  unfolding sys_above_bp copy_state above_state
  sys_above_bp-Passed k p c n =
      let t : ((k.pcb p).sysbp.new_area.pc == 0) ≡ false = ground (arith, n) in
      rw (c, t)
        (record {
          saved = rw (==_refl p) refl;
          new = rw (==_refl p) refl;
          same = refl;
          current = refl;
          loaded = refl;
        })

  -- Charging the time at the end changes nothing of it.
  Passed-exit :
      (flag p : ℕ) (s a : State) (l : Links) (k : Kernel)
      → Passed p s a l k
      → Returns
          (λ _ k'. Passed p s a l k')
          (on_handler_exit
            (k.clock k.clock_reads)
            flag
            (record k { clock_reads = k.clock_reads + 1 }))
  Passed-exit flag p s a l k r =
      let k1 : Kernel = record k { clock_reads = k.clock_reads + 1 } in
      Returns-weaken (λ _ k'. Timed arch k1 k') (λ _ k'. Passed p s a l k')
        (on_handler_exit (k.clock k.clock_reads) flag k1)
        (exit_times arch (k.clock k.clock_reads) flag k1)
        λ _ k' (f, c). record {
          saved = ap (λ (x : Area). x.old_area) (c.areas sbk_hdl p) ∙ r.saved;
          new = ap (λ (x : Area). x.new_area) (c.areas sbk_hdl p) ∙ r.new;
          same = f.links ∙ r.same;
          current = f.current ∙ r.current;
          loaded = c.loaded ∙ r.loaded;
        }

  -- The process `p` runs and has set a handler for these exceptions.
  pub record HandlesAbove (k : Kernel) (p : ℕ) : Type 0 where
    pub current : k.current_process ≡ some p
    pub handled : (k.pcb p).sysbp.new_area.pc ≢ 0

  -- The start of both branches, before `rest`.
  entered :
      (k : Kernel) (p : ℕ) (s a : State) (l : Links) (rest : Cmd (Unit {0}))
      → k.sysbp_old ≡ s
      → (k.pcb p).sysbp.new_area ≡ a
      → k.links ≡ l
      → HandlesAbove k p
      → ((k2 : Kernel)
          → k2.sysbp_old ≡ s
          → Returns (λ _ k'. Passed p s a l k') (sys_above_bp arch k2)
          → Returns (λ _ k'. Passed p s a l k') (rest k2))
      → Returns
          (λ _ k'. Passed p s a l k')
          (and_then
            (on_handler_enter
              (k.clock k.clock_reads)
              (record k { clock_reads = k.clock_reads + 1 }))
            λ _. rest)
  entered k p s a l rest es ea el h go =
      let now : ℕ = k.clock k.clock_reads in
      let k1 : Kernel = record k { clock_reads = k.clock_reads + 1 } in
      Returns-and_then (λ _ k2. (Frame k1 k2 × SameDevices k1 k2) × SameCall k1 k2)
        (λ _ k'. Passed p s a l k') (on_handler_enter now k1) _
        (Returns-both (λ _ k2. Frame k1 k2 × SameDevices k1 k2) (λ _ k2. SameCall k1 k2)
          (on_handler_enter now k1) (on_handler_enter-Frame now k1)
          (on_handler_enter-SameCall now k1))
        λ _ k2 ((f, d), c).
          let area : (k2.pcb p).sysbp.new_area ≡ (k.pcb p).sysbp.new_area =
            ap (λ (x : Area). x.new_area) (c.areas sbk_hdl p) in
          let r =
            sys_above_bp-Passed k2 p (f.current ∙ h.current)
              (λ e. h.handled (ap (λ (x : State). x.pc) (sym area) ∙ e)) in
          go k2 (c.rom ∙ es) (rw (sym (c.rom ∙ es), sym (area ∙ ea), sym (f.links ∙ el)) r)

  -- sysAboveBP, and the time charged after it.
  charged :
      (flag p : ℕ) (s a : State) (l : Links) (k : Kernel)
      → Returns (λ _ k'. Passed p s a l k') (sys_above_bp arch k)
      → Returns
          (λ _ k'. Passed p s a l k')
          (and_then (sys_above_bp arch k) λ _ k3.
            on_handler_exit
              (k3.clock k3.clock_reads)
              flag
              (record k3 { clock_reads = k3.clock_reads + 1 }))
  charged flag p s a l k r =
      Returns-and_then (λ _ k'. Passed p s a l k') (λ _ k'. Passed p s a l k') (sys_above_bp arch k)
        _ r (λ _ k3. Passed-exit flag p s a l k3)

  -- A system call with a number that is none of the nucleus's, or a breakpoint.
  abbrev pub IsAbove : Kernel → Type 0
  IsAbove k =
      (arch.exccode_get k.sysbp_old.cp15_cause ≡ arch.exc_syscall)
        × ((leb 1 k.sysbp_old.a1 && leb k.sysbp_old.a1 11) ≡ false)
      ⊎ (arch.exccode_get k.sysbp_old.cp15_cause ≡ arch.exc_breakpoint)
        × (arch.exc_breakpoint ≢ arch.exc_syscall)

  breakpoint-Passed :
      (k : Kernel) (p : ℕ)
      → HandlesAbove k p
      → Returns
          (λ _ k'. Passed p k.sysbp_old (k.pcb p).sysbp.new_area k.links k')
          (breakpoint arch k)
  unfolding breakpoint get_todlo
  breakpoint-Passed k p h =
      entered k p k.sysbp_old (k.pcb p).sysbp.new_area k.links _ refl refl refl h
        λ k2 e r. charged 0 p k.sysbp_old (k.pcb p).sysbp.new_area k.links k2 r

  syscall-Passed :
      (k : Kernel) (p : ℕ)
      → (leb 1 k.sysbp_old.a1 && leb k.sysbp_old.a1 11) ≡ false
      → HandlesAbove k p
      → Returns (λ _ k'. Passed p k.sysbp_old (k.pcb p).sysbp.new_area k.links k') (syscall arch k)
  unfolding syscall get_todlo
  syscall-Passed k p t h =
      entered k p k.sysbp_old (k.pcb p).sysbp.new_area k.links _ refl refl refl h λ k2 e r.
        let t2 : (leb 1 k2.sysbp_old.a1 && leb k2.sysbp_old.a1 11) ≡ false = rw e t in
        rw t2 (charged 1 p k.sysbp_old (k.pcb p).sysbp.new_area k.links k2 r)

  leaves :
      (p : ℕ) (s a : State) (l : Links) (k : Kernel)
      → Passed p s a l k
      → Stops (PassedUp p s a l) (leave arch k)
  leaves p s a l k r = rw (leave-run arch k p r.current) (record {
    exit = ap load r.loaded;
    saved = r.saved;
    new = r.new;
    same = r.same;
    current = r.current;
  })

  -- When the running process has set a handler for breakpoints and higher calls (HandlesAbove) and
  -- raises a breakpoint, whose code is not that of a system call, or a system call whose number is
  -- not one of the nucleus's (IsAbove), sysBP_Handler ends by loading the handler, with the
  -- registers at the call saved, a2, a3 and a4 passed on to it, and a1 with the low four bits of
  -- the caller's cpsr in its top four; the other registers of the handler, the lists and the
  -- running process are unchanged (PassedUp).
  pub sys_bp_handler-PassedUp :
      (k : Kernel) (p : ℕ)
      → HandlesAbove k p
      → IsAbove k
      → Stops (PassedUp p k.sysbp_old (k.pcb p).sysbp.new_area k.links) (sys_bp_handler arch k)
  unfolding sys_bp_handler
  sys_bp_handler-PassedUp k p h b =
      let s : State = k.sysbp_old in
      let a : State = (k.pcb p).sysbp.new_area in
      let k1 : Kernel = record k { state_loaded = sysbp_old_area } in
      let k2 : Kernel = set_pcb p (record (k.pcb p) { p_s = copy_state k.sysbp_old }) k1 in
      let e : (k2.pcb p).sysbp.new_area ≡ a =
        ap (λ (x : Area). x.new_area) (same_area 0 k sbk_hdl p p _ refl refl refl) in
      let h2 : HandlesAbove k2 p = record {
        current = h.current;
        handled = λ z. h.handled (ap (λ (x : State). x.pc) (sym e) ∙ z);
      } in
      let T : Exit → Kernel → Type 0 = PassedUp p s a k.links in
      Stops-done T (need k1.current_process k1) _ p k1 (need-some k1.current_process p k1 h.current)
        (elim b [
          | inl (c, t) ↦
              rw (c, ==_refl arch.exc_syscall)
                (Stops-returned (λ _ k'. Passed p s a k.links k') T (syscall arch k2) _
                  (subst (λ y. Returns (λ _ k'. Passed p s y k.links k') (syscall arch k2)) e
                    (syscall-Passed k2 p t h2))
                  λ _ k' r. leaves p s a k.links k' r)
          | inr (c, m) ↦
              rw (c, ne→== arch.exc_breakpoint arch.exc_syscall m, ==_refl arch.exc_breakpoint)
                (Stops-returned (λ _ k'. Passed p s a k.links k') T (breakpoint arch k2) _
                  (subst (λ y. Returns (λ _ k'. Passed p s y k.links k') (breakpoint arch k2)) e
                    (breakpoint-Passed k2 p h2))
                  λ _ k' r. leaves p s a k.links k' r)
        ])
