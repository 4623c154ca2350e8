-- ===== src/Nucleus/Trap.antt =====
-- A process in user mode that calls the nucleus: sysBP_Handler with pgmTrap_Handler.
use jae_so.Common.{
  ℕ, ◌+◌, ◌≡◌, ◌≢◌, refl, sym, ap, ◌∙◌, some, true, false, subst, ◌==◌, ==_refl, leb, ◌&&◌, arith,
}
use jae_so.Accounting.{get_todlo, on_handler_enter, on_handler_exit, copy_state}
use jae_so.Handlers.{
  kernel_mode, leave, enter_sub, pass_up, common_sub_handler, pgm_trap_handler, trap_user, syscall,
  sys_bp_handler,
}
use jae_so.Kernel.Arch.{Arch}
use jae_so.Kernel.Cmd.{Exit, Returns, Stops, load, need, stop, done}
use jae_so.Kernel.Machine.{State, Area, Kernel, set_pcb, pgm_new, sysbp_old_area}
use jae_so.Memory.{Links}
use jae_so.Kernel.Rules.{Returns-both, Stops-returned, Stops-done, need-some, Stops-first}
use jae_so.Nucleus.Frame.{Frame, SameDevices, on_handler_enter-Frame, on_handler_exit-Frame}
use jae_so.Nucleus.Service.{
  SameCall, on_handler_enter-SameCall, on_handler_exit-SameCall, same_area,
}
use jae_so.Syscalls.Areas.{pgm_hdl}

module _ (arch : Arch) where
  -- The registers at the call, with the cause of a reserved instruction.
  abbrev pub trapped_state : State → State
  trapped_state s = record s { cp15_cause = arch.exccode_set s.cp15_cause arch.exc_reservedinstr }

  -- The process `p` goes on in its handler of program traps, with the registers `s` saved;
  -- `a` are those that it had set for the handler.
  pub record Trapped (p : ℕ) (s a : State) (l : Links) (x : Exit) (k' : Kernel) : Type 0 where
    pub exit : x ≡ load (pgm_new p)
    pub saved : (k'.pcb p).pgmtr.old_area ≡ s
    pub new : (k'.pcb p).pgmtr.new_area ≡ record a { a1 = s.cp15_cause }
    pub same : k'.links ≡ l
    pub current : k'.current_process ≡ some p

  abbrev pub Timed : Kernel → Kernel → Type 0
  Timed k k' = Frame k k' × SameCall k k'

  pub exit_times :
      (now flag : ℕ) (k : Kernel) → Returns (λ _ k'. Timed k k') (on_handler_exit now flag k)
  exit_times now flag k =
      Returns-both (λ _ k'. Frame k k') (λ _ k'. SameCall k k') (on_handler_exit now flag k)
        (on_handler_exit-Frame now k flag) (on_handler_exit-SameCall now k flag)

  pub leave-run :
      (k : Kernel) (p : ℕ)
      → k.current_process ≡ some p
      → leave arch k ≡ stop (load k.state_loaded) k
  unfolding leave
  leave-run k p c = simp c refl

  enter_sub-run :
      (k : Kernel) → k.by_sys_hdl ≡ 1 → enter_sub arch k ≡ done tt (record k { by_sys_hdl = 0 })
  unfolding enter_sub
  enter_sub-run k b = rw b refl

  -- Of a process that handles program traps, after sysBP_Handler has charged the time.
  pgm_trap_handler-Trapped :
      (k : Kernel) (p : ℕ)
      → k.current_process ≡ some p
      → k.by_sys_hdl ≡ 1
      → (k.pcb p).pgmtr.new_area.pc ≢ 0
      → Stops (Trapped p k.pgm_old (k.pcb p).pgmtr.new_area k.links) (pgm_trap_handler arch k)
  unfolding pgm_trap_handler common_sub_handler pass_up get_todlo copy_state
  pgm_trap_handler-Trapped k p c b n =
      let t : ((k.pcb p).pgmtr.new_area.pc == 0) ≡ false = ground (arith, n) in
      rw (enter_sub-run k b, c, ==_refl p, t)
        (Stops-returned (λ _ k'. Timed _ k') (Trapped p k.pgm_old (k.pcb p).pgmtr.new_area k.links)
          _ _ (exit_times _ 0 _)
          λ _ k' (f, s). rw (leave-run k' p f.current) (record {
            exit = ap load s.loaded;
            saved = ap (λ (x : Area). x.old_area) (rw (==_refl p) at (s.areas pgm_hdl p));
            new = ap (λ (x : Area). x.new_area) (rw (==_refl p) at (s.areas pgm_hdl p));
            same = f.links;
            current = f.current;
          }))

  -- The branch of sysBP_Handler, after the time is charged.
  trap_user-Trapped :
      (k : Kernel) (p : ℕ)
      → k.current_process ≡ some p
      → (k.pcb p).pgmtr.new_area.pc ≢ 0
      → Stops
          (Trapped p (trapped_state k.sysbp_old) (k.pcb p).pgmtr.new_area k.links)
          (trap_user arch k)
  unfolding trap_user get_todlo copy_state
  trap_user-Trapped k p c n =
      let k1 : Kernel = record k {
        pgm_old = trapped_state k.sysbp_old;
        by_sys_hdl = 1;
        clock_reads = k.clock_reads + 1;
      } in
      Stops-returned (λ _ k2. Timed k1 k2)
        (Trapped p (trapped_state k.sysbp_old) (k.pcb p).pgmtr.new_area k.links)
        (on_handler_exit (k.clock k.clock_reads) 1 k1) _ (exit_times (k.clock k.clock_reads) 1 k1)
        λ _ k2 (f, s).
          rw (sym s.trap, sym f.links)
            (subst (λ y. Stops (Trapped p k2.pgm_old y k2.links) (pgm_trap_handler arch k2))
              (ap (λ (x : Area). x.new_area) (s.areas pgm_hdl p))
              (pgm_trap_handler-Trapped k2 p (f.current ∙ c) s.by_sys
                (λ e. n (ap (λ (x : Area). x.new_area.pc) (sym (s.areas pgm_hdl p)) ∙ e))))

  -- The process `p` runs in user mode, has called a service of the nucleus, and has set a handler for
  -- program traps.
  pub record CallsAsUser (k : Kernel) (p : ℕ) : Type 0 where
    pub current : k.current_process ≡ some p
    pub syscall : arch.exccode_get k.sysbp_old.cp15_cause ≡ arch.exc_syscall
    pub service : (leb 1 k.sysbp_old.a1 && leb k.sysbp_old.a1 11) ≡ true
    pub user : kernel_mode arch k.sysbp_old.cpsr ≡ false
    pub handled : (k.pcb p).pgmtr.new_area.pc ≢ 0

  syscall-Trapped :
      (k : Kernel) (p : ℕ)
      → CallsAsUser k p
      → Stops
          (Trapped p (trapped_state k.sysbp_old) (k.pcb p).pgmtr.new_area k.links)
          (syscall arch k)
  unfolding syscall get_todlo
  syscall-Trapped k p u =
      let now : ℕ = k.clock k.clock_reads in
      let k1 : Kernel = record k { clock_reads = k.clock_reads + 1 } in
      Stops-returned (λ _ k2. (Frame k1 k2 × SameDevices k1 k2) × SameCall k1 k2)
        (Trapped p (trapped_state k.sysbp_old) (k.pcb p).pgmtr.new_area k.links)
        (on_handler_enter now k1) _
        (Returns-both (λ _ k2. Frame k1 k2 × SameDevices k1 k2) (λ _ k2. SameCall k1 k2)
          (on_handler_enter now k1) (on_handler_enter-Frame now k1)
          (on_handler_enter-SameCall now k1))
        λ _ k2 ((f, d), s).
          let t =
            trap_user-Trapped k2 p (f.current ∙ u.current)
              (λ e. u.handled (ap (λ (x : Area). x.new_area.pc) (sym (s.areas pgm_hdl p)) ∙ e)) in
          let service2 : (leb 1 k2.sysbp_old.a1 && leb k2.sysbp_old.a1 11) ≡ true =
            rw s.rom u.service in
          let user2 : kernel_mode arch k2.sysbp_old.cpsr ≡ false = rw s.rom u.user in
          rw (service2, user2)
            (Stops-first (Trapped p (trapped_state k.sysbp_old) (k.pcb p).pgmtr.new_area k.links)
              (trap_user arch k2) _
              (rw (sym s.rom, sym f.links)
                (subst
                  (λ y.
                    Stops (Trapped p (trapped_state k2.sysbp_old) y k2.links) (trap_user arch k2))
                  (ap (λ (x : Area). x.new_area) (s.areas pgm_hdl p)) t)))

  -- A process in user mode that calls a service of the nucleus (CallsAsUser: it runs, and has set
  -- a handler for program traps) does not get the service: sysBP_Handler ends by loading the
  -- process's handler of program traps, which is as it was set but for a1, with the registers at
  -- the call saved and their cause set to that of a reserved instruction, in the saved area and in
  -- a1 of the handler, the lists unchanged, and the process still the running one (Trapped).
  pub sys_bp_handler-Trapped :
      (k : Kernel) (p : ℕ)
      → CallsAsUser k p
      → Stops
          (Trapped p (trapped_state k.sysbp_old) (k.pcb p).pgmtr.new_area k.links)
          (sys_bp_handler arch k)
  unfolding sys_bp_handler
  sys_bp_handler-Trapped k p u =
      let k1 : Kernel = record k { state_loaded = sysbp_old_area } in
      let k2 : Kernel = set_pcb p (record (k.pcb p) { p_s = copy_state k.sysbp_old }) k1 in
      let u2 : CallsAsUser k2 p = record {
        current = u.current;
        syscall = u.syscall;
        service = u.service;
        user = u.user;
        handled = λ e. u.handled (
            ap (λ (x : Area). x.new_area.pc) (sym (same_area 0 k pgm_hdl p p _ refl refl refl))
            ∙ e);
      } in
      Stops-done (Trapped p (trapped_state k.sysbp_old) (k.pcb p).pgmtr.new_area k.links)
        (need k1.current_process k1) _ p k1 (need-some k1.current_process p k1 u.current)
        (rw (u.syscall, ==_refl arch.exc_syscall)
          (Stops-first (Trapped p (trapped_state k.sysbp_old) (k.pcb p).pgmtr.new_area k.links)
            (syscall arch k2) _
            (subst (λ y. Stops (Trapped p (trapped_state k.sysbp_old) y k.links) (syscall arch k2))
              (ap (λ (x : Area). x.new_area) (same_area 0 k pgm_hdl p p _ refl refl refl))
              (syscall-Trapped k2 p u2))))
