-- ===== src/Handlers.antt =====
-- The exception handlers of src/exceptions.c.
use jae_so.Common.{
  ℕ, ◌*◌, ◌%◌, ◌^◌, Bool, ◌&&◌, none, some, if◌then◌else◌, ◌==◌, leb, bit_or, bit_and,
}
use jae_so.Kernel.Arch.{Arch}
use jae_so.Kernel.Machine.{State, StateRef, sysbp_old_area, sysbp_new, tlb_new, pgm_new, Kernel}
use jae_so.Kernel.Cmd.{Cmd, pure, exit, load, panic, ask, modify, modify_pcb, ◌>>=◌, ◌>>◌}
use jae_so.Accounting.{get_todlo, on_handler_enter, on_handler_exit, copy_state}
use jae_so.Scheduler.{scheduler}
use jae_so.Syscalls.Areas.{
  Handler, tlb_hdl, pgm_hdl, area, set_area, spec_sys_hdl, spec_tlb_hdl, spec_pgm_t_hdl, exit_trap,
}
use jae_so.Syscalls.Process.{running, create_process, terminate_process}
use jae_so.Syscalls.Semop.{signed32, semop}
use jae_so.Syscalls.Device.{get_cpu_time, wait_clock, io_devop, get_pid}

-- KERNEL_MODE
unfoldable pub kernel_mode : Arch → ℕ → Bool
kernel_mode arch field = bit_and field arch.sys_mode == arch.sys_mode

module _ (arch : Arch) where
  -- The switch of defSys, on the registers at the time of the call.
  unfoldable pub dispatch_sys : State → Cmd (Unit {0})
  dispatch_sys s =
      if s.a1 == 1
      then create_process s.a2
      else if s.a1 == 2
      then terminate_process arch s.a2
      else if s.a1 == 3
      then semop arch s.a2 (signed32 s.a3)
      else if s.a1 == 4
      then spec_sys_hdl arch s.a2 s.a3 s.a4
      else if s.a1 == 5
      then spec_tlb_hdl arch s.a2 s.a3 s.a4
      else if s.a1 == 6
      then spec_pgm_t_hdl arch s.a2 s.a3 s.a4
      else if s.a1 == 7
      then exit_trap s.a2 s.a3
      else if s.a1 == 8
      then get_cpu_time s.a2 s.a3
      else if s.a1 == 9
      then wait_clock arch
      else if s.a1 == 10
      then io_devop arch s.a2 (signed32 s.a3) s.a4
      else if s.a1 == 11
      then get_pid
      else pure tt

  -- defSys
  unfoldable pub def_sys : Cmd (Unit {0})
  unfolding dispatch_sys
  def_sys = ask (λ k. k.sysbp_old) >>= dispatch_sys

  -- The last lines of the three handlers: `m_state_loaded` is loaded, or the scheduler called.
  unfoldable pub leave : Cmd (Unit {0})
  leave = do
    current ← ask λ k. k.current_process
    ref ← ask λ k. k.state_loaded
    elim current [ none ↦ scheduler arch | some _ ↦ exit (load ref) ]

  -- The first branch of commonSubHandler: bySysHdl says that the time is already charged.
  unfoldable pub enter_sub : Cmd (Unit {0})
  enter_sub = do
    by_sys ← ask λ k. k.by_sys_hdl
    if by_sys == 0 then get_todlo >>= on_handler_enter else modify λ k. record k { by_sys_hdl = 0 }

  -- The pass-up of commonSubHandler, with the registers saved in ROM.
  unfoldable pub pass_up : Handler → (ℕ → StateRef) → State → ℕ → Cmd (Unit {0})
  pass_up h ref rom p = do
    modify_pcb p (λ b.
        let new : State = record (area h b).new_area { a1 = rom.cp15_cause } in
        set_area h (record { old_area = copy_state rom; new_area = new }) b)
    modify λ k. record k { state_loaded = ref p }

  -- commonSubHandler, for the TLB and PgmTrap handlers
  unfoldable pub common_sub_handler : Handler → (Kernel → State) → (ℕ → StateRef) → Cmd (Unit {0})
  unfolding enter_sub pass_up
  common_sub_handler h rom_area ref = do
    enter_sub
    p ← running
    rom ← ask rom_area
    modify_pcb p (λ b. record b { p_s = copy_state rom })
    a ← ask λ k. area h (k.pcb p)
    if a.new_area.pc == 0 then terminate_process arch 0 else pass_up h ref rom p
    tod ← get_todlo
    on_handler_exit tod 0

  -- pgmTrap_Handler
  unfoldable pub pgm_trap_handler : Cmd (Unit {0})
  unfolding common_sub_handler leave
  pgm_trap_handler = common_sub_handler pgm_hdl (λ k. k.pgm_old) pgm_new >> leave

  -- TLB_Handler
  unfoldable pub tlb_handler : Cmd (Unit {0})
  unfolding common_sub_handler leave
  tlb_handler = common_sub_handler tlb_hdl (λ k. k.tlb_old) tlb_new >> leave

  -- The New Area that sysAboveBP loads: a1 to a4 are passed on, and the mode in the top of a1.
  unfoldable pub above_state : State → State → State
  above_state rom s = record s {
    a1 = bit_or (bit_and rom.a1 0xfffffff) (rom.cpsr * 2 ^ 28 % 2 ^ 32);
    a2 = rom.a2;
    a3 = rom.a3;
    a4 = rom.a4;
  }

  -- sysAboveBP
  unfoldable pub sys_above_bp : Cmd (Unit {0})
  unfolding above_state
  sys_above_bp = do
    p ← running
    a ← ask λ k. (k.pcb p).sysbp
    if a.new_area.pc == 0 then terminate_process arch 0 else do
      rom ← ask λ k. k.sysbp_old
      modify_pcb p (λ b. record b {
        sysbp = record { old_area = copy_state rom; new_area = above_state rom b.sysbp.new_area };
      })
      modify λ k. record k { state_loaded = sysbp_new p }

  -- The branch of sysBP_Handler for a user process that calls the nucleus: a program trap.
  unfoldable pub trap_user : Cmd (Unit {0})
  unfolding pgm_trap_handler
  trap_user = do
    modify λ k.
        let s : State = copy_state k.sysbp_old in
        record k {
          pgm_old = record s { cp15_cause = arch.exccode_set s.cp15_cause arch.exc_reservedinstr };
          by_sys_hdl = 1;
        }
    tod ← get_todlo
    on_handler_exit tod 1
    pgm_trap_handler

  -- The system call branch of sysBP_Handler.
  unfoldable pub syscall : Cmd (Unit {0})
  unfolding def_sys trap_user sys_above_bp
  syscall = do
    tod ← get_todlo
    on_handler_enter tod
    rom ← ask λ k. k.sysbp_old
    if leb 1 rom.a1 && leb rom.a1 11
        then if kernel_mode arch rom.cpsr then def_sys else trap_user
        else sys_above_bp
    tod ← get_todlo
    on_handler_exit tod 1

  -- The breakpoint branch.
  unfoldable pub breakpoint : Cmd (Unit {0})
  unfolding sys_above_bp
  breakpoint = do
    tod ← get_todlo
    on_handler_enter tod
    sys_above_bp
    tod ← get_todlo
    on_handler_exit tod 0

  -- sysBP_Handler
  unfoldable pub sys_bp_handler : Cmd (Unit {0})
  unfolding syscall breakpoint leave
  sys_bp_handler = do
    modify λ k. record k { state_loaded = sysbp_old_area }
    code ← ask λ k. arch.exccode_get k.sysbp_old.cp15_cause
    p ← running
    rom ← ask λ k. k.sysbp_old
    modify_pcb p (λ b. record b { p_s = copy_state rom })
    if code == arch.exc_syscall
        then syscall
        else if code == arch.exc_breakpoint
        then breakpoint
        else exit panic
    leave
