-- ===== src/Syscalls/Areas.antt =====
-- SYS4 to SYS7 of src/exceptions.c: the areas of the exceptions that a process handles itself.
use jae_so.Common.{ℕ, ◌/◌, ◌^◌, not, if◌then◌else◌, ◌==◌, bit_or, bit_and}
use jae_so.Kernel.Arch.{Arch}
use jae_so.Kernel.Machine.{State, StateRef, sysbp_old, tlb_old, pgm_old, Area, Pcb}
use jae_so.Kernel.Cmd.{Cmd, exit, panic, ask, modify, modify_pcb, ◌>>=◌, ◌>>◌}
use jae_so.Syscalls.Process.{running, terminate_process}

-- The cases of commonSys and commonSubHandler: SBK_HDL, TLB_HDL and PGM_HDL.
pub data Handler : Type 0 where
  sbk_hdl tlb_hdl pgm_hdl : Handler

abbrev pub area : Handler → Pcb → Area
area sbk_hdl b = b.sysbp
area tlb_hdl b = b.tlb
area pgm_hdl b = b.pgmtr

abbrev pub set_area : Handler → Area → Pcb → Pcb
set_area sbk_hdl a b = record b { sysbp = a }
set_area tlb_hdl a b = record b { tlb = a }
set_area pgm_hdl a b = record b { pgmtr = a }

module _ (arch : Arch) where
  -- What commonSys writes to a New Area that was not set before.
  unfoldable pub fill_new_area : ℕ → ℕ → ℕ → ℕ → State → State
  fill_new_area pc sp flags entry_hi s = record s {
    pc = pc;
    sp = sp;
    cp15_control =
        if not (flags / 2 ^ 31 == 0)
        then arch.enable_vm s.cp15_control
        else arch.disable_vm s.cp15_control;
    cpsr = bit_or s.cpsr (bit_and flags 0xff);
    cp15_entry_hi = arch.asid_set s.cp15_entry_hi (arch.asid_get entry_hi);
  }

  -- commonSys
  unfoldable pub common_sys : Handler → ℕ → ℕ → ℕ → Cmd (Unit {0})
  unfolding fill_new_area terminate_process
  common_sys h pc sp flags = do
    p ← running
    a ← ask λ k. area h (k.pcb p)
    if a.new_area.pc == 0
        then modify_pcb p (λ b.
          let filled : State = fill_new_area pc sp flags b.p_s.cp15_entry_hi (area h b).new_area in
          set_area h (record (area h b) { new_area = filled }) b)
        else terminate_process arch 0

  -- specSysHdl, specTLBHdl and specPgmTHdl
  unfoldable pub spec_sys_hdl : ℕ → ℕ → ℕ → Cmd (Unit {0})
  unfolding common_sys
  spec_sys_hdl = common_sys sbk_hdl

  unfoldable pub spec_tlb_hdl : ℕ → ℕ → ℕ → Cmd (Unit {0})
  unfolding common_sys
  spec_tlb_hdl = common_sys tlb_hdl

  unfoldable pub spec_pgm_t_hdl : ℕ → ℕ → ℕ → Cmd (Unit {0})
  unfolding common_sys
  spec_pgm_t_hdl = common_sys pgm_hdl

-- The end of exitTrap: the old area is given the result, and will be loaded.
unfoldable pub leave_trap : Handler → (ℕ → StateRef) → ℕ → Cmd (Unit {0})
leave_trap h ref retval = do
  p ← running
  modify_pcb p (λ b.
      let a : Area = area h b in
      set_area h (record a { old_area = record a.old_area { a1 = retval } }) b)
  modify λ k. record k { state_loaded = ref p }

-- exitTrap
unfoldable pub exit_trap : ℕ → ℕ → Cmd (Unit {0})
unfolding leave_trap
exit_trap excptype retval =
    if excptype == 0
    then leave_trap sbk_hdl sysbp_old retval
    else if excptype == 1
    then leave_trap tlb_hdl tlb_old retval
    else if excptype == 2
    then leave_trap pgm_hdl pgm_old retval
    else exit panic
