-- ===== src/Kernel/Arch.antt =====
-- What the program takes from the headers of uARM, and the addresses that the linker chooses.
use jae_so.Common.{ℕ, ◌+◌, ◌*◌, Bool, ◌||◌, ◌&&◌, ◌==◌, leb}

pub record Arch : Type 0 where
  -- arch.h and uARMconst.h
  pub n_ext_il : ℕ
  pub n_dev_per_il : ℕ
  pub dev_il_start : ℕ
  pub int_terminal : ℕ
  pub il_ipi : ℕ
  pub il_cputimer : ℕ
  pub il_timer : ℕ
  pub il_disk : ℕ
  pub il_tape : ℕ
  pub il_ethernet : ℕ
  pub il_printer : ℕ
  pub il_terminal : ℕ
  pub ram_top : ℕ
  pub framesize : ℕ
  pub sys_mode : ℕ
  pub all_int_enable : ℕ → ℕ
  pub all_int_disable : ℕ → ℕ
  pub enable_vm : ℕ → ℕ
  pub disable_vm : ℕ → ℕ
  pub asid_get : ℕ → ℕ
  pub asid_set : ℕ → ℕ → ℕ
  pub exccode_get : ℕ → ℕ
  pub exccode_set : ℕ → ℕ → ℕ
  pub exc_syscall : ℕ
  pub exc_breakpoint : ℕ
  pub exc_reservedinstr : ℕ
  pub cause_ip_get : ℕ → ℕ → Bool
  pub dev_c_ack : ℕ
  pub dev_trcv_s_charrecv : ℕ
  pub dev_trcv_s_recverr : ℕ
  pub dev_ttrs_s_chartrsm : ℕ
  pub dev_ttrs_s_trsmerr : ℕ
  -- &g_dev_s[0][0], &g_pc_timer_s, and the address of each element of semdTable
  pub dev_s_addr : ℕ
  pub pc_timer_addr : ℕ
  pub semd_addr : ℕ → ℕ
  -- the addresses of the handlers and of the test program
  pub interrupt_handler_addr : ℕ
  pub tlb_handler_addr : ℕ
  pub pgm_trap_handler_addr : ℕ
  pub sys_bp_handler_addr : ℕ
  pub test_addr : ℕ

module _ (arch : Arch) where
  open arch use {n_ext_il, n_dev_per_il, dev_s_addr, pc_timer_addr}

  -- N_DEV_TYPES
  abbrev pub n_dev_types : ℕ
  n_dev_types = n_ext_il + 1

  -- &g_dev_s[i][j], of 4-byte integers; an address past the end of memory does not wrap round
  abbrev pub dev_sem : ℕ → ℕ → ℕ
  dev_sem i j = dev_s_addr + 4 * (i * n_dev_per_il + j)

  -- isDev
  unfoldable pub is_dev : ℕ → Bool
  is_dev a = (a == pc_timer_addr) || (leb dev_s_addr a && leb a (dev_sem n_dev_types n_dev_per_il))
