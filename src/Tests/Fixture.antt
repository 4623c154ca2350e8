-- ===== src/Tests/Fixture.antt =====
-- A concrete machine: constants in the place of uARM's headers, and memory full of zeros.
use jae_so.Common.{◌+◌, ◌*◌, ◌/◌, ◌%◌, ◌^◌, Option, none, some, ◌==◌, ◌≡◌, refl, bit_or, ℕ_discrete}
use jae_so.Common.Int.{pos}
use jae_so.Memory.{Loc-discrete, Ptr-discrete, set_next}
use jae_so.Clist.{enqueue, head, dequeue, is_empty}
use jae_so.Pcb.{init_pcbs, alloc_pcb, insert_proc_q, head_proc_q, remove_proc_q}
use jae_so.Asl.{init_asl}
use jae_so.Accounting.{get_todlo, on_handler_exit}
use jae_so.Scheduler.{scheduler}
use jae_so.Kernel.Arch.{Arch}
use jae_so.Kernel.Machine.{Kernel, DevReg, zero_state, zero_pcb, sysbp_old_area, pcb_state}
use jae_so.Kernel.Cmd.{Run, stop, load, Exit}
use jae_so.Boot.{main}

abbrev pub machine : Arch
machine = record {
  n_ext_il = 5;
  n_dev_per_il = 8;
  dev_il_start = 3;
  int_terminal = 7;
  il_ipi = 0;
  il_cputimer = 1;
  il_timer = 2;
  il_disk = 3;
  il_tape = 4;
  il_ethernet = 5;
  il_printer = 6;
  il_terminal = 7;
  ram_top = 0x10_0000;
  framesize = 4096;
  sys_mode = 0x1f;
  all_int_enable = λ s. s;
  all_int_disable = λ s. bit_or s 0xc0;
  enable_vm = λ c. bit_or c 1;
  disable_vm = λ c. c;
  asid_get = λ e. e / 2 ^ 6 % 2 ^ 6;
  asid_set = λ e a. e + a * 2 ^ 6;
  exccode_get = λ c. c % 2 ^ 8;
  exccode_set = λ c e. c / 2 ^ 8 * 2 ^ 8 + e;
  exc_syscall = 8;
  exc_breakpoint = 9;
  exc_reservedinstr = 10;
  cause_ip_get = λ c l. c / 2 ^ (24 + l) % 2 == 1;
  dev_c_ack = 1;
  dev_trcv_s_charrecv = 5;
  dev_trcv_s_recverr = 4;
  dev_ttrs_s_chartrsm = 5;
  dev_ttrs_s_trsmerr = 4;
  dev_s_addr = 0x20000;
  pc_timer_addr = 0x30000;
  semd_addr = λ d. 0x40000 + 12 * d;
  interrupt_handler_addr = 0x8000;
  tlb_handler_addr = 0x8100;
  pgm_trap_handler_addr = 0x8200;
  sys_bp_handler_addr = 0x8300;
  test_addr = 0x9000;
}

abbrev pub zero_dev : DevReg
zero_dev = record {
  status = 0;
  command = 0;
  recv_status = 0;
  recv_command = 0;
  transm_status = 0;
  transm_command = 0;
}

-- Memory before main, with a clock that gains 10 microseconds from one read to the next.
abbrev pub power_on : Kernel
power_on = record {
  links = λ _. none;
  pcb = λ _. zero_pcb;
  sem_add = λ _. 0;
  word = λ _. pos 0;
  state_at = λ _. zero_state;
  process_count = 0;
  soft_block_count = 0;
  current_process = none;
  pseudo_clock_blk = pos 0;
  last_update = 0;
  left_to_100 = 0;
  abs_process_count = 1;
  by_sys_hdl = 0;
  int_old = zero_state;
  sysbp_old = zero_state;
  pgm_old = zero_state;
  tlb_old = zero_state;
  int_new = zero_state;
  sysbp_new = zero_state;
  pgm_new = zero_state;
  tlb_new = zero_state;
  state_loaded = sysbp_old_area;
  timer = 0;
  clock = λ n. 10 * n;
  clock_reads = 0;
  cause = 0;
  status = 0;
  dev = λ _ _. zero_dev;
  bitmap = λ _. 0;
}

-- How a run ended. Its line opens all that a run from main computes with.
unfoldable pub exit_of : {A : Type 0} → Run A → Option Exit
unfolding main Loc-discrete Ptr-discrete ℕ_discrete init_pcbs init_asl alloc_pcb is_empty set_next
    enqueue head dequeue insert_proc_q scheduler head_proc_q remove_proc_q get_todlo on_handler_exit
exit_of (stop x k) = some x
exit_of _ = none

-- The first process is the one that main started.
boot_exit : exit_of (main machine power_on) ≡ some (load (pcb_state 0))
unfolding exit_of
boot_exit = refl
