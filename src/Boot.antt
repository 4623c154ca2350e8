-- ===== src/Boot.antt =====
-- src/init.c: the nucleus comes up, and starts the first process.
use jae_so.Common.{ℕ, zero, suc, ◌+◌, ◌-◌, none}
use jae_so.Common.Int.{pos}
use jae_so.Memory.{p_children, p_siblings, ready_queue, set_next}
use jae_so.Clist.{ok}
use jae_so.Kernel.Arch.{Arch, dev_sem, n_dev_types}
use jae_so.Kernel.Machine.{State, Kernel, pseudo_clock, sub32, set_word}
use jae_so.Kernel.Cmd.{Cmd, need, modify, modify_pcb, relink, ◌>>=◌, ◌>>◌}
use jae_so.Pcb.{init_pcbs, alloc_pcb, insert_proc_q}
use jae_so.Asl.{init_asl}
use jae_so.Scheduler.{scheduler}

-- The loops over g_dev_s, from 1 in both indices: `n` rounds from `j` in row `i`.
unfoldable pub clear_row : Arch → ℕ → ℕ → ℕ → Kernel → Kernel
clear_row arch i zero j k = k
clear_row arch i (suc n) j k = clear_row arch i n (j + 1) (set_word (dev_sem arch i j) (pos 0) k)

unfoldable pub clear_rows : Arch → ℕ → ℕ → Kernel → Kernel
unfolding clear_row
clear_rows arch zero i k = k
clear_rows arch (suc n) i k =
    clear_rows arch n (i + 1) (clear_row arch i (arch.n_dev_per_il - 1) 1 k)

module _ (arch : Arch) where
  -- init_new_area
  unfoldable pub init_new_area : ℕ → State → State
  init_new_area handler s = record s {
    pc = handler;
    sp = arch.ram_top;
    cpsr = arch.all_int_disable arch.sys_mode;
  }

  -- The new areas and the variables of the nucleus.
  unfoldable pub init_variables : Kernel → Kernel
  unfolding clear_rows
  init_variables k = set_word arch.pc_timer_addr (pos 0) (
      clear_rows arch (n_dev_types arch - 1) 1 (record k {
        process_count = 1;
        soft_block_count = 0;
        links = set_next k.links ready_queue none;
        current_process = none;
        last_update = 0;
        pseudo_clock_blk = pos 0;
        left_to_100 = pseudo_clock;
      }))

  -- The first process.
  unfoldable pub start_init : Cmd (Unit {0})
  start_init = do
    fresh ← alloc_pcb
    p ← need fresh
    modify_pcb p (λ b. record b {
      p_pid = 1;
      p_parent = none;
      p_cursem = none;
      p_s = record b.p_s {
        cpsr = arch.all_int_enable arch.sys_mode;
        sp = sub32 arch.ram_top arch.framesize;
        pc = arch.test_addr;
      };
    })
    insert_proc_q ready_queue p
    relink λ σ. ok (set_next (set_next σ (p_children p) none) (p_siblings p) none)

  -- main
  unfoldable pub main : Cmd (Unit {0})
  unfolding init_new_area init_variables start_init
  main = do
    modify λ k. record k {
      int_new = init_new_area arch.interrupt_handler_addr k.int_new;
      tlb_new = init_new_area arch.tlb_handler_addr k.tlb_new;
      pgm_new = init_new_area arch.pgm_trap_handler_addr k.pgm_new;
      sysbp_new = init_new_area arch.sys_bp_handler_addr k.sysbp_new;
    }
    init_pcbs
    init_asl
    modify init_variables
    start_init
    scheduler arch
