-- ===== src/Scheduler.antt =====
-- src/scheduler.c, and debugBKtwo of src/debug.c.
pub mod Choice
use jae_so.Common.{ℕ, ◌||◌, Option, none, some, if◌then◌else◌, ◌==◌, ltb, bit_or}
use jae_so.Common.Int.{pos}
use jae_so.Memory.{ready_queue}
use jae_so.Kernel.Arch.{Arch}
use jae_so.Kernel.Machine.{StateRef, pcb_state, Kernel, time_slice, max_proc, set_word}
use jae_so.Kernel.Cmd.{
  Cmd, pure, exit, load, wait, halt, panic, ask, need, modify, modify_pcb, ◌>>=◌, ◌>>◌,
}
use jae_so.Pcb.{head_proc_q, remove_proc_q}
use jae_so.Accounting.{get_todlo, on_handler_exit}

-- debugBKtwo
unfoldable pub debug_bk_two : ℕ → Cmd (Unit {0})
debug_bk_two b = modify (set_word 0x00011114 (pos b))

-- The first branch of scheduler: the head of the ready queue runs for a whole slice.
unfoldable pub dispatch : Cmd (Unit {0})
unfolding debug_bk_two
dispatch = do
  next ← remove_proc_q ready_queue
  modify λ k. record k { current_process = next }
  p ← need next
  modify_pcb p (λ b. record b { p_time_slice = time_slice })
  tod ← get_todlo
  on_handler_exit tod 0
  pid ← ask λ k. (k.pcb p).p_pid
  debug_bk_two pid
  exit (load (pcb_state p))

module _ (arch : Arch) where
  -- The second branch: no process is ready.
  unfoldable pub idle : Cmd (Unit {0})
  idle = do
    processes ← ask λ k. k.process_count
    if processes == 0 || ltb max_proc processes then exit halt else do
      blocked ← ask λ k. k.soft_block_count
      if ltb 0 blocked
          then (do
            modify λ k. record k { status = arch.all_int_enable (bit_or k.status arch.sys_mode) }
            tod ← get_todlo
            on_handler_exit tod 0
            exit wait)
          else exit panic

  -- scheduler
  unfoldable pub scheduler : Cmd (Unit {0})
  unfolding dispatch idle
  scheduler = do ready ← head_proc_q ready_queue; elim ready [ some _ ↦ dispatch | none ↦ idle ]
