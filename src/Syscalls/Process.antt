-- ===== src/Syscalls/Process.antt =====
-- SYS1 and SYS2 of src/exceptions.c: processes are made and terminated.
use jae_so.Common.{
  ℕ, zero, suc, ◌-◌, ◌*◌, ◌%◌, ◌^◌, not, none, some, if◌then◌else◌, ◌==◌, ltb, bit_or,
}
use jae_so.Memory.{ready_queue}
use jae_so.Kernel.Arch.{Arch, is_dev}
use jae_so.Kernel.Machine.{max_proc, add32, sub32}
use jae_so.Kernel.Cmd.{Cmd, pure, diverge, ask, need, modify, modify_pcb, when, ◌>>=◌, ◌>>◌}
use jae_so.Pcb.{
  rounds, alloc_pcb, free_pcb, insert_proc_q, out_proc_q, empty_child, insert_child, remove_child,
  out_child, child_by_pid,
}
use jae_so.Asl.{out_blocked}
use jae_so.Accounting.{copy_state}

-- The process that `g_current_process->…` names.
abbrev pub running : Cmd ℕ
running = ask (λ k. k.current_process) >>= need

-- pid_selector
unfoldable pub pid_selector : Cmd ℕ
pid_selector = do
  modify λ k. record k { abs_process_count = add32 k.abs_process_count 1 }
  ask λ k. bit_or (k.abs_process_count * 2 ^ 5 % 2 ^ 32) k.process_count

-- createProcess
unfoldable pub create_process : ℕ → Cmd (Unit {0})
unfolding pid_selector
create_process npstate = do
  count ← ask λ k. k.process_count
  if ltb count max_proc
      then (do
        fresh ← alloc_pcb
        modify λ k. record k { process_count = add32 k.process_count 1 }
        p ← need fresh
        pid ← pid_selector
        modify_pcb p (λ b. record b { p_pid = pid })
        np ← ask λ k. k.state_at npstate
        modify_pcb p (λ b. record b { p_s = copy_state np })
        parent ← running
        insert_child parent p
        insert_proc_q ready_queue p
        pid ← ask λ k. (k.pcb p).p_pid
        modify λ k. record k { sysbp_old = record k.sysbp_old { a1 = pid } })
      else modify λ k. record k { sysbp_old = record k.sysbp_old { a1 = 2 ^ 32 - 1 } }

module _ (arch : Arch) where
  -- The while loop of terminateProgeny, over the function itself.
  unfoldable pub each_child : (ℕ → Cmd (Unit {0})) → ℕ → ℕ → Cmd (Unit {0})
  each_child kill zero p = λ k. diverge
  each_child kill (suc fuel) p =
      let rest : Cmd (Unit {0}) = each_child kill fuel p in
      do
        empty ← empty_child p
        if empty
            then pure tt
            else do removed ← remove_child p; child ← need removed; kill child; rest

  -- The end of terminateProgeny: the process itself goes.
  unfoldable pub terminate_one : ℕ → Cmd (Unit {0})
  terminate_one p = do
    cursem ← ask λ k. (k.pcb p).p_cursem
    elim cursem [
      | some d ↦ do
        when (is_dev arch (arch.semd_addr d))
            (modify λ k. record k { soft_block_count = sub32 k.soft_block_count 1 })
        out_blocked p
        pure tt
      | none ↦ do out_proc_q ready_queue p; pure tt
    ]
    free_pcb p
    modify λ k. record k { process_count = sub32 k.process_count 1 }

  -- terminateProgeny, with a bound on its depth
  unfoldable pub terminate_progeny : ℕ → ℕ → Cmd (Unit {0})
  unfolding each_child terminate_one
  terminate_progeny zero p = λ k. diverge
  terminate_progeny (suc fuel) p = do
    out_child p
    each_child (terminate_progeny fuel) rounds p
    terminate_one p

  -- terminateProcess
  unfoldable pub terminate_process : ℕ → Cmd (Unit {0})
  unfolding terminate_progeny
  terminate_process pid =
      if not (pid == 0)
      then (do
        current ← running
        empty ← empty_child current
        when (not empty) (do
          child ← child_by_pid rounds current pid
          elim child [ none ↦ pure tt | some c ↦ terminate_progeny rounds c ]))
      else (do
        current ← running
        terminate_progeny rounds current
        modify λ k. record k { current_process = none })
