-- ===== src/Interrupts.antt =====
-- src/interrupt.c.
pub mod Device
pub mod Terminal
pub mod Deliver
pub mod Tick
use jae_so.Common.{
  ℕ, zero, suc, ◌+◌, ◌-◌, ◌/◌, ◌%◌, ◌^◌, Bool, true, false, ◌||◌, not, Option, none, some,
  if◌then◌else◌, ◌==◌, ltb,
}
use jae_so.Common.Int.{pos, ◌-ℤ◌, ltb_ℤ, pos_part}
use jae_so.Memory.{ready_queue}
use jae_so.Kernel.Arch.{Arch, dev_sem, n_dev_types}
use jae_so.Kernel.Machine.{int_old_area, DevReg, time_slice, pseudo_clock, sub32, update, set_dev}
use jae_so.Kernel.Cmd.{
  Cmd, pure, exit, load, diverge, ask, need, modify, modify_pcb, when, ◌>>=◌, ◌>>◌,
}
use jae_so.Pcb.{insert_proc_q}
use jae_so.Asl.{head_blocked}
use jae_so.Accounting.{get_todlo, on_handler_enter, on_handler_exit, copy_state}
use jae_so.Scheduler.{scheduler}
use jae_so.Syscalls.Process.{running}
use jae_so.Syscalls.Semop.{semop}

-- The loop of handleDevices over the bit map of a line: the device, unless no bit is set, and what
-- the loop leaves in the bit map.
unfoldable pub find_device : ℕ → ℕ → ℕ → Option ℕ × ℕ
find_device zero i map = (none, map)
find_device (suc n) i map =
    let rest : Option ℕ × ℕ = find_device n (i + 1) (map / 2) in
    if map % 2 == 1 then (some i, map) else rest

-- Whether two pointers to control blocks are equal.
abbrev pub same : Option ℕ → Option ℕ → Bool
same none none = true
same none (some _) = false
same (some _) none = false
same (some p) (some q) = p == q

module _ (arch : Arch) where
  -- The while loop of handleTimer, over the process blocked on the clock.
  unfoldable pub tick_loop : ℕ → Cmd (Unit {0})
  unfolding semop
  tick_loop zero = λ k. diverge
  tick_loop (suc fuel) =
      let rest : Cmd (Unit {0}) = tick_loop fuel in
      do
        n ← ask λ k. k.pseudo_clock_blk
        if ltb_ℤ (pos 0) n
            then (do
              semop arch arch.pc_timer_addr n
              modify λ k. record k { pseudo_clock_blk = k.pseudo_clock_blk -ℤ pos 1 }
              rest)
            else pure tt

  -- The first test of handleTimer, and the tick. Each process waits on the clock once; the loop
  -- runs as often as the count says.
  unfoldable pub pseudo_tick : Cmd (Unit {0})
  unfolding tick_loop
  pseudo_tick = do
    now ← get_todlo
    k ← ask λ k. k
    let elapsed : ℕ = sub32 now k.last_update
    when (k.left_to_100 == elapsed || ltb pseudo_clock (sub32 k.left_to_100 elapsed)) (do
      modify λ k. record k { left_to_100 = pseudo_clock }
      tick_loop (suc (pos_part k.pseudo_clock_blk)))

  -- The second test of handleTimer: the running process has used up its slice.
  unfoldable pub end_slice : Cmd (Unit {0})
  end_slice = do
    p ← running
    left ← ask λ k. (k.pcb p).p_time_slice
    when (ltb time_slice left) (do
      tod ← get_todlo
      on_handler_exit tod 1
      insert_proc_q ready_queue p
      modify λ k. record k { current_process = none })

  -- handleTimer
  unfoldable pub handle_timer : Cmd (Unit {0})
  unfolding pseudo_tick end_slice
  handle_timer = pseudo_tick >> end_slice

  -- What handleDevices acknowledges: the row of the semaphore, and the status, unless it is not
  -- set. The registers are memory: a command changes no status before the handler is over.
  unfoldable pub acknowledge : ℕ → ℕ → DevReg → (ℕ × Option ℕ) × DevReg
  acknowledge line dev r =
      let recv : ℕ = r.recv_status % 2 ^ 8 in
      let transm : ℕ = r.transm_status % 2 ^ 8 in
      if line == arch.il_terminal
      then if recv == arch.dev_trcv_s_charrecv || recv == arch.dev_trcv_s_recverr
        then ((n_dev_types arch, some r.recv_status), record r { recv_command = arch.dev_c_ack })
        else if transm == arch.dev_ttrs_s_chartrsm || transm == arch.dev_ttrs_s_trsmerr
        then (
          (line - arch.dev_il_start, some r.transm_status),
          record r { transm_command = arch.dev_c_ack },
        )
        else ((line, none), r)
      else (let r' : DevReg = record r { command = arch.dev_c_ack } in
          ((line - arch.dev_il_start, some r'.status), r'))

  -- The end of handleDevices: a V on the semaphore, and the status for the process that it wakes.
  unfoldable pub signal_device : ℕ → Option ℕ → Cmd (Unit {0})
  unfolding semop
  signal_device sem dev_status = do
    before ← head_blocked sem
    value ← ask λ k. k.word sem
    when (ltb_ℤ value (pos 1)) (semop arch sem (pos 1))
    after ← head_blocked sem
    when (not (same before after)) (do
      p ← need before
      s ← need dev_status
      modify_pcb p (λ b. record b { p_s = record b.p_s { a1 = s } }))

  -- handleDevices
  unfoldable pub handle_devices : ℕ → Cmd (Unit {0})
  unfolding find_device acknowledge signal_device
  handle_devices line = do
    map ← ask λ k. k.bitmap line
    let (found, left) = find_device arch.n_dev_per_il 0 map
    modify λ k. record k { bitmap = update k.bitmap line left }
    dev ← need found
    reg ← ask λ k. k.dev line dev
    let ((row, dev_status), reg') = acknowledge line dev reg
    modify (set_dev line dev reg')
    signal_device (dev_sem arch row dev) dev_status

  -- The choice of InterruptExceptionHandler by the pending lines, the first in this order.
  unfoldable pub dispatch_line : ℕ → Cmd (Unit {0})
  unfolding handle_timer handle_devices
  dispatch_line cause =
      let pending : ℕ → Bool = arch.cause_ip_get cause in
      if pending arch.il_ipi
      then pure tt
      else if pending arch.il_cputimer
      then pure tt
      else if pending arch.il_timer
      then handle_timer
      else if pending arch.il_disk
      then handle_devices arch.il_disk
      else if pending arch.il_tape
      then handle_devices arch.il_tape
      else if pending arch.il_ethernet
      then handle_devices arch.il_ethernet
      else if pending arch.il_printer
      then handle_devices arch.il_printer
      else if pending arch.il_terminal
      then handle_devices arch.il_terminal
      else pure tt

  -- InterruptExceptionHandler
  unfoldable pub interrupt_handler : Cmd (Unit {0})
  unfolding dispatch_line
  interrupt_handler = do
    modify λ k. record k { int_old = record k.int_old { pc = sub32 k.int_old.pc 4 } }
    tod ← get_todlo
    on_handler_enter tod
    current ← ask λ k. k.current_process
    old ← ask λ k. k.int_old
    elim current [ none ↦ pure tt | some p ↦ modify_pcb p (λ b. record b { p_s = copy_state old }) ]
    cause ← ask λ k. k.cause
    dispatch_line cause
    tod ← get_todlo
    on_handler_exit tod 0
    current ← ask λ k. k.current_process
    elim current [ some _ ↦ exit (load int_old_area) | none ↦ scheduler arch ]
