-- ===== src/Syscalls/Device.antt =====
-- SYS8 to SYS11 of src/exceptions.c: times, the clock, devices and the identifier.
use jae_so.Common.{ℕ, ◌*◌, ◌/◌, ◌%◌, ◌^◌, Bool, not, if◌then◌else◌, ◌==◌}
use jae_so.Common.Int.{ℤ, pos, negsuc, ◌+ℤ◌}
use jae_so.Kernel.Arch.{Arch, dev_sem}
use jae_so.Kernel.Machine.{DevReg, sub32, set_word, set_dev}
use jae_so.Kernel.Cmd.{Cmd, modify, ◌>>=◌, ◌>>◌}
use jae_so.Syscalls.Process.{running}
use jae_so.Syscalls.Semop.{semop, signed32, unsigned32}

-- getCpuTime, through the addresses of the two results
unfoldable pub get_cpu_time : ℕ → ℕ → Cmd (Unit {0})
get_cpu_time global user = do
  p ← running
  modify λ k. set_word global (signed32 (k.pcb p).p_global_time) k
  modify λ k. set_word user (signed32 (k.pcb p).p_user_time) k

-- getPid
unfoldable pub get_pid : Cmd (Unit {0})
get_pid = do
  p ← running
  modify λ k. record k { sysbp_old = record k.sysbp_old { a1 = (k.pcb p).p_pid } }

module _ (arch : Arch) where
  open arch use {int_terminal, dev_il_start, pc_timer_addr}

  -- waitClock
  unfoldable pub wait_clock : Cmd (Unit {0})
  unfolding semop
  wait_clock = do
    semop arch pc_timer_addr (negsuc 0)
    modify λ k. record k { pseudo_clock_blk = k.pseudo_clock_blk +ℤ pos 1 }

  -- The terminal branch of ioDevop; both shifts are of 32-bit words.
  unfoldable pub terminal_op : ℕ → ℕ → ℕ → Cmd (Unit {0})
  unfolding semop
  terminal_op command line dnum =
      let dnum_t : ℕ = dnum * 2 % 2 ^ 32 / 2 in
      let reads : Bool = not (dnum / 2 ^ 7 == 0) in
      do
        semop arch (dev_sem arch (if reads then 5 else 4) dnum_t) (negsuc 0)
        modify λ k.
            let r : DevReg = k.dev line dnum_t in
            set_dev line dnum_t
              (if reads
                then record r { recv_command = command }
                else record r { transm_command = command })
              k

  -- The other branch of ioDevop.
  unfoldable pub device_op : ℕ → ℕ → ℕ → Cmd (Unit {0})
  unfolding semop
  device_op command line dnum = do
    semop arch (dev_sem arch (sub32 line dev_il_start) dnum) (negsuc 0)
    modify λ k. set_dev line dnum (record (k.dev line dnum) { command = command }) k

  -- ioDevop; the line is an `int`, and indexes as an `unsigned int`
  unfoldable pub io_devop : ℕ → ℤ → ℕ → Cmd (Unit {0})
  unfolding terminal_op device_op
  io_devop command line dnum =
      if unsigned32 line == int_terminal
      then terminal_op command (unsigned32 line) dnum
      else device_op command (unsigned32 line) dnum
