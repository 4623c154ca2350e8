-- ===== src/Nucleus/Calls.antt =====
-- The system calls that neither make nor end a process keep the nucleus in order.
use jae_so.Common.{ℕ, inl, inr, ◌⊎◌, zero, suc, arith, ◌≡◌, ◌≢◌, ◌<◌, refl, sym, some, ◌==◌}
use jae_so.Common.Int.{ℤ, pos, negsuc}
use jae_so.Kernel.Arch.{Arch}
use jae_so.Kernel.Machine.{Kernel, Area, Pcb, StateRef, set_pcb, sysbp_old, tlb_old, pgm_old}
use jae_so.Kernel.Cmd.{Returns, Ends, and_then, modify, need, exit, panic}
use jae_so.Kernel.Rules.{
  Returns-if, Returns-and_then, Ends-of_Returns, Ends-if, Ends-done, need-some,
}
use jae_so.Syscalls.Areas.{
  Handler, sbk_hdl, tlb_hdl, pgm_hdl, area, set_area, common_sys, leave_trap, exit_trap,
}
use jae_so.Syscalls.Device.{get_cpu_time, get_pid, wait_clock, terminal_op, device_op, io_devop}
use jae_so.Syscalls.Semop.{semop, unsigned32}
use jae_so.Nucleus.{IsOrdered, IsNucleus-agree, Settles}
use jae_so.Nucleus.Frame.{Frame, Frame-of, IsOrdered-Frame, set_pcb-Frame}
use jae_so.Nucleus.End.{MayEnd, terminate_process-IsOrdered}
use jae_so.Syscalls.Process.{terminate_process}
use jae_so.Nucleus.Semop.{semop-IsOrdered}

-- An area says nothing of the semaphore and the parent.
area-cursem : (h : Handler) (a : Area) (b : Pcb) → (set_area h a b).p_cursem ≡ b.p_cursem
area-cursem sbk_hdl a b = refl
area-cursem tlb_hdl a b = refl
area-cursem pgm_hdl a b = refl

area-parent : (h : Handler) (a : Area) (b : Pcb) → (set_area h a b).p_parent ≡ b.p_parent
area-parent sbk_hdl a b = refl
area-parent tlb_hdl a b = refl
area-parent pgm_hdl a b = refl

pub set_area-Frame :
    (k : Kernel) (p : ℕ) (h : Handler) (a : Area) → Frame k (set_pcb p (set_area h a (k.pcb p)) k)
set_area-Frame k p h a =
    set_pcb-Frame k p (set_area h a (k.pcb p)) (area-cursem h a (k.pcb p))
      (area-parent h a (k.pcb p))

module _ (arch : Arch) (k : Kernel) (p : ℕ) (o : IsOrdered k) (c : k.current_process ≡ some p) where
  -- The state of the kernel with its current process written out.
  abbrev told : Kernel
  told = record k { current_process = some p }

  told-IsOrdered : IsOrdered told
  told-IsOrdered = IsOrdered-Frame k told (Frame-of k told refl refl refl (sym c) refl refl) o

  pub semop-Ends : (sem : ℕ) (w : ℤ) → w ≢ pos 0 → Ends IsOrdered Settles (semop arch sem w k)
  unfolding semop
  semop-Ends sem (pos zero) m = absurd (m refl)
  semop-Ends sem (pos (suc n)) m =
      Ends-of_Returns (λ _ k'. IsOrdered k') IsOrdered Settles (semop arch sem (pos (suc n)) k)
        (semop-IsOrdered arch sem p (pos (suc n)) k o c (λ e. cc)) (λ _ k' h. h)
  semop-Ends sem (negsuc n) m =
      Ends-of_Returns (λ _ k'. IsOrdered k') IsOrdered Settles (semop arch sem (negsuc n) k)
        (semop-IsOrdered arch sem p (negsuc n) k o c (λ e. cc)) (λ _ k' h. h)

  -- A P on 1, and a change that concerns no list.
  after_p :
      (sem : ℕ) (f : Kernel → Kernel)
      → ((k' : Kernel) → IsOrdered k' → IsOrdered (f k'))
      → Returns (λ _ k'. IsOrdered k') (and_then (semop arch sem (negsuc 0) k) λ _. modify f)
  after_p sem f h =
      Returns-and_then (λ _ k'. IsOrdered k') (λ _ k'. IsOrdered k') (semop arch sem (negsuc 0) k) _
        (semop-IsOrdered arch sem p (negsuc 0) k o c (λ e. cc)) (λ _ k' i. h k' i)

  pub wait_clock-IsOrdered : Returns (λ _ k'. IsOrdered k') (wait_clock arch k)
  unfolding wait_clock
  wait_clock-IsOrdered =
      after_p _ _ λ k' (v, n).
        (v, IsNucleus-agree v k' _ refl refl (λ x. refl) (λ x. refl) n.at_current refl n)

  pub io_devop-IsOrdered :
      (command : ℕ) (line : ℤ) (dnum : ℕ)
      → Returns (λ _ k'. IsOrdered k') (io_devop arch command line dnum k)
  unfolding io_devop
  io_devop-IsOrdered command line dnum =
      Returns-if (λ _ k'. IsOrdered k') (unsigned32 line == arch.int_terminal)
        (terminal_op arch command (unsigned32 line) dnum)
        (device_op arch command (unsigned32 line) dnum) k
        (λ e.
          after_p _ _ λ k' i. IsOrdered-Frame k' _ (Frame-of k' _ refl refl refl refl refl refl) i)
        (λ e.
          after_p _ _ λ k' i. IsOrdered-Frame k' _ (Frame-of k' _ refl refl refl refl refl refl) i)

  pub get_cpu_time-IsOrdered :
      (global user : ℕ) → Returns (λ _ k'. IsOrdered k') (get_cpu_time global user k)
  unfolding get_cpu_time
  get_cpu_time-IsOrdered global user =
      rw c (IsOrdered-Frame told _ (Frame-of told _ refl refl refl refl refl refl) told-IsOrdered)

  pub get_pid-IsOrdered : Returns (λ _ k'. IsOrdered k') (get_pid k)
  unfolding get_pid
  get_pid-IsOrdered =
      rw c (IsOrdered-Frame told _ (Frame-of told _ refl refl refl refl refl refl) told-IsOrdered)

  leave_trap-IsOrdered :
      (h : Handler) (ref : ℕ → StateRef) (retval : ℕ)
      → Ends IsOrdered Settles (leave_trap h ref retval k)
  unfolding leave_trap
  leave_trap-IsOrdered h ref retval =
      Ends-done IsOrdered Settles (need k.current_process k) _ p k
        (need-some k.current_process p k c)
        (IsOrdered-Frame (set_pcb p (set_area h _ (k.pcb p)) k) _
          (Frame-of _ _ refl refl refl refl refl refl)
          (IsOrdered-Frame k _ (set_area-Frame k p h _) o))

  pub ended_now : MayEnd k p → Ends IsOrdered Settles (terminate_process arch 0 k)
  ended_now m =
      Ends-of_Returns (λ _ k'. IsOrdered k') IsOrdered Settles (terminate_process arch 0 k)
        (terminate_process-IsOrdered arch 0 p k o c m) (λ _ k' i. i)

  -- The registration of an area: a second one ends the process.
  pub common_sys-IsOrdered :
      (h : Handler) (pc sp flags : ℕ)
      → ((area h (k.pcb p)).new_area.pc ≡ 0) ⊎ MayEnd k p
      → Ends IsOrdered Settles (common_sys arch h pc sp flags k)
  unfolding common_sys
  common_sys-IsOrdered h pc sp flags e =
      Ends-done IsOrdered Settles (need k.current_process k) _ p k
        (need-some k.current_process p k c)
        (Ends-if IsOrdered Settles ((area h (k.pcb p)).new_area.pc == 0) _ _ k
          (λ t. IsOrdered-Frame k _ (set_area-Frame k p h _) o)
          (λ t. elim e [ inl q ↦ absurd (ground arith) | inr m ↦ ended_now m ]))

  pub exit_trap-IsOrdered :
      (excptype retval : ℕ) → excptype < 3 → Ends IsOrdered Settles (exit_trap excptype retval k)
  unfolding exit_trap
  exit_trap-IsOrdered excptype retval l =
      Ends-if IsOrdered Settles (excptype == 0) (leave_trap sbk_hdl sysbp_old retval) _ k
        (λ e. leave_trap-IsOrdered sbk_hdl sysbp_old retval)
        λ e0.
          Ends-if IsOrdered Settles (excptype == 1) (leave_trap tlb_hdl tlb_old retval) _ k
            (λ e. leave_trap-IsOrdered tlb_hdl tlb_old retval)
            λ e1.
              Ends-if IsOrdered Settles (excptype == 2) (leave_trap pgm_hdl pgm_old retval)
                (exit panic) k (λ e. leave_trap-IsOrdered pgm_hdl pgm_old retval)
                (λ e. absurd (ground arith))
