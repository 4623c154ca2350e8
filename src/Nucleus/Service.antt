-- ===== src/Nucleus/Service.antt =====
-- defSys, and what the accounting of time leaves of a call.
use jae_so.Common.{
  ℕ, ◌≡◌, ◌≢◌, ◌<◌, refl, inl, inr, ◌⊎◌, none, some, Option, Bool-cases, ◌==◌, if◌then◌else◌, arith,
}
use jae_so.Common.Int.{pos}
use jae_so.Kernel.Arch.{Arch}
use jae_so.Kernel.Machine.{State, Kernel, Pcb, update_field, update}
use jae_so.Kernel.Cmd.{Cmd, Returns, Ends, pure}
use jae_so.Kernel.Rules.{Ends-if, Ends-of_Returns}
use jae_so.Accounting.{on_handler_enter, on_handler_exit}
use jae_so.Syscalls.Areas.{
  Handler, sbk_hdl, tlb_hdl, pgm_hdl, area, spec_sys_hdl, spec_tlb_hdl, spec_pgm_t_hdl, exit_trap,
}
use jae_so.Syscalls.Device.{get_cpu_time, get_pid, wait_clock, io_devop}
use jae_so.Syscalls.Process.{create_process, terminate_process}
use jae_so.Syscalls.Semop.{semop, signed32}
use jae_so.Handlers.{dispatch_sys}
use jae_so.Nucleus.{IsOrdered, Settles}
use jae_so.Nucleus.Calls
use jae_so.Nucleus.End.{MayEnd, terminate_process-IsOrdered}
use jae_so.Nucleus.Create.{create_process-IsOrdered}

-- The kernel `k'` has the call and the areas of `k`.
pub record SameCall (k k' : Kernel) : Type 0 where
  pub rom : k'.sysbp_old ≡ k.sysbp_old
  pub by_sys : k'.by_sys_hdl ≡ k.by_sys_hdl
  pub trap : k'.pgm_old ≡ k.pgm_old
  pub loaded : k'.state_loaded ≡ k.state_loaded
  pub areas : (h : Handler) (x : ℕ) → area h (k'.pcb x) ≡ area h (k.pcb x)

module _ (now : ℕ) (k : Kernel) where
  pub same_area :
      (h : Handler) (p x : ℕ) (b : Pcb)
      → b.sysbp ≡ (k.pcb p).sysbp
      → b.tlb ≡ (k.pcb p).tlb
      → b.pgmtr ≡ (k.pcb p).pgmtr
      → area h (update k.pcb p b x) ≡ area h (k.pcb x)
  same_area sbk_hdl p x b e f g = update_field (λ (c : Pcb). c.sysbp) k.pcb p b x e
  same_area tlb_hdl p x b e f g = update_field (λ (c : Pcb). c.tlb) k.pcb p b x f
  same_area pgm_hdl p x b e f g = update_field (λ (c : Pcb). c.pgmtr) k.pcb p b x g

  enter_call :
      (c : Option ℕ)
      → k.current_process ≡ c
      → Returns (λ _ k'. SameCall k k') (on_handler_enter now k)
  unfolding on_handler_enter
  enter_call none e =
      rw (e, on_handler_enter)
        (record { rom = refl; by_sys = refl; trap = refl; loaded = refl; areas = λ h x. refl })
  enter_call (some p) e =
      rw (e, on_handler_enter)
        (record {
          rom = refl;
          by_sys = refl;
          trap = refl;
          loaded = refl;
          areas = λ h x. same_area h p x _ refl refl refl;
        })

  pub on_handler_enter-SameCall : Returns (λ _ k'. SameCall k k') (on_handler_enter now k)
  on_handler_enter-SameCall = enter_call k.current_process refl

  exit_call :
      (flag : ℕ) (c : Option ℕ)
      → k.current_process ≡ c
      → Returns (λ _ k'. SameCall k k') (on_handler_exit now flag k)
  unfolding on_handler_exit
  exit_call flag none e = elim (Bool-cases (flag == 1)) [
    | inl f ↦
        rw (e, on_handler_exit, f)
          (record { rom = refl; by_sys = refl; trap = refl; loaded = refl; areas = λ h x. refl })
    | inr f ↦
        rw (on_handler_exit, f)
          (record { rom = refl; by_sys = refl; trap = refl; loaded = refl; areas = λ h x. refl })
  ]
  exit_call flag (some p) e = elim (Bool-cases (flag == 1)) [
    | inl f ↦
        rw (e, on_handler_exit, f)
          (record {
            rom = refl;
            by_sys = refl;
            trap = refl;
            loaded = refl;
            areas = λ h x. same_area h p x _ refl refl refl;
          })
    | inr f ↦
        rw (on_handler_exit, f)
          (record { rom = refl; by_sys = refl; trap = refl; loaded = refl; areas = λ h x. refl })
  ]

  pub on_handler_exit-SameCall :
      (flag : ℕ) → Returns (λ _ k'. SameCall k k') (on_handler_exit now flag k)
  on_handler_exit-SameCall flag = exit_call flag k.current_process refl

-- A call of the nucleus by `p` that does not panic, with a weight of 0 or an unknown type of exception,
-- and ends processes only if they may be ended: a call of terminateProcess, or a second registration
-- of an area.
pub record MayCall (s : State) (p : ℕ) (k : Kernel) : Type 0 where
  pub ends : s.a1 ≡ 2 → MayEnd k p
  pub weight : s.a1 ≡ 3 → signed32 s.a3 ≢ pos 0
  pub trap : s.a1 ≡ 7 → s.a2 < 3
  pub sysbp : s.a1 ≡ 4 → ((area sbk_hdl (k.pcb p)).new_area.pc ≡ 0) ⊎ MayEnd k p
  pub tlb : s.a1 ≡ 5 → ((area tlb_hdl (k.pcb p)).new_area.pc ≡ 0) ⊎ MayEnd k p
  pub pgm : s.a1 ≡ 6 → ((area pgm_hdl (k.pcb p)).new_area.pc ≡ 0) ⊎ MayEnd k p

module _ (arch : Arch) (k : Kernel) (p : ℕ) (o : IsOrdered k) (c : k.current_process ≡ some p) where
  -- One case of the switch.
  choice :
      (a n : ℕ) (m rest : Cmd (Unit {0}))
      → (a ≡ n → Ends IsOrdered Settles (m k))
      → Ends IsOrdered Settles (rest k)
      → Ends IsOrdered Settles ((if a == n then m else rest) k)
  choice a n m rest f g =
      Ends-if IsOrdered Settles (a == n) m rest k (λ e. f (ground arith)) (λ e. g)

  returned :
      (m : Cmd (Unit {0})) → Returns (λ _ k'. IsOrdered k') (m k) → Ends IsOrdered Settles (m k)
  returned m h = Ends-of_Returns (λ _ k'. IsOrdered k') IsOrdered Settles (m k) h (λ _ k' i. i)

  pub dispatch_sys-IsOrdered :
      (s : State) → MayCall s p k → Ends IsOrdered Settles (dispatch_sys arch s k)
  unfolding dispatch_sys spec_sys_hdl spec_tlb_hdl spec_pgm_t_hdl
  dispatch_sys-IsOrdered s r =
      choice s.a1 1 (create_process s.a2) _
        (λ e. returned (create_process s.a2) (create_process-IsOrdered s.a2 p k o c))
        (choice s.a1 2 (terminate_process arch s.a2) _
          (λ e.
            returned (terminate_process arch s.a2)
              (terminate_process-IsOrdered arch s.a2 p k o c (r.ends e)))
          (choice s.a1 3 (semop arch s.a2 (signed32 s.a3)) _
            (λ e. Calls.semop-Ends arch k p o c s.a2 (signed32 s.a3) (r.weight e))
            (choice s.a1 4 (spec_sys_hdl arch s.a2 s.a3 s.a4) _
              (λ e. Calls.common_sys-IsOrdered arch k p o c sbk_hdl s.a2 s.a3 s.a4 (r.sysbp e))
              (choice s.a1 5 (spec_tlb_hdl arch s.a2 s.a3 s.a4) _
                (λ e. Calls.common_sys-IsOrdered arch k p o c tlb_hdl s.a2 s.a3 s.a4 (r.tlb e))
                (choice s.a1 6 (spec_pgm_t_hdl arch s.a2 s.a3 s.a4) _
                  (λ e. Calls.common_sys-IsOrdered arch k p o c pgm_hdl s.a2 s.a3 s.a4 (r.pgm e))
                  (choice s.a1 7 (exit_trap s.a2 s.a3) _
                    (λ e. Calls.exit_trap-IsOrdered arch k p o c s.a2 s.a3 (r.trap e))
                    (choice s.a1 8 (get_cpu_time s.a2 s.a3) _
                      (λ e.
                        returned (get_cpu_time s.a2 s.a3)
                          (Calls.get_cpu_time-IsOrdered arch k p o c s.a2 s.a3))
                      (choice s.a1 9 (wait_clock arch) _
                        (λ e. returned (wait_clock arch) (Calls.wait_clock-IsOrdered arch k p o c))
                        (choice s.a1 10 (io_devop arch s.a2 (signed32 s.a3) s.a4) _
                          (λ e.
                            returned (io_devop arch s.a2 (signed32 s.a3) s.a4)
                              (Calls.io_devop-IsOrdered arch k p o c s.a2 (signed32 s.a3) s.a4))
                          (choice s.a1 11 get_pid (pure tt)
                            (λ e. returned get_pid (Calls.get_pid-IsOrdered arch k p o c))
                            o))))))))))
