-- ===== src/Tests/Orders.antt =====
-- Instances of the theorems on the nucleus as a whole: the machine from main on.
use jae_so.Common.{◌^◌, ◌-◌, ◌≡◌, refl, inl, inr, none, some, true, arith}
use jae_so.Common.Int.{negsuc}
use jae_so.Boot.{main}
use jae_so.Handlers.{kernel_mode, sys_bp_handler}
use jae_so.Interrupts.{interrupt_handler}
use jae_so.Kernel.Machine.{Kernel, set_pcb, zero_state, zero_area}
use jae_so.Kernel.Cmd.{Run, Exit, done, stop, crash, diverge, Returns, Stops}
use jae_so.Nucleus.{IsOrdered, IsNucleus-agree, EndsOrdered}
use jae_so.Nucleus.Boot.{IsCleared, main-IsOrdered}
use jae_so.Nucleus.Create.{create_process-IsOrdered}
use jae_so.Nucleus.Frame.{Frame, Frame-of, IsOrdered-Frame}
use jae_so.Nucleus.Interrupt.{CanServe, interrupt_handler-IsOrdered}
use jae_so.Nucleus.Semop.{semop-IsOrdered}
use jae_so.Nucleus.Above.{HandlesAbove, PassedUp, sys_bp_handler-PassedUp}
use jae_so.Nucleus.Trap.{Trapped, trapped_state, CallsAsUser, sys_bp_handler-Trapped}
use jae_so.Nucleus.Vacant.{interrupt_handler-crash}
use jae_so.Nucleus.Steps.{Reachable, booted, Reachable-IsOrdered}
use jae_so.Syscalls.Process.{create_process}
use jae_so.Syscalls.Semop.{semop}
use jae_so.Tests.Fixture.{machine, power_on, exit_of}

-- The kernel that a run leaves, and how it stopped.
abbrev pub left_by : Run (Unit {0}) → Kernel
left_by (done a k) = k
left_by (stop x k) = k
left_by _ = power_on

left_by-stop : (r : Run (Unit {0})) → EndsOrdered r → (x : Exit) × (r ≡ stop x (left_by r))
left_by-stop (done a k) h = elim h [ ]
left_by-stop (stop x k) h = (x, refl)
left_by-stop crash h = elim h [ ]
left_by-stop diverge h = elim h [ ]

power_on-IsCleared : IsCleared power_on
power_on-IsCleared = record { links = λ b. refl; orphans = λ x. refl }

-- The first process runs.
abbrev pub started : Kernel
started = left_by (main machine power_on)

abbrev start_exit : (x : Exit) × (main machine power_on ≡ stop x started)
start_exit =
    left_by-stop (main machine power_on) (main-IsOrdered machine power_on power_on-IsCleared)

started-Reachable : Reachable machine start_exit.0 started
started-Reachable = booted power_on power_on-IsCleared start_exit.1

pub started-IsOrdered : IsOrdered started
started-IsOrdered = (Reachable-IsOrdered machine start_exit.0 started started-Reachable).0

pub started-current : started.current_process ≡ some 0
unfolding exit_of
started-current = refl

-- It waits on the semaphore at 100, for which there is no descriptor yet.
semop-IsOrdered_example : Returns (λ _ k'. IsOrdered k') (semop machine 100 (negsuc 0) started)
semop-IsOrdered_example =
    semop-IsOrdered machine 100 0 (negsuc 0) started started-IsOrdered started-current (λ e. cc)

create_process-IsOrdered_example : Returns (λ _ k'. IsOrdered k') (create_process 0x5000 started)
create_process-IsOrdered_example =
    create_process-IsOrdered 0x5000 0 started started-IsOrdered started-current

-- The timer interrupts it.
abbrev ticking : Kernel
ticking = record started { cause = 2 ^ 26 }

ticking-Frame : Frame started ticking
ticking-Frame = Frame-of started ticking refl refl refl refl refl refl

ticking-CanServe : CanServe machine ticking
ticking-CanServe = record {
  timer = λ t. (0, started-current);
  device = λ line i t. elim i [
    | inl e ↦ let z : machine.cause_ip_get (2 ^ 26) 3 ≡ true = rw e at t in cc
    | inr (inl e) ↦ let z : machine.cause_ip_get (2 ^ 26) 4 ≡ true = rw e at t in cc
    | inr (inr (inl e)) ↦ let z : machine.cause_ip_get (2 ^ 26) 5 ≡ true = rw e at t in cc
    | inr (inr (inr (inl e))) ↦ let z : machine.cause_ip_get (2 ^ 26) 6 ≡ true = rw e at t in cc
    | inr (inr (inr (inr (inl e)))) ↦
        let z : machine.cause_ip_get (2 ^ 26) 7 ≡ true = rw e at t in cc
    | inr (inr (inr (inr (inr j)))) ↦ elim j [ ]
  ];
}

abbrev tick_exit :
    (x : Exit) × (interrupt_handler machine ticking
      ≡ stop x (left_by (interrupt_handler machine ticking)))
tick_exit = left_by-stop (interrupt_handler machine ticking) (
    interrupt_handler-IsOrdered machine ticking
      (IsOrdered-Frame started ticking ticking-Frame started-IsOrdered) ticking-CanServe)

-- It calls the nucleus for a P on the semaphore at 100.
abbrev calling : Kernel
calling = record started {
  sysbp_old = record zero_state { a1 = 3; a2 = 100; a3 = 2 ^ 32 - 1; cpsr = 0x1f; cp15_cause = 8 };
}

-- It has a handler of its own for program traps.
abbrev handling : Kernel
handling =
    set_pcb 0
      (record (started.pcb 0) {
        pgmtr = record zero_area { new_area = record zero_state { pc = 0x6000 } };
      })
      started

-- It calls the nucleus in user mode.
abbrev trapping : Kernel
trapping = record handling { sysbp_old = record zero_state { a1 = 9; cpsr = 0x10; cp15_cause = 8 } }

trapping-CallsAsUser : CallsAsUser machine trapping 0
unfolding kernel_mode
trapping-CallsAsUser = record {
  current = started-current;
  syscall = refl;
  service = refl;
  user = refl;
  handled = λ e. absurd (omega (arith, e));
}

sys_bp_handler-Trapped_example :
    Stops
      (Trapped machine 0
        (trapped_state machine trapping.sysbp_old)
        (trapping.pcb 0).pgmtr.new_area
        trapping.links)
      (sys_bp_handler machine trapping)
sys_bp_handler-Trapped_example = sys_bp_handler-Trapped machine trapping 0 trapping-CallsAsUser

-- The timer interrupts while the processor waits.
abbrev vacant : Kernel
vacant = record ticking { current_process = none }

vacant-IsOrdered : IsOrdered vacant
vacant-IsOrdered =
    let (v, n) = started-IsOrdered in
    (v, IsNucleus-agree v started vacant refl refl (λ x. refl) (λ x. refl) (λ p e. cc) refl n)

interrupt_handler-crash_example : interrupt_handler machine vacant ≡ crash
interrupt_handler-crash_example =
    interrupt_handler-crash machine vacant vacant-IsOrdered refl
      (record { no_ipi = refl; no_cputimer = refl; timer = refl })

-- It has a handler for calls above those of the nucleus, and makes one, with two arguments.
abbrev asking : Kernel
asking =
    set_pcb 0
      (record (started.pcb 0) {
        sysbp = record zero_area { new_area = record zero_state { pc = 0x7000 } };
      })
      (record started {
        sysbp_old = record zero_state { a1 = 20; a2 = 3; a3 = 4; cpsr = 0x1f; cp15_cause = 8 };
      })

asking-HandlesAbove : HandlesAbove machine asking 0
asking-HandlesAbove = record { current = started-current; handled = λ e. absurd (omega (arith, e)) }

sys_bp_handler-PassedUp_example :
    Stops
      (PassedUp machine 0 asking.sysbp_old (asking.pcb 0).sysbp.new_area asking.links)
      (sys_bp_handler machine asking)
sys_bp_handler-PassedUp_example =
    sys_bp_handler-PassedUp machine asking 0 asking-HandlesAbove (inl (refl, refl))
