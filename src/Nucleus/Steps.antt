-- ===== src/Nucleus/Steps.antt =====
-- Runs of the machine: main, and then the process that runs, the interrupts and the exceptions, in
-- any order. A handler that stops the processor by a load or a wait is followed by the next one.
use jae_so.Common.{ℕ, ◌≡◌, ◌∙◌, ap, some}
use jae_so.Kernel.Arch.{Arch}
use jae_so.Kernel.Machine.{Kernel}
use jae_so.Memory.{ready_queue}
use jae_so.Kernel.Cmd.{Exit, Run, stop, load, wait, halt, panic}
use jae_so.Boot.{main}
use jae_so.Handlers.{pgm_trap_handler, tlb_handler, sys_bp_handler}
use jae_so.Interrupts.{interrupt_handler}
use jae_so.Nucleus.{IsOrdered, EndsOrdered, Settled, Settles}
use jae_so.Nucleus.Boot.{IsCleared, main-IsOrdered}
use jae_so.Nucleus.End.{HandlesOrEnds}
use jae_so.Nucleus.Exceptions.{MayRaise, sys_bp_handler-IsOrdered}
use jae_so.Nucleus.PassUp.{pgm_trap_handler-IsOrdered, tlb_handler-IsOrdered}
use jae_so.Nucleus.Frame.{Frame, IsOrdered-Frame}
use jae_so.Nucleus.Interrupt.{CanServe, interrupt_handler-IsOrdered}

module _ (arch : Arch) where
  -- From one time at which no handler runs to the next: how the processor was given up last.
  pub data Step (x : Exit) (k : Kernel) : Exit → Kernel → Type 0 where
    -- processes, devices and the clock change their own part of memory
    elsewhere : {k' : Kernel} → Frame k k' → Step x k x k'
    interrupted :
        {y : Exit} {k' : Kernel}
        → CanServe arch k
        → interrupt_handler arch k ≡ stop y k'
        → Step x k y k'
    called :
        {y : Exit} {k' : Kernel} (p : ℕ)
        → MayRaise arch k p
        → sys_bp_handler arch k ≡ stop y k'
        → Step x k y k'
    trapped :
        {y : Exit} {k' : Kernel} (p : ℕ)
        → k.current_process ≡ some p
        → HandlesOrEnds k p (k.pcb p).pgmtr.new_area.pc
        → pgm_trap_handler arch k ≡ stop y k'
        → Step x k y k'
    missed :
        {y : Exit} {k' : Kernel} (p : ℕ)
        → k.current_process ≡ some p
        → HandlesOrEnds k p (k.pcb p).tlb.new_area.pc
        → tlb_handler arch k ≡ stop y k'
        → Step x k y k'

  -- The times that a run from main comes to, with the last exit.
  pub data Reachable : Exit → Kernel → Type 0 where
    booted :
        {x : Exit} {k : Kernel} (k0 : Kernel)
        → IsCleared k0
        → main arch k0 ≡ stop x k
        → Reachable x k
    after : {x y : Exit} {k k' : Kernel} → Reachable x k → Step x k y k' → Reachable y k'

  Settled-Frame : (x : Exit) (k k' : Kernel) → Frame k k' → Settled x k → Settled x k'
  Settled-Frame (load r) k k' f h = (h.0, f.current ∙ h.1)
  Settled-Frame wait k k' f h = ap (λ l. l ready_queue) f.links ∙ h
  Settled-Frame halt k k' f h = ap (λ l. l ready_queue) f.links ∙ h
  Settled-Frame panic k k' f h = ap (λ l. l ready_queue) f.links ∙ h

  stopped :
      {x : Exit} (k' : Kernel) (r : Run (Unit {0})) → EndsOrdered r → r ≡ stop x k' → Settles x k'
  stopped k' r l e = rw e at l

  Step-Settles : (x y : Exit) (k k' : Kernel) → Step x k y k' → Settles x k → Settles y k'
  Step-Settles x _ k k' (elsewhere f) o = (IsOrdered-Frame k k' f o.0, Settled-Frame x k k' f o.1)
  Step-Settles x y k k' (interrupted s e) o =
      stopped k' (interrupt_handler arch k) (interrupt_handler-IsOrdered arch k o.0 s) e
  Step-Settles x y k k' (called p s e) o =
      stopped k' (sys_bp_handler arch k) (sys_bp_handler-IsOrdered arch k p o.0 s) e
  Step-Settles x y k k' (trapped p c n e) o =
      stopped k' (pgm_trap_handler arch k) (pgm_trap_handler-IsOrdered arch k p o.0 c n) e
  Step-Settles x y k k' (missed p c n e) o =
      stopped k' (tlb_handler arch k) (tlb_handler-IsOrdered arch k p o.0 c n) e

  pub Reachable-IsOrdered : (x : Exit) (k : Kernel) → Reachable x k → IsOrdered k × Settled x k
  Reachable-IsOrdered x k (booted k0 c e) = stopped k (main arch k0) (main-IsOrdered arch k0 c) e
  Reachable-IsOrdered y k (after {x = x} {k = k0} r s) =
      Step-Settles x y k0 k s (Reachable-IsOrdered x k0 r)
