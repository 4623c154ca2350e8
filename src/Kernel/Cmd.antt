-- ===== src/Kernel/Cmd.antt =====
-- Runs over the kernel's memory. LDST, WAIT, HALT and PANIC do not return.
use jae_so.Common.{ℕ, Bool, Option, none, some, if◌then◌else◌}
use jae_so.Memory.{Links}
use jae_so.Clist.{Result, ok, fault, out_of_fuel}
use jae_so.Kernel.Machine.{StateRef, Pcb, Kernel, set_pcb}

-- How the kernel gives up the processor.
pub data Exit : Type 0 where
  load : StateRef → Exit
  wait halt panic : Exit

-- `crash` is a read or write through NULL or through a pointer of the wrong kind, or the use of a
-- variable that was not set; `diverge` means that the bound on a loop was met.
pub data Run (A : Type 0) : Type 0 where
  done : A → Kernel → Run A
  stop : Exit → Kernel → Run A
  crash : Run A
  diverge : Run A

abbrev pub Cmd : Type 0 → Type 0
Cmd A = Kernel → Run A

module _ {A B : Type 0} where
  abbrev pub and_then : Run A → (A → Cmd B) → Run B
  and_then (done a k) f = f a k
  and_then (stop x k) f = stop x k
  and_then crash f = crash
  and_then diverge f = diverge

  infixl 5 ◌>>=◌ ◌>>◌
  abbrev pub ◌>>=◌ : Cmd A → (A → Cmd B) → Cmd B
  m >>= f = λ k. and_then (m k) f

  abbrev pub ◌>>◌ : Cmd A → Cmd B → Cmd B
  m >> n = m >>= λ _. n

module _ {A : Type 0} where
  abbrev pub pure : A → Cmd A
  pure = done

  abbrev pub exit : Exit → Cmd A
  exit = stop

  abbrev pub failed : Cmd A
  failed k = crash

  abbrev pub ask : (Kernel → A) → Cmd A
  ask f k = done (f k) k

  -- The value behind a pointer or a variable that must be there.
  abbrev pub need : Option A → Cmd A
  need none = failed
  need (some a) = pure a

  abbrev pub lift : Result A → Cmd A
  lift (ok a) k = done a k
  lift fault k = crash
  lift out_of_fuel k = diverge

abbrev pub modify : (Kernel → Kernel) → Cmd (Unit {0})
modify f k = done tt (f k)

-- An operation on the links.
abbrev pub relink : (Links → Result Links) → Cmd (Unit {0})
relink f = ask (λ k. f k.links) >>= lift >>= λ σ. modify λ k. record k { links = σ }

abbrev pub modify_pcb : ℕ → (Pcb → Pcb) → Cmd (Unit {0})
modify_pcb p f = modify λ k. set_pcb p (f (k.pcb p)) k

abbrev pub when : Bool → Cmd (Unit {0}) → Cmd (Unit {0})
when b m = if b then m else pure tt

-- The run returns, and what it returns and leaves satisfies the postcondition.
abbrev pub Returns : {A : Type 0} → (A → Kernel → Type 0) → Run A → Type 0
Returns Q (done a k) = Q a k
Returns Q (stop x k) = ⊥
Returns Q crash = ⊥
Returns Q diverge = ⊥

-- The run gives up the processor in the way and the state described.
abbrev pub Stops : {A : Type 0} → (Exit → Kernel → Type 0) → Run A → Type 0
Stops Q (done a k) = ⊥
Stops Q (stop x k) = Q x k
Stops Q crash = ⊥
Stops Q diverge = ⊥

-- However the run ends, it is no crash, and the bounds on its loops are not met; the kernel satisfies
-- the first postcondition where it returns, and the second one where it gives up the processor.
abbrev pub Ends : {A : Type 0} → (Kernel → Type 0) → (Exit → Kernel → Type 0) → Run A → Type 0
Ends P Q (done a k) = P k
Ends P Q (stop x k) = Q x k
Ends P Q crash = ⊥
Ends P Q diverge = ⊥
