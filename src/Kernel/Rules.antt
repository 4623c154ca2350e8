-- ===== src/Kernel/Rules.antt =====
-- Rules for what a run leaves, by its first part.
use jae_so.Common.{◌≡◌, refl, true, false, Bool, Option, some, if◌then◌else◌}
use jae_so.Kernel.Machine.{Kernel}
use jae_so.Kernel.Cmd.{
  Exit, Run, done, stop, crash, diverge, Cmd, and_then, need, Returns, Stops, Ends,
}

pub Returns-and_then :
    {A B : Type 0} (P : A → Kernel → Type 0) (Q : B → Kernel → Type 0) (r : Run A) (f : A → Cmd B)
    → Returns P r
    → ((a : A) (k : Kernel) → P a k → Returns Q (f a k))
    → Returns Q (and_then r f)
Returns-and_then P Q (done a k) f h g = g a k h
Returns-and_then P Q (stop x k) f h g = elim h [ ]
Returns-and_then P Q crash f h g = elim h [ ]
Returns-and_then P Q diverge f h g = elim h [ ]

-- Both branches return.
pub Returns-if :
    {A : Type 0} (Q : A → Kernel → Type 0) (b : Bool) (m n : Cmd A) (k : Kernel)
    → (b ≡ true → Returns Q (m k))
    → (b ≡ false → Returns Q (n k))
    → Returns Q ((if b then m else n) k)
Returns-if Q true m n k f g = f refl
Returns-if Q false m n k f g = g refl

-- The first part is known.
pub Returns-done :
    {A B : Type 0} (Q : B → Kernel → Type 0) (r : Run A) (f : A → Cmd B) (a : A) (k : Kernel)
    → r ≡ done a k
    → Returns Q (f a k)
    → Returns Q (and_then r f)
Returns-done Q r f a k e h = rw e h

-- A weaker postcondition.
pub Returns-weaken :
    {A : Type 0} (P Q : A → Kernel → Type 0) (r : Run A)
    → Returns P r
    → ((a : A) (k : Kernel) → P a k → Q a k)
    → Returns Q r
Returns-weaken P Q (done a k) h f = f a k h
Returns-weaken P Q (stop x k) h f = elim h [ ]
Returns-weaken P Q crash h f = elim h [ ]
Returns-weaken P Q diverge h f = elim h [ ]

pub Ends-and_then :
    {A B : Type 0} (P R : Kernel → Type 0) (Q : Exit → Kernel → Type 0) (r : Run A) (f : A → Cmd B)
    → Ends P Q r
    → ((a : A) (k : Kernel) → P k → Ends R Q (f a k))
    → Ends R Q (and_then r f)
Ends-and_then P R Q (done a k) f h g = g a k h
Ends-and_then P R Q (stop x k) f h g = h
Ends-and_then P R Q crash f h g = elim h [ ]
Ends-and_then P R Q diverge f h g = elim h [ ]

-- After a run that returns.
pub Ends-returned :
    {A B : Type 0} (P : A → Kernel → Type 0) (R : Kernel → Type 0) (Q : Exit → Kernel → Type 0)
    (r : Run A) (f : A → Cmd B)
    → Returns P r
    → ((a : A) (k : Kernel) → P a k → Ends R Q (f a k))
    → Ends R Q (and_then r f)
Ends-returned P R Q (done a k) f h g = g a k h
Ends-returned P R Q (stop x k) f h g = elim h [ ]
Ends-returned P R Q crash f h g = elim h [ ]
Ends-returned P R Q diverge f h g = elim h [ ]

pub Ends-of_Returns :
    {A : Type 0} (P : A → Kernel → Type 0) (R : Kernel → Type 0) (Q : Exit → Kernel → Type 0)
    (r : Run A)
    → Returns P r
    → ((a : A) (k : Kernel) → P a k → R k)
    → Ends R Q r
Ends-of_Returns P R Q (done a k) h f = f a k h
Ends-of_Returns P R Q (stop x k) h f = elim h [ ]
Ends-of_Returns P R Q crash h f = elim h [ ]
Ends-of_Returns P R Q diverge h f = elim h [ ]

pub Ends-if :
    {A : Type 0} (R : Kernel → Type 0) (Q : Exit → Kernel → Type 0) (b : Bool) (m n : Cmd A)
    (k : Kernel)
    → (b ≡ true → Ends R Q (m k))
    → (b ≡ false → Ends R Q (n k))
    → Ends R Q ((if b then m else n) k)
Ends-if R Q true m n k f g = f refl
Ends-if R Q false m n k f g = g refl

pub Ends-done :
    {A B : Type 0} (R : Kernel → Type 0) (Q : Exit → Kernel → Type 0) (r : Run A) (f : A → Cmd B)
    (a : A) (k : Kernel)
    → r ≡ done a k
    → Ends R Q (f a k)
    → Ends R Q (and_then r f)
Ends-done R Q r f a k e h = rw e h

pub need-some : {A : Type 0} (x : Option A) (a : A) (k : Kernel) → x ≡ some a → need x k ≡ done a k
need-some x a k e = rw e refl

pub Returns-both :
    {A : Type 0} (P Q : A → Kernel → Type 0) (r : Run A)
    → Returns P r
    → Returns Q r
    → Returns (λ a k. P a k × Q a k) r
Returns-both P Q (done a k) h g = (h, g)
Returns-both P Q (stop x k) h g = elim h [ ]
Returns-both P Q crash h g = elim h [ ]
Returns-both P Q diverge h g = elim h [ ]

-- The processor is given up in the first part or in the second.
pub Stops-and_then :
    {A B : Type 0} (P : Kernel → Type 0) (Q : Exit → Kernel → Type 0) (r : Run A) (f : A → Cmd B)
    → Ends P Q r
    → ((a : A) (k : Kernel) → P k → Stops Q (f a k))
    → Stops Q (and_then r f)
Stops-and_then P Q (done a k) f h g = g a k h
Stops-and_then P Q (stop x k) f h g = h
Stops-and_then P Q crash f h g = elim h [ ]
Stops-and_then P Q diverge f h g = elim h [ ]

pub Stops-returned :
    {A B : Type 0} (P : A → Kernel → Type 0) (Q : Exit → Kernel → Type 0) (r : Run A)
    (f : A → Cmd B)
    → Returns P r
    → ((a : A) (k : Kernel) → P a k → Stops Q (f a k))
    → Stops Q (and_then r f)
Stops-returned P Q (done a k) f h g = g a k h
Stops-returned P Q (stop x k) f h g = elim h [ ]
Stops-returned P Q crash f h g = elim h [ ]
Stops-returned P Q diverge f h g = elim h [ ]

pub Stops-done :
    {A B : Type 0} (Q : Exit → Kernel → Type 0) (r : Run A) (f : A → Cmd B) (a : A) (k : Kernel)
    → r ≡ done a k
    → Stops Q (f a k)
    → Stops Q (and_then r f)
Stops-done Q r f a k e h = rw e h

pub Stops-weaken :
    {A : Type 0} (P Q : Exit → Kernel → Type 0) (r : Run A)
    → Stops P r
    → ((x : Exit) (k : Kernel) → P x k → Q x k)
    → Stops Q r
Stops-weaken P Q (done a k) h f = elim h [ ]
Stops-weaken P Q (stop x k) h f = f x k h
Stops-weaken P Q crash h f = elim h [ ]
Stops-weaken P Q diverge h f = elim h [ ]

pub Ends-of_Stops :
    {A : Type 0} (Q : Exit → Kernel → Type 0) (R : Kernel → Type 0) (r : Run A)
    → Stops Q r
    → Ends R Q r
Ends-of_Stops Q R (done a k) h = elim h [ ]
Ends-of_Stops Q R (stop x k) h = h
Ends-of_Stops Q R crash h = elim h [ ]
Ends-of_Stops Q R diverge h = elim h [ ]

-- What comes after the end of a run is not reached.
pub Stops-first :
    {A B : Type 0} (Q : Exit → Kernel → Type 0) (r : Run A) (f : A → Cmd B)
    → Stops Q r
    → Stops Q (and_then r f)
Stops-first Q (done a k) f h = elim h [ ]
Stops-first Q (stop x k) f h = h
Stops-first Q crash f h = elim h [ ]
Stops-first Q diverge f h = elim h [ ]

-- The second part faults, however the first one returns.
pub and_then-crash :
    {A B : Type 0} (P : A → Kernel → Type 0) (r : Run A) (f : A → Cmd B)
    → Returns P r
    → ((a : A) (k : Kernel) → P a k → f a k ≡ crash)
    → and_then r f ≡ crash
and_then-crash P (done a k) f h g = g a k h
and_then-crash P (stop x k) f h g = elim h [ ]
and_then-crash P crash f h g = elim h [ ]
and_then-crash P diverge f h g = elim h [ ]
