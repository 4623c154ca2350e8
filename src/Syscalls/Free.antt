-- ===== src/Syscalls/Free.antt =====
-- semop where no process has to wait or to be woken.
use jae_so.Common.{
  ℕ, zero, suc, ◌+◌, ◌-◌, ◌%◌, ◌^◌, ◌<◌, ltb, refl, sym, ap, ◌∙◌, subst, ◌≤◌, ◌≡◌, none, List,
  arith, length, false,
}
use jae_so.Common.Int.{ℤ, pos, negsuc, ◌+ℤ◌, ◌-ℤ◌, ltb_ℤ, pos_part, neg_part}
use jae_so.Kernel.Arch.{Arch}
use jae_so.Kernel.Machine.{Kernel, max_proc, set_word}
use jae_so.Kernel.Cmd.{done}
use jae_so.Asl.{head_blocked}
use jae_so.Asl.Find.{IsActive, seek, find_semd-seek}
use jae_so.Syscalls.Semop.{semop, wake_loop, take_resources, signed32, unsigned32, add_int, sub_int}

-- No process is blocked on the semaphore at `sem`.
pub record IsFree (k : Kernel) (sem : ℕ) (ds : List ℕ) : Type 0 where
  pub few : length ds ≤ max_proc
  pub active : IsActive k ds
  pub absent : seek k sem ds ≡ none

-- The value of an `int`.
abbrev pub IsInt : ℤ → Type 0
IsInt (pos n) = n < 2 ^ 31
IsInt (negsuc n) = n < 2 ^ 31

wrap : (z : ℤ) → IsInt z → signed32 (unsigned32 z) ≡ z
wrap (pos n) l = ground arith
wrap (negsuc n) l =
    let u : n % 2 ^ 32 ≡ n = omega arith in
    let t : ltb (2 ^ 32 - 1 - n) (2 ^ 31) ≡ false = ground arith in
    let e : 2 ^ 32 - (2 ^ 32 - 1 - n) - 1 ≡ n = omega arith in rw (u, t, e) refl

pub add_int-IsInt : (a b : ℤ) → IsInt (a +ℤ b) → add_int a b ≡ a +ℤ b
unfolding add_int
add_int-IsInt a b l = wrap (a +ℤ b) l

-- What semop leaves in the semaphore when no process has to wait or to be woken.
abbrev pub stored : ℤ → ℤ → ℤ
stored v (pos n) = add_int (pos n) v
stored v (negsuc n) = sub_int v (pos (suc n))

-- The weight is not 0, and if it is negative the value is enough for it.
abbrev pub IsGranted : ℤ → ℤ → Type 0
IsGranted v (pos zero) = ⊥
IsGranted v (pos (suc n)) = Unit
IsGranted v (negsuc n) = ltb_ℤ (sub_int v (pos (suc n))) (pos 0) ≡ false

+ℤ_comm : (a b : ℤ) → a +ℤ b ≡ b +ℤ a
unfolding ◌+ℤ◌
+ℤ_comm a b =
    let e : pos_part a + pos_part b ≡ pos_part b + pos_part a = omega arith in
    let f : neg_part a + neg_part b ≡ neg_part b + neg_part a = omega arith in rw (e, f)

sub-negsuc : (v : ℤ) (n : ℕ) → v -ℤ pos (suc n) ≡ v +ℤ negsuc n
unfolding ◌+ℤ◌ ◌-ℤ◌
sub-negsuc v n = refl

stored-IsInt : (v w : ℤ) → IsInt (v +ℤ w) → stored v w ≡ v +ℤ w
unfolding sub_int
stored-IsInt v (pos n) l =
    add_int-IsInt (pos n) v (subst IsInt (+ℤ_comm v (pos n)) l) ∙ +ℤ_comm (pos n) v
stored-IsInt v (negsuc n) l =
    ap (λ z. signed32 (unsigned32 z)) (sub-negsuc v n) ∙ wrap (v +ℤ negsuc n) l

-- The value covers the weight, if it is negative.
abbrev pub IsCovered : ℤ → ℤ → Type 0
IsCovered v (pos zero) = ⊥
IsCovered v (pos (suc n)) = Unit
IsCovered v (negsuc n) = ltb_ℤ (v +ℤ negsuc n) (pos 0) ≡ false

IsCovered-IsGranted : (v w : ℤ) → IsInt (v +ℤ w) → IsCovered v w → IsGranted v w
IsCovered-IsGranted v (pos zero) l c = c
IsCovered-IsGranted v (pos (suc n)) l c = c
IsCovered-IsGranted v (negsuc n) l c =
    subst (λ z. ltb_ℤ z (pos 0) ≡ false) (sym (stored-IsInt v (negsuc n) l)) c

module _ (arch : Arch) (k : Kernel) (sem : ℕ) (ds : List ℕ) (f : IsFree k sem ds) where
  head_blocked-free : head_blocked sem k ≡ done none k
  unfolding head_blocked
  head_blocked-free = rw (find_semd-seek k sem ds f.few f.active, f.absent)

  pub semop-stored :
      (w : ℤ)
      → IsGranted (k.word sem) w
      → semop arch sem w k ≡ done tt (set_word sem (stored (k.word sem) w) k)
  unfolding semop wake_loop take_resources
  semop-stored (pos zero) g = elim g [ ]
  semop-stored (pos (suc n)) g = rw head_blocked-free refl
  semop-stored (negsuc n) g = rw head_blocked-free (rw g refl)

  -- With no descriptor for the semaphore in the well-formed active list, semop with a weight that
  -- is not 0, whose sum with the value fits an int, and which the value covers if it is negative,
  -- adds the weight to the semaphore and changes nothing else.
  pub semop-free :
      (w : ℤ)
      → IsInt (k.word sem +ℤ w)
      → IsCovered (k.word sem) w
      → semop arch sem w k ≡ done tt (set_word sem (k.word sem +ℤ w) k)
  semop-free w l c =
      semop-stored w (IsCovered-IsGranted (k.word sem) w l c)
      ∙ ap (λ z. done tt (set_word sem z k)) (stored-IsInt (k.word sem) w l)
