-- ===== src/Common/Without.antt =====
-- Numbers in lists: taking one out, and how many distinct ones there are below a bound.
use Prim.Native.Nat.{ℕ, zero, suc, ◌≤◌, ◌<◌}
use mathlib.Core.Path.{◌≡◌, refl, sym, ◌∙◌}
use mathlib.Core.Logic.{◌≢◌, ◌⊎◌, inl, inr}
use mathlib.Core.List.{List, [], ◌∷◌, ◌++◌}
use native.Mathlib.Omega.{arith}
use native.Mathlib.Decide.{ℕ_discrete}
use jae_so.Common.Tests.{◌==◌, if◌then◌else◌}
use jae_so.Common.Lists.{length, All, Fresh, Distinct, In}

-- The list without the first occurrence of `d`.
unfoldable pub without : ℕ → List ℕ → List ℕ
without d [] = []
without d (x ∷ xs) = if d == x then xs else x ∷ without d xs

pub without-hit : (d x : ℕ) (xs : List ℕ) → d ≡ x → without d (x ∷ xs) ≡ xs
unfolding without
without-hit d x xs e = ground arith

pub without-miss : (d x : ℕ) (xs : List ℕ) → d ≢ x → without d (x ∷ xs) ≡ x ∷ without d xs
unfolding without
without-miss d x xs n = ground arith

pub length-without : (d : ℕ) (ds : List ℕ) → length (without d ds) ≤ length ds
unfolding without
length-without d [] = omega arith
length-without d (x ∷ xs) = ground (arith, length-without d xs)

pub length-le_without : (d : ℕ) (ds : List ℕ) → length ds ≤ suc (length (without d ds))
unfolding without
length-le_without d [] = omega arith
length-le_without d (x ∷ xs) = ground (arith, length-le_without d xs)

pub length-without-In : (d : ℕ) (ds : List ℕ) → In d ds → suc (length (without d ds)) ≡ length ds
unfolding without
length-without-In d [] i = elim i [ ]
length-without-In d (x ∷ xs) i = ground (arith, length-without-In d xs)

pub All-without : (P : ℕ → Type 0) (d : ℕ) (ds : List ℕ) → All P ds → All P (without d ds)
unfolding without
All-without P d [] a = tt
All-without P d (x ∷ xs) a = ground (arith, All-without P d xs a.1)

Fresh-without : (a d : ℕ) (xs : List ℕ) → Fresh a xs → Fresh a (without d xs)
unfolding without
Fresh-without a d [] f = tt
Fresh-without a d (x ∷ xs) f = ground (arith, Fresh-without a d xs f.1)

Distinct-without : (d : ℕ) (xs : List ℕ) → Distinct xs → Distinct (without d xs)
unfolding without
Distinct-without d [] u = tt
Distinct-without d (x ∷ xs) u = ground (arith, Fresh-without x d xs u.0, Distinct-without d xs u.1)

below_Fresh : (n : ℕ) (xs : List ℕ) → Fresh n xs → All (λ x. x < suc n) xs → All (λ x. x < n) xs
below_Fresh n [] f a = tt
below_Fresh n (x ∷ xs) f a = (ground arith, below_Fresh n xs f.1 a.1)

-- Distinct numbers up to `n`, without `n`, are below it.
below :
    (n : ℕ) (xs : List ℕ) → Distinct xs → All (λ x. x < suc n) xs → All (λ x. x < n) (without n xs)
unfolding without
below n [] u a = tt
below n (x ∷ xs) u a = elim (ℕ_discrete n x) [
  | yes e ↦ rw (without-hit n x xs e) (below_Fresh n xs (rw (← e) at u.0) a.1)
  | no m ↦ rw (without-miss n x xs m) (ground arith, below n xs u.1 a.1)
]

ne_of_Fresh : (a x : ℕ) (xs : List ℕ) → Fresh a xs → In x xs → a ≢ x
ne_of_Fresh a x [] f i = elim i [ ]
ne_of_Fresh a x (y ∷ ys) f (inl e) = λ q. f.0 (q ∙ e)
ne_of_Fresh a x (y ∷ ys) f (inr i) = ne_of_Fresh a x ys f.1 i

pub Fresh-of : (a : ℕ) (xs : List ℕ) → ((x : ℕ) → In x xs → a ≢ x) → Fresh a xs
Fresh-of a [] h = tt
Fresh-of a (x ∷ xs) h = (h x (inl refl), Fresh-of a xs (λ y i. h y (inr i)))

-- There are at most `n` distinct numbers below `n`.
pub Distinct-length : (n : ℕ) (xs : List ℕ) → Distinct xs → All (λ x. x < n) xs → length xs ≤ n
Distinct-length zero [] u a = omega arith
Distinct-length zero (x ∷ xs) u a = absurd (omega arith)
Distinct-length (suc n) xs u a = omega (
  arith,
  length-le_without n xs,
  Distinct-length n (without n xs) (Distinct-without n xs u) (below n xs u a),
)

pub In-append : (x : ℕ) (xs : List ℕ) (y : ℕ) → In x (xs ++ y ∷ []) → In x xs ⊎ (x ≡ y)
In-append x [] y (inl e) = inr e
In-append x [] y (inr i) = elim i [ ]
In-append x (z ∷ zs) y (inl e) = inl (inl e)
In-append x (z ∷ zs) y (inr i) = elim (In-append x zs y i) [ inl j ↦ inl (inr j) | inr e ↦ inr e ]

pub In-append_left : (x : ℕ) (xs : List ℕ) (y : ℕ) → In x xs → In x (xs ++ y ∷ [])
In-append_left x [] y i = elim i [ ]
In-append_left x (z ∷ zs) y (inl e) = inl e
In-append_left x (z ∷ zs) y (inr i) = inr (In-append_left x zs y i)

pub In-append_last : (xs : List ℕ) (y : ℕ) → In y (xs ++ y ∷ [])
In-append_last [] y = inl refl
In-append_last (z ∷ zs) y = inr (In-append_last zs y)

pub In-without : (d x : ℕ) (xs : List ℕ) → Distinct xs → In x (without d xs) → In x xs × (x ≢ d)
unfolding without
In-without d x [] u i = elim i [ ]
In-without d x (y ∷ ys) u i = elim (ℕ_discrete d y) [
  | yes e ↦
      let j : In x ys = rw (without-hit d y ys e) at i in
      (inr j, λ q. ne_of_Fresh y x ys u.0 j (sym e ∙ sym q))
  | no n ↦
      let j : In x (y ∷ without d ys) = rw (without-miss d y ys n) at i in
      elim j [
        | inl e ↦ (inl e, λ q. n (sym q ∙ e))
        | inr l ↦ let r = In-without d x ys u.1 l in (inr r.0, r.1)
      ]
]

pub without-In : (d x : ℕ) (xs : List ℕ) → In x xs → x ≢ d → In x (without d xs)
without-In d x [] i n = elim i [ ]
without-In d x (y ∷ ys) i n = elim (ℕ_discrete d y) [
  | yes e ↦ rw (without-hit d y ys e) (elim i [ inl q ↦ absurd (n (q ∙ sym e)) | inr j ↦ j ])
  | no m ↦
      rw (without-miss d y ys m) (elim i [ inl q ↦ inl q | inr j ↦ inr (without-In d x ys j n) ])
]
