-- ===== src/Clist/Fill.antt =====
-- A list that is filled in a loop, as initPcbs and initASL fill theirs.
use mathlib.Core.List.{append-nil, append_assoc, map-append}
use jae_so.Common.{
  ℕ, zero, suc, ◌+◌, ◌≤◌, ◌<◌, ◌≡◌, ◌≢◌, refl, ◌∙◌, subst, inl, inr, List, [], ◌∷◌, ◌++◌, map,
  arith, Fresh, In, All,
}
use jae_so.Memory.{Loc, Links}
use jae_so.Clist.{enqueue}
use jae_so.Clist.Ring.{IsClist, Fresh-map}
use jae_so.Clist.Queue.{enqueue-append, enqueue-frame}

-- The numbers from `i` on.
abbrev pub upto : ℕ → ℕ → List ℕ
upto zero i = []
upto (suc n) i = i ∷ upto n (i + 1)

pub upto-In : (n i x : ℕ) → In x (upto n i) → (i ≤ x) × (x < i + n)
upto-In zero i x j = elim j [ ]
upto-In (suc n) i x (inl e) = (omega arith, omega arith)
upto-In (suc n) i x (inr j) = let (a, b) = upto-In n (i + 1) x j in (omega arith, omega arith)

-- Every number in the list is below the bound.
abbrev Below : ℕ → List ℕ → Type 0
Below n = All (λ x. x < n)

Below-suc : (i : ℕ) (xs : List ℕ) → Below i xs → Below (i + 1) (xs ++ i ∷ [])
Below-suc i [] b = (omega arith, tt)
Below-suc i (x ∷ xs) b = (omega arith, Below-suc i xs b.1)

-- The elements `i`, ... , `i + n - 1` go to the end of the list, in this order.
unfoldable pub fill : (ℕ → Loc) → Loc → ℕ → ℕ → Links → Links
fill f h zero i σ = σ
fill f h (suc n) i σ = fill f h n (i + 1) (enqueue (f i) h σ)

module _ (f : ℕ → Loc) (h : Loc) (distinct : (x y : ℕ) → f x ≡ f y → x ≡ y)
    (tail : (x : ℕ) → f x ≢ h) where
  Fresh-Below : (i : ℕ) (xs : List ℕ) → Below i xs → Fresh (f i) (map f xs)
  Fresh-Below i [] b = tt
  Fresh-Below i (x ∷ xs) b =
      (λ e. let q : i ≡ x = distinct i x e in absurd (omega (arith, q, b.0)), Fresh-Below i xs b.1)

  more :
      (i : ℕ) (xs : List ℕ) (σ : Links)
      → IsClist σ h (map f xs)
      → Below i xs
      → IsClist (enqueue (f i) h σ) h (map f (xs ++ i ∷ []))
  more i xs σ c b =
      rw (map-append f xs (i ∷ []))
        (enqueue-append σ h (f i) (map f xs) c (tail i) (Fresh-Below i xs b))

  pub fill-IsClist :
      (n i : ℕ) (xs : List ℕ) (σ : Links)
      → IsClist σ h (map f xs)
      → Below i xs
      → IsClist (fill f h n i σ) h (map f (xs ++ upto n i))
  unfolding fill
  fill-IsClist zero i xs σ c b = rw (append-nil) c
  fill-IsClist (suc n) i xs σ c b =
      subst (λ l. IsClist (fill f h n (i + 1) (enqueue (f i) h σ)) h (map f l))
        (append_assoc xs (i ∷ []) (upto n (i + 1)))
        (fill-IsClist n (i + 1) (xs ++ i ∷ []) (enqueue (f i) h σ) (more i xs σ c b)
          (Below-suc i xs b))

  pub fill-frame :
      (n i : ℕ) (xs : List ℕ) (σ : Links) (b : Loc)
      → IsClist σ h (map f xs)
      → Below i xs
      → b ≢ h
      → ((x : ℕ) → b ≢ f x)
      → fill f h n i σ b ≡ σ b
  unfolding fill
  fill-frame zero i xs σ b c l m s = refl
  fill-frame (suc n) i xs σ b c l m s =
      fill-frame n (i + 1) (xs ++ i ∷ []) (enqueue (f i) h σ) b (more i xs σ c l) (Below-suc i xs l)
        m s
      ∙ enqueue-frame σ h (f i) b (map f xs) c (m, (s i, Fresh-map b f xs (λ x j. s x)))
