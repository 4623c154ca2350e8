-- ===== src/Clist/Ring.antt =====
-- The list that a circular list stands for, and what changes elsewhere leave alone.
use jae_so.Common.{
  ◌≡◌, refl, sym, ap, ◌∙◌, ◌≢◌, inl, inr, none, some, List, [], ◌∷◌, map, arith, last, Fresh,
  Distinct, All, In,
}
use jae_so.Memory.{Loc, Ptr, Links, set_next}

-- The `next` fields lead from `x` through the elements of the list.
abbrev pub Segment : Links → Loc → List Loc → Type 0
Segment σ x [] = Unit
Segment σ x (y ∷ ys) = (σ x ≡ some y) × Segment σ y ys

-- The circular list with tail pointer `h` holds `xs`, in this order.
abbrev pub IsClist : Links → Loc → List Loc → Type 0
IsClist σ h [] = σ h ≡ none
IsClist σ h (x ∷ xs) =
    (σ h ≡ some (last x xs))
    × (σ (last x xs) ≡ some x)
    × Segment σ x xs
    × Fresh h (x ∷ xs)
    × Distinct (x ∷ xs)

pub set_next_self : (σ : Links) (a : Loc) (v : Ptr) → set_next σ a v a ≡ v
unfolding set_next
set_next_self σ a v = ground arith

pub set_next_other : (σ : Links) (a b : Loc) (v : Ptr) → b ≢ a → set_next σ a v b ≡ σ b
unfolding set_next
set_next_other σ a b v h = ground arith

pub ne-last : (a x : Loc) (xs : List Loc) → Fresh a (x ∷ xs) → a ≢ last x xs
ne-last a x [] f = f.0
ne-last a x (y ∷ ys) f = ne-last a y ys f.1

pub Segment-set-Fresh :
    (σ : Links) (a : Loc) (v : Ptr) (x : Loc) (xs : List Loc)
    → Fresh a (x ∷ xs)
    → Segment σ x xs
    → Segment (set_next σ a v) x xs
unfolding set_next
Segment-set-Fresh σ a v x [] f p = tt
Segment-set-Fresh σ a v x (y ∷ ys) f p = (ground arith, Segment-set-Fresh σ a v y ys f.1 p.1)

-- Writes at the last element do not cut a path.
pub Segment-set_last :
    (σ : Links) (v : Ptr) (x : Loc) (xs : List Loc)
    → Distinct (x ∷ xs)
    → Segment σ x xs
    → Segment (set_next σ (last x xs) v) x xs
unfolding set_next
Segment-set_last σ v x [] d p = tt
Segment-set_last σ v x (y ∷ ys) d p =
    (ground (arith, ne-last x y ys d.0), Segment-set_last σ v y ys d.1 p.1)

-- A circular list survives a write that spares its tail pointer and its elements.
pub IsClist-set :
    (σ : Links) (a : Loc) (v : Ptr) (h : Loc) (xs : List Loc)
    → a ≢ h
    → Fresh a xs
    → IsClist σ h xs
    → IsClist (set_next σ a v) h xs
unfolding set_next
IsClist-set σ a v h [] n f c = ground arith
IsClist-set σ a v h (x ∷ xs) n f c =
    (ground arith, ground (arith, ne-last a x xs f), Segment-set-Fresh σ a v x xs f c.2, c.3, c.4)

Segment-agree :
    (σ σ' : Links) (x : Loc) (xs : List Loc)
    → All (λ b. σ' b ≡ σ b) (x ∷ xs)
    → Segment σ x xs
    → Segment σ' x xs
Segment-agree σ σ' x [] a p = tt
Segment-agree σ σ' x (y ∷ ys) a p = (a.0 ∙ p.0, Segment-agree σ σ' y ys a.1 p.1)

last-agree :
    (σ σ' : Links) (x : Loc) (xs : List Loc)
    → All (λ b. σ' b ≡ σ b) (x ∷ xs)
    → σ' (last x xs) ≡ σ (last x xs)
last-agree σ σ' x [] a = a.0
last-agree σ σ' x (y ∷ ys) a = last-agree σ σ' y ys a.1

-- A circular list depends on the links of its tail pointer and its elements only.
pub IsClist-agree :
    (σ σ' : Links) (h : Loc) (xs : List Loc)
    → σ' h ≡ σ h
    → All (λ b. σ' b ≡ σ b) xs
    → IsClist σ h xs
    → IsClist σ' h xs
IsClist-agree σ σ' h [] e a c = e ∙ c
IsClist-agree σ σ' h (x ∷ xs) e a c =
    (e ∙ c.0, last-agree σ σ' x xs a ∙ c.1, Segment-agree σ σ' x xs a c.2, c.3, c.4)

pub All-map :
    {A : Type 0} (P : Loc → Type 0) (f : A → Loc) (xs : List A)
    → ((x : A) → In x xs → P (f x))
    → All P (map f xs)
All-map P f [] h = tt
All-map P f (x ∷ xs) h = (h x (inl refl), All-map P f xs (λ y i. h y (inr i)))

-- The same, for the elements of a kind.
pub IsClist-agree_map :
    {A : Type 0} (σ σ' : Links) (h : Loc) (f : A → Loc) (xs : List A)
    → σ' h ≡ σ h
    → ((x : A) → In x xs → σ' (f x) ≡ σ (f x))
    → IsClist σ h (map f xs)
    → IsClist σ' h (map f xs)
IsClist-agree_map σ σ' h f xs e a =
    IsClist-agree σ σ' h (map f xs) e (All-map (λ b. σ' b ≡ σ b) f xs a)

pub Fresh-map :
    {A : Type 0} (b : Loc) (f : A → Loc) (xs : List A)
    → ((x : A) → In x xs → b ≢ f x)
    → Fresh b (map f xs)
Fresh-map b f [] h = tt
Fresh-map b f (x ∷ xs) h = (h x (inl refl), Fresh-map b f xs (λ y i. h y (inr i)))

pub ne_of_Fresh :
    {A : Type 0} (b : Loc) (f : A → Loc) (x : A) (xs : List A)
    → Fresh b (map f xs)
    → In x xs
    → f x ≢ b
ne_of_Fresh b f x [] h i = elim i [ ]
ne_of_Fresh b f x (y ∷ ys) h (inl e) = λ q. h.0 (sym q ∙ ap f e)
ne_of_Fresh b f x (y ∷ ys) h (inr i) = ne_of_Fresh b f x ys h.1 i
