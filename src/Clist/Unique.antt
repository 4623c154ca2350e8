-- ===== src/Clist/Unique.antt =====
-- A circular list stands for one list only.
use jae_so.Common.{◌≡◌, refl, sym, ap, ◌∙◌, subst, some, List, [], ◌∷◌, map, last, Distinct, ℕ}
use jae_so.Memory.{Loc, Links}
use jae_so.Clist.Ring.{Segment, IsClist, ne-last}

-- Two paths from `x` without a repetition, to the same end.
Segment-unique :
    (σ : Links) (x : Loc) (xs ys : List Loc)
    → Segment σ x xs
    → Segment σ x ys
    → Distinct (x ∷ xs)
    → Distinct (x ∷ ys)
    → last x xs ≡ last x ys
    → xs ≡ ys
Segment-unique σ x [] [] p q u w e = refl
Segment-unique σ x [] (y ∷ ys) p q u w e = absurd (ne-last x y ys w.0 e)
Segment-unique σ x (z ∷ zs) [] p q u w e = absurd (ne-last x z zs u.0 (sym e))
Segment-unique σ x (z ∷ zs) (y ∷ ys) p q u w e =
    let r : z ≡ y = let s : some z ≡ some y = sym p.0 ∙ q.0 in cc in
    let t : zs ≡ ys =
      Segment-unique σ z zs ys p.1 (subst (λ a. Segment σ a ys) (sym r) q.1) u.1
        (subst (λ a. Distinct (a ∷ ys)) (sym r) w.1) (e ∙ ap (λ a. last a ys) (sym r)) in
    cc

pub IsClist-unique :
    (σ : Links) (h : Loc) (xs ys : List Loc) → IsClist σ h xs → IsClist σ h ys → xs ≡ ys
IsClist-unique σ h [] [] c d = refl
IsClist-unique σ h [] (y ∷ ys) c d = let z = sym c ∙ d.0 in cc
IsClist-unique σ h (x ∷ xs) [] c d = let z = sym d ∙ c.0 in cc
IsClist-unique σ h (x ∷ xs) (y ∷ ys) c d =
    let l : last x xs ≡ last y ys =
      let z : some (last x xs) ≡ some (last y ys) = sym c.0 ∙ d.0 in cc in
    let r : x ≡ y = let z : some x ≡ some y = sym c.1 ∙ ap σ l ∙ d.1 in cc in
    let t : xs ≡ ys =
      Segment-unique σ x xs ys c.2 (subst (λ a. Segment σ a ys) (sym r) d.2) c.4
        (subst (λ a. Distinct (a ∷ ys)) (sym r) d.4) (l ∙ ap (λ a. last a ys) (sym r)) in
    cc

-- The same for lists of elements of a kind.
pub IsClist-unique_map :
    (σ : Links) (h : Loc) (g : ℕ → Loc) (xs ys : List ℕ)
    → ((x y : ℕ) → g x ≡ g y → x ≡ y)
    → IsClist σ h (map g xs)
    → IsClist σ h (map g ys)
    → xs ≡ ys
IsClist-unique_map σ h g xs ys i c d =
    map-injective xs ys (IsClist-unique σ h (map g xs) (map g ys) c d)
  where
    map-injective : (xs ys : List ℕ) → map g xs ≡ map g ys → xs ≡ ys
    map-injective [] [] e = refl
    map-injective [] (y ∷ ys) e = cc
    map-injective (x ∷ xs) [] e = cc
    map-injective (x ∷ xs) (y ∷ ys) e =
        let q : x ≡ y = i x y (cc) in let t : xs ≡ ys = map-injective xs ys (cc) in cc
