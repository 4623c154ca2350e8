-- ===== src/Clist/Map.antt =====
-- Lists of elements of a kind: `g` is the link of an element.
use jae_so.Common.Without.{without, without-hit, without-miss}
use jae_so.Common.{
  ℕ, ◌≡◌, refl, sym, ap, ◌∙◌, inl, inr, List, [], ◌∷◌, map, Fresh, Distinct, In, ℕ_discrete,
}
use jae_so.Memory.{Loc}
use jae_so.Clist.Unlink.{erase, erase-hit, erase-miss}

module _ (g : ℕ → Loc) where
  Fresh-of_map : (d : ℕ) (ds : List ℕ) → Fresh (g d) (map g ds) → Fresh d ds
  Fresh-of_map d [] f = tt
  Fresh-of_map d (x ∷ xs) f = ((λ e. f.0 (ap g e)), Fresh-of_map d xs f.1)

  pub Distinct-of_map : (ds : List ℕ) → Distinct (map g ds) → Distinct ds
  Distinct-of_map [] u = tt
  Distinct-of_map (x ∷ xs) u = (Fresh-of_map x xs u.0, Distinct-of_map xs u.1)

  pub In-map : (d : ℕ) (ds : List ℕ) → In d ds → In (g d) (map g ds)
  In-map d [] i = elim i [ ]
  In-map d (x ∷ xs) (inl e) = inl (ap g e)
  In-map d (x ∷ xs) (inr i) = inr (In-map d xs i)

  pub erase-map :
      ((x y : ℕ) → g x ≡ g y → x ≡ y)
      → (d : ℕ) (ds : List ℕ) → erase (g d) (map g ds) ≡ map g (without d ds)
  unfolding without erase
  erase-map h d [] = refl
  erase-map h d (x ∷ xs) = elim (ℕ_discrete d x) [
    | yes e ↦ erase-hit (g d) (g x) (map g xs) (ap g e) ∙ ap (map g) (sym (without-hit d x xs e))
    | no n ↦
        erase-miss (g d) (g x) (map g xs) (λ q. n (h d x q))
        ∙ ap (λ ys. g x ∷ ys) (erase-map h d xs)
        ∙ ap (map g) (sym (without-miss d x xs n))
  ]
