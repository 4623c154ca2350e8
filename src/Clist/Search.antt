-- ===== src/Clist/Search.antt =====
-- clist_foreach: the walk over the links is a walk over the list.
use jae_so.Common.{
  ℕ, zero, suc, ◌<◌, ◌≡◌, ◌≢◌, Option, none, some, List, [], ◌∷◌, arith, length, last, Distinct,
}
use jae_so.Memory.{Loc, Ptr, Links}
use jae_so.Clist.{Scan, scanned, foreach_loop, foreach, ok}
use jae_so.Clist.Ring.{Segment, IsClist, ne-last}

module _ {B : Type 0} (body : Loc → Option B) (first : Loc) where
  -- The search from the element `y`, before which `tmp` was visited; `first` is where the scan
  -- stands once it has come round.
  unfoldable pub locate : Ptr → Loc → List Loc → Scan B
  locate tmp y [] = elim (body y) [
    | some b ↦ scanned (some b) (some y) tmp
    | none ↦ scanned none (some first) (some y)
  ]
  locate tmp y (z ∷ zs) = elim (body y) [
    | some b ↦ scanned (some b) (some y) tmp
    | none ↦ locate (some y) z zs
  ]

-- A break at the first element.
pub locate-first :
    {B : Type 0} (body : Loc → Option B) (first : Loc) (tmp : Ptr) (y : Loc) (ys : List Loc) {b : B}
    → body y ≡ some b
    → locate body first tmp y ys ≡ scanned (some b) (some y) tmp
unfolding locate
locate-first body first tmp y [] e = rw (locate, e)
locate-first body first tmp y (z ∷ zs) e = rw (locate, e)

-- No break there, with and without a next element.
pub locate-next :
    {B : Type 0} (body : Loc → Option B) (first : Loc) (tmp : Ptr) (y z : Loc) (zs : List Loc)
    → body y ≡ none
    → locate body first tmp y (z ∷ zs) ≡ locate body first (some y) z zs
unfolding locate
locate-next body first tmp y z zs e = rw (locate, e)

pub locate-end :
    {B : Type 0} (body : Loc → Option B) (first : Loc) (tmp : Ptr) (y : Loc)
    → body y ≡ none
    → locate body first tmp y [] ≡ scanned none (some first) (some y)
unfolding locate
locate-end body first tmp y e = rw (locate, e)

module _ {B : Type 0} (body : Loc → Option B) (h x : Loc) (σ : Links) where
  foreach_loop-locate :
      (fuel : ℕ) (tmp : Ptr) (y : Loc) (ys : List Loc)
      → suc (length ys) < fuel
      → σ h ≡ some (last y ys)
      → σ (last y ys) ≡ some x
      → Segment σ y ys
      → Distinct (y ∷ ys)
      → tmp ≢ some (last y ys)
      → foreach_loop body h σ fuel tmp (some y) ≡ ok (locate body x tmp y ys)
  unfolding foreach_loop locate
  foreach_loop-locate zero tmp y ys f a b p d n = absurd (omega arith)
  foreach_loop-locate (suc zero) tmp y ys f a b p d n = absurd (omega arith)
  foreach_loop-locate (suc (suc fuel)) tmp y [] f a b p d n = ground arith
  foreach_loop-locate (suc fuel) tmp y (z ∷ zs) f a b p d n =
      ground (
        arith,
        ne-last y z zs d.0,
        foreach_loop-locate fuel (some y) z zs (omega arith) a b p.1 d.1,
      )

  -- On a well-formed list that is not empty, with at least one round more than there are elements,
  -- clist_foreach ends with the cursor and the previous element where the search of the list has
  -- them.
  pub foreach-locate :
      (fuel : ℕ) (xs : List Loc)
      → suc (length xs) < fuel
      → IsClist σ h (x ∷ xs)
      → foreach body h σ fuel ≡ ok (locate body x none x xs)
  unfolding foreach
  foreach-locate fuel xs f c =
      rw (c.0, foreach, c.1) (foreach_loop-locate fuel none x xs f c.0 c.1 c.2 c.4 (λ q. cc))

pub foreach-nil :
    {B : Type 0} (body : Loc → Option B) (h : Loc) (σ : Links) (fuel : ℕ)
    → IsClist σ h []
    → foreach body h σ fuel ≡ ok (scanned none none none)
unfolding foreach
foreach-nil body h σ fuel c = rw (c, foreach)
