-- ===== src/Clist/Place.antt =====
-- The place of an element in a list: before the first one at which a walk breaks.
use jae_so.Common.{
  ◌≡◌, refl, sym, ap, ◌∙◌, ◌≢◌, ◌⊎◌, inl, inr, Option, none, some, List, [], ◌∷◌, ◌++◌, arith, last,
  Fresh, Distinct, In, Option-cases,
}
use jae_so.Memory.{Loc, Links, set_next}
use jae_so.Clist.{scanned}
use jae_so.Clist.Ring.{Segment, ne-last, Segment-set-Fresh, set_next_self, set_next_other}
use jae_so.Clist.Search.{locate, locate-first, locate-next, locate-end}

-- The links when `e` is put between `t` and `s`.
abbrev pub added : Links → Loc → Loc → Loc → Links
added σ e s t = set_next (set_next σ e (some s)) t (some e)

module _ {B : Type 0} (body : Loc → Option B) (e : Loc) where
  -- The list with `e` before the first element at which the body breaks.
  unfoldable pub place : List Loc → List Loc
  place [] = e ∷ []
  place (x ∷ xs) = elim (body x) [ some b ↦ e ∷ x ∷ xs | none ↦ x ∷ place xs ]

  pub place-hit : (x : Loc) (xs : List Loc) (b : B) → body x ≡ some b → place (x ∷ xs) ≡ e ∷ x ∷ xs
  unfolding place
  place-hit x xs b h = rw (h, place)

  pub place-miss : (x : Loc) (xs : List Loc) → body x ≡ none → place (x ∷ xs) ≡ x ∷ place xs
  unfolding place
  place-miss x xs h = rw (h, place)

  pub Fresh-place : (a : Loc) (xs : List Loc) → a ≢ e → Fresh a xs → Fresh a (place xs)
  unfolding place
  Fresh-place a [] n f = (n, tt)
  Fresh-place a (x ∷ xs) n f = ground (arith, Fresh-place a xs n f.1)

  pub Distinct-place : (xs : List Loc) → Fresh e xs → Distinct xs → Distinct (place xs)
  unfolding place
  Distinct-place [] f d = (tt, tt)
  Distinct-place (x ∷ xs) f d = ground (arith, Fresh-place x xs, Distinct-place xs f.1 d.1)

  -- How a walk from `y`, with `p` before it, ends: at the end of the list, or between `t` and `s`.
  pub record AtEnd (first p y : Loc) (ys : List Loc) : Type 0 where
    pub found : locate body first (some p) y ys ≡ scanned none (some first) (some (last y ys))
    pub placed : place (y ∷ ys) ≡ y ∷ ys ++ e ∷ []

  pub record Between (σ : Links) (first p y : Loc) (ys : List Loc) (s t : Loc) (b : B)
      : Type 0 where
    pub found : locate body first (some p) y ys ≡ scanned (some b) (some s) (some t)
    pub hits : body s ≡ some b
    pub member : In s (y ∷ ys)
    pub inner : t ≢ last y ys
    pub ends : last p (place (y ∷ ys)) ≡ last y ys
    pub segment : Segment (added σ e s t) p (place (y ∷ ys))
    pub within : (a : Loc) → Fresh a (p ∷ y ∷ ys) → a ≢ t

  abbrev pub Ending : Links → Loc → Loc → Loc → List Loc → Type 0
  Ending σ first p y ys =
      AtEnd first p y ys ⊎ ((s t : Loc) × (b : B) × Between σ first p y ys s t b)

  hit :
      (σ : Links) (first p y : Loc) (ys : List Loc) (b : B)
      → body y ≡ some b
      → Segment σ p (y ∷ ys)
      → Distinct (p ∷ y ∷ ys)
      → Fresh e (p ∷ y ∷ ys)
      → Between σ first p y ys y p b
  hit σ first p y ys b h c d f = record {
    found = locate-first body first (some p) y ys h;
    hits = h;
    member = inl refl;
    inner = ne-last p y ys d.0;
    ends = rw (place-hit y ys b h);
    segment = rw (place-hit y ys b h) (
      set_next_self _ _ _,
      (
        set_next_other _ _ _ _ f.0 ∙ set_next_self _ _ _,
        Segment-set-Fresh _ p (some e) y ys d.0 (Segment-set-Fresh σ e (some y) y ys f.1 c.1),
      ),
    );
    within = λ a g. g.0;
  }

  pub walk :
      (σ : Links) (first p y : Loc) (ys : List Loc)
      → Segment σ p (y ∷ ys)
      → Distinct (p ∷ y ∷ ys)
      → Fresh e (p ∷ y ∷ ys)
      → Ending σ first p y ys
  walk σ first p y [] c d f = elim (Option-cases (body y)) [
    | inl h ↦ inl (record {
      found = locate-end body first (some p) y h;
      placed = place-miss y [] h ∙ ap (λ l. y ∷ l) (unfold place in refl);
    })
    | inr (b, h) ↦ inr (y, p, b, hit σ first p y [] b h c d f)
  ]
  walk σ first p y (z ∷ zs) c d f = elim (Option-cases (body y)) [
    | inl h ↦ elim (walk σ first y z zs c.1 d.1 f.1) [
      | inl r ↦ inl (record {
        found = locate-next body first (some p) y z zs h ∙ r.found;
        placed = place-miss y (z ∷ zs) h ∙ ap (λ l. y ∷ l) r.placed;
      })
      | inr (s, t, b, r) ↦ inr (
        s,
        t,
        b,
        record {
          found = locate-next body first (some p) y z zs h ∙ r.found;
          hits = r.hits;
          member = inr r.member;
          inner = r.inner;
          ends = rw (place-miss y (z ∷ zs) h) r.ends;
          segment = rw (place-miss y (z ∷ zs) h) (
            set_next_other _ _ _ _ (r.within p d.0)
                ∙ set_next_other _ _ _ _ (λ q. f.0 (sym q))
                ∙ c.0,
            r.segment,
          );
          within = λ a g. r.within a g.1;
        },
      )
    ]
    | inr (b, h) ↦ inr (y, p, b, hit σ first p y (z ∷ zs) b h c d f)
  ]
