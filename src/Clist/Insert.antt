-- ===== src/Clist/Insert.antt =====
-- clist_foreach with clist_foreach_add, and clist_enqueue after a walk to the end: an element goes
-- in before the first one at which the walk breaks.
use jae_so.Common.{
  ℕ, suc, ◌<◌, ◌≡◌, refl, sym, ap, ◌∙◌, ◌≢◌, ◌⊎◌, inl, inr, true, false, Option, none, some, List,
  [], ◌∷◌, ◌++◌, arith, length, last, Fresh, In, Option-cases,
}
use jae_so.Memory.{Loc, Ptr, Links}
use jae_so.Clist.{Scan, scanned, foreach, foreach_all, foreach_add, enqueue, ok}
use jae_so.Clist.Ring.{
  IsClist, ne-last, Segment-set-Fresh, Segment-set_last, set_next_self, set_next_other,
}
use jae_so.Clist.Queue.{enqueue-append, enqueue-frame}
use jae_so.Clist.Search.{locate-first, locate-next, locate-end, foreach-locate, foreach-nil}
use jae_so.Clist.Place.{
  added, place, place-hit, place-miss, Fresh-place, Distinct-place, Between, walk,
}

foreach_all-end : (tmp : Ptr) (h : Loc) (σ : Links) → tmp ≡ σ h → foreach_all tmp h σ ≡ true
unfolding foreach_all
foreach_all-end tmp h σ e = ground arith

foreach_all-inner : (tmp : Ptr) (h : Loc) (σ : Links) → tmp ≢ σ h → foreach_all tmp h σ ≡ false
unfolding foreach_all
foreach_all-inner tmp h σ n = ground arith

module _ {B : Type 0} (body : Loc → Option B) (e : Loc) where
  -- The walk over `xs`, and what the insertion after it does.
  pub record AddedAt (σ : Links) (h : Loc) (xs : List Loc) (s : Scan B) (b : B) (at : Loc)
      (σ' : Links) : Type 0 where
    pub broke : s.broke ≡ some b
    pub hits : body at ≡ some b
    pub member : In at xs
    pub scan : s.scan ≡ some at
    pub run : foreach_add e at s.tmp h σ ≡ ok σ'
    pub inner : foreach_all s.tmp h σ' ≡ false
    pub clist : IsClist σ' h (place body e xs)
    pub same : (a : Loc) → Fresh a (h ∷ e ∷ xs) → σ' a ≡ σ a

  pub record AddedLast (σ : Links) (h : Loc) (xs : List Loc) (s : Scan B) : Type 0 where
    pub broke : s.broke ≡ none
    pub ended : foreach_all s.tmp h σ ≡ true
    pub clist : IsClist (enqueue e h σ) h (place body e xs)
    pub same : (a : Loc) → Fresh a (h ∷ e ∷ xs) → enqueue e h σ a ≡ σ a

  abbrev pub Inserted : Links → Loc → List Loc → Scan B → Type 0
  Inserted σ h xs s =
      AddedLast σ h xs s ⊎ ((b : B) × (at : Loc) × (σ' : Links) × AddedAt σ h xs s b at σ')

  module _ (σ : Links) (h : Loc) (n : e ≢ h) where
    insert_first :
        (x : Loc) (xs : List Loc) (b : B)
        → IsClist σ h (x ∷ xs)
        → Fresh e (x ∷ xs)
        → body x ≡ some b
        → AddedAt σ h (x ∷ xs) (scanned (some b) (some x) none) b x (added σ e x (last x xs))
    unfolding foreach_add
    insert_first x xs b c f t =
        let tail : added σ e x (last x xs) h ≡ some (last x xs) =
          set_next_other _ _ _ _ (ne-last h x xs c.3)
          ∙ set_next_other σ e h (some x) (λ q. n (sym q))
          ∙ c.0 in
        record {
          broke = refl;
          hits = t;
          member = inl refl;
          scan = refl;
          run = rw (set_next_other σ e h (some x) (λ q. n (sym q)), c.0);
          inner = foreach_all-inner none h _ (λ q. cc);
          clist = rw (place-hit body e x xs b t) (
            tail,
            set_next_self _ _ _,
            (
              set_next_other _ _ _ _ (ne-last e x xs f) ∙ set_next_self _ _ _,
              Segment-set_last _ (some e) x xs c.4 (Segment-set-Fresh σ e _ x xs f c.2),
            ),
            ((λ q. n (sym q)), c.3),
            (f, c.4),
          );
          same = λ a g.
              set_next_other _ _ _ _ (ne-last a x xs g.1.1) ∙ set_next_other σ e a (some x) g.1.0;
        }

    insert_last :
        (x : Loc) (xs : List Loc)
        → IsClist σ h (x ∷ xs)
        → Fresh e (x ∷ xs)
        → place body e (x ∷ xs) ≡ x ∷ xs ++ e ∷ []
        → AddedLast σ h (x ∷ xs) (scanned none (some x) (some (last x xs)))
    insert_last x xs c f t = record {
      broke = refl;
      ended = foreach_all-end _ h σ (sym c.0);
      clist = rw t (enqueue-append σ h e (x ∷ xs) c n f);
      same = λ a g. enqueue-frame σ h e a (x ∷ xs) c g;
    }

    insert-Between :
        (x y s t : Loc) (ys : List Loc) (b : B)
        → IsClist σ h (x ∷ y ∷ ys)
        → Fresh e (x ∷ y ∷ ys)
        → body x ≡ none
        → Between body e σ x x y ys s t b
        → AddedAt σ h (x ∷ y ∷ ys) (scanned (some b) (some s) (some t)) b s (added σ e s t)
    unfolding foreach_add
    insert-Between x y s t ys b c f m r =
        let tail : added σ e s t h ≡ some (last y ys) =
          set_next_other _ _ _ _ (r.within h c.3)
          ∙ set_next_other σ e h (some s) (λ q. n (sym q))
          ∙ c.0 in
        record {
          broke = refl;
          hits = r.hits;
          member = inr r.member;
          scan = refl;
          run = refl;
          inner =
              foreach_all-inner (some t) h _
                λ q. let z : some t ≡ some (last y ys) = q ∙ tail in r.inner (cc);
          clist = rw (place-miss body e x (y ∷ ys) m) (
            tail ∙ ap some (sym r.ends),
            ap (added σ e s t) r.ends
                ∙ set_next_other _ _ _ _ (λ q. r.inner (sym q))
                ∙ set_next_other σ e _ (some s) (λ q. ne-last e x (y ∷ ys) f (sym q))
                ∙ c.1,
            r.segment,
            ((c.3.0, Fresh-place body e h (y ∷ ys) (λ q. n (sym q)) c.3.1)),
            (
              Fresh-place body e x (y ∷ ys) (λ q. f.0 (sym q)) c.4.0,
              Distinct-place body e (y ∷ ys) f.1 c.4.1,
            ),
          );
          same = λ a g.
              set_next_other _ _ _ _ (r.within a g.1.1) ∙ set_next_other σ e a (some s) g.1.0;
        }

    -- clist_foreach with the search of a place, and then clist_foreach_add or clist_enqueue, end and
    -- put the element in its place.
    pub insert-place :
        (fuel : ℕ) (xs : List Loc)
        → suc (length xs) < fuel
        → IsClist σ h xs
        → Fresh e xs
        → (s : Scan B) × (foreach body h σ fuel ≡ ok s) × Inserted σ h xs s
    insert-place fuel [] l c f = (
      scanned none none none,
      foreach-nil body h σ fuel c,
      inl (record {
        broke = refl;
        ended = foreach_all-end none h σ (sym c);
        clist = unfold place in enqueue-append σ h e [] c n f;
        same = λ a g. enqueue-frame σ h e a [] c g;
      }),
    )
    insert-place fuel (x ∷ []) l c f =
        let go = foreach-locate body h x σ fuel [] (omega arith) c in
        elim (Option-cases (body x)) [
          | inl m ↦ (
            _,
            go ∙ ap ok (locate-end body x none x m),
            inl (insert_last x [] c f (place-miss body e x [] m ∙ unfold place in refl)),
          )
          | inr (b, m) ↦ (
            _,
            go ∙ ap ok (locate-first body x none x [] m),
            inr (b, x, _, insert_first x [] b c f m),
          )
        ]
    insert-place fuel (x ∷ y ∷ ys) l c f =
        let go = foreach-locate body h x σ fuel (y ∷ ys) (omega arith) c in
        elim (Option-cases (body x)) [
          | inr (b, m) ↦ (
            _,
            go ∙ ap ok (locate-first body x none x (y ∷ ys) m),
            inr (b, x, _, insert_first x (y ∷ ys) b c f m),
          )
          | inl m ↦
              let next = go ∙ ap ok (locate-next body x none x y ys m) in
              elim (walk body e σ x x y ys c.2 c.4 f) [
                | inl r ↦ (
                  _,
                  next ∙ ap ok r.found,
                  inl (
                      insert_last x (y ∷ ys) c f
                        (place-miss body e x (y ∷ ys) m ∙ ap (λ l. x ∷ l) r.placed)),
                )
                | inr (s, t, b, r) ↦
                    (_, next ∙ ap ok r.found, inr (b, s, _, insert-Between x y s t ys b c f m r))
              ]
        ]
