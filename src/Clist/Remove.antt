-- ===== src/Clist/Remove.antt =====
-- What the search with clist_foreach_delete, and clist_delete, do to the list.
use jae_so.Common.{
  ℕ, zero, suc, ◌<◌, ◌≡◌, refl, sym, ap, ◌∙◌, if_pos, if_neg, ◌≢◌, Bool, true, false, Option, none,
  some, List, [], ◌∷◌, arith, ite, length, last, Fresh, Distinct, In,
}
use jae_so.Memory.{Loc, Ptr, Links, Loc-discrete, Ptr-discrete}
use jae_so.Clist.{
  Result, ◌>>=◌, scanned, Scan, foreach, foreach_delete, delete_loop, delete, dequeue, ok,
}
use jae_so.Clist.Ring.{Segment, IsClist, ne-last}
use jae_so.Clist.Queue.{dequeue-cons}
use jae_so.Clist.Search.{locate, foreach-locate, foreach-nil}
use jae_so.Clist.Unlink.{
  erase, erase-hit, erase-miss, before, unlinked, unlinked-erase, unlinked-frame,
}

-- The body `if (scan == e) …` of a search for one element.
unfoldable pub is : Loc → Loc → Option (Unit {0})
is e s = ite (Loc-discrete s e) (some tt) none

module _ (e first : Loc) where
  locate-miss :
      (tmp : Ptr) (y : Loc) (ys : List Loc)
      → Fresh e (y ∷ ys)
      → (locate (is e) first tmp y ys).broke ≡ none
  unfolding locate is
  locate-miss tmp y [] f = ground arith
  locate-miss tmp y (z ∷ zs) f = ground (arith, locate-miss (some y) z zs f.1)

  locate-head :
      (tmp : Ptr) (y : Loc) (ys : List Loc)
      → e ≡ y
      → locate (is e) first tmp y ys ≡ scanned (some tt) (some e) tmp
  unfolding locate is
  locate-head tmp y [] q = ground arith
  locate-head tmp y (z ∷ zs) q = ground arith

  locate-tail :
      (tmp : Ptr) (y : Loc) (ys : List Loc)
      → e ≢ y
      → In e ys
      → locate (is e) first tmp y ys ≡ scanned (some tt) (some e) (some (before e y ys))
  unfolding locate is before
  locate-tail tmp y [] n i = elim i [ ]
  locate-tail tmp y (z ∷ zs) n i =
      ground (arith, locate-head (some y) z zs, locate-tail (some y) z zs)

-- The outcome of taking `e` out of the list `xs`.
pub record Removed (σ : Links) (h e : Loc) (xs : List Loc) (σ' : Links) : Type 0 where
  pub clist : IsClist σ' h (erase e xs)
  pub same : (b : Loc) → Fresh b (h ∷ xs) → σ' b ≡ σ b

-- Deleting the first element is a dequeue.
foreach_delete-dequeue :
    (σ : Links) (h e : Loc) (xs : List Loc)
    → IsClist σ h (e ∷ xs)
    → foreach_delete e none h σ ≡ dequeue h σ
unfolding foreach_delete dequeue
foreach_delete-dequeue σ h e xs c = rw (c.0, foreach_delete, dequeue, c.1) (ground arith)

foreach_delete_head :
    (σ : Links) (h e : Loc) (xs : List Loc)
    → IsClist σ h (e ∷ xs)
    → (σ' : Links) × (foreach_delete e none h σ ≡ ok σ') × Removed σ h e (e ∷ xs) σ'
foreach_delete_head σ h e xs c =
    let d = dequeue-cons σ h e xs c in
    (
      d.0,
      foreach_delete-dequeue σ h e xs c ∙ d.1,
      record { clist = rw (erase-hit e e xs refl) d.2; same = d.3 },
    )

foreach_delete_tail :
    (σ : Links) (h e x : Loc) (xs : List Loc)
    → IsClist σ h (x ∷ xs)
    → e ≢ x
    → In e xs
    → Removed σ h e (x ∷ xs) (unlinked σ h e (before e x xs))
foreach_delete_tail σ h e x xs c n i = record {
  clist = rw (erase-miss e x xs n) (unlinked-erase σ h e x xs c i);
  same = λ b f. unlinked-frame σ h e x b xs f;
}

delete_loop-hit :
    (σ : Links) (h e : Loc) (fuel : ℕ) (tmp : Ptr) (y : Loc) (ys : List Loc)
    → length ys < fuel
    → σ h ≡ some (last y ys)
    → Segment σ y ys
    → Distinct (y ∷ ys)
    → tmp ≢ some (last y ys)
    → e ≢ y
    → In e ys
    → delete_loop e h σ fuel tmp y ≡ ok (unlinked σ h e (before e y ys), false)
unfolding delete_loop before
delete_loop-hit σ h e zero tmp y ys f a p d n m i = absurd (omega arith)
delete_loop-hit σ h e (suc fuel) tmp y [] f a p d n m i = elim i [ ]
delete_loop-hit σ h e (suc fuel) tmp y (z ∷ zs) f a p d n m i =
    rw (if_neg (Ptr-discrete tmp (σ h)) (λ q. n (q ∙ a)), p.0)
      (elim (Loc-discrete z e) [
        | yes q ↦ rw (if_pos (Loc-discrete z e) q, if_pos (Loc-discrete e z) (sym q), q)
        | no q ↦
            rw (if_neg (Loc-discrete z e) q, if_neg (Loc-discrete e z) (λ r. q (sym r)))
              (delete_loop-hit σ h e fuel (some y) z zs (omega arith) a p.1 d.1
                (λ r. ne-last y z zs d.0 (ground arith)) (λ r. q (sym r)) (ground arith))
      ])

delete_loop-miss :
    (σ : Links) (h e x : Loc) (fuel : ℕ) (tmp : Ptr) (y : Loc) (ys : List Loc)
    → suc (length ys) < fuel
    → σ h ≡ some (last y ys)
    → σ (last y ys) ≡ some x
    → e ≢ x
    → Segment σ y ys
    → Distinct (y ∷ ys)
    → tmp ≢ some (last y ys)
    → Fresh e ys
    → delete_loop e h σ fuel tmp y ≡ ok (σ, true)
unfolding delete_loop
delete_loop-miss σ h e x zero tmp y ys f a b m p d n i = absurd (omega arith)
delete_loop-miss σ h e x (suc zero) tmp y ys f a b m p d n i = absurd (omega arith)
delete_loop-miss σ h e x (suc (suc fuel)) tmp y [] f a b m p d n i = ground arith
delete_loop-miss σ h e x (suc fuel) tmp y (z ∷ zs) f a b m p d n i = ground (
  arith,
  ne-last y z zs d.0,
  delete_loop-miss σ h e x fuel (some y) z zs (omega arith) a b m p.1 d.1,
)

delete-dequeue :
    (σ : Links) (h e : Loc) (fuel : ℕ) (xs : List Loc)
    → IsClist σ h (e ∷ xs)
    → delete fuel e h σ ≡ (dequeue h σ >>= λ σ'. ok (σ', false))
unfolding delete dequeue
delete-dequeue σ h e fuel xs c = rw (c.0, delete, dequeue, c.1) (ground arith)

delete-loop :
    (σ : Links) (h e t x : Loc) (fuel : ℕ)
    → σ h ≡ some t
    → σ t ≡ some x
    → e ≢ x
    → delete fuel e h σ ≡ delete_loop e h σ fuel none x
unfolding delete
delete-loop σ h e t x fuel a b n = rw (a, delete, b) (ground arith)

-- With more rounds than the well-formed list has elements, clist_delete of an element of the list
-- ends and reports that it was found (0); the list is then the old one without the element, well
-- formed, and every link but those of the tail pointer and the elements is as it was.
pub delete-In :
    (σ : Links) (h e : Loc) (fuel : ℕ) (xs : List Loc)
    → length xs < fuel
    → IsClist σ h xs
    → In e xs
    → (σ' : Links) × (delete fuel e h σ ≡ ok (σ', false)) × Removed σ h e xs σ'
delete-In σ h e fuel [] f c i = elim i [ ]
delete-In σ h e fuel (x ∷ xs) f c i = elim (Loc-discrete x e) [
  | yes q ↦ rw q (
      let c' : IsClist σ h (e ∷ xs) = rw q at c in
      let d = dequeue-cons σ h e xs c' in
      (
        d.0,
        delete-dequeue σ h e fuel xs c' ∙ ap (λ r. r >>= λ σ'. ok (σ', false)) d.1,
        record { clist = rw (erase-hit e e xs refl) d.2; same = d.3 },
      ))
  | no n ↦ (
    unlinked σ h e (before e x xs),
    delete-loop σ h e (last x xs) x fuel c.0 c.1 (λ q. n (sym q))
        ∙ delete_loop-hit σ h e fuel none x xs (omega arith) c.0 c.2 c.4 (λ q. cc) (λ q. n (sym q))
            (ground arith),
    foreach_delete_tail σ h e x xs c (λ q. n (sym q)) (ground arith),
  )
]

-- On any other it changes nothing and returns 1.
pub delete-Fresh :
    (σ : Links) (h e : Loc) (fuel : ℕ) (xs : List Loc)
    → length xs < fuel
    → IsClist σ h xs
    → Fresh e xs
    → delete fuel e h σ ≡ ok (σ, true)
unfolding delete
delete-Fresh σ h e fuel [] f c i = rw (c, delete)
delete-Fresh σ h e fuel (x ∷ xs) f c i =
    delete-loop σ h e (last x xs) x fuel c.0 c.1 i.0
    ∙ delete_loop-miss σ h e x fuel none x xs f c.0 c.1 i.0 c.2 c.4 (λ q. cc) i.1

-- The search for `e` and clist_foreach_delete at the place where it stopped.
unfoldable pub remove : ℕ → Loc → Loc → Links → Result (Links × Bool)
unfolding is
remove fuel e h σ = do
  s ← foreach (is e) h σ fuel
  elim s.broke [ none ↦ ok (σ, false) | some _ ↦ do σ' ← foreach_delete e s.tmp h σ; ok (σ', true) ]

abbrev finish : Loc → Loc → Links → Scan (Unit {0}) → Result (Links × Bool)
finish e h σ s = elim s.broke [
  | none ↦ ok (σ, false)
  | some _ ↦ foreach_delete e s.tmp h σ >>= λ σ'. ok (σ', true)
]

remove-finish :
    (σ : Links) (h e x : Loc) (fuel : ℕ) (xs : List Loc)
    → suc (length xs) < fuel
    → IsClist σ h (x ∷ xs)
    → remove fuel e h σ ≡ finish e h σ (locate (is e) x none x xs)
unfolding remove
remove-finish σ h e x fuel xs f c = rw (foreach-locate (is e) h x σ fuel xs f c)

-- With more rounds than the well-formed list has elements, a search by clist_foreach for an
-- element of the list, followed by clist_foreach_delete, ends and reports the element found; the
-- list is then the old one without the element, well formed, and every link but those of the tail
-- pointer and the elements is as it was.
pub remove-In :
    (σ : Links) (h e : Loc) (fuel : ℕ) (xs : List Loc)
    → length xs < fuel
    → IsClist σ h xs
    → In e xs
    → (σ' : Links) × (remove fuel e h σ ≡ ok (σ', true)) × Removed σ h e xs σ'
unfolding foreach_delete
remove-In σ h e fuel [] f c i = elim i [ ]
remove-In σ h e fuel (x ∷ xs) f c i = elim (Loc-discrete x e) [
  | yes q ↦
      let c' : IsClist σ h (e ∷ xs) = rw q at c in
      let d = foreach_delete_head σ h e xs c' in
      rw q (
        d.0,
        remove-finish σ h e e fuel xs f c'
            ∙ ap (finish e h σ) (locate-head e e none e xs refl)
            ∙ ap (λ r. r >>= λ σ'. ok (σ', true)) d.1,
        d.2,
      )
  | no n ↦ (
    unlinked σ h e (before e x xs),
    remove-finish σ h e x fuel xs f c
        ∙ ap (finish e h σ) (locate-tail e x none x xs (λ q. n (sym q)) (ground arith)),
    foreach_delete_tail σ h e x xs c (λ q. n (sym q)) (ground arith),
  )
]

-- On any other it changes nothing.
pub remove-Fresh :
    (σ : Links) (h e : Loc) (fuel : ℕ) (xs : List Loc)
    → length xs < fuel
    → IsClist σ h xs
    → Fresh e xs
    → remove fuel e h σ ≡ ok (σ, false)
unfolding remove
remove-Fresh σ h e fuel [] f c i = rw (foreach-nil (is e) h σ fuel c)
remove-Fresh σ h e fuel (x ∷ xs) f c i =
    rw (foreach-locate (is e) h x σ fuel xs f c, locate-miss e x none x xs i)
