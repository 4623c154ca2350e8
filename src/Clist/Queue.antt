-- ===== src/Clist/Queue.antt =====
-- clist_enqueue, clist_push, clist_dequeue, clist_head and clist_tail as operations on a list.
use jae_so.Common.{
  ◌≡◌, refl, sym, ◌≢◌, true, false, none, some, List, [], ◌∷◌, ◌++◌, arith, last, Fresh, Distinct,
}
use jae_so.Memory.{Loc, Links, set_next}
use jae_so.Clist.{enqueue, push, dequeue, is_empty, head, ok}
use jae_so.Clist.Ring.{
  Segment, IsClist, ne-last, Segment-set-Fresh, Segment-set_last, set_next_self, set_next_other,
}

last-append : (x e : Loc) (xs : List Loc) → last x (xs ++ e ∷ []) ≡ e
last-append x e [] = refl
last-append x e (y ∷ ys) = last-append y e ys

Segment-append :
    (σ : Links) (x e : Loc) (xs : List Loc)
    → Segment σ x xs
    → σ (last x xs) ≡ some e
    → Segment σ x (xs ++ e ∷ [])
Segment-append σ x e [] p q = (q, tt)
Segment-append σ x e (y ∷ ys) p q = (p.0, Segment-append σ y e ys p.1 q)

pub Fresh-append : (a e : Loc) (xs : List Loc) → Fresh a xs → a ≢ e → Fresh a (xs ++ e ∷ [])
Fresh-append a e [] f n = (n, tt)
Fresh-append a e (y ∷ ys) f n = (f.0, Fresh-append a e ys f.1 n)

pub Distinct-append : (e : Loc) (xs : List Loc) → Distinct xs → Fresh e xs → Distinct (xs ++ e ∷ [])
Distinct-append e [] d f = (tt, tt)
Distinct-append e (y ∷ ys) d f =
    (Fresh-append y e ys d.0 (λ q. f.0 (cc)), Distinct-append e ys d.1 f.1)

enqueue_nonempty :
    (σ : Links) (h e t : Loc)
    → σ h ≡ some t
    → enqueue e h σ ≡ set_next (set_next (set_next σ e (σ t)) t (some e)) h (some e)
unfolding enqueue
enqueue_nonempty σ h e t q = rw (q, enqueue)

enqueue_empty :
    (σ : Links) (h e : Loc)
    → σ h ≡ none
    → enqueue e h σ ≡ set_next (set_next σ e (some e)) h (some e)
unfolding enqueue
enqueue_empty σ h e q = rw (q, enqueue)

-- clist_enqueue of an element that is not in the well-formed list, and is not its tail pointer,
-- gives the list with the element at the end, well formed.
pub enqueue-append :
    (σ : Links) (h e : Loc) (xs : List Loc)
    → IsClist σ h xs
    → e ≢ h
    → Fresh e xs
    → IsClist (enqueue e h σ) h (xs ++ e ∷ [])
enqueue-append σ h e [] c n f = rw (enqueue_empty σ h e c) (unfold set_next in ground arith)
enqueue-append σ h e (x ∷ xs) c n f =
    rw (enqueue_nonempty σ h e (last x xs) c.0, last-append x e xs)
      (
        set_next_self _ h (some e),
        unfold set_next in ground (arith, ne-last e x xs f),
        Segment-append _ x e xs
            (Segment-set-Fresh _ h (some e) x xs c.3
              (Segment-set_last _ (some e) x xs c.4 (Segment-set-Fresh σ e _ x xs f c.2)))
            (unfold set_next in ground (arith, ne-last h x xs c.3)),
        Fresh-append h e (x ∷ xs) c.3 (λ q. n (sym q)),
        Distinct-append e (x ∷ xs) c.4 f,
      )

-- Enqueueing writes to the tail pointer, the new element and the old last one only.
pub enqueue-frame :
    (σ : Links) (h e b : Loc) (xs : List Loc)
    → IsClist σ h xs
    → Fresh b (h ∷ e ∷ xs)
    → enqueue e h σ b ≡ σ b
unfolding set_next
enqueue-frame σ h e b [] c f = rw (enqueue_empty σ h e c) (ground arith)
enqueue-frame σ h e b (x ∷ xs) c f =
    rw (enqueue_nonempty σ h e (last x xs) c.0) (ground (arith, ne-last b x xs f.1.1))

-- clist_push of an element that is not in the well-formed list, and is not its tail pointer, ends
-- and gives the list with the element at the front, well formed.
pub push-cons :
    (σ : Links) (h e : Loc) (xs : List Loc)
    → IsClist σ h xs
    → e ≢ h
    → Fresh e xs
    → (σ' : Links) × (push e h σ ≡ ok σ') × IsClist σ' h (e ∷ xs)
unfolding push
push-cons σ h e [] c n f = (
  set_next (set_next (set_next σ e (some e)) h (some e)) e (some e),
  rw (c, push) (rw (set_next_self (set_next σ e (some e)) h (some e))),
  (unfold set_next in ground arith),
)
push-cons σ h e (x ∷ xs) c n f = (
  set_next (set_next σ e (some x)) (last x xs) (some e),
  rw (c.0, push) (rw (set_next_other σ e h (σ (last x xs)) (λ q. n (sym q)), c.0, c.1)),
  (
    (unfold set_next in ground (arith, ne-last h x xs c.3)),
    set_next_self _ _ _,
    (
      (unfold set_next in ground (arith, ne-last e x xs f)),
      Segment-set_last _ (some e) x xs c.4 (Segment-set-Fresh σ e _ x xs f c.2),
    ),
    ((λ q. n (sym q)), c.3),
    (f, c.4),
  ),
)

pub is_empty-nil : (σ : Links) (h : Loc) → IsClist σ h [] → is_empty h σ ≡ true
unfolding is_empty
is_empty-nil σ h c = rw (c, is_empty)

pub is_empty-cons :
    (σ : Links) (h x : Loc) (xs : List Loc) → IsClist σ h (x ∷ xs) → is_empty h σ ≡ false
unfolding is_empty
is_empty-cons σ h x xs c = rw (c.0, is_empty)

pub head-cons : (σ : Links) (h x : Loc) (xs : List Loc) → IsClist σ h (x ∷ xs) → head h σ ≡ some x
unfolding head
head-cons σ h x xs c = rw (c.0, head) c.1

pub head-nil : (σ : Links) (h : Loc) → IsClist σ h [] → head h σ ≡ none
unfolding head
head-nil σ h c = rw (c, head)

-- Dequeueing an empty list changes nothing.
pub dequeue-nil : (σ : Links) (h : Loc) → IsClist σ h [] → dequeue h σ ≡ ok σ
unfolding dequeue
dequeue-nil σ h c = rw (c, dequeue)

abbrev pub Dequeued : Links → Loc → Loc → List Loc → Type 0
Dequeued σ h x xs =
    (σ' : Links) × (dequeue h σ ≡ ok σ')
    × IsClist σ' h xs
    × ((b : Loc) → Fresh b (h ∷ x ∷ xs) → σ' b ≡ σ b)

-- clist_dequeue of a well-formed list that is not empty leaves the list without its first element,
-- well formed, and every link but those of the tail pointer and the elements as it was.
pub dequeue-cons :
    (σ : Links) (h x : Loc) (xs : List Loc) → IsClist σ h (x ∷ xs) → Dequeued σ h x xs
unfolding dequeue
dequeue-cons σ h x [] c = (
  set_next σ h none,
  rw (c.0, dequeue, c.1) (ground arith),
  set_next_self σ h none,
  λ b f. set_next_other σ h b none f.0,
)
dequeue-cons σ h x (y ∷ ys) c = (
  set_next σ (last y ys) (some y),
  rw (c.0, dequeue, c.1) (ground (arith, ne-last x y ys c.4.0, c.2.0)),
  (
    rw (set_next_other σ (last y ys) h (some y) (ne-last h y ys c.3.1)) c.0,
    set_next_self σ (last y ys) (some y),
    Segment-set_last σ (some y) y ys c.4.1 c.2.1,
    c.3.1,
    c.4.1,
  ),
  λ b f. set_next_other σ (last y ys) b (some y) (ne-last b y ys f.1.1),
)
