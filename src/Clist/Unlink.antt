-- ===== src/Clist/Unlink.antt =====
-- clist_foreach_delete and clist_delete take an element out of the list.
use jae_so.Common.{
  ◌≡◌, refl, sym, ap, if_pos, if_neg, ◌∙◌, ◌≢◌, ◌⊎◌, inl, some, List, [], ◌∷◌, arith, ite, last,
  Fresh, Distinct, In,
}
use jae_so.Memory.{Loc, Links, set_next, Loc-discrete, Ptr-discrete}
use jae_so.Clist.Ring.{Segment, IsClist, ne-last, Segment-set-Fresh, set_next_self, set_next_other}

pub Fresh-or-In : (e : Loc) (xs : List Loc) → Fresh e xs ⊎ In e xs
Fresh-or-In e [] = inl tt
Fresh-or-In e (x ∷ xs) = ground (arith, Loc-discrete e x, Fresh-or-In e xs)

-- The list without the first occurrence of `e`.
unfoldable pub erase : Loc → List Loc → List Loc
erase e [] = []
erase e (x ∷ xs) = ite (Loc-discrete e x) xs (x ∷ erase e xs)

-- The element before `e`, in a list of which `p` comes first.
unfoldable pub before : Loc → Loc → List Loc → Loc
before e p [] = p
before e p (y ∷ ys) = ite (Loc-discrete e y) p (before e y ys)

pub Fresh-erase : (a e : Loc) (xs : List Loc) → Fresh a xs → Fresh a (erase e xs)
unfolding erase
Fresh-erase a e [] f = tt
Fresh-erase a e (x ∷ xs) f = ground (arith, Fresh-erase a e xs f.1)

pub Distinct-erase : (e : Loc) (xs : List Loc) → Distinct xs → Distinct (erase e xs)
unfolding erase
Distinct-erase e [] d = tt
Distinct-erase e (x ∷ xs) d = ground (arith, Fresh-erase x e xs d.0, Distinct-erase e xs d.1)

pub erase-Fresh : (e : Loc) (xs : List Loc) → Fresh e xs → erase e xs ≡ xs
unfolding erase
erase-Fresh e [] f = refl
erase-Fresh e (x ∷ xs) f = ground (arith, erase-Fresh e xs f.1)

ne-before : (a e p : Loc) (ys : List Loc) → Fresh a (p ∷ ys) → a ≢ before e p ys
unfolding before
ne-before a e p [] f = f.0
ne-before a e p (y ∷ ys) f = ground (arith, ne-before a e y ys f.1)

last-erase :
    (e p : Loc) (ys : List Loc)
    → Distinct (p ∷ ys)
    → In e ys
    → last p (erase e ys) ≡ ite (Loc-discrete e (last p ys)) (before e p ys) (last p ys)
unfolding erase before
last-erase e p [] d i = elim i [ ]
last-erase e p (y ∷ []) d i = ground arith
last-erase e p (y ∷ z ∷ zs) d i = ground (arith, ne-last y z zs d.1.0, last-erase e y (z ∷ zs) d.1)

before-ne-last :
    (e p : Loc) (ys : List Loc) → Distinct (p ∷ ys) → In e ys → before e p ys ≢ last p ys
unfolding before
before-ne-last e p [] d i = elim i [ ]
before-ne-last e p (y ∷ ys) d i = ground (arith, ne-last p y ys d.0, before-ne-last e y ys d.1)

before-hit : (e p y : Loc) (ys : List Loc) → e ≡ y → before e p (y ∷ ys) ≡ p
unfolding before
before-hit e p y ys q = ground arith

before-miss : (e p y : Loc) (ys : List Loc) → e ≢ y → before e p (y ∷ ys) ≡ before e y ys
unfolding before
before-miss e p y ys q = ground arith

pub erase-hit : (e y : Loc) (ys : List Loc) → e ≡ y → erase e (y ∷ ys) ≡ ys
unfolding erase
erase-hit e y ys q = ground arith

pub erase-miss : (e y : Loc) (ys : List Loc) → e ≢ y → erase e (y ∷ ys) ≡ y ∷ erase e ys
unfolding erase
erase-miss e y ys q = ground arith

bypass :
    (σ : Links) (e p y : Loc) (ys : List Loc)
    → e ≡ y
    → Segment σ p (y ∷ ys)
    → Distinct (p ∷ y ∷ ys)
    → Segment (set_next σ p (σ e)) p ys
bypass σ e p y [] hit q d = tt
bypass σ e p y (z ∷ zs) hit q d =
    (set_next_self σ p (σ e) ∙ ap σ hit ∙ q.1.0, Segment-set-Fresh σ p (σ e) z zs d.0.1 q.1.1)

-- Bypassing `e` leaves a path through the rest.
Segment-unlink :
    (σ : Links) (e p : Loc) (ys : List Loc)
    → Segment σ p ys
    → Distinct (p ∷ ys)
    → In e ys
    → Segment (set_next σ (before e p ys) (σ e)) p (erase e ys)
Segment-unlink σ e p [] q d i = elim i [ ]
Segment-unlink σ e p (y ∷ ys) q d i = elim (Loc-discrete e y) [
  | yes hit ↦ rw (before-hit e p y ys hit, erase-hit e y ys hit) (bypass σ e p y ys hit q d)
  | no miss ↦
      rw (before-miss e p y ys miss, erase-miss e y ys miss)
        (
          set_next_other σ (before e y ys) p (σ e) (ne-before p e y ys d.0) ∙ q.0,
          Segment-unlink σ e y ys q.1 d.1 (ground arith),
        )
]

-- The store after `e` is taken out behind `q`, by the assignments of both macros.
abbrev pub unlinked : Links → Loc → Loc → Loc → Links
unlinked σ h e q =
    let σ' : Links = ite (Ptr-discrete (σ h) (some e)) (set_next σ h (some q)) σ in
    set_next σ' q (σ' e)

unlinked_last_eq :
    (σ : Links) (h e q : Loc)
    → σ h ≡ some e
    → unlinked σ h e q ≡ set_next (set_next σ h (some q)) q (set_next σ h (some q) e)
unlinked_last_eq σ h e q l = rw (if_pos (Ptr-discrete (σ h) (some e)) l)

unlinked_inner_eq : (σ : Links) (h e q : Loc) → σ h ≢ some e → unlinked σ h e q ≡ set_next σ q (σ e)
unlinked_inner_eq σ h e q l = rw (if_neg (Ptr-discrete (σ h) (some e)) l)

pub In-ne : (a e : Loc) (xs : List Loc) → In e xs → Fresh a xs → e ≢ a
In-ne a e [] i f = elim i [ ]
In-ne a e (x ∷ xs) i f = ground (arith, In-ne a e xs)

unlinked_last :
    (σ : Links) (h e x : Loc) (ys : List Loc)
    → IsClist σ h (x ∷ ys)
    → In e ys
    → e ≡ last x ys
    → IsClist (unlinked σ h e (before e x ys)) h (x ∷ erase e ys)
unlinked_last σ h e x ys c i l =
    rw
      (
        unlinked_last_eq σ h e (before e x ys) (c.0 ∙ ap some (sym l)),
        last-erase e x ys c.4 i,
        if_pos (Loc-discrete e (last x ys)) l,
      )
      (
        set_next_other _ _ h _ (ne-before h e x ys c.3) ∙ set_next_self σ h _,
        set_next_self _ _ _ ∙ set_next_other σ h e _ (In-ne h e ys i c.3.1) ∙ ap σ l ∙ c.1,
        Segment-unlink _ e x ys (Segment-set-Fresh σ h _ x ys c.3 c.2) c.4 i,
        (c.3.0, Fresh-erase h e ys c.3.1),
        (Fresh-erase x e ys c.4.0, Distinct-erase e ys c.4.1),
      )

unlinked_inner :
    (σ : Links) (h e x : Loc) (ys : List Loc)
    → IsClist σ h (x ∷ ys)
    → In e ys
    → e ≢ last x ys
    → IsClist (unlinked σ h e (before e x ys)) h (x ∷ erase e ys)
unlinked_inner σ h e x ys c i l =
    rw
      (
        unlinked_inner_eq σ h e (before e x ys) (λ q. l (ground arith)),
        last-erase e x ys c.4 i,
        if_neg (Loc-discrete e (last x ys)) l,
      )
      (
        set_next_other _ _ h _ (ne-before h e x ys c.3) ∙ c.0,
        set_next_other _ _ _ _ (λ q. before-ne-last e x ys c.4 i (sym q)) ∙ c.1,
        Segment-unlink _ e x ys c.2 c.4 i,
        (c.3.0, Fresh-erase h e ys c.3.1),
        (Fresh-erase x e ys c.4.0, Distinct-erase e ys c.4.1),
      )

-- Both are the list without the element.
pub unlinked-erase :
    (σ : Links) (h e x : Loc) (ys : List Loc)
    → IsClist σ h (x ∷ ys)
    → In e ys
    → IsClist (unlinked σ h e (before e x ys)) h (x ∷ erase e ys)
unlinked-erase σ h e x ys c i = elim (Loc-discrete e (last x ys)) [
  | yes l ↦ unlinked_last σ h e x ys c i l
  | no l ↦ unlinked_inner σ h e x ys c i l
]

pub unlinked-frame :
    (σ : Links) (h e x b : Loc) (ys : List Loc)
    → Fresh b (h ∷ x ∷ ys)
    → unlinked σ h e (before e x ys) b ≡ σ b
unfolding set_next
unlinked-frame σ h e x b ys f = ground (arith, ne-before b e x ys f.1)
