-- ===== src/Nucleus/Child.antt =====
-- A child is taken from its parent by terminateProgeny, and ended with its descendants.
use jae_so.Common.{
  ℕ, suc, ◌≡◌, ◌≢◌, refl, sym, ap, ◌∙◌, inl, inr, ◌⊎◌, none, some, List, [], arith, In, ℕ_discrete,
  ne→==, ==_refl,
}
use jae_so.Memory.{Links}
use jae_so.Kernel.Machine.{Kernel, Pcb, update_field}
use jae_so.Pcb.Tree.{set_parent}
use jae_so.Nucleus.{View, IsNucleus}
use jae_so.Nucleus.Cut.{Cut, cut_view, before, cut-IsNucleus}
use jae_so.Nucleus.Leave.{idle, IsHonest}
use jae_so.Nucleus.Family

-- The process `p`, which has no parent any more, can be ended: the blocks in use of its descendants
-- have a semaphore only if they wait there.
pub record IsDoomed (v : View) (k : Kernel) (p : ℕ) : Type 0 where
  pub orphan : (k.pcb p).p_parent ≡ none
  pub used : (x : ℕ) → In x v.blocks → x ≢ p
  pub honest : (x : ℕ) → Family.Descends v.children x p → IsHonest v k x

-- All descendants of `p`, and it, have been ended.
abbrev pub Ended : View → Kernel → ℕ → Kernel → Type 0
Ended v k p k' = (v' : View) × Family.Reaped v k p v' k' × In p v'.blocks × (v'.children p ≡ [])

-- A child `c` of `p` is cut off, and then ended.
module _ (v : View) (k : Kernel) (p c : ℕ) (cs : List ℕ) (σ : Links) (n : IsNucleus v (idle k))
    (t : Cut v (idle k) p c cs σ) where
  abbrev pub v1 : View
  v1 = cut_view p cs v

  abbrev pub k1 : Kernel
  k1 = record (set_parent c none k) { links = σ }

  abbrev pub n1 : IsNucleus v1 (idle k1)
  n1 = cut-IsNucleus n t

  pub level_child : v.level c ≡ suc (v.level p)
  level_child = n.levels p c t.child

  cut-IsHonest : (x : ℕ) → IsHonest v k x → IsHonest v1 k1 x
  cut-IsHonest x h u d e = h u d (sym (update_field (λ (b : Pcb). b.p_cursem) k.pcb c _ x refl) ∙ e)

  pub cut-shrink : (y x : ℕ) → In x (v1.children y) → In x (v.children y)
  cut-shrink y x i = (before n t y x i).0

  pub cut-IsDoomed : ((x : ℕ) → Family.Descends v.children x c → IsHonest v k x) → IsDoomed v1 k1 c
  cut-IsDoomed f = record {
    orphan = rw (==_refl c) refl;
    used = λ x i e.
        let z : none ≡ some p =
          sym (n.orphans x i) ∙ ap (λ y. (k.pcb y).p_parent) e ∙ n.parents p c t.child in
        cc;
    honest = λ x e.
        cut-IsHonest x (f x (Family.Descends-shrink v1.children v.children x c cut-shrink e));
  }

  pub cut-kept :
      (x y : ℕ)
      → Family.Descends v.children x y
      → Family.Descends v1.children x y ⊎ Family.Descends v1.children x c
  cut-kept x y Family.here = inl Family.here
  cut-kept x y (Family.below {c = z} i d) = elim (cut-kept x z d) [
    | inr e ↦ inr e
    | inl e ↦ elim (ℕ_discrete z c) [
      | yes q ↦ inr (rw q at e)
      | no m ↦ inl (Family.below (edge y z i m) e)
    ]
  ]
    where
      edge : (y z : ℕ) → In z (v.children y) → z ≢ c → In z (v1.children y)
      edge y z i m = elim (ℕ_discrete y p) [
        | yes q ↦ rw (q, ==_refl p) (t.stay z (rw q at i) m)
        | no r ↦ rw (ne→== y p r) i
      ]

  -- The child is ended, with its descendants.
  pub cut-Reaped :
      (v2 : View) (k2 : Kernel)
      → Family.Reaped v1 k1 c v2 k2
      → In c v2.blocks
      → v2.children c ≡ []
      → Family.Reaped v k p v2 k2
  cut-Reaped v2 k2 r g e = record {
    ordered = r.ordered;
    level = r.level;
    shrink = λ y x i. cut-shrink y x (r.shrink y x i);
    above = λ y l.
        r.above y (omega (arith, level_child, l))
        ∙ rw (ne→== y p (λ q. let z = ap v.level q in omega (arith, z, l))) refl;
    places = λ x l. r.places x (omega (arith, level_child, l));
    fathers = λ x l.
        r.fathers x (omega (arith, level_child, l))
        ∙ rw (ne→== x c (λ q. let z = ap v.level q in omega (arith, z, l, level_child))) refl;
    kept = λ x y d. elim (cut-kept x y d) [
      | inl h ↦ r.kept x y h
      | inr h ↦ elim (r.kept x c h) [
        | inl j ↦ inr (rw (Family.Descends-childless v2.children x c e j) g)
        | inr j ↦ inr j
      ]
    ];
    grow = r.grow;
    only = λ x i. elim (r.only x i) [
      | inl j ↦ inl j
      | inr d ↦
          inr
            (Family.below t.child (Family.Descends-shrink v1.children v.children x c cut-shrink d))
    ];
    honest = λ x h. r.honest x (cut-IsHonest x h);
    current = r.current;
  }

  module _ (v2 : View) (k2 : Kernel) (r : Family.Reaped v1 k1 c v2 k2) where
    pub cut_rest : v2.children p ≡ cs
    cut_rest = r.above p (omega (arith, level_child)) ∙ rw (==_refl p) refl

    -- The others that are to be ended still can be.
    pub cut_left : Family.Reaped v k p v2 k2 → IsDoomed v k p → IsDoomed v2 k2 p
    cut_left a d = record {
      orphan =
          r.fathers p (omega (arith, level_child))
          ∙ rw (ne→== p c (λ q. let z = ap v.level q in omega (arith, z, level_child))) d.orphan;
      used = λ x i e. elim (r.only x i) [
        | inl j ↦ d.used x j e
        | inr h ↦
            let z = ap v.level e in omega (arith, z, level_child, Family.Descends-level n1 x c h)
      ];
      honest = λ x h.
          a.honest x (d.honest x (Family.Descends-shrink v2.children v.children x p a.shrink h));
    }
