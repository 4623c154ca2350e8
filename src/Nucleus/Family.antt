-- ===== src/Nucleus/Family.antt =====
-- The descendants of a process, and what is left of them when some have been ended.
use jae_so.Common.{
  ℕ, suc, ◌<◌, ◌≤◌, ◌≡◌, refl, ap, ◌∙◌, inl, inr, ◌⊎◌, List, [], ◌∷◌, map, arith, In, length, Fresh,
  Distinct, All,
}
use jae_so.Common.Without.{In-append, In-append_left, Distinct-length}
use jae_so.Memory.{p_children, p_siblings}
use jae_so.Clist.Map.{Distinct-of_map}
use jae_so.Asl.Order.{All-of}
use jae_so.Asl.Release.{Distinct-of-IsClist}
use jae_so.Kernel.Machine.{Kernel, Pcb, max_proc}
use jae_so.Nucleus.{View, IsNucleus}
use jae_so.Nucleus.Leave.{idle, IsHonest, Retired}

-- `x` is `p`, or a child of `p`, or a child of one of these, and so on.
pub data Descends (children : ℕ → List ℕ) (x : ℕ) : ℕ → Type 0 where
  here : Descends children x x
  below : {p c : ℕ} → In c (children p) → Descends children x c → Descends children x p

pub Descends-shrink :
    (f g : ℕ → List ℕ) (x p : ℕ)
    → ((y z : ℕ) → In z (f y) → In z (g y))
    → Descends f x p
    → Descends g x p
Descends-shrink f g x p h here = here
Descends-shrink f g x p h (below {c = c} i d) = below (h p c i) (Descends-shrink f g x c h d)

pub Descends-childless : (f : ℕ → List ℕ) (x p : ℕ) → f p ≡ [] → Descends f x p → x ≡ p
Descends-childless f x p e here = refl
Descends-childless f x p e (below {c = c} i d) = let j : In c [] = rw e at i in elim j [ ]

pub Descends-trans : (f : ℕ → List ℕ) (x y z : ℕ) → Descends f x y → Descends f y z → Descends f x z
Descends-trans f x y z d here = d
Descends-trans f x y z d (below {c = c} i e) = below i (Descends-trans f x y c d e)

-- A child of a descendant.
pub Descends-append : (f : ℕ → List ℕ) (x q p : ℕ) → In x (f q) → Descends f q p → Descends f x p
Descends-append f x q p i d = Descends-trans f x q p (below i here) d

module _ {v : View} {k : Kernel} (n : IsNucleus v k) where
  pub Descends-level : (x p : ℕ) → Descends v.children x p → v.level p ≤ v.level x
  Descends-level x p here = omega arith
  Descends-level x p (below {c = c} i d) = omega (arith, n.levels p c i, Descends-level x c d)

-- No process has more children than there are blocks.
pub children_le : (v : View) (k : Kernel) (p : ℕ) → IsNucleus v k → length (v.children p) ≤ max_proc
children_le v k p n =
    Distinct-length max_proc (v.children p)
      (Distinct-of_map p_siblings (v.children p)
        (Distinct-of-IsClist k.links (p_children p) (map p_siblings (v.children p)) (n.family p)))
      (All-of (λ x. x < max_proc) (v.children p) (n.small p))

-- The ancestors of `p`, from its parent on, while they are being ended.
pub record IsChain (level : ℕ → ℕ) (p : ℕ) (above : List ℕ) : Type 0 where
  pub distinct : Distinct (p ∷ above)
  pub low : All (λ x. x < max_proc) (p ∷ above)
  pub higher : All (λ x. level x < level p) above

Fresh-levels : (level : ℕ → ℕ) (c : ℕ) (xs : List ℕ) → All (λ x. level x < level c) xs → Fresh c xs
Fresh-levels level c [] a = tt
Fresh-levels level c (x ∷ xs) a = (
  λ e. let z : level c ≡ level x = ap level e in omega (arith, z, a.0),
  Fresh-levels level c xs a.1,
)

deeper :
    (level : ℕ → ℕ) (p c : ℕ) (xs : List ℕ)
    → level c ≡ suc (level p)
    → All (λ x. level x < level p) xs
    → All (λ x. level x < level c) xs
deeper level p c [] e a = tt
deeper level p c (x ∷ xs) e a = (omega (arith, e, a.0), deeper level p c xs e a.1)

pub IsChain-child :
    (level : ℕ → ℕ) (p c : ℕ) (above : List ℕ)
    → level c ≡ suc (level p)
    → c < max_proc
    → IsChain level p above
    → IsChain level c (p ∷ above)
IsChain-child level p c above e l h =
    let a : All (λ x. level x < level c) (p ∷ above) =
      (omega (arith, e), deeper level p c above e h.higher) in
    record {
      distinct = (Fresh-levels level c (p ∷ above) a, h.distinct);
      low = (l, h.low);
      higher = a;
    }

-- No chain is longer than there are blocks.
pub IsChain-length :
    (level : ℕ → ℕ) (p : ℕ) (above : List ℕ) → IsChain level p above → length above < max_proc
IsChain-length level p above h =
    omega (arith, Distinct-length max_proc (p ∷ above) h.distinct h.low)

-- Some descendants of `p` have been ended: their blocks are free, and nobody else has changed.
pub record Reaped (v : View) (k : Kernel) (p : ℕ) (v' : View) (k' : Kernel) : Type 0 where
  pub ordered : IsNucleus v' (idle k')
  pub level : v'.level ≡ v.level
  pub shrink : (y x : ℕ) → In x (v'.children y) → In x (v.children y)
  pub above : (y : ℕ) → v.level y < v.level p → v'.children y ≡ v.children y
  pub places : (x : ℕ) → v.level x < v.level p → v'.place x ≡ v.place x
  pub fathers : (x : ℕ) → v.level x < v.level p → (k'.pcb x).p_parent ≡ (k.pcb x).p_parent
  pub kept : (x y : ℕ) → Descends v.children x y → Descends v'.children x y ⊎ In x v'.blocks
  pub grow : (x : ℕ) → In x v.blocks → In x v'.blocks
  pub only : (x : ℕ) → In x v'.blocks → In x v.blocks ⊎ Descends v.children x p
  pub honest : (x : ℕ) → IsHonest v k x → IsHonest v' k' x
  pub current : k'.current_process ≡ k.current_process

pub Reaped-refl : (v : View) (k : Kernel) (p : ℕ) → IsNucleus v (idle k) → Reaped v k p v k
Reaped-refl v k p n = record {
  ordered = n;
  level = refl;
  shrink = λ y x i. i;
  above = λ y l. refl;
  places = λ x l. refl;
  fathers = λ x l. refl;
  kept = λ x y d. inl d;
  grow = λ x i. i;
  only = λ x i. inl i;
  honest = λ x h. h;
  current = refl;
}

pub Reaped-trans :
    (v v' v'' : View) (k k' k'' : Kernel) (p : ℕ)
    → Reaped v k p v' k'
    → Reaped v' k' p v'' k''
    → Reaped v k p v'' k''
Reaped-trans v v' v'' k k' k'' p a b = record {
  ordered = b.ordered;
  level = b.level ∙ a.level;
  shrink = λ y x i. a.shrink y x (b.shrink y x i);
  above = λ y l. b.above y (rw a.level l) ∙ a.above y l;
  places = λ x l. b.places x (rw a.level l) ∙ a.places x l;
  fathers = λ x l. b.fathers x (rw a.level l) ∙ a.fathers x l;
  kept = λ x y d. elim (a.kept x y d) [ inl e ↦ b.kept x y e | inr i ↦ inr (b.grow x i) ];
  grow = λ x i. b.grow x (a.grow x i);
  only = λ x i. elim (b.only x i) [
    | inl j ↦ a.only x j
    | inr d ↦ inr (Descends-shrink v'.children v.children x p a.shrink d)
  ];
  honest = λ x h. b.honest x (a.honest x h);
  current = b.current ∙ a.current;
}

-- When the block of `p` itself has been freed.
pub Reaped-last : (v v' : View) (k k' : Kernel) (p : ℕ) → Retired v k p v' k' → Reaped v k p v' k'
Reaped-last v v' k k' p r = record {
  ordered = r.ordered;
  level = r.level;
  shrink = λ y x i. rw r.children at i;
  above = λ y l. ap (λ (f : ℕ → List ℕ). f y) r.children;
  places =
      λ x l. r.places x (λ e. let z : v.level x ≡ v.level p = ap v.level e in omega (arith, z, l));
  fathers = λ x l. ap (λ (f : ℕ → Pcb). (f x).p_parent) r.pcb;
  kept = λ x y d. inl (rw r.children d);
  grow = λ x i. rw r.blocks (In-append_left x v.blocks p i);
  only = λ x i. elim (In-append x v.blocks p (rw r.blocks at i)) [
    | inl j ↦ inl j
    | inr e ↦ inr (rw e here)
  ];
  honest = r.honest;
  current = r.current;
}
