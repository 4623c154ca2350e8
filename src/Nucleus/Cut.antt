-- ===== src/Nucleus/Cut.antt =====
-- A process that leaves the children of its parent: removeChild and outChild.
use jae_so.Common.{
  ℕ, ◌≡◌, ◌≢◌, refl, sym, ◌∙◌, none, some, List, [], ◌∷◌, map, In, Fresh, ==_refl, ne→==,
  ℕ_discrete,
}
use jae_so.Memory.{Loc, p_list, p_children, p_siblings, s_link, Links}
use jae_so.Clist.Ring.{IsClist, IsClist-agree_map, Fresh-map}
use jae_so.Kernel.Machine.{Kernel, Pcb, update, update_field}
use jae_so.Pcb.Tree.{IsFamily, set_parent}
use jae_so.Asl.Head.{Ascending-agree}
use jae_so.Nucleus.{View, IsNucleus}

-- The view when the children of `q` are `cs`.
abbrev pub cut_view : ℕ → List ℕ → View → View
cut_view q cs v = record v { children = update v.children q cs }

-- The kernel when `c` has left the children of `q`, which are `cs` then.
pub record Cut (v : View) (k : Kernel) (q c : ℕ) (cs : List ℕ) (σ : Links) : Type 0 where
  pub child : In c (v.children q)
  pub rest : (x : ℕ) → In x cs → In x (v.children q) × (x ≢ c)
  pub stay : (x : ℕ) → In x (v.children q) → x ≢ c → In x cs
  pub family : IsClist σ (p_children q) (map p_siblings cs)
  pub same : (b : Loc) → Fresh b (p_children q ∷ map p_siblings (v.children q)) → σ b ≡ k.links b

module _ {v : View} {k : Kernel} {q c : ℕ} {cs : List ℕ} {σ : Links} (n : IsNucleus v k)
    (t : Cut v k q c cs σ) where
  abbrev after : Kernel
  after = record (set_parent c none k) { links = σ }

  -- A list of no children is as it was.
  others :
      (h : Loc) (g : ℕ → Loc) (ys : List ℕ)
      → ((x : ℕ) → h ≢ p_children x)
      → ((x : ℕ) → h ≢ p_siblings x)
      → ((x y : ℕ) → g x ≢ p_children y)
      → ((x y : ℕ) → g x ≢ p_siblings y)
      → IsClist k.links h (map g ys)
      → IsClist σ h (map g ys)
  others h g ys n1 n2 n3 n4 =
      IsClist-agree_map k.links σ h g ys
        (t.same h (n1 q, Fresh-map h p_siblings (v.children q) (λ x i. n2 x)))
        λ x i. t.same (g x) (n3 x q, Fresh-map (g x) p_siblings (v.children q) (λ y j. n4 x y))

  -- Nobody has two parents.
  only_parent : (r x : ℕ) → In x (v.children r) → In x (v.children q) → r ≡ q
  only_parent r x i j = let z : some r ≡ some q = sym (n.parents r x i) ∙ n.parents q x j in cc

  family_other : (r : ℕ) → r ≢ q → IsClist σ (p_children r) (map p_siblings (v.children r))
  family_other r m =
      IsClist-agree_map k.links σ (p_children r) p_siblings (v.children r)
        (t.same (p_children r)
          ((λ e. m (cc)), Fresh-map (p_children r) p_siblings (v.children q) (λ x i e. cc)))
        (λ x i. t.same (p_siblings x) (
          (λ e. cc),
          Fresh-map (p_siblings x) p_siblings (v.children q)
              (λ y j e. let w : x ≡ y = cc in m (only_parent r x i (rw w j))),
        ))
        (n.family r)

  IsFamily-at : (r : ℕ) → IsFamily after r ((cut_view q cs v).children r)
  IsFamily-at r = elim (ℕ_discrete r q) [
    | yes e ↦ rw (e, ==_refl q) t.family
    | no m ↦ rw (ne→== r q m) (family_other r m)
  ]

  -- The children after it are children before.
  pub before : (r x : ℕ) → In x ((cut_view q cs v).children r) → In x (v.children r) × (x ≢ c)
  before r x i = elim (ℕ_discrete r q) [
    | yes e ↦ let j : In x cs = rw (e, ==_refl q) at i in rw e (t.rest x j)
    | no m ↦
        let j : In x (v.children r) = rw (ne→== r q m) at i in
        (j, λ w. m (only_parent r x j (rw w t.child)))
  ]

  after_listed : (x r : ℕ) → x ≢ c → In x (v.children r) → In x ((cut_view q cs v).children r)
  after_listed x r m i = elim (ℕ_discrete r q) [
    | yes e ↦ rw (e, ==_refl q) (t.stay x (rw e at i) m)
    | no a ↦ rw (ne→== r q a) i
  ]

  pub cut-IsNucleus : IsNucleus (cut_view q cs v) after
  cut-IsNucleus = record {
    active = others _ s_link v.active (λ x e. cc) (λ x e. cc) (λ x y e. cc) (λ x y e. cc) n.active;
    ascending = Ascending-agree k after v.active refl n.ascending;
    queue = λ d i.
        others _ p_list (v.queue d) (λ x e. cc) (λ x e. cc) (λ x y e. cc) (λ x y e. cc)
          (n.queue d i);
    busy = n.busy;
    waits = λ d x i j. update_field (λ (b : Pcb). b.p_cursem) k.pcb c _ x refl ∙ n.waits d x i j;
    semds = others _ s_link v.semds (λ x e. cc) (λ x e. cc) (λ x y e. cc) (λ x y e. cc) n.semds;
    apart = n.apart;
    total = n.total;
    ready =
        others _ p_list v.ready_list (λ x e. cc) (λ x e. cc) (λ x y e. cc) (λ x y e. cc) n.ready;
    blocks = others _ p_list v.blocks (λ x e. cc) (λ x e. cc) (λ x y e. cc) (λ x y e. cc) n.blocks;
    at_ready = n.at_ready;
    at_queue = n.at_queue;
    at_blocks = n.at_blocks;
    at_current = n.at_current;
    bound = n.bound;
    count = n.count;
    family = IsFamily-at;
    parents = λ r x i. let b = before r x i in rw (ne→== x c b.1) (n.parents r x b.0);
    orphans = λ x i. elim (ℕ_discrete x c) [
      | yes e ↦ rw (e, ==_refl c)
      | no m ↦ rw (ne→== x c m) (n.orphans x i)
    ];
    listed = λ x r e. elim (ℕ_discrete x c) [
      | yes w ↦ let z : none ≡ some r = sym (rw (w, ==_refl c) refl) ∙ e in cc
      | no m ↦ after_listed x r m (n.listed x r (rw (ne→== x c m) at e))
    ];
    childless = λ x i.
        rw (ne→== x q (λ e. let z : In c [] = rw (n.childless q (rw e at i)) at t.child in z))
          (n.childless x i);
    levels = λ r x i. n.levels r x (before r x i).0;
    small = λ r x i. n.small r x (before r x i).0;
  }
