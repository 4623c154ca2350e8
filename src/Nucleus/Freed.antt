-- ===== src/Nucleus/Freed.antt =====
-- The end of terminateProgeny: a block that is in no list is freed, and the nucleus stays in order.
use jae_so.Common.Without.{In-append, Distinct-length, Fresh-of}
use jae_so.Common.{
  ℕ, ◌<◌, ◌≡◌, ◌≢◌, refl, sym, ap, ◌∙◌, inl, inr, none, List, [], ◌∷◌, ◌++◌, map, arith, length, In,
  Fresh, ne→==, ==_refl, ℕ_discrete, length-append,
}
use jae_so.Memory.{Loc, p_list, p_siblings, s_link, pcb_free, Links}
use jae_so.Clist.Ring.{IsClist, IsClist-agree_map, Fresh-map}
use jae_so.Clist.Map.{Distinct-of_map}
use jae_so.Kernel.Machine.{Kernel, update, sub32, max_proc}
use jae_so.Asl.Order.{All-of}
use jae_so.Asl.Release.{Distinct-of-IsClist}
use jae_so.Asl.Head.{Ascending-agree}
use jae_so.Nucleus.{View, IsNucleus, Place, blocked, unused, nowhere}

-- The process is in no list of processes.
pub record IsLoose (v : View) (p : ℕ) : Type 0 where
  pub not_ready : (x : ℕ) → In x v.ready_list → x ≢ p
  pub not_waiting : (d x : ℕ) → In d v.active → In x (v.queue d) → x ≢ p
  pub not_free : (x : ℕ) → In x v.blocks → x ≢ p

abbrev pub freed_view : ℕ → View → View
freed_view p v = record v { place = update v.place p unused; blocks = v.blocks ++ p ∷ [] }

-- The kernel when the block `p` is free.
abbrev pub freed : Kernel → Links → Kernel
freed k σ = record k { links = σ; process_count = sub32 k.process_count 1 }

-- The block `p` can be freed: no process runs, and `p` is a block with no parent and no
-- children, in no list.
pub record CanFree (v : View) (k : Kernel) (p : ℕ) : Type 0 where
  pub loose : IsLoose v p
  pub idle : k.current_process ≡ none
  pub childless : v.children p ≡ []
  pub orphan : (k.pcb p).p_parent ≡ none
  pub low : p < max_proc

-- The links when the free list has `p` at its end.
pub record Freed (v : View) (k : Kernel) (p : ℕ) (σ : Links) : Type 0 where
  pub blocks : IsClist σ pcb_free (map p_list (v.blocks ++ p ∷ []))
  pub same : (b : Loc) → Fresh b (pcb_free ∷ p_list p ∷ map p_list v.blocks) → σ b ≡ k.links b

module _ {v : View} {k : Kernel} {p : ℕ} {σ : Links} (n : IsNucleus v k) (c : CanFree v k p)
    (f : Freed v k p σ) where
  others :
      (h : Loc) (g : ℕ → Loc) (ys : List ℕ)
      → h ≢ pcb_free
      → ((x : ℕ) → h ≢ p_list x)
      → ((x : ℕ) → g x ≢ pcb_free)
      → ((x : ℕ) → In x ys → g x ≢ p_list p)
      → ((x y : ℕ) → In x ys → In y v.blocks → g x ≢ p_list y)
      → IsClist k.links h (map g ys)
      → IsClist σ h (map g ys)
  others h g ys n1 n2 n3 n4 n5 =
      IsClist-agree_map k.links σ h g ys
        (f.same h (n1, (n2 p, Fresh-map h p_list v.blocks (λ x i. n2 x))))
        λ x i. f.same (g x) (n3 x, (n4 x i, Fresh-map (g x) p_list v.blocks (λ y j. n5 x y i j)))

  other_place :
      (w : Place) (x y : ℕ) → v.place x ≡ w → w ≢ unused → In y v.blocks → p_list x ≢ p_list y
  other_place w x y e m j q = let r : x ≡ y = cc in m (sym e ∙ ap v.place r ∙ n.at_blocks y j)

  placed_other : (x : ℕ) (w : Place) → x ≢ p → v.place x ≡ w → update v.place p unused x ≡ w
  placed_other x w m e = rw (ne→== x p m) e

  -- There is room for one more free block.
  blocks-lt : length v.blocks < max_proc
  blocks-lt = omega (
    arith,
    Distinct-length max_proc (p ∷ v.blocks)
        (
          Fresh-of p v.blocks (λ x i e. c.loose.not_free x i (sym e)),
          Distinct-of_map p_list v.blocks
              (Distinct-of-IsClist k.links pcb_free (map p_list v.blocks) n.blocks),
        )
        (
          c.low,
          All-of (λ x. x < max_proc) v.blocks
              λ x i. n.bound x (λ e. let z : unused ≡ nowhere = sym (n.at_blocks x i) ∙ e in cc),
        ),
  )

  pub freed-IsNucleus : IsNucleus (freed_view p v) (freed k σ)
  freed-IsNucleus = record {
    active =
        others _ s_link v.active (λ e. cc) (λ x e. cc) (λ x e. cc) (λ x i e. cc) (λ x y i j e. cc)
          n.active;
    ascending = Ascending-agree k (freed k σ) v.active refl n.ascending;
    queue = λ d i.
        others _ p_list (v.queue d) (λ e. cc) (λ x e. cc) (λ x e. cc)
          (λ x j e. c.loose.not_waiting d x i j (cc))
          (λ x y a j. other_place (blocked d) x y (n.at_queue d x i a) (λ e. cc) j) (n.queue d i);
    busy = n.busy;
    waits = n.waits;
    semds =
        others _ s_link v.semds (λ e. cc) (λ x e. cc) (λ x e. cc) (λ x i e. cc) (λ x y i j e. cc)
          n.semds;
    apart = n.apart;
    total = n.total;
    ready =
        others _ p_list v.ready_list (λ e. cc) (λ x e. cc) (λ x e. cc)
          (λ x j e. c.loose.not_ready x j (cc))
          (λ x y i j. other_place Place.ready x y (n.at_ready x i) (λ e. cc) j) n.ready;
    blocks = f.blocks;
    at_ready = λ x i. placed_other x Place.ready (c.loose.not_ready x i) (n.at_ready x i);
    at_queue =
        λ d x i j. placed_other x (blocked d) (c.loose.not_waiting d x i j) (n.at_queue d x i j);
    at_blocks = λ x i. elim (In-append x v.blocks p i) [
      | inl j ↦ placed_other x unused (c.loose.not_free x j) (n.at_blocks x j)
      | inr e ↦ rw (e, ==_refl p)
    ];
    at_current = λ x e. let z = sym c.idle ∙ e in cc;
    bound = λ x m. elim (ℕ_discrete x p) [
      | yes e ↦ rw e c.low
      | no e ↦ n.bound x (rw (ne→== x p e) at m)
    ];
    count = omega (arith, n.count, blocks-lt, length-append v.blocks (p ∷ []));
    family = λ r.
        others _ p_siblings (v.children r) (λ e. cc) (λ x e. cc) (λ x e. cc) (λ x i e. cc)
          (λ x y i j e. cc) (n.family r);
    parents = n.parents;
    orphans =
        λ x i. elim (In-append x v.blocks p i) [ inl j ↦ n.orphans x j | inr e ↦ rw e c.orphan ];
    listed = n.listed;
    childless = λ x i. elim (In-append x v.blocks p i) [
      | inl j ↦ n.childless x j
      | inr e ↦ rw e c.childless
    ];
    levels = n.levels;
    small = n.small;
  }
