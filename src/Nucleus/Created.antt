-- ===== src/Nucleus/Created.antt =====
-- The memory when createProcess has made a process: the lists.
use jae_so.Common.{
  ℕ, suc, ◌+◌, ◌≡◌, ◌≢◌, refl, sym, ap, ◌∙◌, inl, inr, none, some, List, [], ◌∷◌, ◌++◌, map, arith,
  length, In, ==_refl, ne→==, ℕ_discrete,
}
use jae_so.Memory.{Loc, p_list, p_children, p_siblings, s_link, s_procq, ready_queue, pcb_free}
use jae_so.Clist.Ring.{IsClist, IsClist-agree_map}
use jae_so.Kernel.Machine.{Kernel, max_proc, update}
use jae_so.Pcb.Tree.{IsFamily}
use jae_so.Syscalls.Create.{CanCreate, Created}
use jae_so.Nucleus.{View, IsNucleus, Place, blocked, running, unused}

-- The view when `p`, the first free block, is ready, and a child of `q`.
abbrev pub created_view : ℕ → ℕ → List ℕ → View → View
created_view q p xs v = record v {
  place = update v.place p Place.ready;
  ready_list = v.ready_list ++ p ∷ [];
  blocks = xs;
  children = update (update v.children q (v.children q ++ p ∷ [])) p [];
  level = update v.level p (suc (v.level q));
}

module _ (np : ℕ) (v : View) (k : Kernel) (q p : ℕ) (xs : List ℕ) (n : IsNucleus v k)
    (runs : k.current_process ≡ some q) (free : v.blocks ≡ p ∷ xs) where
  -- Where the blocks are.
  pub spare : (x : ℕ) → In x (p ∷ xs) → v.place x ≡ unused
  spare x i = n.at_blocks x (rw free i)

  pub orphan : (x : ℕ) → In x (p ∷ xs) → (k.pcb x).p_parent ≡ none
  orphan x i = n.orphans x (rw free i)

  pub not_spare : (x : ℕ) (w : Place) → v.place x ≡ w → w ≢ unused → (y : ℕ) → In y (p ∷ xs) → x ≢ y
  not_spare x w e m y i r = m (sym e ∙ ap v.place r ∙ spare y i)

  pub not_child : (r x : ℕ) → In x (v.children r) → x ≢ p
  not_child r x i e =
      let z : none ≡ some r =
        sym (orphan p (inl refl)) ∙ ap (λ y. (k.pcb y).p_parent) (sym e) ∙ n.parents r x i in
      cc

  pub running_other : q ≢ p
  running_other = not_spare q running (n.at_current q runs) (λ e. cc) p (inl refl)

  pub ready_apart : (r x : ℕ) → In r v.ready_list → In x (p ∷ xs) → r ≢ x
  ready_apart r x i j = not_spare r Place.ready (n.at_ready r i) (λ e. cc) x j

  pub can_create : CanCreate k q p xs v.ready_list (v.children q)
  can_create = record {
    current = runs;
    room = let e : k.process_count + length (p ∷ xs) ≡ max_proc = rw free at n.count in omega arith;
    free = rw free at n.blocks;
    ready = n.ready;
    family = n.family q;
    other = running_other;
    ready_apart = ready_apart;
    family_apart = not_child q;
  }

  module _ (k' : Kernel) (c : Created np k q p xs v.ready_list (v.children q) k') where
    -- A list of processes that are blocked is as it was.
    pub same_queue :
        (d : ℕ) (ys : List ℕ)
        → ((x : ℕ) → In x ys → v.place x ≡ blocked d)
        → IsClist k.links (s_procq d) (map p_list ys)
        → IsClist k'.links (s_procq d) (map p_list ys)
    same_queue d ys w =
        IsClist-agree_map k.links k'.links (s_procq d) p_list ys
          (c.same (s_procq d) (λ e. cc) (λ e. cc) (λ e. cc) (λ e. cc) (λ x i e. cc) (λ x i e. cc)
            (λ x i e. cc))
          λ x i.
            c.same (p_list x) (λ e. cc) (λ e. cc) (λ e. cc) (λ e. cc) (λ y j e. cc)
              (λ y j e. not_spare x (blocked d) (w x i) (λ z. cc) y j (cc))
              (λ y j e.
                let r : x ≡ y = cc in
                let z : blocked d ≡ Place.ready = sym (w x i) ∙ ap v.place r ∙ n.at_ready y j in cc)

    pub same_semds :
        (h : Loc) (ys : List ℕ)
        → h ≢ pcb_free
        → h ≢ ready_queue
        → ((x : ℕ) → h ≢ p_children x)
        → ((x : ℕ) → h ≢ p_siblings x)
        → ((x : ℕ) → h ≢ p_list x)
        → IsClist k.links h (map s_link ys)
        → IsClist k'.links h (map s_link ys)
    same_semds h ys n1 n2 n3 n4 n5 =
        IsClist-agree_map k.links k'.links h s_link ys
          (c.same h n1 n2 (n3 p) (n3 q) (λ x i. n4 x) (λ x i. n5 x) (λ x i. n5 x))
          λ x i.
            c.same (s_link x) (λ e. cc) (λ e. cc) (λ e. cc) (λ e. cc) (λ y j e. cc) (λ y j e. cc)
              (λ y j e. cc)

    pub same-IsFamily : (r : ℕ) → r ≢ q → r ≢ p → IsFamily k' r (v.children r)
    same-IsFamily r a b =
        IsClist-agree_map k.links k'.links (p_children r) p_siblings (v.children r)
          (c.same (p_children r) (λ e. cc) (λ e. cc) (λ e. b (cc)) (λ e. a (cc)) (λ x i e. cc)
            (λ x i e. cc) (λ x i e. cc))
          (λ x i.
            c.same (p_siblings x) (λ e. cc) (λ e. cc) (λ e. cc) (λ e. cc)
              (λ y j e. elim j [
                | inl w ↦ not_child r x i (cc)
                | inr l ↦
                    let w : x ≡ y = cc in
                    let z : some r ≡ some q =
                      sym (n.parents r x i) ∙ ap (λ u. (k.pcb u).p_parent) w ∙ n.parents q y l in
                    a (cc)
              ])
              (λ y j e. cc) (λ y j e. cc))
          (n.family r)

    pub pcb_same : (x : ℕ) → x ≢ p → k'.pcb x ≡ k.pcb x
    pcb_same = c.others

    pub IsFamily-at : (r : ℕ) → IsFamily k' r ((created_view q p xs v).children r)
    IsFamily-at r = elim (ℕ_discrete r p) [
      | yes e ↦ rw (e, ==_refl p) c.childless
      | no a ↦ rw (ne→== r p a) (elim (ℕ_discrete r q) [
        | yes e ↦ rw (e, ==_refl q) c.family
        | no b ↦ rw (ne→== r q b) (same-IsFamily r b a)
      ])
    ]
