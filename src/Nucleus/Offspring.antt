-- ===== src/Nucleus/Offspring.antt =====
-- The memory when createProcess has made a process: the tree.
use jae_so.Common.{
  ℕ, suc, ◌<◌, ◌≡◌, ◌≢◌, refl, sym, ap, ◌∙◌, inl, inr, some, List, [], ◌∷◌, ◌++◌, In, ==_refl,
  ne→==, ℕ_discrete,
}
use jae_so.Common.Without.{In-append, In-append_left, In-append_last}
use jae_so.Memory.{p_list}
use jae_so.Clist.Ring.{ne_of_Fresh}
use jae_so.Kernel.Machine.{Kernel, Pcb, max_proc}
use jae_so.Syscalls.Create.{Created}
use jae_so.Nucleus.Created.{created_view, spare, not_spare, not_child, running_other, can_create}
use jae_so.Nucleus.{View, IsNucleus, running}

module _ (np : ℕ) (v : View) (k : Kernel) (q p : ℕ) (xs : List ℕ) (n : IsNucleus v k)
    (runs : k.current_process ≡ some q) (free : v.blocks ≡ p ∷ xs) where
  module _ (k' : Kernel) (c : Created np k q p xs v.ready_list (v.children q) k') where
    pub parent_old : (r x : ℕ) → In x (v.children r) → (k'.pcb x).p_parent ≡ some r
    parent_old r x i =
        ap (λ (b : Pcb). b.p_parent) (c.others x (not_child np v k q p xs n runs free r x i))
        ∙ n.parents r x i

    pub parent_at :
        (r x : ℕ) → In x ((created_view q p xs v).children r) → (k'.pcb x).p_parent ≡ some r
    parent_at r x i = elim (ℕ_discrete r p) [
      | yes e ↦ let j : In x [] = rw (e, ==_refl p) at i in elim j [ ]
      | no a ↦
          let j = rw (ne→== r p a) at i in
          elim (ℕ_discrete r q) [
            | yes e ↦
                let l : In x (v.children q ++ p ∷ []) = rw (e, ==_refl q) at j in
                rw e (elim (In-append x (v.children q) p l) [
                  | inl m ↦ parent_old q x m
                  | inr w ↦ rw w c.parent
                ])
            | no b ↦ parent_old r x (rw (ne→== r q b) at j)
          ]
    ]

    pub level_at :
        (r x : ℕ)
        → In x ((created_view q p xs v).children r)
        → (created_view q p xs v).level x ≡ suc ((created_view q p xs v).level r)
    level_at r x i = elim (ℕ_discrete r p) [
      | yes e ↦ let j : In x [] = rw (e, ==_refl p) at i in elim j [ ]
      | no a ↦
          let j = rw (ne→== r p a) at i in
          elim (ℕ_discrete r q) [
            | yes e ↦
                let l : In x (v.children q ++ p ∷ []) = rw (e, ==_refl q) at j in
                rw (e, ne→== q p (running_other np v k q p xs n runs free))
                  (elim (In-append x (v.children q) p l) [
                    | inl m ↦
                        rw (ne→== x p (not_child np v k q p xs n runs free q x m)) (n.levels q x m)
                    | inr w ↦ rw (w, ==_refl p)
                  ])
            | no b ↦
                let m : In x (v.children r) = rw (ne→== r q b) at j in
                rw (ne→== r p a, ne→== x p (not_child np v k q p xs n runs free r x m))
                  (n.levels r x m)
          ]
    ]

    pub listed_at :
        (x r : ℕ) → (k'.pcb x).p_parent ≡ some r → In x ((created_view q p xs v).children r)
    listed_at x r e = elim (ℕ_discrete x p) [
      | yes w ↦
          let z : some q ≡ some r = sym c.parent ∙ ap (λ y. (k'.pcb y).p_parent) (sym w) ∙ e in
          let y : r ≡ q = cc in
          rw (y, ne→== q p (running_other np v k q p xs n runs free), ==_refl q, w)
            (In-append_last (v.children q) p)
      | no m ↦
          let i : In x (v.children r) =
            n.listed x r (ap (λ (b : Pcb). b.p_parent) (sym (c.others x m)) ∙ e) in
          let a : r ≢ p = λ w.
            let j : In x (v.children p) = rw w at i in
            let z : In x [] = rw (n.childless p (rw free (inl refl))) at j in z in
          rw (ne→== r p a) (elim (ℕ_discrete r q) [
            | yes w ↦ rw (w, ==_refl q) (In-append_left x (v.children q) p (rw w at i))
            | no b ↦ rw (ne→== r q b) i
          ])
    ]

    pub childless_at : (x : ℕ) → In x xs → (created_view q p xs v).children x ≡ []
    childless_at x i =
        rw
          (
            ne→== x p (λ e.
                ne_of_Fresh (p_list p) p_list x xs (can_create np v k q p xs n runs free).free.4.0 i
                  (ap p_list e)),
            ne→== x q (λ e.
                not_spare np v k q p xs n runs free q running (n.at_current q runs) (λ z. cc) x
                  (inr i) (sym e)),
          )
          (n.childless x (rw free (inr i)))

    pub small_at : (r x : ℕ) → In x ((created_view q p xs v).children r) → x < max_proc
    small_at r x i = elim (ℕ_discrete r p) [
      | yes e ↦ let j : In x [] = rw (e, ==_refl p) at i in elim j [ ]
      | no a ↦
          let j = rw (ne→== r p a) at i in
          elim (ℕ_discrete r q) [
            | yes e ↦
                let l : In x (v.children q ++ p ∷ []) = rw (e, ==_refl q) at j in
                elim (In-append x (v.children q) p l) [
                  | inl m ↦ n.small q x m
                  | inr w ↦
                      rw w (
                        n.bound p (λ z. let y = spare np v k q p xs n runs free p (inl refl) in cc))
                ]
            | no b ↦ n.small r x (rw (ne→== r q b) at j)
          ]
    ]
