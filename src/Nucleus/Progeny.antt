-- ===== src/Nucleus/Progeny.antt =====
-- terminateProgeny: a process is ended with all its descendants.
use jae_so.Common.{
  ℕ, zero, suc, ◌+◌, ◌<◌, ◌≤◌, ◌≡◌, refl, ap, ◌∙◌, inl, inr, List, [], ◌∷◌, map, arith, Fresh,
  length,
}
use jae_so.Common.Without.{In-append_last}
use jae_so.Memory.{Links, Loc, p_children, p_siblings}
use jae_so.Clist.Ring.{IsClist, ne_of_Fresh}
use jae_so.Clist.Queue.{is_empty-nil, is_empty-cons}
use jae_so.Kernel.Arch.{Arch}
use jae_so.Kernel.Machine.{Kernel}
use jae_so.Kernel.Cmd.{◌>>◌, Cmd, Returns}
use jae_so.Kernel.Rules.{Returns-and_then, Returns-weaken}
use jae_so.Pcb.{rounds, empty_child}
use jae_so.Pcb.Tree.{IsFamily, remove_child-cons, out_child-none}
use jae_so.Syscalls.Process.{each_child, terminate_one, terminate_progeny}
use jae_so.Nucleus.{View, IsNucleus}
use jae_so.Nucleus.Cut.{Cut}
use jae_so.Nucleus.Leave.{idle, Retired}
use jae_so.Nucleus.Retire.{retire}
use jae_so.Nucleus.Family
use jae_so.Nucleus.Child.{
  IsDoomed, Ended, cut-IsDoomed, cut-Reaped, level_child, cut_rest, cut_left, v1, k1, n1,
}

-- What a run that ends processes does.
abbrev Ends : (ℕ → Cmd (Unit {0})) → List ℕ → Type 0
Ends kill above =
    (v : View) (k : Kernel) (p : ℕ)
    → Family.IsChain v.level p above
    → IsNucleus v (idle k)
    → IsDoomed v k p
    → Returns (λ _ k'. Ended v k p k') (kill p k)

-- What a run of the loop does.
abbrev Emptied : View → Kernel → ℕ → Kernel → Type 0
Emptied v k p k' = (v' : View) × Family.Reaped v k p v' k' × (v'.children p ≡ []) × IsDoomed v' k' p

-- The first child is cut off.
Cut-first :
    (v : View) (k : Kernel) (p c : ℕ) (cs : List ℕ) (σ : Links)
    → IsNucleus v (idle k)
    → v.children p ≡ c ∷ cs
    → IsClist σ (p_children p) (map p_siblings cs)
    → ((b : Loc) → Fresh b (p_children p ∷ map p_siblings (c ∷ cs)) → σ b ≡ k.links b)
    → Cut v (idle k) p c cs σ
Cut-first v k p c cs σ n e f g =
    let q : IsClist k.links (p_children p) (map p_siblings (c ∷ cs)) = rw e at (n.family p) in
    record {
      child = rw e (inl refl);
      rest = λ x i.
          (rw e (inr i), λ w. ne_of_Fresh (p_siblings c) p_siblings x cs q.4.0 i (ap p_siblings w));
      stay = λ x i m. elim (rw e at i) [ inl w ↦ absurd (m w) | inr j ↦ j ];
      family = f;
      same = λ b h. g b (rw e at h);
    }

module _ (arch : Arch) (kill : ℕ → Cmd (Unit {0})) (p : ℕ) (above : List ℕ)
    (ends : Ends kill (p ∷ above)) where
  loop :
      (m : ℕ) (cs : List ℕ) (v : View) (k : Kernel)
      → length cs < m
      → v.children p ≡ cs
      → Family.IsChain v.level p above
      → IsNucleus v (idle k)
      → IsDoomed v k p
      → Returns (λ _ k'. Emptied v k p k') (each_child arch kill m p k)
  unfolding each_child empty_child
  loop zero cs v k l e h n d = absurd (omega arith)
  loop (suc m) [] v k l e h n d =
      rw (is_empty-nil k.links (p_children p) (rw e at (n.family p)))
        (v, Family.Reaped-refl v k p n, e, d)
  loop (suc m) (c ∷ cs) v k l e h n d =
      let q : IsFamily k p (c ∷ cs) = rw e at (n.family p) in
      let r = remove_child-cons k p c cs q in
      let t = Cut-first v k p c cs r.0 n e r.2 r.4 in
      rw (is_empty-cons k.links (p_children p) (p_siblings c) (map p_siblings cs) q, r.1)
        (Returns-and_then (λ _ k2. Ended (v1 v k p c cs r.0 n t) (k1 v k p c cs r.0 n t) c k2)
          (λ _ k'. Emptied v k p k') (kill c (k1 v k p c cs r.0 n t))
          (λ _. each_child arch kill m p)
          (ends (v1 v k p c cs r.0 n t) (k1 v k p c cs r.0 n t) c
            (Family.IsChain-child v.level p c above (level_child v k p c cs r.0 n t)
              (n.small p c t.child) h)
            (n1 v k p c cs r.0 n t)
            (cut-IsDoomed v k p c cs r.0 n t λ x j. d.honest x (Family.below t.child j)))
          λ _ k2 (v2, r2, g, z).
            let a : Family.Reaped v k p v2 k2 = cut-Reaped v k p c cs r.0 n t v2 k2 r2 g z in
            Returns-weaken (λ _ k'. Emptied v2 k2 p k') (λ _ k'. Emptied v k p k')
              (each_child arch kill m p k2)
              (loop m cs v2 k2 (omega (arith, l)) (cut_rest v k p c cs r.0 n t v2 k2 r2)
                (rw a.level h) a.ordered (cut_left v k p c cs r.0 n t v2 k2 r2 a d))
              λ _ k' (v', b, y, w). (v', Family.Reaped-trans v v2 v' k k2 k' p a b, y, w))

  -- Then the block of `p` itself is freed.
  pub progeny_rest :
      (v : View) (k : Kernel)
      → Family.IsChain v.level p above
      → IsNucleus v (idle k)
      → IsDoomed v k p
      → Returns (λ _ k'. Ended v k p k') ((each_child arch kill rounds p >> terminate_one arch p) k)
  progeny_rest v k h n d =
      Returns-and_then (λ _ k1. Emptied v k p k1) (λ _ k'. Ended v k p k')
        (each_child arch kill rounds p k) (λ _. terminate_one arch p)
        (loop rounds (v.children p) v k (omega (arith, Family.children_le v (idle k) p n)) refl h n
          d)
        λ _ k1 (v1, a, e, d1).
          Returns-weaken (λ _ k2. (v2 : View) × Retired v1 k1 p v2 k2) (λ _ k'. Ended v k p k')
            (terminate_one arch p k1)
            (retire arch v1 k1 p a.ordered (record {
              orphan = d1.orphan;
              low = h.low.0;
              used = d1.used;
              honest = d1.honest p Family.here;
              childless = e;
            }))
            λ _ k2 (v2, r). (
              v2,
              Family.Reaped-trans v v1 v2 k k1 k2 p a (Family.Reaped-last v1 v2 k1 k2 p r),
              rw r.blocks (In-append_last v1.blocks p),
              ap (λ (f : ℕ → List ℕ). f p) r.children ∙ e,
            )

-- terminateProgeny of a process with no parent; the bound on its depth is enough, since no chain of
-- ancestors is longer than there are blocks.
pub progeny-Ends :
    (arch : Arch) (fuel : ℕ) (above : List ℕ)
    → rounds ≤ fuel + length above
    → Ends (terminate_progeny arch fuel) above
unfolding terminate_progeny
progeny-Ends arch zero above l v k p h n d =
    absurd (omega (arith, l, Family.IsChain-length v.level p above h))
progeny-Ends arch (suc fuel) above l v k p h n d = rw (out_child-none k p d.orphan) (
    progeny_rest arch (terminate_progeny arch fuel) p above
      (progeny-Ends arch fuel (p ∷ above) (omega (arith, l))) v k h n d)
