-- ===== src/Nucleus/Sweep.antt =====
-- terminateProgeny of a process that does not run, from any state in order.
use jae_so.Common.{
  ℕ, suc, ◌<◌, ◌≡◌, ◌≢◌, refl, inl, inr, ◌⊎◌, none, some, Option, [], ◌∷◌, map, arith, In,
}
use jae_so.Common.Without.{without, In-without, without-In}
use jae_so.Memory.{p_children, p_siblings}
use jae_so.Clist.Map.{In-map, erase-map, Distinct-of_map}
use jae_so.Asl.Release.{Distinct-of-IsClist}
use jae_so.Kernel.Arch.{Arch}
use jae_so.Kernel.Machine.{Kernel, max_proc}
use jae_so.Kernel.Cmd.{◌>>◌, Returns}
use jae_so.Kernel.Rules.{Returns-done, Returns-weaken}
use jae_so.Pcb.{rounds, out_child}
use jae_so.Pcb.Tree.{out_child-In}
use jae_so.Syscalls.Process.{each_child, terminate_one, terminate_progeny}
use jae_so.Nucleus.{View, IsNucleus}
use jae_so.Nucleus.Cut.{Cut}
use jae_so.Nucleus.Leave.{idle, IsHonest}
use jae_so.Nucleus.Family.{Descends, IsChain, Descends-shrink, Descends-childless, children_le}
use jae_so.Nucleus.Child.{Ended, cut-IsDoomed, cut-kept, cut-shrink, v1, k1, n1}
use jae_so.Nucleus.Progeny.{progeny-Ends, progeny_rest}

-- The blocks that `p` and its descendants had are free, and no others have been freed.
pub record Swept (v : View) (p : ℕ) (v' : View) (k' : Kernel) : Type 0 where
  pub ordered : IsNucleus v' (idle k')
  pub freed : (x : ℕ) → Descends v.children x p → In x v'.blocks
  pub kept : (x : ℕ) → In x v.blocks → In x v'.blocks
  pub only : (x : ℕ) → In x v'.blocks → In x v.blocks ⊎ Descends v.children x p
  pub places : (x : ℕ) → v.level x < v.level p → v'.place x ≡ v.place x

-- So it is after a run that keeps the current process.
abbrev pub Sweeps : View → Kernel → ℕ → Kernel → Type 0
Sweeps v k p k' = (v' : View) × Swept v p v' k' × (k'.current_process ≡ k.current_process)

-- The first process of a chain.
pub alone : (v : View) (p : ℕ) → p < max_proc → IsChain v.level p []
alone v p l = record { distinct = (tt, tt); low = (l, tt); higher = tt }

swept : (v : View) (k : Kernel) (p : ℕ) (k' : Kernel) → Ended v k p k' → Sweeps v k p k'
swept v k p k' (v', r, g, c) = (
  v',
  record {
    ordered = r.ordered;
    freed = λ x d. elim (r.kept x p d) [
      | inl j ↦ rw (Descends-childless v'.children x p c j) g
      | inr j ↦ j
    ];
    kept = r.grow;
    only = r.only;
    places = r.places;
  },
  r.current,
)

module _ (arch : Arch) (v : View) (k : Kernel) (p : ℕ) (n : IsNucleus v (idle k))
    (low : p < max_proc) (used : (x : ℕ) → In x v.blocks → x ≢ p)
    (honest : (x : ℕ) → Descends v.children x p → IsHonest v k x) where
  -- A process with no parent.
  progeny_root :
      (k.pcb p).p_parent ≡ none
      → Returns (λ _ k'. Sweeps v k p k') (terminate_progeny arch rounds p k)
  progeny_root e =
      Returns-weaken (λ _ k'. Ended v k p k') (λ _ k'. Sweeps v k p k')
        (terminate_progeny arch rounds p k)
        (progeny-Ends arch rounds [] (omega arith) v k p (alone v p low) n
          (record { orphan = e; used = used; honest = honest }))
        λ _ k'. swept v k p k'

  -- A process with the parent `q`.
  progeny_child :
      (fuel q : ℕ)
      → max_proc < fuel
      → (k.pcb p).p_parent ≡ some q
      → Returns (λ _ k'. Sweeps v k p k') (terminate_progeny arch (suc fuel) p k)
  unfolding terminate_progeny
  progeny_child fuel q f e =
      let i : In p (v.children q) = n.listed p q e in
      let u =
        Distinct-of-IsClist k.links (p_children q) (map p_siblings (v.children q)) (n.family q) in
      let u1 = Distinct-of_map p_siblings (v.children q) u in
      let o =
        out_child-In k q p (v.children q) e (children_le v (idle k) q n) (n.family q) u
          (In-map p_siblings p (v.children q) i) in
      let cs = without p (v.children q) in
      let t : Cut v (idle k) q p cs o.0 = record {
        child = i;
        rest = λ x j. In-without p x (v.children q) u1 j;
        stay = λ x j m. without-In p x (v.children q) j m;
        family = rw (← erase-map p_siblings (λ x y z. cc) p (v.children q)) o.2;
        same = o.4;
      } in
      Returns-done (λ _ k'. Sweeps v k p k') (out_child p k) _ (some p) (k1 v k q p cs o.0 n t) o.1
        (Returns-weaken (λ _ k'. Ended (v1 v k q p cs o.0 n t) (k1 v k q p cs o.0 n t) p k')
          (λ _ k'. Sweeps v k p k')
          ((each_child arch (terminate_progeny arch fuel) rounds p >> terminate_one arch p)
            (k1 v k q p cs o.0 n t))
          (progeny_rest arch (terminate_progeny arch fuel) p []
            (progeny-Ends arch fuel (p ∷ []) (omega (arith, f))) (v1 v k q p cs o.0 n t)
            (k1 v k q p cs o.0 n t) (alone v p low) (n1 v k q p cs o.0 n t)
            (cut-IsDoomed v k q p cs o.0 n t honest))
          λ _ k' h.
            let (v', w, u) = swept (v1 v k q p cs o.0 n t) (k1 v k q p cs o.0 n t) p k' h in
            (
              v',
              record {
                ordered = w.ordered;
                freed = λ x d. elim (cut-kept v k q p cs o.0 n t x p d) [
                  | inl j ↦ w.freed x j
                  | inr j ↦ w.freed x j
                ];
                kept = w.kept;
                only = λ x j. elim (w.only x j) [
                  | inl m ↦ inl m
                  | inr d ↦ inr (
                      Descends-shrink (v1 v k q p cs o.0 n t).children v.children x p
                        (cut-shrink v k q p cs o.0 n t) d)
                ];
                places = w.places;
              },
              u,
            ))

  -- On a nucleus in order, but for the current process, terminateProgeny of a block in use returns,
  -- when every block in use of a descendant that has a semaphore waits there.
  pub terminate_progeny-Swept :
      Returns (λ _ k'. Sweeps v k p k') (terminate_progeny arch rounds p k)
  terminate_progeny-Swept = go (k.pcb p).p_parent refl
    where
      go :
          (q : Option ℕ)
          → (k.pcb p).p_parent ≡ q
          → Returns (λ _ k'. Sweeps v k p k') (terminate_progeny arch rounds p k)
      go none e = progeny_root e
      go (some q) e = progeny_child 21 q (omega arith) e
