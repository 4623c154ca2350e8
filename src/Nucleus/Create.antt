-- ===== src/Nucleus/Create.antt =====
-- createProcess keeps the nucleus in order.
use jae_so.Common.{
  ℕ, ◌+◌, ◌<◌, ◌≡◌, ◌≢◌, refl, sym, ap, ◌∙◌, inl, inr, some, List, [], ◌∷◌, arith, length, In,
  Bool-cases, false, ltb, ==_refl, ne→==, ℕ_discrete,
}
use jae_so.Common.Without.{In-append}
use jae_so.Memory.{p_list, aslh, semd_free}
use jae_so.Clist.Ring.{ne_of_Fresh}
use jae_so.Kernel.Machine.{Kernel, Pcb, max_proc, update}
use jae_so.Kernel.Cmd.{Returns}
use jae_so.Kernel.Rules.{Returns-weaken}
use jae_so.Asl.Head.{Ascending-agree}
use jae_so.Syscalls.Create.{Created, create_process-Created}
use jae_so.Syscalls.Process.{create_process}
use jae_so.Nucleus.Created.{
  created_view, spare, orphan, not_spare, can_create, same_queue, same_semds, IsFamily-at,
}
use jae_so.Nucleus.Offspring.{parent_at, level_at, listed_at, childless_at, small_at}
use jae_so.Nucleus.{View, IsNucleus, IsOrdered, IsNucleus-agree, Place, blocked, running, unused}

module _ (np : ℕ) (v : View) (k : Kernel) (q p : ℕ) (xs : List ℕ) (n : IsNucleus v k)
    (runs : k.current_process ≡ some q) (free : v.blocks ≡ p ∷ xs) where
  module _ (k' : Kernel) (c : Created np k q p xs v.ready_list (v.children q) k') where
    placed_other :
        (x : ℕ) (w : Place) → v.place x ≡ w → w ≢ unused → update v.place p Place.ready x ≡ w
    placed_other x w e m =
        rw (ne→== x p (not_spare np v k q p xs n runs free x w e m p (inl refl))) e

    spare_other : (x : ℕ) → In x xs → x ≢ p
    spare_other x i e =
        ne_of_Fresh (p_list p) p_list x xs (can_create np v k q p xs n runs free).free.4.0 i
          (ap p_list e)

    pub created-IsNucleus : IsNucleus (created_view q p xs v) k'
    created-IsNucleus = record {
      active =
          same_semds np v k q p xs n runs free k' c aslh v.active (λ e. cc) (λ e. cc) (λ x e. cc)
            (λ x e. cc) (λ x e. cc) n.active;
      ascending = Ascending-agree k k' v.active c.semaphores n.ascending;
      queue = λ d i.
          same_queue np v k q p xs n runs free k' c d (v.queue d) (λ x j. n.at_queue d x i j)
            (n.queue d i);
      busy = n.busy;
      waits = λ d x i j.
          ap (λ (b : Pcb). b.p_cursem)
            (c.others x (
              not_spare np v k q p xs n runs free x (blocked d) (n.at_queue d x i j) (λ e. cc) p
                (inl refl)))
          ∙ n.waits d x i j;
      semds =
          same_semds np v k q p xs n runs free k' c semd_free v.semds (λ e. cc) (λ e. cc)
            (λ x e. cc) (λ x e. cc) (λ x e. cc) n.semds;
      apart = n.apart;
      total = n.total;
      ready = c.ready;
      blocks = c.free;
      at_ready = λ x i. elim (In-append x v.ready_list p i) [
        | inl j ↦ placed_other x Place.ready (n.at_ready x j) (λ e. cc)
        | inr e ↦ rw (e, ==_refl p)
      ];
      at_queue = λ d x i j. placed_other x (blocked d) (n.at_queue d x i j) (λ e. cc);
      at_blocks =
          λ x i. rw (ne→== x p (spare_other x i)) (spare np v k q p xs n runs free x (inr i));
      at_current = λ x e. placed_other x running (n.at_current x (sym c.current ∙ e)) (λ z. cc);
      bound = λ x m. elim (ℕ_discrete x p) [
        | yes e ↦ rw e (n.bound p (λ r. let z = spare np v k q p xs n runs free p (inl refl) in cc))
        | no e ↦ n.bound x (rw (ne→== x p e) at m)
      ];
      count =
          let e : k.process_count + length (p ∷ xs) ≡ max_proc = rw free at n.count in
          omega (arith, c.count);
      family = IsFamily-at np v k q p xs n runs free k' c;
      parents = parent_at np v k q p xs n runs free k' c;
      listed = listed_at np v k q p xs n runs free k' c;
      childless = childless_at np v k q p xs n runs free k' c;
      levels = level_at np v k q p xs n runs free k' c;
      small = small_at np v k q p xs n runs free k' c;
      orphans = λ x i.
          ap (λ (b : Pcb). b.p_parent) (c.others x (spare_other x i))
          ∙ orphan np v k q p xs n runs free x (inr i);
    }

create_room :
    (np q : ℕ) (v : View) (k : Kernel) (l : List ℕ)
    → IsNucleus v k
    → k.current_process ≡ some q
    → k.process_count < max_proc
    → v.blocks ≡ l
    → Returns (λ _ k'. IsOrdered k') (create_process np k)
create_room np q v k [] n runs room e =
    let t : k.process_count + 0 ≡ max_proc = rw e at n.count in absurd (omega arith)
create_room np q v k (p ∷ xs) n runs room e =
    Returns-weaken (λ _. Created np k q p xs v.ready_list (v.children q)) (λ _ k'. IsOrdered k')
      (create_process np k) (create_process-Created (can_create np v k q p xs n runs e) np)
      λ _ k' c. (created_view q p xs v, created-IsNucleus np v k q p xs n runs e k' c)

create_full :
    (np : ℕ) (v : View) (k : Kernel)
    → IsNucleus v k
    → ltb k.process_count max_proc ≡ false
    → Returns (λ _ k'. IsOrdered k') (create_process np k)
unfolding create_process
create_full np v k n e =
    rw e (v, IsNucleus-agree v k _ refl refl (λ x. refl) (λ x. refl) n.at_current refl n)

-- On a nucleus in order with a process running, createProcess returns and leaves the nucleus in
-- order, whether there is room for a process or not.
pub create_process-IsOrdered :
    (np q : ℕ) (k : Kernel)
    → IsOrdered k
    → k.current_process ≡ some q
    → Returns (λ _ k'. IsOrdered k') (create_process np k)
create_process-IsOrdered np q k (v, n) runs = elim (Bool-cases (ltb k.process_count max_proc)) [
  | inl e ↦ create_room np q v k v.blocks n runs (ground arith) refl
  | inr e ↦ create_full np v k n e
]
