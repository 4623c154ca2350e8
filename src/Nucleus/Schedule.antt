-- ===== src/Nucleus/Schedule.antt =====
-- The scheduler, and the end of a slice: which process runs.
use jae_so.Common.{
  ℕ, ◌≡◌, ◌≢◌, ◌⊎◌, refl, sym, ap, ◌∙◌, subst, inl, inr, none, some, List, [], ◌∷◌, map, In,
  ==_refl, ne→==, ℕ_discrete,
}
use jae_so.Memory.{
  Loc, p_list, p_children, p_siblings, s_link, s_procq, aslh, semd_free, ready_queue, pcb_free,
  Links,
}
use jae_so.Clist.Ring.{IsClist, IsClist-agree_map, Fresh-map, ne_of_Fresh}
use jae_so.Kernel.Arch.{Arch}
use jae_so.Kernel.Machine.{Kernel, Pcb, update}
use jae_so.Kernel.Cmd.{load, wait}
use jae_so.Kernel.Rules.{Stops-weaken}
use jae_so.Kernel.Machine.{pcb_state}
use jae_so.Asl.Head.{Ascending-agree}
use jae_so.Scheduler.{scheduler}
use jae_so.Scheduler.Choice.{Dispatched, Waiting, scheduler-dispatch, scheduler-idle}
use jae_so.Nucleus.{
  View, IsNucleus, IsOrdered, EndsOrdered, Settled, Settles, Place, blocked, running, unused,
}
use jae_so.Nucleus.Frame.{Frame-of, IsOrdered-Frame}

-- The kernel `k'` differs from `k` in the ready queue, `ready_list`, and in the place of `p`, which
-- was ready or ran.
pub record Moved (v : View) (k : Kernel) (p : ℕ) (w : Place) (rs : List ℕ) (k' : Kernel)
    : Type 0 where
  pub ready : IsClist k'.links ready_queue (map p_list rs)
  pub at_ready : (x : ℕ) → In x rs → update v.place p w x ≡ Place.ready
  pub at_current : (x : ℕ) → k'.current_process ≡ some x → update v.place p w x ≡ running
  pub was : (v.place p ≡ Place.ready) ⊎ (v.place p ≡ running)
  pub semaphores : k'.sem_add ≡ k.sem_add
  pub sems : (x : ℕ) → (k'.pcb x).p_cursem ≡ (k.pcb x).p_cursem
  pub parents : (x : ℕ) → (k'.pcb x).p_parent ≡ (k.pcb x).p_parent
  pub count : k'.process_count ≡ k.process_count
  pub same :
      (b : Loc)
      → b ≢ ready_queue
      → b ≢ p_list p
      → ((x : ℕ) → In x v.ready_list → b ≢ p_list x)
      → k'.links b ≡ k.links b

abbrev pub moved_view : ℕ → Place → List ℕ → View → View
moved_view p w rs v = record v { place = update v.place p w; ready_list = rs }

module _ (v : View) (k : Kernel) (p : ℕ) (w : Place) (rs : List ℕ) (k' : Kernel) (n : IsNucleus v k)
    (m : Moved v k p w rs k') where
  -- Processes that neither ran nor were ready.
  same_procs :
      (h : Loc) (ys : List ℕ)
      → h ≢ ready_queue
      → ((x : ℕ) → h ≢ p_list x)
      → ((x : ℕ) → In x ys → v.place x ≢ Place.ready)
      → ((x : ℕ) → In x ys → v.place x ≢ running)
      → IsClist k.links h (map p_list ys)
      → IsClist k'.links h (map p_list ys)
  same_procs h ys n1 n2 f g =
      IsClist-agree_map k.links k'.links h p_list ys (m.same h n1 (n2 p) (λ x i. n2 x)) λ x i.
        m.same (p_list x) (λ e. cc)
          (λ e.
            let r : x ≡ p = cc in
            elim m.was [ inl q ↦ f x i (ap v.place r ∙ q) | inr q ↦ g x i (ap v.place r ∙ q) ])
          (λ y j e. let r : x ≡ y = cc in f x i (ap v.place r ∙ n.at_ready y j))

  same_others :
      (h : Loc) (g : ℕ → Loc) (ys : List ℕ)
      → h ≢ ready_queue
      → ((x : ℕ) → h ≢ p_list x)
      → ((x : ℕ) → g x ≢ ready_queue)
      → ((x y : ℕ) → g x ≢ p_list y)
      → IsClist k.links h (map g ys)
      → IsClist k'.links h (map g ys)
  same_others h g ys n1 n2 n3 n4 =
      IsClist-agree_map k.links k'.links h g ys (m.same h n1 (n2 p) (λ x i. n2 x))
        λ x i. m.same (g x) (n3 x) (n4 x p) (λ y j. n4 x y)

  placed_other :
      (x : ℕ) (u : Place) → v.place x ≡ u → u ≢ Place.ready → u ≢ running → update v.place p w x ≡ u
  placed_other x u e a b =
      rw
        (ne→== x p λ r. elim m.was [
          | inl q ↦ a (sym e ∙ ap v.place r ∙ q)
          | inr q ↦ b (sym e ∙ ap v.place r ∙ q)
        ])
        e

  pub moved-IsNucleus : IsNucleus (moved_view p w rs v) k'
  moved-IsNucleus = record {
    active =
        same_others aslh s_link v.active (λ e. cc) (λ x e. cc) (λ x e. cc) (λ x y e. cc) n.active;
    ascending = Ascending-agree k k' v.active m.semaphores n.ascending;
    queue = λ d i.
        same_procs (s_procq d) (v.queue d) (λ e. cc) (λ x e. cc)
          (λ x j e. let z = n.at_queue d x i j in cc) (λ x j e. let z = n.at_queue d x i j in cc)
          (n.queue d i);
    busy = n.busy;
    waits = λ d x i j. m.sems x ∙ n.waits d x i j;
    semds =
        same_others semd_free s_link v.semds (λ e. cc) (λ x e. cc) (λ x e. cc) (λ x y e. cc)
          n.semds;
    apart = n.apart;
    total = n.total;
    ready = m.ready;
    blocks =
        same_procs pcb_free v.blocks (λ e. cc) (λ x e. cc) (λ x j e. let z = n.at_blocks x j in cc)
          (λ x j e. let z = n.at_blocks x j in cc) n.blocks;
    at_ready = m.at_ready;
    at_queue = λ d x i j. placed_other x (blocked d) (n.at_queue d x i j) (λ e. cc) (λ e. cc);
    at_blocks = λ x i. placed_other x unused (n.at_blocks x i) (λ e. cc) (λ e. cc);
    at_current = m.at_current;
    bound = λ x z. elim (ℕ_discrete x p) [
      | yes e ↦ rw e (n.bound p (λ r. elim m.was [ inl q ↦ (cc) | inr q ↦ (cc) ]))
      | no e ↦ n.bound x (rw (ne→== x p e) at z)
    ];
    count = rw m.count n.count;
    family = λ r.
        same_others (p_children r) p_siblings (v.children r) (λ e. cc) (λ x e. cc) (λ x e. cc)
          (λ x y e. cc) (n.family r);
    parents = λ r x i. m.parents x ∙ n.parents r x i;
    orphans = λ x i. m.parents x ∙ n.orphans x i;
    listed = λ c r e. n.listed c r (sym (m.parents c) ∙ e);
    childless = n.childless;
    levels = n.levels;
    small = n.small;
  }

-- The first that is ready runs.
module _ (v : View) (k : Kernel) (p : ℕ) (xs : List ℕ) (n : IsNucleus v k)
    (first : v.ready_list ≡ p ∷ xs) where
  is_ready : (x : ℕ) → In x (p ∷ xs) → v.place x ≡ Place.ready
  is_ready x i = n.at_ready x (rw first i)

  ready_list : IsClist k.links ready_queue (map p_list (p ∷ xs))
  ready_list = rw first at n.ready

  rest_other : (x : ℕ) → In x xs → x ≢ p
  rest_other x i e = ne_of_Fresh (p_list p) p_list x xs ready_list.4.0 i (ap p_list e)

  Dispatched-Moved : (k' : Kernel) → Dispatched k p xs k' → Moved v k p running xs k'
  Dispatched-Moved k' d = record {
    ready = d.ready;
    at_ready = λ x i. rw (ne→== x p (rest_other x i)) (is_ready x (inr i));
    at_current = λ x e.
        let z : some x ≡ some p = sym e ∙ d.current in let q : x ≡ p = cc in rw (q, ==_refl p);
    was = inl (is_ready p (inl refl));
    semaphores = d.semaphores;
    sems = λ x. elim (ℕ_discrete x p) [
      | yes e ↦ rw e d.cursem
      | no e ↦ ap (λ (b : Pcb). b.p_cursem) (d.others x e)
    ];
    parents = λ x. elim (ℕ_discrete x p) [
      | yes e ↦ rw e d.parent
      | no e ↦ ap (λ (b : Pcb). b.p_parent) (d.others x e)
    ];
    count = d.processes;
    same = λ b a c f. d.same b (a, Fresh-map b p_list (p ∷ xs) λ x i. f x (rw first i));
  }

-- On a nucleus in order the scheduler gives up the processor and leaves the nucleus in order.
pub scheduler-IsOrdered : (arch : Arch) (k : Kernel) → IsOrdered k → EndsOrdered (scheduler arch k)
scheduler-IsOrdered arch k (v, n) = go v.ready_list refl
  where
    go : (l : List ℕ) → v.ready_list ≡ l → EndsOrdered (scheduler arch k)
    go [] e =
        let empty : k.links ready_queue ≡ none = rw e at n.ready in
        elim (scheduler-idle arch k (rw e at n.ready)) [
          | inl h ↦ rw h.1 ((v, n), empty)
          | inr (inl h) ↦
              Stops-weaken (λ x k'. (x ≡ wait) × Waiting k k') Settles (scheduler arch k) h.3
                λ x k' w. (
                  IsOrdered-Frame k k'
                      (Frame-of k k' w.1.links w.1.semaphores w.1.blocks w.1.current w.1.processes
                        w.1.clock)
                      (v, n),
                  subst (λ y. Settled y k') (sym w.0)
                      (ap (λ (σ : Links). σ ready_queue) w.1.links ∙ empty),
                )
          | inr (inr h) ↦ rw h.3 ((v, n), empty)
        ]
    go (p ∷ xs) e =
        Stops-weaken (λ x k'. (x ≡ load (pcb_state p)) × Dispatched k p xs k') Settles
          (scheduler arch k) (scheduler-dispatch arch k p xs (rw e at n.ready))
          λ x k' d. (
            (
              moved_view p running xs v,
              moved-IsNucleus v k p running xs k' n (Dispatched-Moved v k p xs n e k' d.1),
            ),
            subst (λ y. Settled y k') (sym d.0) (p, d.1.current),
          )
