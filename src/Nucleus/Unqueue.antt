-- ===== src/Nucleus/Unqueue.antt =====
-- A process that is taken out of the queue of a semaphore by terminateProgeny: the nucleus stays in
-- order.
use jae_so.Common.Without.{without, In-without}
use jae_so.Common.{ℕ, ◌≡◌, ◌≢◌, refl, sym, ap, ◌∙◌, List, map, In, ne→==, ==_refl, ℕ_discrete}
use jae_so.Memory.{Loc, p_list, p_siblings, s_link, s_procq, aslh, semd_free, Links}
use jae_so.Clist.Ring.{IsClist, IsClist-agree_map}
use jae_so.Clist.Map.{Distinct-of_map}
use jae_so.Kernel.Machine.{Kernel, update}
use jae_so.Asl.Release.{Distinct-of-IsClist}
use jae_so.Asl.Head.{Ascending-agree}
use jae_so.Asl.Out.{Out}
use jae_so.Asl.Remove.{active_after, free_after}
use jae_so.Syscalls.Waiters.{Ascending-after, apart_after}
use jae_so.Nucleus.{View, IsNucleus, Place, blocked}
use jae_so.Nucleus.Wake.{In-active_after, not_active, total_after}

-- The view when `p` has left those that wait at `d`.
abbrev pub unqueued_view : ℕ → ℕ → View → View
unqueued_view d p v = record v {
  queue = update v.queue d (without p (v.queue d));
  active = active_after d (without p (v.queue d)) v.active;
  semds = free_after d (without p (v.queue d)) v.semds;
}

module _ {v : View} {k : Kernel} {d p : ℕ} {σ : Links} (n : IsNucleus v k) (here : In d v.active)
    (o : Out k.links d p (v.queue d) v.active v.semds σ) where
  abbrev left : List ℕ
  left = without p (v.queue d)

  active_before : (e : ℕ) → In e (active_after d left v.active) → In e v.active
  active_before e i = In-active_after d e left v.active k.links n.active i

  waited : (x : ℕ) → In x left → In x (v.queue d) × (x ≢ p)
  waited x i =
      In-without p x (v.queue d)
        (Distinct-of_map p_list (v.queue d)
          (Distinct-of-IsClist k.links (s_procq d) (map p_list (v.queue d)) (n.queue d here)))
        i

  -- Who waits at `e` after it waited there before.
  pub still : (e x : ℕ) → In x (update v.queue d left e) → In x (v.queue e)
  still e x i = elim (ℕ_discrete e d) [
    | yes q ↦ let j : In x left = rw (q, ==_refl d) at i in rw q (waited x j).0
    | no r ↦ rw (ne→== e d r) at i
  ]

  unmoved :
      (h : Loc) (g : ℕ → Loc) (ys : List ℕ)
      → h ≢ aslh
      → h ≢ semd_free
      → h ≢ s_procq d
      → ((x : ℕ) → h ≢ s_link x)
      → ((x : ℕ) → h ≢ p_list x)
      → ((x : ℕ) → In x ys → (g x ≢ aslh) × (g x ≢ semd_free) × (g x ≢ s_procq d))
      → ((x y : ℕ) → g x ≢ s_link y)
      → ((x y : ℕ) → In x ys → In y (v.queue d) → g x ≢ p_list y)
      → IsClist k.links h (map g ys)
      → IsClist σ h (map g ys)
  unmoved h g ys n1 n2 n3 n4 n5 m1 m2 m3 =
      IsClist-agree_map k.links σ h g ys (o.same h n1 n2 n3 n4 (λ x i. n5 x))
        λ x i. o.same (g x) (m1 x i).0 (m1 x i).1 (m1 x i).2 (m2 x) (λ y j. m3 x y i j)

  elsewhere :
      (w : Place) (x y : ℕ) → v.place x ≡ w → w ≢ blocked d → In y (v.queue d) → p_list x ≢ p_list y
  elsewhere w x y e m j q = let r : x ≡ y = cc in m (sym e ∙ ap v.place r ∙ n.at_queue d y here j)

  queue_at :
      (e : ℕ)
      → In e (active_after d left v.active)
      → IsClist σ (s_procq e) (map p_list (update v.queue d left e))
  queue_at e i = elim (ℕ_discrete e d) [
    | yes q ↦ rw (q, ==_refl d) o.queue
    | no m ↦ rw (ne→== e d m) (
        unmoved (s_procq e) p_list (v.queue e) (λ q. cc) (λ q. cc) (λ q. m (cc)) (λ x q. cc)
          (λ x q. cc) (λ x j. ((λ q. cc), (λ q. cc), (λ q. cc))) (λ x y q. cc)
          (λ x y a j.
            elsewhere (blocked e) x y (n.at_queue e x (active_before e i) a) (λ q. m (cc)) j)
          (n.queue e (active_before e i)))
  ]

  -- A list of links that are in no list of processes.
  links_at :
      (h : Loc) (g : ℕ → Loc) (ys : List ℕ)
      → h ≢ aslh
      → h ≢ semd_free
      → h ≢ s_procq d
      → ((x : ℕ) → h ≢ s_link x)
      → ((x : ℕ) → h ≢ p_list x)
      → ((x : ℕ) → (g x ≢ aslh) × (g x ≢ semd_free) × (g x ≢ s_procq d))
      → ((x y : ℕ) → g x ≢ s_link y)
      → ((x y : ℕ) → g x ≢ p_list y)
      → IsClist k.links h (map g ys)
      → IsClist σ h (map g ys)
  links_at h g ys n1 n2 n3 n4 n5 m1 m2 m3 =
      unmoved h g ys n1 n2 n3 n4 n5 (λ x i. m1 x) m2 (λ x y i j. m3 x y)

  pub unqueued-IsNucleus : IsNucleus (unqueued_view d p v) (record k { links = σ })
  unqueued-IsNucleus = record {
    active = o.active;
    ascending =
        Ascending-agree k (record k { links = σ }) (active_after d left v.active) refl
          (Ascending-after k 0 d left v.active n.ascending);
    queue = queue_at;
    busy = λ e i. elim (ℕ_discrete e d) [
      | yes q ↦ rw (q, ==_refl d) (not_active d left v.active k.links n.active (rw q at i))
      | no m ↦ rw (ne→== e d m) (n.busy e (active_before e i))
    ];
    waits = λ e x i j. n.waits e x (active_before e i) (still e x j);
    semds = o.free;
    apart = apart_after k 0 d left v.active v.semds n.active n.apart;
    total = total_after d left v.active v.semds here ∙ n.total;
    ready =
        unmoved _ p_list v.ready_list (λ e. cc) (λ e. cc) (λ e. cc) (λ x e. cc) (λ x e. cc)
          (λ x j. ((λ q. cc), (λ q. cc), (λ q. cc))) (λ x y q. cc)
          (λ x y a j. elsewhere Place.ready x y (n.at_ready x a) (λ q. cc) j) n.ready;
    blocks =
        unmoved _ p_list v.blocks (λ e. cc) (λ e. cc) (λ e. cc) (λ x e. cc) (λ x e. cc)
          (λ x j. ((λ q. cc), (λ q. cc), (λ q. cc))) (λ x y q. cc)
          (λ x y a j. elsewhere Place.unused x y (n.at_blocks x a) (λ q. cc) j) n.blocks;
    at_ready = n.at_ready;
    at_queue = λ e x i j. n.at_queue e x (active_before e i) (still e x j);
    at_blocks = n.at_blocks;
    at_current = n.at_current;
    bound = n.bound;
    count = n.count;
    family = λ r.
        links_at _ p_siblings (v.children r) (λ e. cc) (λ e. cc) (λ e. cc) (λ x e. cc) (λ x e. cc)
          (λ x. ((λ q. cc), (λ q. cc), (λ q. cc))) (λ x y q. cc) (λ x y q. cc) (n.family r);
    parents = n.parents;
    orphans = n.orphans;
    listed = n.listed;
    childless = n.childless;
    levels = n.levels;
    small = n.small;
  }

  -- `p` waits nowhere any more.
  pub unqueued-other :
      v.place p ≡ blocked d
      → (e x : ℕ) → In e (active_after d left v.active)
      → In x (update v.queue d left e)
      → x ≢ p
  unqueued-other w e x i j q = elim (ℕ_discrete e d) [
    | yes r ↦ let l : In x left = rw (r, ==_refl d) at j in (waited x l).1 q
    | no r ↦
        let z : blocked e ≡ blocked d =
          sym (n.at_queue e x (active_before e i) (still e x j)) ∙ ap v.place q ∙ w in
        r (cc)
  ]
