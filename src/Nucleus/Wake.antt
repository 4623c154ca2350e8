-- ===== src/Nucleus/Wake.antt =====
-- A process that is woken leaves the nucleus in order.
use jae_so.Common.{
  ℕ, ◌+◌, ◌≡◌, ◌≢◌, refl, sym, ap, ◌∙◌, inl, inr, List, [], ◌∷◌, ◌++◌, map, arith, length, In,
  ne→==, ==_refl, ℕ_discrete, length-append,
}
use jae_so.Common.Without.{length-without-In, In-append}
use jae_so.Memory.{
  Loc, p_list, p_children, p_siblings, s_link, s_procq, aslh, semd_free, ready_queue, pcb_free,
  Links,
}
use jae_so.Clist.Ring.{IsClist, IsClist-agree, All-map, ne_of_Fresh}
use jae_so.Kernel.Arch.{Arch}
use jae_so.Kernel.Machine.{Kernel, update, update_field, Pcb}
use jae_so.Pcb.Queue.{IsQueue}
use jae_so.Asl.Release.{Distinct-In, Distinct-of-IsClist}
use jae_so.Asl.Remove.{active_after, free_after}
use jae_so.Asl.Head.{Ascending-agree}
use jae_so.Syscalls.Wake.{Awake, woken}
use jae_so.Syscalls.Waiters.{Ascending-after, apart_after}
use jae_so.Nucleus.{View, IsNucleus, Place, blocked, running}

-- The view when `p`, the first that waits at `d`, is ready and `ps` still wait.
abbrev pub woken_view : ℕ → ℕ → List ℕ → View → View
woken_view d p ps v = record v {
  place = update v.place p Place.ready;
  ready_list = v.ready_list ++ p ∷ [];
  queue = update v.queue d ps;
  active = active_after d ps v.active;
  semds = free_after d ps v.semds;
}

pub In-active_after :
    (d e : ℕ) (ps ds : List ℕ) (σ : Links)
    → IsClist σ aslh (map s_link ds)
    → In e (active_after d ps ds)
    → In e ds
In-active_after d e [] ds σ c i =
    (Distinct-In d e ds (Distinct-of-IsClist σ aslh (map s_link ds) c) i).0
In-active_after d e (p ∷ ps) ds σ c i = i

pub not_active :
    (d : ℕ) (ps ds : List ℕ) (σ : Links)
    → IsClist σ aslh (map s_link ds)
    → In d (active_after d ps ds)
    → ps ≢ []
not_active d [] ds σ c i q =
    (Distinct-In d d ds (Distinct-of-IsClist σ aslh (map s_link ds) c) i).1 refl
not_active d (p ∷ ps) ds σ c i q = cc

pub total_after :
    (d : ℕ) (ps ds fs : List ℕ)
    → In d ds
    → length (active_after d ps ds) + length (free_after d ps fs) ≡ length ds + length fs
total_after d [] ds fs i = omega (arith, length-without-In d ds i, length-append fs (d ∷ []))
total_after d (p ∷ ps) ds fs i = refl

module _ (arch : Arch) (v : View) (k : Kernel) (d p : ℕ) (ps : List ℕ) (σ : Links)
    (n : IsNucleus v k) (here : In d v.active) (waiting : v.queue d ≡ p ∷ ps)
    (a : Awake k d p ps v.active v.semds v.ready_list σ) where
  -- The process was blocked at `d`, and so are the others.
  blocked_here : (x : ℕ) → In x (p ∷ ps) → v.place x ≡ blocked d
  blocked_here x i = n.at_queue d x here (rw waiting i)

  -- A list in which nobody was blocked at `d` or ready is as it was.
  untouched :
      (h : Loc) (xs : List ℕ)
      → h ≢ aslh
      → h ≢ semd_free
      → h ≢ s_procq d
      → h ≢ ready_queue
      → ((x : ℕ) → h ≢ s_link x)
      → ((x : ℕ) → h ≢ p_list x)
      → ((x : ℕ) → In x xs → v.place x ≢ blocked d)
      → ((x : ℕ) → In x xs → v.place x ≢ Place.ready)
      → IsClist k.links h (map p_list xs)
      → IsClist σ h (map p_list xs)
  untouched h xs n1 n2 n3 n4 n5 n6 f g =
      IsClist-agree k.links σ h (map p_list xs)
        (a.same h n1 n2 n3 n4 n5 (λ x i. n6 x) (λ x i. n6 x))
        (All-map (λ b. σ b ≡ k.links b) p_list xs
          λ x i.
            a.same (p_list x) (λ e. cc) (λ e. cc) (λ e. cc) (λ e. cc) (λ y e. cc)
              (λ y j e. let q : x ≡ y = cc in f x i (ap v.place q ∙ blocked_here y j))
              (λ y j e. let q : x ≡ y = cc in g x i (ap v.place q ∙ n.at_ready y j)))

  same_siblings :
      (h : Loc) (xs : List ℕ)
      → h ≢ aslh
      → h ≢ semd_free
      → h ≢ s_procq d
      → h ≢ ready_queue
      → ((x : ℕ) → h ≢ s_link x)
      → ((x : ℕ) → h ≢ p_list x)
      → IsClist k.links h (map p_siblings xs)
      → IsClist σ h (map p_siblings xs)
  same_siblings h xs n1 n2 n3 n4 n5 n6 =
      IsClist-agree k.links σ h (map p_siblings xs)
        (a.same h n1 n2 n3 n4 n5 (λ x i. n6 x) (λ x i. n6 x))
        (All-map (λ b. σ b ≡ k.links b) p_siblings xs
          λ x i.
            a.same (p_siblings x) (λ e. cc) (λ e. cc) (λ e. cc) (λ e. cc) (λ y e. cc) (λ y j e. cc)
              (λ y j e. cc))

  ne_first : (x : ℕ) → In x ps → x ≢ p
  ne_first x i e =
      let q : IsQueue k (s_procq d) (p ∷ ps) = rw waiting at (n.queue d here) in
      ne_of_Fresh (p_list p) p_list x ps q.4.0 i (ap p_list e)

  placed_other :
      (x : ℕ) (w : Place) → v.place x ≡ w → blocked d ≢ w → update v.place p Place.ready x ≡ w
  placed_other x w e m =
      rw (ne→== x p (λ q. m (sym (blocked_here p (inl refl)) ∙ ap v.place (sym q) ∙ e))) e

  active_before : (e : ℕ) → In e (active_after d ps v.active) → In e v.active
  active_before e i = In-active_after d e ps v.active k.links n.active i

  -- Who waits at `e`, after it.
  still : (e x : ℕ) → In e v.active → In x (update v.queue d ps e) → In x (v.queue e) × (x ≢ p)
  still e x m i = elim (ℕ_discrete e d) [
    | yes q ↦ let j : In x ps = rw (q, ==_refl d) at i in (rw (q, waiting) (inr j), ne_first x j)
    | no r ↦
        let j : In x (v.queue e) = rw (ne→== e d r) at i in
        (
          j,
          λ w.
              let z : blocked e ≡ blocked d =
                sym (n.at_queue e x m j) ∙ ap v.place w ∙ blocked_here p (inl refl) in
              r (cc),
        )
  ]

  queue_at :
      (e : ℕ)
      → In e (active_after d ps v.active)
      → IsClist σ (s_procq e) (map p_list (update v.queue d ps e))
  queue_at e i = elim (ℕ_discrete e d) [
    | yes q ↦ rw (q, ==_refl d) a.queue
    | no m ↦ rw (ne→== e d m) (
        untouched (s_procq e) (v.queue e) (λ q. cc) (λ q. cc) (λ q. m (cc)) (λ q. cc) (λ x q. cc)
          (λ x q. cc) (λ x j q. let z = n.at_queue e x (active_before e i) j in m (cc))
          (λ x j q. let z = n.at_queue e x (active_before e i) j in cc)
          (n.queue e (active_before e i)))
  ]

  pub woken-IsNucleus : IsNucleus (woken_view d p ps v) (woken arch d p k σ)
  woken-IsNucleus = record {
    active = a.active;
    ascending =
        Ascending-agree k (woken arch d p k σ) (active_after d ps v.active) refl
          (Ascending-after k 0 d ps v.active n.ascending);
    queue = queue_at;
    busy = λ e i. elim (ℕ_discrete e d) [
      | yes q ↦ rw (q, ==_refl d) (not_active d ps v.active k.links n.active (rw q at i))
      | no m ↦ rw (ne→== e d m) (n.busy e (active_before e i))
    ];
    waits = λ e x i j.
        update_field (λ (b : Pcb). b.p_cursem) k.pcb p _ x refl
        ∙ n.waits e x (active_before e i) (still e x (active_before e i) j).0;
    semds = a.free;
    apart = apart_after k 0 d ps v.active v.semds n.active n.apart;
    total = total_after d ps v.active v.semds here ∙ n.total;
    ready = a.ready;
    blocks =
        untouched pcb_free v.blocks (λ e. cc) (λ e. cc) (λ e. cc) (λ e. cc) (λ x e. cc) (λ x e. cc)
          (λ x i e. let z = n.at_blocks x i in cc) (λ x i e. let z = n.at_blocks x i in cc)
          n.blocks;
    at_ready = λ x i. elim (In-append x v.ready_list p i) [
      | inl j ↦ placed_other x Place.ready (n.at_ready x j) (λ q. cc)
      | inr e ↦ rw (e, ==_refl p)
    ];
    at_queue = λ e x i j.
        let r = still e x (active_before e i) j in
        rw (ne→== x p r.1) (n.at_queue e x (active_before e i) r.0);
    at_blocks = λ x i. placed_other x Place.unused (n.at_blocks x i) (λ q. cc);
    at_current = λ x c. placed_other x running (n.at_current x c) (λ q. cc);
    bound = λ x m. elim (ℕ_discrete x p) [
      | yes e ↦ rw e (n.bound p (λ q. let z = blocked_here p (inl refl) in cc))
      | no e ↦ n.bound x (rw (ne→== x p e) at m)
    ];
    count = n.count;
    family = λ q.
        same_siblings (p_children q) (v.children q) (λ e. cc) (λ e. cc) (λ e. cc) (λ e. cc)
          (λ x e. cc) (λ x e. cc) (n.family q);
    parents = λ q x i. update_field (λ (b : Pcb). b.p_parent) k.pcb p _ x refl ∙ n.parents q x i;
    orphans = λ x i. update_field (λ (b : Pcb). b.p_parent) k.pcb p _ x refl ∙ n.orphans x i;
    listed =
        λ c r e. n.listed c r (sym (update_field (λ (b : Pcb). b.p_parent) k.pcb p _ c refl) ∙ e);
    childless = n.childless;
    levels = n.levels;
    small = n.small;
  }
