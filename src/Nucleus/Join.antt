-- ===== src/Nucleus/Join.antt =====
-- A process that blocks leaves the nucleus in order.
use jae_so.Common.{
  ℕ, ◌+◌, ◌≡◌, ◌≢◌, sym, ap, ◌∙◌, ◌⊎◌, inl, inr, none, some, List, [], map, length, In, ne→==,
  ==_refl, ℕ_discrete,
}
use jae_so.Memory.{
  Loc, p_list, p_children, p_siblings, s_link, s_procq, aslh, semd_free, ready_queue, pcb_free,
}
use jae_so.Clist.Ring.{IsClist, IsClist-agree, All-map}
use jae_so.Kernel.Machine.{Kernel, max_proc, update}
use jae_so.Pcb.Queue.{IsQueue}
use jae_so.Asl.Find.{IsActive, Ascending}
use jae_so.Nucleus.{View, IsNucleus, Place, blocked, running}

-- The process `p`, which ran, waits in the queue `q` at the descriptor `d`; `ds` are the active
-- descriptors then, and `fs` the free ones.
pub record Joined (v : View) (k : Kernel) (d p : ℕ) (q ds fs : List ℕ) (k' : Kernel) : Type 0 where
  pub active : IsActive k' ds
  pub ascending : Ascending k' ds
  pub others : (e : ℕ) → In e ds → e ≢ d → In e v.active
  pub semds : IsClist k'.links semd_free (map s_link fs)
  pub apart : (x y : ℕ) → In x ds → In y fs → x ≢ y
  pub total : length ds + length fs ≡ max_proc
  pub queue : IsQueue k' (s_procq d) q
  pub busy : q ≢ []
  pub members : (x : ℕ) → In x q → (x ≡ p) ⊎ (v.place x ≡ blocked d)
  pub waits : (x : ℕ) → In x q → (k'.pcb x).p_cursem ≡ some d
  pub current : k'.current_process ≡ none
  pub count : k'.process_count ≡ k.process_count
  pub sems : (x : ℕ) → x ≢ p → (k'.pcb x).p_cursem ≡ (k.pcb x).p_cursem
  pub parents : (x : ℕ) → (k'.pcb x).p_parent ≡ (k.pcb x).p_parent
  pub same :
      (b : Loc)
      → b ≢ aslh
      → b ≢ semd_free
      → b ≢ s_procq d
      → ((x : ℕ) → b ≢ s_link x)
      → ((x : ℕ) → In x q → b ≢ p_list x)
      → k'.links b ≡ k.links b

abbrev pub joined_view : ℕ → ℕ → List ℕ → List ℕ → List ℕ → View → View
joined_view d p q ds fs v = record v {
  place = update v.place p (blocked d);
  queue = update v.queue d q;
  active = ds;
  semds = fs;
}

module _ (v : View) (k : Kernel) (d p : ℕ) (q ds fs : List ℕ) (k' : Kernel) (n : IsNucleus v k)
    (runs : k.current_process ≡ some p) (j : Joined v k d p q ds fs k') where
  ran : v.place p ≡ running
  ran = n.at_current p runs

  -- A list of processes that neither ran nor were blocked at `d` is as it was.
  untouched :
      (h : Loc) (xs : List ℕ)
      → h ≢ aslh
      → h ≢ semd_free
      → h ≢ s_procq d
      → ((x : ℕ) → h ≢ s_link x)
      → ((x : ℕ) → h ≢ p_list x)
      → ((x : ℕ) → In x xs → v.place x ≢ running)
      → ((x : ℕ) → In x xs → v.place x ≢ blocked d)
      → IsClist k.links h (map p_list xs)
      → IsClist k'.links h (map p_list xs)
  untouched h xs n1 n2 n3 n4 n5 f g =
      IsClist-agree k.links k'.links h (map p_list xs) (j.same h n1 n2 n3 n4 (λ x i. n5 x)) (
        All-map (λ b. k'.links b ≡ k.links b) p_list xs
          λ x i.
            j.same (p_list x) (λ e. cc) (λ e. cc) (λ e. cc) (λ y e. cc)
              (λ y m e.
                let w : x ≡ y = cc in
                elim (j.members y m) [
                  | inl r ↦ f x i (ap v.place (w ∙ r) ∙ ran)
                  | inr r ↦ g x i (ap v.place w ∙ r)
                ]))

  same_siblings :
      (r : ℕ) (xs : List ℕ)
      → IsClist k.links (p_children r) (map p_siblings xs)
      → IsClist k'.links (p_children r) (map p_siblings xs)
  same_siblings r xs =
      IsClist-agree k.links k'.links (p_children r) (map p_siblings xs)
        (j.same (p_children r) (λ e. cc) (λ e. cc) (λ e. cc) (λ x e. cc) (λ x i e. cc))
        (All-map (λ b. k'.links b ≡ k.links b) p_siblings xs
          λ x i. j.same (p_siblings x) (λ e. cc) (λ e. cc) (λ e. cc) (λ y e. cc) (λ y m e. cc))

  placed_other :
      (x : ℕ) (w : Place) → v.place x ≡ w → w ≢ running → update v.place p (blocked d) x ≡ w
  placed_other x w e m = rw (ne→== x p (λ r. m (sym e ∙ ap v.place r ∙ ran))) e

  queue_at : (e : ℕ) → In e ds → IsQueue k' (s_procq e) (update v.queue d q e)
  queue_at e i = elim (ℕ_discrete e d) [
    | yes r ↦ rw (r, ==_refl d) j.queue
    | no m ↦
        let o : In e v.active = j.others e i m in
        rw (ne→== e d m) (
          untouched (s_procq e) (v.queue e) (λ r. cc) (λ r. cc) (λ r. m (cc)) (λ x r. cc)
            (λ x r. cc) (λ x l r. let z : blocked e ≡ running = sym (n.at_queue e x o l) ∙ r in cc)
            (λ x l r. let z : blocked e ≡ blocked d = sym (n.at_queue e x o l) ∙ r in m (cc))
            (n.queue e o))
  ]

  -- Who waits at `e` now.
  waiter :
      (e x : ℕ)
      → In e ds
      → In x (update v.queue d q e)
      → ((k'.pcb x).p_cursem ≡ some e) × (update v.place p (blocked d) x ≡ blocked e)
  waiter e x i l = elim (ℕ_discrete e d) [
    | yes r ↦
        let m : In x q = rw (r, ==_refl d) at l in
        rw r (
          j.waits x m,
          elim (j.members x m) [
            | inl w ↦ rw (w, ==_refl p)
            | inr w ↦ placed_other x (blocked d) w (λ z. cc)
          ],
        )
    | no r ↦
        let m : In x (v.queue e) = rw (ne→== e d r) at l in
        let o : In e v.active = j.others e i r in
        let w : v.place x ≡ blocked e = n.at_queue e x o m in
        (
          j.sems x (λ z. let y : blocked e ≡ running = sym w ∙ ap v.place z ∙ ran in cc)
              ∙ n.waits e x o m,
          placed_other x (blocked e) w (λ z. cc),
        )
  ]

  pub joined-IsNucleus : IsNucleus (joined_view d p q ds fs v) k'
  joined-IsNucleus = record {
    active = j.active;
    ascending = j.ascending;
    queue = queue_at;
    busy = λ e i. elim (ℕ_discrete e d) [
      | yes r ↦ rw (r, ==_refl d) j.busy
      | no m ↦ rw (ne→== e d m) (n.busy e (j.others e i m))
    ];
    waits = λ e x i l. (waiter e x i l).0;
    semds = j.semds;
    apart = j.apart;
    total = j.total;
    ready =
        untouched ready_queue v.ready_list (λ e. cc) (λ e. cc) (λ e. cc) (λ x e. cc) (λ x e. cc)
          (λ x i e. let z = n.at_ready x i in cc) (λ x i e. let z = n.at_ready x i in cc) n.ready;
    blocks =
        untouched pcb_free v.blocks (λ e. cc) (λ e. cc) (λ e. cc) (λ x e. cc) (λ x e. cc)
          (λ x i e. let z = n.at_blocks x i in cc) (λ x i e. let z = n.at_blocks x i in cc)
          n.blocks;
    at_ready = λ x i. placed_other x Place.ready (n.at_ready x i) (λ e. cc);
    at_queue = λ e x i l. (waiter e x i l).1;
    at_blocks = λ x i. placed_other x Place.unused (n.at_blocks x i) (λ e. cc);
    at_current = λ x c. let z : none ≡ some x = sym j.current ∙ c in cc;
    bound = λ x m. elim (ℕ_discrete x p) [
      | yes e ↦ rw e (n.bound p (λ r. let z = ran in cc))
      | no e ↦ n.bound x (rw (ne→== x p e) at m)
    ];
    count = rw j.count n.count;
    family = λ r. same_siblings r (v.children r) (n.family r);
    parents = λ r x i. j.parents x ∙ n.parents r x i;
    orphans = λ x i. j.parents x ∙ n.orphans x i;
    listed = λ c r e. n.listed c r (sym (j.parents c) ∙ e);
    childless = n.childless;
    levels = n.levels;
    small = n.small;
  }
