-- ===== src/Nucleus/First.antt =====
-- The first process: the nucleus is in order when it is ready.
use jae_so.Common.{
  ℕ, ◌<◌, ◌≡◌, ◌≢◌, refl, sym, ◌∙◌, inl, inr, none, some, [], ◌∷◌, map, arith, In, ◌==◌, ltb,
  if◌then◌else◌, ne→==, ℕ_discrete,
}
use jae_so.Memory.{
  Loc, Loc-discrete, p_list, p_children, p_siblings, s_link, aslh, semd_free, ready_queue, pcb_free,
  Links, set_next,
}
use jae_so.Clist.{enqueue}
use jae_so.Clist.Fill.{upto, upto-In}
use jae_so.Clist.Queue.{enqueue-append, enqueue-frame}
use jae_so.Clist.Ring.{IsClist, IsClist-agree_map, IsClist-set, Fresh-map, set_next_other}
use jae_so.Kernel.Arch.{Arch}
use jae_so.Kernel.Machine.{Kernel, max_proc}
use jae_so.Kernel.Cmd.{Returns}
use jae_so.Kernel.Rules.{Returns-done}
use jae_so.Pcb.{alloc_pcb, insert_proc_q}
use jae_so.Pcb.FreeList.{alloc_pcb-cons, Allocated}
use jae_so.Boot.{start_init}
use jae_so.Nucleus.{View, IsNucleus, IsOrdered, Place, unused, nowhere}

-- The view when the first process is ready.
abbrev boot_view : View
boot_view = record {
  place = λ x. if x == 0 then Place.ready else if ltb x max_proc then unused else nowhere;
  ready_list = 0 ∷ [];
  queue = λ d. [];
  active = [];
  semds = upto max_proc 0;
  blocks = upto 19 1;
  children = λ p. [];
  level = λ p. 0;
}

small : (x : ℕ) → boot_view.place x ≢ nowhere → x < max_proc
small x n = ground arith

pub set_next-none : (σ : Links) (a b : Loc) → σ b ≡ none → set_next σ a none b ≡ none
unfolding set_next
set_next-none σ a b e = ground arith

-- The memory when the lists are made: the blocks and the descriptors are free, and nothing else is
-- linked.
pub record Cold (k : Kernel) : Type 0 where
  pub free : IsClist k.links pcb_free (map p_list (upto max_proc 0))
  pub semds : IsClist k.links semd_free (map s_link (upto max_proc 0))
  pub rest :
      (b : Loc)
      → b ≢ pcb_free
      → b ≢ semd_free
      → ((x : ℕ) → b ≢ p_list x)
      → ((x : ℕ) → b ≢ s_link x)
      → k.links b ≡ none
  pub current : k.current_process ≡ none
  pub count : k.process_count ≡ 1
  pub orphans : (x : ℕ) → (k.pcb x).p_parent ≡ none

-- The first process.
module _ (arch : Arch) (k : Kernel) (c : Cold k) where
  taken : (σ : Links) × Allocated k 0 (upto 19 1) σ
  taken = alloc_pcb-cons k 0 (upto 19 1) c.free

  -- What is linked nowhere stays so.
  taken_rest :
      (b : Loc)
      → b ≢ pcb_free
      → b ≢ semd_free
      → ((x : ℕ) → b ≢ p_list x)
      → ((x : ℕ) → b ≢ s_link x)
      → taken.0 b ≡ none
  taken_rest b n m s t = elim (Loc-discrete b (p_children 0)) [
    | yes e ↦ rw e taken.1.unlinked.1
    | no a ↦ elim (Loc-discrete b (p_siblings 0)) [
      | yes e ↦ rw e taken.1.unlinked.2
      | no d ↦
          taken.1.same b (n, (a, (d, Fresh-map b p_list (upto max_proc 0) λ x i. s x)))
          ∙ c.rest b n m s t
    ]
  ]

  taken_same :
      (b : Loc)
      → b ≢ pcb_free
      → b ≢ p_children 0
      → b ≢ p_siblings 0
      → ((x : ℕ) → b ≢ p_list x)
      → taken.0 b ≡ k.links b
  taken_same b n a d s =
      taken.1.same b (n, (a, (d, Fresh-map b p_list (upto max_proc 0) λ x i. s x)))

  abbrev queued : Links
  queued = enqueue (p_list 0) ready_queue taken.0

  queued_same : (b : Loc) → b ≢ ready_queue → b ≢ p_list 0 → queued b ≡ taken.0 b
  queued_same b n m =
      enqueue-frame taken.0 ready_queue (p_list 0) b []
        (taken_rest ready_queue (λ q. cc) (λ q. cc) (λ x q. cc) (λ x q. cc)) (n, (m, tt))

  abbrev final : Links
  final = set_next (set_next queued (p_children 0) none) (p_siblings 0) none

  final_same :
      (b : Loc)
      → b ≢ ready_queue
      → b ≢ p_list 0
      → b ≢ p_children 0
      → b ≢ p_siblings 0
      → final b ≡ taken.0 b
  final_same b n m a d =
      set_next_other _ (p_siblings 0) b none d
      ∙ set_next_other queued (p_children 0) b none a
      ∙ queued_same b n m

  final_rest :
      (b : Loc)
      → b ≢ pcb_free
      → b ≢ semd_free
      → b ≢ ready_queue
      → ((x : ℕ) → b ≢ p_list x)
      → ((x : ℕ) → b ≢ s_link x)
      → final b ≡ none
  final_rest b n m r s t =
      set_next-none _ (p_siblings 0) b
        (set_next-none queued (p_children 0) b (queued_same b r (s 0) ∙ taken_rest b n m s t))

  final-ready : IsClist final ready_queue (map p_list (0 ∷ []))
  final-ready =
      IsClist-set _ (p_siblings 0) none ready_queue (map p_list (0 ∷ [])) (λ q. cc) ((λ q. cc), tt)
        (IsClist-set queued (p_children 0) none ready_queue (map p_list (0 ∷ [])) (λ q. cc)
          ((λ q. cc), tt)
          (enqueue-append taken.0 ready_queue (p_list 0) []
            (taken_rest ready_queue (λ q. cc) (λ q. cc) (λ x q. cc) (λ x q. cc)) (λ q. cc) tt))

  later : (x : ℕ) → In x (upto 19 1) → x ≢ 0
  later x i q = let r = upto-In 19 1 x i in absurd (omega (arith, r.0, q))

  final-blocks : IsClist final pcb_free (map p_list (upto 19 1))
  final-blocks =
      IsClist-agree_map taken.0 final pcb_free p_list (upto 19 1)
        (final_same pcb_free (λ q. cc) (λ q. cc) (λ q. cc) (λ q. cc))
        (λ x i. final_same (p_list x) (λ q. cc) (λ q. later x i (cc)) (λ q. cc) (λ q. cc))
        taken.1.free

  final-semds : IsClist final semd_free (map s_link (upto max_proc 0))
  final-semds =
      IsClist-agree_map k.links final semd_free s_link (upto max_proc 0)
        (final_same semd_free (λ q. cc) (λ q. cc) (λ q. cc) (λ q. cc)
          ∙ taken_same semd_free (λ q. cc) (λ q. cc) (λ q. cc) (λ x q. cc))
        (λ x i.
          final_same (s_link x) (λ q. cc) (λ q. cc) (λ q. cc) (λ q. cc)
          ∙ taken_same (s_link x) (λ q. cc) (λ q. cc) (λ q. cc) (λ y q. cc))
        c.semds

  spare : (x : ℕ) → In x (upto 19 1) → boot_view.place x ≡ unused
  spare x i = let r = upto-In 19 1 x i in ground (arith, r.0, r.1)

  boot-IsNucleus :
      (k' : Kernel)
      → k'.links ≡ final
      → k'.current_process ≡ none
      → k'.process_count ≡ 1
      → ((x : ℕ) → (k'.pcb x).p_parent ≡ none)
      → IsNucleus boot_view k'
  boot-IsNucleus k' l cur cnt o = record {
    active = rw l (final_rest aslh (λ q. cc) (λ q. cc) (λ q. cc) (λ x q. cc) (λ x q. cc));
    ascending = tt;
    queue = λ d i. elim i [ ];
    busy = λ d i. elim i [ ];
    waits = λ d x i j. elim i [ ];
    semds = rw l final-semds;
    apart = λ x y i j. elim i [ ];
    total = refl;
    ready = rw l final-ready;
    blocks = rw l final-blocks;
    at_ready = λ x i. elim i [ inl e ↦ rw e refl | inr j ↦ elim j [ ] ];
    at_queue = λ d x i j. elim i [ ];
    at_blocks = spare;
    at_current = λ p e. let z : none ≡ some p = sym cur ∙ e in cc;
    bound = λ x n. small x n;
    count = rw cnt refl;
    family =
        λ p. rw l (final_rest (p_children p) (λ q. cc) (λ q. cc) (λ q. cc) (λ x q. cc) (λ x q. cc));
    parents = λ p x i. elim i [ ];
    orphans = λ x i. o x;
    listed = λ c p e. let z = sym (o c) ∙ e in cc;
    childless = λ x i. refl;
    levels = λ p c i. elim i [ ];
    small = λ p c i. elim i [ ];
  }

  pub start_init-IsOrdered : Returns (λ _ k'. IsOrdered k') (start_init arch k)
  unfolding start_init insert_proc_q
  start_init-IsOrdered =
      Returns-done (λ _ k'. IsOrdered k') (alloc_pcb k) _ (some 0) _ taken.1.run
        (
          boot_view,
          boot-IsNucleus _ refl c.current c.count λ x. elim (ℕ_discrete x 0) [
            | yes e ↦ rw e refl
            | no n ↦ rw (ne→== x 0 n) (c.orphans x)
          ],
        )
