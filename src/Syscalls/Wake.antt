-- ===== src/Syscalls/Wake.antt =====
-- A V on a semaphore: the processes that it wakes.
use mathlib.Core.List.{map-append}
use jae_so.Common.Without.{length-without, without}
use jae_so.Common.{
  ℕ, suc, ◌≡◌, ◌≢◌, refl, ap, ◌∙◌, inl, inr, none, some, Option, List, [], ◌∷◌, ◌++◌, map, arith,
  In, Bool-cases, false, if◌then◌else◌, ltb, ==_refl,
}
use jae_so.Common.Int.{ℤ}
use jae_so.Memory.{Loc, p_list, s_link, s_procq, aslh, semd_free, ready_queue, Links}
use jae_so.Clist.{enqueue}
use jae_so.Clist.Ring.{IsClist, IsClist-agree, All-map, Fresh-map, ne_of_Fresh}
use jae_so.Clist.Queue.{enqueue-append, enqueue-frame}
use jae_so.Kernel.Arch.{Arch, is_dev}
use jae_so.Kernel.Machine.{Kernel, set_pcb, sub32}
use jae_so.Kernel.Cmd.{done}
use jae_so.Pcb.{insert_proc_q}
use jae_so.Pcb.Queue.{IsQueue}
use jae_so.Asl.{head_blocked}
use jae_so.Asl.Find.{Ascending}
use jae_so.Asl.Remove.{Blocked, Unblocked, remove_blocked-Unblocked, active_after, free_after}
use jae_so.Asl.Head.{head_blocked-none, head_blocked-cons, seek-agree, seek-without}
use jae_so.Syscalls.Semop.{wake_loop, settle, signed32, unsigned32}

-- The process `p`, the first that is blocked on the semaphore at `sem`, can be woken with `free`
-- resources; the ready queue `rs` and the queue of the semaphore do not share one.
pub record CanWake (k : Kernel) (sem : ℕ) (free : ℤ) (d p : ℕ) (ps ds fs rs : List ℕ) : Type 0 where
  pub blocked : Blocked k sem d p ps ds fs
  pub ascending : Ascending k ds
  pub ready : IsQueue k ready_queue rs
  pub apart : (r x : ℕ) → In r rs → In x (p ∷ ps) → r ≢ x
  pub waits : (k.pcb p).p_cursem ≡ some d
  pub enough : ltb (unsigned32 free) (k.pcb p).res_requested ≡ false

-- The kernel when `p` is awake, with the links `σ`.
abbrev pub woken : Arch → ℕ → ℕ → Kernel → Links → Kernel
woken arch d p k σ = record (set_pcb p (record (k.pcb p) { res_requested = 0 }) k) {
  links = σ;
  soft_block_count =
      if is_dev arch (k.sem_add d) then sub32 k.soft_block_count 1 else k.soft_block_count;
}

-- What is left of the resources.
abbrev pub left : ℤ → ℕ → ℤ
left free need = signed32 (sub32 (unsigned32 free) need)

-- The lists after it.
pub record Awake (k : Kernel) (d p : ℕ) (ps ds fs rs : List ℕ) (σ : Links) : Type 0 where
  pub ready : IsClist σ ready_queue (map p_list (rs ++ p ∷ []))
  pub queue : IsClist σ (s_procq d) (map p_list ps)
  pub active : IsClist σ aslh (map s_link (active_after d ps ds))
  pub free : IsClist σ semd_free (map s_link (free_after d ps fs))
  pub same :
      (b : Loc)
      → b ≢ aslh
      → b ≢ semd_free
      → b ≢ s_procq d
      → b ≢ ready_queue
      → ((x : ℕ) → b ≢ s_link x)
      → ((x : ℕ) → In x (p ∷ ps) → b ≢ p_list x)
      → ((x : ℕ) → In x rs → b ≢ p_list x)
      → σ b ≡ k.links b

module _ {k : Kernel} {sem : ℕ} {free : ℤ} {d p : ℕ} {ps ds fs rs : List ℕ}
    (c : CanWake k sem free d p ps ds fs rs) where
  abbrev served : Kernel
  served = set_pcb p (record (k.pcb p) { res_requested = 0 }) k

  served-Blocked : Blocked served sem d p ps ds fs
  served-Blocked = record {
    few = c.blocked.few;
    active = c.blocked.active;
    known = seek-agree k served sem ds refl ∙ c.blocked.known;
    queue = c.blocked.queue;
    free = c.blocked.free;
    apart = c.blocked.apart;
  }

  removed : (σ : Links) × Unblocked served sem d p ps ds fs σ
  removed = remove_blocked-Unblocked served sem d p ps ds fs served-Blocked

  removed-ready : IsClist removed.0 ready_queue (map p_list rs)
  removed-ready =
      IsClist-agree k.links removed.0 ready_queue (map p_list rs)
        (removed.1.same ready_queue (λ e. cc) (λ e. cc) (λ e. cc) (λ x e. cc) (λ x i e. cc))
        (All-map (λ b. removed.0 b ≡ k.links b) p_list rs
          λ r i.
            removed.1.same (p_list r) (λ e. cc) (λ e. cc) (λ e. cc) (λ x e. cc)
              (λ x j e. c.apart r x i j (ground arith)))
        c.ready

  abbrev queued : Links
  queued = enqueue (p_list p) ready_queue removed.0

  queued_same :
      (b : Loc)
      → b ≢ ready_queue
      → ((x : ℕ) → In x (p ∷ rs) → b ≢ p_list x)
      → queued b ≡ removed.0 b
  queued_same b n s =
      enqueue-frame removed.0 ready_queue (p_list p) b (map p_list rs) removed-ready
        (n, Fresh-map b p_list (p ∷ rs) s)

  descriptors :
      (h : Loc) (xs : List ℕ)
      → h ≢ ready_queue
      → ((x : ℕ) → h ≢ p_list x)
      → IsClist removed.0 h (map s_link xs)
      → IsClist queued h (map s_link xs)
  descriptors h xs n s =
      IsClist-agree removed.0 queued h (map s_link xs) (queued_same h n (λ x i. s x)) (
        All-map (λ b. queued b ≡ removed.0 b) s_link xs
          λ x i. queued_same (s_link x) (λ e. cc) (λ y j e. cc))

  others_wait : (x y : ℕ) → In x ps → In y (p ∷ rs) → p_list x ≢ p_list y
  others_wait x y i (inl e) =
      λ q. ne_of_Fresh (p_list p) p_list x ps c.blocked.queue.4.0 i (q ∙ ap p_list e)
  others_wait x y i (inr j) = λ q. c.apart y x j (inr i) (ground arith)

  queued-Awake : Awake k d p ps ds fs rs queued
  queued-Awake = record {
    ready = rw (map-append p_list rs (p ∷ [])) (
        enqueue-append removed.0 ready_queue (p_list p) (map p_list rs) removed-ready (λ e. cc)
          (Fresh-map (p_list p) p_list rs λ r i e. c.apart r p i (inl refl) (ground arith)));
    queue =
        IsClist-agree removed.0 queued (s_procq d) (map p_list ps)
          (queued_same (s_procq d) (λ e. cc) (λ x i e. cc))
          (All-map (λ b. queued b ≡ removed.0 b) p_list ps
            λ x i. queued_same (p_list x) (λ e. cc) (λ y j. others_wait x y i j))
          removed.1.queue;
    active = descriptors aslh (active_after d ps ds) (λ e. cc) (λ x e. cc) removed.1.active;
    free = descriptors semd_free (free_after d ps fs) (λ e. cc) (λ x e. cc) removed.1.free;
    same = λ b m n q r s f g.
        queued_same b r
          (λ x i. elim i [ inl e ↦ λ w. f p (inl refl) (w ∙ ap p_list e) | inr j ↦ g x j ])
        ∙ removed.1.same b m n q s f;
  }

-- The call of headBlocked at the end of a round returns.
head_blocked-woken :
    (arch : Arch) (k : Kernel) (sem : ℕ) (free : ℤ) (d p : ℕ) (ps ds fs rs : List ℕ)
    (c : CanWake k sem free d p ps ds fs rs)
    → (r : Option ℕ) × (head_blocked sem (woken arch d p k (queued c))
        ≡ done r (woken arch d p k (queued c)))
head_blocked-woken arch k sem free d p [] ds fs rs c = (
  none,
  head_blocked-none (woken arch d p k (queued c)) sem (without d ds)
      (omega (arith, length-without d ds, c.blocked.few)) (queued-Awake c).active
      (seek-agree k (woken arch d p k (queued c)) sem (without d ds) refl
        ∙ seek-without k sem d ds c.ascending c.blocked.known),
)
head_blocked-woken arch k sem free d p (x ∷ xs) ds fs rs c = (
  some x,
  head_blocked-cons (woken arch d p k (queued c)) sem d x xs ds c.blocked.few
      (queued-Awake c).active
      (seek-agree k (woken arch d p k (queued c)) sem ds refl ∙ c.blocked.known)
      (queued-Awake c).queue,
)

-- One soft-blocked process less, if the semaphore is a device's.
abbrev counted : Arch → ℕ → Kernel → Kernel
counted arch d k = record k {
  soft_block_count =
      if is_dev arch (k.sem_add d) then sub32 k.soft_block_count 1 else k.soft_block_count;
}

settle_run :
    (arch : Arch) (k : Kernel) (sem d p : ℕ) (r : Option ℕ)
    → (k.pcb p).p_cursem ≡ some d
    → head_blocked sem (counted arch d k) ≡ done r (counted arch d k)
    → settle arch sem p k ≡ done tt (counted arch d k)
unfolding settle
settle_run arch k sem d p r w h = elim (Bool-cases (is_dev arch (k.sem_add d))) [
  | inl e ↦ simp (w, e) (simp (rw e at h))
  | inr e ↦ simp (w, e) (simp (rw e at h))
]

module _ (arch : Arch) (k : Kernel) (sem : ℕ) (free : ℤ) (d p : ℕ) (ps ds fs rs : List ℕ) where
  -- With a process blocked on the semaphore, the active list in ascending order, the active and
  -- the free descriptors, the queue and the ready queue well formed and apart, the first process's
  -- semaphore field right and enough free resources for it, a round of semop's loop gives the
  -- process what it asked for and moves it from the queue to the end of the ready queue; the
  -- descriptor goes to the end of the free list if no other process waits; the count of
  -- soft-blocked processes goes down if the semaphore is a device's; and the loop goes on with the
  -- resources that are left.
  pub wake_loop-Awake :
      (fuel : ℕ)
      → CanWake k sem free d p ps ds fs rs
      → (σ : Links) × (wake_loop arch (suc fuel) sem free k
          ≡ wake_loop arch fuel sem (left free (k.pcb p).res_requested) (woken arch d p k σ))
        × Awake k d p ps ds fs rs σ
  unfolding wake_loop insert_proc_q
  wake_loop-Awake fuel c =
      let h = head_blocked-woken arch k sem free d p ps ds fs rs c in
      let awake : Kernel = record (served c) { links = queued c } in
      (
        queued c,
        rw (
          head_blocked-cons k sem d p ps ds c.blocked.few c.blocked.active c.blocked.known
              c.blocked.queue,
          c.enough,
          (removed c).1.run,
          settle_run arch awake sem d p h.0 (rw (==_refl p) c.waits) h.1,
        ),
        queued-Awake c,
      )
