-- ===== src/Asl/Remove.antt =====
-- removeBlocked: the process that has waited longest leaves the queue of a semaphore.
use jae_so.Common.Without.{without}
use jae_so.Common.{ℕ, ◌≤◌, ◌≡◌, ◌≢◌, refl, ◌∙◌, some, List, [], ◌∷◌, ◌++◌, map, arith, length, In}
use jae_so.Memory.{Loc, p_list, s_link, s_procq, aslh, semd_free, Links}
use jae_so.Clist.Ring.{IsClist, IsClist-agree, All-map, Fresh-map}
use jae_so.Clist.Queue.{dequeue-cons, Dequeued}
use jae_so.Kernel.Machine.{Kernel, max_proc}
use jae_so.Kernel.Cmd.{done}
use jae_so.Pcb.Queue.{IsQueue, head_proc_q-cons}
use jae_so.Asl.{remove_blocked, release_semd}
use jae_so.Asl.Find.{IsActive, seek, find_semd-seek}
use jae_so.Asl.Release.{Idle, release_semd-Idle, release_semd-busy}

pub seek-In : (k : Kernel) (sem d : ℕ) (ds : List ℕ) → seek k sem ds ≡ some d → In d ds
unfolding seek
seek-In k sem d [] e = cc
seek-In k sem d (x ∷ xs) e = ground (arith, seek-In k sem d xs)

-- The processes `p ∷ ps` are blocked on the semaphore at `sem`, whose descriptor is `d`; `ds` are
-- the active descriptors, `fs` the free ones.
pub record Blocked (k : Kernel) (sem d p : ℕ) (ps ds fs : List ℕ) : Type 0 where
  pub few : length ds ≤ max_proc
  pub active : IsActive k ds
  pub known : seek k sem ds ≡ some d
  pub queue : IsQueue k (s_procq d) (p ∷ ps)
  pub free : IsClist k.links semd_free (map s_link fs)
  pub apart : (x y : ℕ) → In x ds → In y fs → x ≢ y

-- The descriptors that are active and free when `ps` still wait at `d`.
abbrev pub active_after : ℕ → List ℕ → List ℕ → List ℕ
active_after d [] ds = without d ds
active_after d (p ∷ ps) ds = ds

abbrev pub free_after : ℕ → List ℕ → List ℕ → List ℕ
free_after d [] fs = fs ++ d ∷ []
free_after d (p ∷ ps) fs = fs

-- The state after it: `p` is out of the queue, and no other queue has changed.
pub record Unblocked (k : Kernel) (sem d p : ℕ) (ps ds fs : List ℕ) (σ : Links) : Type 0 where
  pub run : remove_blocked sem k ≡ done (some p) (record k { links = σ })
  pub queue : IsClist σ (s_procq d) (map p_list ps)
  pub active : IsClist σ aslh (map s_link (active_after d ps ds))
  pub free : IsClist σ semd_free (map s_link (free_after d ps fs))
  pub same :
      (b : Loc)
      → b ≢ aslh
      → b ≢ semd_free
      → b ≢ s_procq d
      → ((x : ℕ) → b ≢ s_link x)
      → ((x : ℕ) → In x (p ∷ ps) → b ≢ p_list x)
      → σ b ≡ k.links b

module _ {k : Kernel} {sem d p : ℕ} {ps ds fs : List ℕ} (b : Blocked k sem d p ps ds fs) where
  -- The links after the dequeue.
  dequeued : Dequeued k.links (s_procq d) (p_list p) (map p_list ps)
  dequeued = dequeue-cons k.links (s_procq d) (p_list p) (map p_list ps) b.queue

  dequeued_same :
      (a : Loc)
      → a ≢ s_procq d
      → ((x : ℕ) → In x (p ∷ ps) → a ≢ p_list x)
      → dequeued.0 a ≡ k.links a
  dequeued_same a n s = dequeued.3 a (n, Fresh-map a p_list (p ∷ ps) s)

  -- The dequeue leaves the lists of descriptors alone.
  dequeued-list :
      (h : Loc) (xs : List ℕ)
      → h ≢ s_procq d
      → ((x : ℕ) → h ≢ p_list x)
      → IsClist k.links h (map s_link xs)
      → IsClist dequeued.0 h (map s_link xs)
  dequeued-list h xs n s c =
      IsClist-agree k.links dequeued.0 h (map s_link xs) (dequeued_same h n (λ x i. s x))
        (All-map (λ a. dequeued.0 a ≡ k.links a) s_link xs
          λ x i. dequeued_same (s_link x) (λ e. cc) (λ y j e. cc))
        c

  abbrev after : Kernel
  after = record k { links = dequeued.0 }

  after-Idle : ps ≡ [] → Idle after d ds fs
  after-Idle e = record {
    few = b.few;
    active = dequeued-list aslh ds (λ q. cc) (λ x q. cc) b.active;
    member = seek-In k sem d ds b.known;
    empty = rw e at dequeued.2;
    free = dequeued-list semd_free fs (λ q. cc) (λ x q. cc) b.free;
    apart = b.apart;
  }

  -- Up to the end of removeBlocked.
  remove_blocked_run :
      (σ : Links)
      → release_semd d after ≡ done tt (record k { links = σ })
      → remove_blocked sem k ≡ done (some p) (record k { links = σ })
  unfolding remove_blocked
  remove_blocked_run σ r = rw (
    find_semd-seek k sem ds b.few b.active,
    b.known,
    head_proc_q-cons k (s_procq d) p ps b.queue,
    dequeued.1,
    r,
  )

-- With processes blocked on the semaphore, its descriptor found by the search, at most MAXPROC
-- active descriptors, and the active list, the free list and the queue well formed and the first
-- two apart, removeBlocked ends and returns the first process, which is then out of the queue;
-- when it was the last, the descriptor goes from the active list to the end of the free list;
-- every link but those of the queue, of the two lists' tail pointers and of descriptors is as it
-- was.
pub remove_blocked-Unblocked :
    (k : Kernel) (sem d p : ℕ) (ps ds fs : List ℕ)
    → Blocked k sem d p ps ds fs
    → (σ : Links) × Unblocked k sem d p ps ds fs σ
remove_blocked-Unblocked k sem d p [] ds fs b =
    let r = release_semd-Idle (after-Idle b refl) in
    (
      r.0,
      record {
        run = remove_blocked_run b r.0 r.1.run;
        queue = r.1.same (s_procq d) (λ e. cc) (λ e. cc) (λ x e. cc) ∙ (dequeued b).2;
        active = r.1.active;
        free = r.1.free;
        same = λ a m n q s f. r.1.same a m n s ∙ dequeued_same b a q f;
      },
    )
remove_blocked-Unblocked k sem d p (x ∷ xs) ds fs b = (
  (dequeued b).0,
  record {
    run =
        remove_blocked_run b (dequeued b).0
          (release_semd-busy (after b) d (p_list x) (map p_list xs) (dequeued b).2);
    queue = (dequeued b).2;
    active = dequeued-list b aslh ds (λ q. cc) (λ x q. cc) b.active;
    free = dequeued-list b semd_free fs (λ q. cc) (λ x q. cc) b.free;
    same = λ a m n q s f. dequeued_same b a q f;
  },
)
