-- ===== src/Asl/Insert.antt =====
-- insertBlocked: a process joins the queue of a semaphore, which gets a descriptor if it has none.
use jae_so.Common.{
  ℕ, ◌≤◌, ◌≡◌, refl, ◌∙◌, ◌≢◌, inl, inr, none, some, List, [], ◌∷◌, map, arith, length, In,
}
use jae_so.Memory.{Loc, p_list, s_link, s_procq, aslh, semd_free, Links, set_next}
use jae_so.Clist.{enqueue}
use jae_so.Clist.Ring.{
  IsClist, IsClist-agree, Fresh-map, All-map, ne_of_Fresh, set_next_self, set_next_other,
}
use jae_so.Clist.Queue.{
  enqueue-append, enqueue-frame, dequeue-cons, Dequeued, is_empty-cons, is_empty-nil, head-cons,
}
use jae_so.Kernel.Machine.{Kernel, max_proc, update, set_pcb}
use jae_so.Kernel.Cmd.{done}
use jae_so.Asl.{insert_blocked}
use jae_so.Asl.Find.{IsActive, seek, find_semd-seek}
use jae_so.Asl.Place.{placed, place_semd-Placed, Placed}

-- No process is blocked on the semaphore at `sem`, and `d` is the first free descriptor.
pub record CanEnrol (k : Kernel) (sem d : ℕ) (ds fs : List ℕ) : Type 0 where
  pub few : length ds ≤ max_proc
  pub active : IsActive k ds
  pub absent : seek k sem ds ≡ none
  pub free : IsClist k.links semd_free (map s_link (d ∷ fs))
  pub apart : (x y : ℕ) → In x ds → In y (d ∷ fs) → x ≢ y

-- The kernel in which `p` waits at the descriptor `d` for the semaphore at `sem`.
abbrev pub enrolled : ℕ → ℕ → ℕ → Kernel → Links → Kernel
enrolled sem d p k σ =
    set_pcb p (record (k.pcb p) { p_cursem = some d })
      (record k { links = σ; sem_add = update k.sem_add d sem })

pub record Enrolled (k : Kernel) (sem d p : ℕ) (ds fs : List ℕ) (σ : Links) : Type 0 where
  pub run : insert_blocked sem p k ≡ done 0 (enrolled sem d p k σ)
  pub active : IsClist σ aslh (map s_link (placed k.sem_add sem d ds))
  pub free : IsClist σ semd_free (map s_link fs)
  pub queue : IsClist σ (s_procq d) (map p_list (p ∷ []))
  pub same :
      (b : Loc)
      → b ≢ aslh
      → b ≢ semd_free
      → b ≢ s_procq d
      → b ≢ p_list p
      → ((x : ℕ) → b ≢ s_link x)
      → σ b ≡ k.links b

module _ {k : Kernel} {sem d : ℕ} {ds fs : List ℕ} (c : CanEnrol k sem d ds fs) where
  -- The links after the dequeue.
  taken : Dequeued k.links semd_free (s_link d) (map s_link fs)
  taken = dequeue-cons k.links semd_free (s_link d) (map s_link fs) c.free

  taken_same :
      (b : Loc) → b ≢ semd_free → ((y : ℕ) → In y (d ∷ fs) → b ≢ s_link y) → taken.0 b ≡ k.links b
  taken_same b n s = taken.3 b (n, Fresh-map b s_link (d ∷ fs) s)

  taken-active : IsClist taken.0 aslh (map s_link ds)
  taken-active =
      IsClist-agree k.links taken.0 aslh (map s_link ds) (taken_same aslh (λ e. cc) (λ y i e. cc))
        (All-map (λ b. taken.0 b ≡ k.links b) s_link ds
          λ x i. taken_same (s_link x) (λ e. cc) (λ y j e. c.apart x y i j (ground arith)))
        c.active

  -- The links with the descriptor in its place.
  put : (σ : Links) × Placed (record k { links = taken.0 }) sem d ds σ
  put =
      place_semd-Placed (record k { links = taken.0 }) sem d ds c.few taken-active
        (Fresh-map (s_link d) s_link ds λ x i e. c.apart x d i (inl refl) (ground arith))

  put_same :
      (b : Loc) → b ≢ aslh → b ≢ s_link d → ((x : ℕ) → In x ds → b ≢ s_link x) → put.0 b ≡ taken.0 b
  put_same b n m s = put.1.same b (n, (m, Fresh-map b s_link ds s))

  abbrev emptied : Links
  emptied = set_next put.0 (s_procq d) none

  abbrev joined : ℕ → Links
  joined p = enqueue (p_list p) (s_procq d) emptied

  joined_same : (p : ℕ) (b : Loc) → b ≢ s_procq d → b ≢ p_list p → joined p b ≡ put.0 b
  joined_same p b n m =
      enqueue-frame emptied (s_procq d) (p_list p) b [] (set_next_self put.0 (s_procq d) none)
        (n, (m, tt))
      ∙ set_next_other put.0 (s_procq d) b none n

  joined-semds :
      (p : ℕ) (h : Loc) (xs : List ℕ)
      → h ≢ s_procq d
      → h ≢ p_list p
      → IsClist put.0 h (map s_link xs)
      → IsClist (joined p) h (map s_link xs)
  joined-semds p h xs n m = IsClist-agree put.0 (joined p) h (map s_link xs) (joined_same p h n m) (
      All-map (λ b. joined p b ≡ put.0 b) s_link xs
        λ x i. joined_same p (s_link x) (λ e. cc) (λ e. cc))

  put-free : IsClist put.0 semd_free (map s_link fs)
  put-free =
      IsClist-agree taken.0 put.0 semd_free (map s_link fs)
        (put_same semd_free (λ e. cc) (λ e. cc) (λ x i e. cc))
        (All-map (λ b. put.0 b ≡ taken.0 b) s_link fs
          λ y j.
            put_same (s_link y) (λ e. cc) (ne_of_Fresh (s_link d) s_link y fs c.free.4.0 j)
              (λ x i e. c.apart x y i (inr j) (ground arith)))
        taken.2

  -- With no descriptor for the semaphore in the well-formed active list, a first free descriptor
  -- in the well-formed free list, and the two lists apart, insertBlocked of a process returns 0:
  -- the descriptor is out of the free list, stands for the semaphore in the active list before the
  -- first one of a greater address, and the process is its queue; every link but those of the
  -- lists, the queue and the process is as it was.
  pub insert_blocked-Enrolled : (p : ℕ) → (σ : Links) × Enrolled k sem d p ds fs σ
  unfolding insert_blocked
  insert_blocked-Enrolled p = (
    joined p,
    record {
      run = rw (
        find_semd-seek k sem ds c.few c.active,
        c.absent,
        is_empty-cons k.links semd_free (s_link d) (map s_link fs) c.free,
        head-cons k.links semd_free (s_link d) (map s_link fs) c.free,
        taken.1,
        put.1.run,
      );
      active = joined-semds p aslh (placed k.sem_add sem d ds) (λ e. cc) (λ e. cc) put.1.active;
      free = joined-semds p semd_free fs (λ e. cc) (λ e. cc) put-free;
      queue =
          enqueue-append emptied (s_procq d) (p_list p) [] (set_next_self put.0 (s_procq d) none)
            (λ e. cc) tt;
      same = λ b a f q m s.
          joined_same p b q m ∙ put_same b a (s d) (λ x i. s x) ∙ taken_same b f (λ y j. s y);
    },
  )

-- With no descriptor left it returns 1 and changes nothing.
pub insert_blocked-full :
    (k : Kernel) (sem p : ℕ) (ds : List ℕ)
    → length ds ≤ max_proc
    → IsActive k ds
    → seek k sem ds ≡ none
    → k.links semd_free ≡ none
    → insert_blocked sem p k ≡ done 1 k
unfolding insert_blocked
insert_blocked-full k sem p ds l a s c =
    rw (find_semd-seek k sem ds l a, s, is_empty-nil k.links semd_free c)
