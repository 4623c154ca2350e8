-- ===== src/Asl/Head.antt =====
-- headBlocked, and the search for a semaphore in other states.
use jae_so.Common.Without.{without}
use jae_so.Common.{
  ℕ, ◌≤◌, ◌<◌, ◌≡◌, refl, ap, ◌∙◌, inl, inr, some, none, List, [], ◌∷◌, map, arith, length, last,
  In, All, false, ℕ_discrete,
}
use jae_so.Memory.{Loc, s_link, s_procq, aslh, Links}
use jae_so.Clist.{is_empty}
use jae_so.Clist.Ring.{Segment, IsClist}
use jae_so.Kernel.Machine.{Kernel, max_proc}
use jae_so.Kernel.Cmd.{done}
use jae_so.Pcb.Queue.{IsQueue, head_proc_q-cons}
use jae_so.Asl.{head_blocked}
use jae_so.Asl.Find.{IsActive, seek, find_semd-seek, Ascending, seek-above, seek_sound}
use jae_so.Clist.Map.{In-map}
use jae_so.Asl.Remove.{seek-In}

Segment-linked :
    (σ : Links) (e x z : Loc) (xs : List Loc)
    → Segment σ x xs
    → σ (last x xs) ≡ some z
    → In e (x ∷ xs)
    → (b : Loc) × (σ e ≡ some b)
Segment-linked σ e x z [] s l (inl q) = (z, ap σ q ∙ l)
Segment-linked σ e x z [] s l (inr i) = elim i [ ]
Segment-linked σ e x z (y ∷ ys) s l (inl q) = (y, ap σ q ∙ s.0)
Segment-linked σ e x z (y ∷ ys) s l (inr i) = Segment-linked σ e y z ys s.1 l i

-- An element of a list has a next one.
linked : (σ : Links) (h e : Loc) (xs : List Loc) → IsClist σ h xs → In e xs → is_empty e σ ≡ false
unfolding is_empty
linked σ h e [] c i = elim i [ ]
linked σ h e (x ∷ xs) c i = rw ((Segment-linked σ e x x xs c.2 c.1 i).1, is_empty)

-- On a semaphore with no descriptor it returns NULL.
pub head_blocked-none :
    (k : Kernel) (sem : ℕ) (ds : List ℕ)
    → length ds ≤ max_proc
    → IsActive k ds
    → seek k sem ds ≡ none
    → head_blocked sem k ≡ done none k
unfolding head_blocked
head_blocked-none k sem ds l a s = rw (find_semd-seek k sem ds l a, s)

-- On one with a descriptor it reads the first process of the queue.
pub head_blocked-cons :
    (k : Kernel) (sem d p : ℕ) (ps ds : List ℕ)
    → length ds ≤ max_proc
    → IsActive k ds
    → seek k sem ds ≡ some d
    → IsQueue k (s_procq d) (p ∷ ps)
    → head_blocked sem k ≡ done (some p) k
unfolding head_blocked
head_blocked-cons k sem d p ps ds l a s c = rw (
  find_semd-seek k sem ds l a,
  s,
  linked k.links aslh (s_link d) (map s_link ds) a (In-map s_link d ds (seek-In k sem d ds s)),
  head_proc_q-cons k (s_procq d) p ps c,
)

-- The search depends on the semaphores of the descriptors only.
pub seek-agree :
    (k k' : Kernel) (sem : ℕ) (ds : List ℕ)
    → k'.sem_add ≡ k.sem_add
    → seek k' sem ds ≡ seek k sem ds
unfolding seek
seek-agree k k' sem [] e = refl
seek-agree k k' sem (d ∷ ds) e = rw (e, seek-agree k k' sem ds e)

-- Without its descriptor, a semaphore is not found any more.
pub seek-without :
    (k : Kernel) (sem d : ℕ) (ds : List ℕ)
    → Ascending k ds
    → seek k sem ds ≡ some d
    → seek k sem (without d ds) ≡ none
unfolding seek without
seek-without k sem d [] a s = refl
seek-without k sem d (x ∷ xs) a s = elim (ℕ_discrete (k.sem_add x) sem) [
  | yes e ↦
      let above : All (λ y. sem < k.sem_add y) xs = rw e at a.0 in
      ground (arith, seek-above k sem xs above)
  | no n ↦ ground (arith, seek_sound k sem d xs, seek-without k sem d xs a.1)
]

pub Ascending-agree :
    (k k' : Kernel) (ds : List ℕ) → k'.sem_add ≡ k.sem_add → Ascending k ds → Ascending k' ds
Ascending-agree k k' [] e a = tt
Ascending-agree k k' (d ∷ ds) e a = (rw e a.0, Ascending-agree k k' ds e a.1)
