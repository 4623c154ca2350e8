-- ===== src/Asl/Find.antt =====
-- The search for a semaphore in the active semaphore list.
use jae_so.Common.{
  ℕ, ◌≤◌, ◌<◌, ◌≡◌, refl, ◌∙◌, ◌≢◌, ◌⊎◌, inl, inr, true, false, Option, none, some, List, [], ◌∷◌,
  map, arith, length, length-map, last, Distinct, if◌then◌else◌, ◌==◌, ltb, All, if_neg, In, All-In,
}
use jae_so.Memory.{Loc, Ptr, s_link, aslh, Ptr-discrete}
use jae_so.Clist.{scanned, ok, foreach_all}
use jae_so.Clist.Ring.{IsClist, ne-last}
use jae_so.Clist.Search.{locate, locate-first, locate-next, locate-end, foreach-locate, foreach-nil}
use jae_so.Kernel.Machine.{Kernel, max_proc}
use jae_so.Kernel.Cmd.{done}
use jae_so.Asl.{find_body, found_semd, find_semd}

-- The descriptors of the active semaphores, in the order of the list.
abbrev pub IsActive : Kernel → List ℕ → Type 0
IsActive k ds = IsClist k.links aslh (map s_link ds)

-- The search on the list: it stops at the first semaphore that is not below the one wanted.
unfoldable pub seek : Kernel → ℕ → List ℕ → Option ℕ
seek k sem [] = none
seek k sem (d ∷ ds) =
    if k.sem_add d == sem then some d else if ltb sem (k.sem_add d) then none else seek k sem ds

module _ (k : Kernel) (sem : ℕ) where
  -- The three ways out of a round.
  body-hit : (d : ℕ) → (k.sem_add d == sem) ≡ true → find_body sem k (s_link d) ≡ some (ok true)
  unfolding find_body
  body-hit d e = rw e

  body-past :
      (d : ℕ)
      → (k.sem_add d == sem) ≡ false
      → ltb sem (k.sem_add d) ≡ true
      → find_body sem k (s_link d) ≡ some (ok false)
  unfolding find_body
  body-past d e l = rw (e, l)

  body-next :
      (d : ℕ)
      → (k.sem_add d == sem) ≡ false
      → ltb sem (k.sem_add d) ≡ false
      → find_body sem k (s_link d) ≡ none
  unfolding find_body
  body-next d e l = rw (e, l)

  found-hit :
      (tmp : Ptr) (d : ℕ)
      → tmp ≢ k.links aslh
      → found_semd (scanned (some (ok true)) (some (s_link d)) tmp) k ≡ done (some d) k
  unfolding found_semd foreach_all
  found-hit tmp d n = rw (if_neg (Ptr-discrete tmp (k.links aslh)) n)

  found-past : (s tmp : Ptr) → found_semd (scanned (some (ok false)) s tmp) k ≡ done none k
  unfolding found_semd
  found-past s tmp = refl

  found-end : (s tmp : Ptr) → found_semd (scanned none s tmp) k ≡ done none k
  unfolding found_semd
  found-end s tmp = refl

module _ (k : Kernel) (sem : ℕ) (first : Loc) where
  abbrev Outcome : Ptr → ℕ → List ℕ → Type 0
  Outcome tmp d ds =
      found_semd (locate (find_body sem k) first tmp (s_link d) (map s_link ds)) k
      ≡ done (seek k sem (d ∷ ds)) k

  -- A round that ends the search.
  round_stops :
      (tmp : Ptr) (d : ℕ) (ds : List ℕ)
      → tmp ≢ k.links aslh
      → ((k.sem_add d == sem) ≡ true) ⊎ (ltb sem (k.sem_add d) ≡ true)
      → Outcome tmp d ds
  unfolding seek
  round_stops tmp d ds n (inl e) =
      rw
        (
          locate-first (find_body sem k) first tmp (s_link d) (map s_link ds) (body-hit k sem d e),
          e,
        )
        (found-hit k sem tmp d n)
  round_stops tmp d ds n (inr l) =
      let e : (k.sem_add d == sem) ≡ false = ground arith in
      rw
        (
          locate-first (find_body sem k) first tmp (s_link d) (map s_link ds)
              (body-past k sem d e l),
          e,
          l,
        )
        (found-past k sem (some (s_link d)) tmp)

  -- Whether a round goes on.
  round_cases :
      (d : ℕ)
      → (((k.sem_add d == sem) ≡ true) ⊎ (ltb sem (k.sem_add d) ≡ true))
        ⊎ (((k.sem_add d == sem) ≡ false) × (ltb sem (k.sem_add d) ≡ false))
  round_cases d = ground arith

  found_semd-seek :
      (tmp : Ptr) (d : ℕ) (ds : List ℕ)
      → k.links aslh ≡ some (last (s_link d) (map s_link ds))
      → tmp ≢ some (last (s_link d) (map s_link ds))
      → Distinct (map s_link (d ∷ ds))
      → Outcome tmp d ds
  unfolding seek
  found_semd-seek tmp d [] a n u = elim (round_cases d) [
    | inl s ↦ round_stops tmp d [] (λ q. n (q ∙ a)) s
    | inr (e, l) ↦
        rw (locate-end (find_body sem k) first tmp (s_link d) (body-next k sem d e l), e, l)
          (found-end k sem (some first) (some (s_link d)))
  ]
  found_semd-seek tmp d (e ∷ es) a n u = elim (round_cases d) [
    | inl s ↦ round_stops tmp d (e ∷ es) (λ q. n (q ∙ a)) s
    | inr (q, l) ↦
        rw
          (
            locate-next (find_body sem k) first tmp (s_link d) (s_link e) (map s_link es)
                (body-next k sem d q l),
            q,
            l,
          )
          (found_semd-seek (some (s_link d)) e es a
            (λ r. ne-last (s_link d) (s_link e) (map s_link es) u.0 (ground arith)) u.1)
  ]

-- On a well-formed active list of at most MAXPROC descriptors, findSemd ends, returns what the
-- search of the list of descriptors finds, and changes nothing.
pub find_semd-seek :
    (k : Kernel) (sem : ℕ) (ds : List ℕ)
    → length ds ≤ max_proc
    → IsActive k ds
    → find_semd sem k ≡ done (seek k sem ds) k
unfolding find_semd seek
find_semd-seek k sem [] l c =
    rw (foreach-nil (find_body sem k) aslh k.links 22 c) (found-end k sem none none)
find_semd-seek k sem (d ∷ ds) l c =
    rw
      (foreach-locate (find_body sem k) aslh (s_link d) k.links 22 (map s_link ds)
        (omega (arith, length-map s_link ds)) c)
      (found_semd-seek k sem (s_link d) none d ds c.0 (λ q. cc) c.4)

-- Semaphores in strictly ascending order of their addresses.
abbrev pub Ascending : Kernel → List ℕ → Type 0
Ascending k [] = Unit
Ascending k (d ∷ ds) = All (λ e. k.sem_add d < k.sem_add e) ds × Ascending k ds

pub seek-above :
    (k : Kernel) (sem : ℕ) (ds : List ℕ) → All (λ e. sem < k.sem_add e) ds → seek k sem ds ≡ none
unfolding seek
seek-above k sem [] a = refl
seek-above k sem (d ∷ ds) a = ground arith

-- On a list of descriptors in strictly ascending order of their semaphores' addresses, the search
-- finds the descriptor of every semaphore that has one.
pub seek_complete :
    (k : Kernel) (sem : ℕ) (d : ℕ) (ds : List ℕ)
    → Ascending k ds
    → In d ds
    → k.sem_add d ≡ sem
    → seek k sem ds ≡ some d
unfolding seek
seek_complete k sem d [] s i e = elim i [ ]
seek_complete k sem d (x ∷ xs) s (inl q) e = rw (← q) (ground arith)
seek_complete k sem d (x ∷ xs) s (inr i) e =
    let below : k.sem_add x < k.sem_add d = All-In (λ e. k.sem_add x < k.sem_add e) d xs s.0 i in
    ground (arith, seek_complete k sem d xs s.1 i e)

-- What it finds is the descriptor of that semaphore.
pub seek_sound :
    (k : Kernel) (sem : ℕ) (d : ℕ) (ds : List ℕ) → seek k sem ds ≡ some d → k.sem_add d ≡ sem
unfolding seek
seek_sound k sem d [] e = cc
seek_sound k sem d (x ∷ xs) e = ground (arith, seek_sound k sem d xs)
