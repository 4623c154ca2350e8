-- ===== src/Syscalls/Waiters.antt =====
-- The processes that are blocked on a semaphore, and which of them a V wakes.
use jae_so.Common.Without.{In-append, length-without, without, All-without}
use jae_so.Common.{
  ℕ, ◌<◌, ◌≤◌, ◌≡◌, ◌≢◌, ◌∙◌, inl, inr, none, some, Option, List, [], ◌∷◌, map, arith, length, In,
  if◌then◌else◌, ltb,
}
use jae_so.Common.Int.{ℤ}
use jae_so.Memory.{s_link, s_procq, aslh, semd_free, ready_queue}
use jae_so.Clist.Ring.{IsClist}
use jae_so.Kernel.Machine.{Kernel, max_proc}
use jae_so.Pcb.Queue.{IsQueue}
use jae_so.Asl.Find.{Ascending, IsActive, seek}
use jae_so.Asl.Release.{Distinct-In, Distinct-of-IsClist}
use jae_so.Asl.Remove.{active_after, free_after}
use jae_so.Asl.Head.{seek-without}
use jae_so.Syscalls.Semop.{unsigned32}
use jae_so.Syscalls.Wake.{left}

-- Of the processes `ps`, with their requests: those that are woken, those that are not, and the
-- resources that remain.
module _ (req : ℕ → ℕ) where
  unfoldable pub served : ℤ → List ℕ → List ℕ
  served free [] = []
  served free (p ∷ ps) =
      if ltb (unsigned32 free) (req p) then [] else p ∷ served (left free (req p)) ps

  unfoldable pub unserved : ℤ → List ℕ → List ℕ
  unserved free [] = []
  unserved free (p ∷ ps) =
      if ltb (unsigned32 free) (req p) then p ∷ ps else unserved (left free (req p)) ps

  unfoldable pub remaining : ℤ → List ℕ → ℤ
  remaining free [] = free
  remaining free (p ∷ ps) =
      if ltb (unsigned32 free) (req p) then free else remaining (left free (req p)) ps

-- The descriptor of a semaphore on which `ps` are blocked: none if there are none.
abbrev pub descriptor : ℕ → List ℕ → Option ℕ
descriptor d [] = none
descriptor d (p ∷ ps) = some d

-- The processes `ps` are blocked on the semaphore at `sem`, in this order, with the requests
-- `req`; `rs` are ready.
pub record Waiters (req : ℕ → ℕ) (k : Kernel) (sem d : ℕ) (ps ds fs rs : List ℕ) : Type 0 where
  pub few : length ds ≤ max_proc
  pub active : IsActive k ds
  pub ascending : Ascending k ds
  pub known : seek k sem ds ≡ descriptor d ps
  pub queue : IsQueue k (s_procq d) ps
  pub free : IsClist k.links semd_free (map s_link fs)
  pub apart : (x y : ℕ) → In x ds → In y fs → x ≢ y
  pub ready : IsQueue k ready_queue rs
  pub not_ready : (r x : ℕ) → In r rs → In x ps → r ≢ x
  pub waits : (x : ℕ) → In x ps → (k.pcb x).p_cursem ≡ some d
  pub asks : (x : ℕ) → In x ps → (k.pcb x).res_requested ≡ req x

Ascending-without : (k : Kernel) (d : ℕ) (ds : List ℕ) → Ascending k ds → Ascending k (without d ds)
unfolding without
Ascending-without k d [] a = tt
Ascending-without k d (x ∷ xs) a =
    ground
      (arith, All-without (λ e. k.sem_add x < k.sem_add e) d xs a.0, Ascending-without k d xs a.1)

module _ (k : Kernel) (sem d : ℕ) where
  -- The descriptors, after a round.
  pub few_after : (ps ds : List ℕ) → length ds ≤ max_proc → length (active_after d ps ds) ≤ max_proc
  few_after [] ds l = omega (arith, length-without d ds)
  few_after (p ∷ ps) ds l = l

  pub Ascending-after : (ps ds : List ℕ) → Ascending k ds → Ascending k (active_after d ps ds)
  Ascending-after [] ds a = Ascending-without k d ds a
  Ascending-after (p ∷ ps) ds a = a

  pub known_after :
      (ps ds : List ℕ)
      → Ascending k ds
      → seek k sem ds ≡ some d
      → seek k sem (active_after d ps ds) ≡ descriptor d ps
  known_after [] ds a s = seek-without k sem d ds a s
  known_after (p ∷ ps) ds a s = s

  pub apart_after :
      (ps ds fs : List ℕ)
      → IsActive k ds
      → ((x y : ℕ) → In x ds → In y fs → x ≢ y)
      → (x y : ℕ) → In x (active_after d ps ds)
      → In y (free_after d ps fs)
      → x ≢ y
  apart_after [] ds fs c a x y i j =
      let r = Distinct-In d x ds (Distinct-of-IsClist k.links aslh (map s_link ds) c) i in
      elim (In-append y fs d j) [ inl l ↦ a x y r.0 l | inr e ↦ λ q. r.1 (q ∙ e) ]
  apart_after (p ∷ ps) ds fs c a x y i j = a x y i j
