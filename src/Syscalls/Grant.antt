-- ===== src/Syscalls/Grant.antt =====
-- A V on a semaphore: the processes that its resources cover, counted as natural numbers.
use jae_so.Common.{
  ℕ, suc, ◌+◌, ◌-◌, ◌%◌, ◌^◌, ◌<◌, ◌≤◌, ◌≡◌, refl, sym, ◌∙◌, subst, inl, inr, List, [], ◌∷◌, ◌++◌,
  length, arith, ltb, if◌then◌else◌, true, false, Bool-cases,
}
use jae_so.Common.Int.{ℤ, pos, negsuc, ◌+ℤ◌}
use jae_so.Memory.{ready_queue}
use jae_so.Kernel.Arch.{Arch}
use jae_so.Kernel.Machine.{Kernel, max_proc, set_word}
use jae_so.Kernel.Cmd.{done}
use jae_so.Pcb.Queue.{IsQueue}
use jae_so.Syscalls.Semop.{semop, unsigned32, add_int}
use jae_so.Syscalls.Free.{IsInt, add_int-IsInt}
use jae_so.Syscalls.Wake.{left}
use jae_so.Syscalls.Waiters.{Waiters, served, unserved, remaining}
use jae_so.Syscalls.Signal.{Kept, semop-served}

-- Of the processes `ps`, those that `free` resources cover, in order and up to the first that asks for
-- more than what is left; the others; and what is left.
module _ (req : ℕ → ℕ) where
  unfoldable pub granted : ℕ → List ℕ → List ℕ
  granted free [] = []
  granted free (p ∷ ps) = if ltb free (req p) then [] else p ∷ granted (free - req p) ps

  unfoldable pub refused : ℕ → List ℕ → List ℕ
  refused free [] = []
  refused free (p ∷ ps) = if ltb free (req p) then p ∷ ps else refused (free - req p) ps

  unfoldable pub surplus : ℕ → List ℕ → ℕ
  surplus free [] = free
  surplus free (p ∷ ps) = if ltb free (req p) then free else surplus (free - req p) ps

  word_of : (t : ℕ) → t < 2 ^ 31 → unsigned32 (pos t) ≡ t
  word_of t l = omega arith

  left_of :
      (t r : ℕ)
      → t < 2 ^ 31
      → ltb t r ≡ false
      → ((t + 2 ^ 32 - r) % 2 ^ 32 ≡ t - r) × (ltb (t - r) (2 ^ 31) ≡ true)
  left_of t r l e = let h : r ≤ t = ground arith in (omega arith, ground arith)

  grants :
      (t : ℕ) (ps : List ℕ)
      → t < 2 ^ 31
      → (served req (pos t) ps ≡ granted t ps)
        × (unserved req (pos t) ps ≡ refused t ps)
        × (remaining req (pos t) ps ≡ pos (surplus t ps))
  unfolding served unserved remaining granted refused surplus
  grants t [] l = (refl, refl, refl)
  grants t (p ∷ ps) l = elim (Bool-cases (ltb t (req p))) [
    | inl e ↦ let u = word_of t l in rw (u, e) (refl, refl, refl)
    | inr e ↦
        let u = word_of t l in
        let m = left_of t (req p) l e in
        let (a, b, c) = grants (t - req p) ps (omega arith) in
        rw (u, e, m.0, m.1, a, b, c) (refl, refl, refl)
  ]

module _ (arch : Arch) (req : ℕ → ℕ) (sem d : ℕ) where
  -- With at most MAXPROC processes blocked on the semaphore, each with its semaphore field right,
  -- and the active list in ascending order, the descriptors, the queue and the ready queue well
  -- formed and apart, and a sum of the value and a positive weight that is not negative and fits
  -- an int, semop with that weight ends: the processes leave the queue for the end of the ready
  -- queue in the order in which they blocked, each with its request taken off the sum, as natural
  -- numbers, up to the first whose request is more than what is left; the others stay blocked, all
  -- lists are well formed and apart again, and what is left is the new value. But for that value,
  -- no other word, the current process, the count of processes, that of those that wait for the
  -- clock and the blocks of those not woken are as they were.
  pub semop-Granted :
      (n t : ℕ) (k : Kernel) (ps ds fs rs : List ℕ)
      → length ps ≤ max_proc
      → Waiters req k sem d ps ds fs rs
      → pos (suc n) +ℤ k.word sem ≡ pos t
      → t < 2 ^ 31
      → (k' : Kernel) × (semop arch sem (pos (suc n)) k
          ≡ done tt (set_word sem (pos (surplus req t ps)) k'))
        × Kept k k' (granted req t ps)
        × ((ds' fs' : List ℕ) × Waiters req k' sem d
              (refused req t ps)
              ds'
              fs'
              (rs ++ granted req t ps))
  semop-Granted n t k ps ds fs rs l w e b =
      let s : add_int (pos (suc n)) (k.word sem) ≡ pos t =
        add_int-IsInt (pos (suc n)) (k.word sem) (subst IsInt (sym e) b) ∙ e in
      let g = grants req t ps b in
      rw (sym g.0, sym g.1, sym g.2, sym s) (semop-served arch req sem d n k ps ds fs rs l w)

  -- With processes blocked on the semaphore as for semop-Granted, a sum of the value and a
  -- positive weight that is negative and fits an int, and a first process that asks for less than
  -- 2^31, semop with that weight ends and the first process is all the same at the end of the
  -- ready queue, with those that follow it out of the queue of the semaphore, if any.
  pub semop-Overdrawn :
      (n t p : ℕ) (k : Kernel) (ps ds fs rs : List ℕ)
      → suc (length ps) ≤ max_proc
      → Waiters req k sem d (p ∷ ps) ds fs rs
      → pos (suc n) +ℤ k.word sem ≡ negsuc t
      → t < 2 ^ 31
      → req p < 2 ^ 31
      → (k' : Kernel) × (xs : List ℕ) × (v : ℤ) × (semop arch sem (pos (suc n)) k
          ≡ done tt (set_word sem v k'))
        × IsQueue k' ready_queue (rs ++ p ∷ xs)
  unfolding served
  semop-Overdrawn n t p k ps ds fs rs l w e b c =
      let s : add_int (pos (suc n)) (k.word sem) ≡ negsuc t =
        add_int-IsInt (pos (suc n)) (k.word sem) (subst IsInt (sym e) b) ∙ e in
      let u : ltb (unsigned32 (negsuc t)) (req p) ≡ false = ground arith in
      let r = semop-served arch req sem d n k (p ∷ ps) ds fs rs (omega arith) w in
      (
        r.0,
        served req (left (negsuc t) (req p)) ps,
        remaining req (add_int (pos (suc n)) (k.word sem)) (p ∷ ps),
        r.1,
        (let q = r.3.2.ready in rw (s, u) at q),
      )
