-- ===== src/Nucleus/Signal.antt =====
-- A V keeps the nucleus in order.
use jae_so.Common.{
  ℕ, zero, suc, ◌≤◌, ◌<◌, ◌≡◌, refl, sym, ap, ◌∙◌, inl, inr, none, some, Option, List, [], ◌∷◌,
  arith, length, In, Bool-cases, false, ltb, ==_refl,
}
use jae_so.Common.Int.{ℤ, pos}
use jae_so.Kernel.Arch.{Arch}
use jae_so.Kernel.Machine.{Kernel, max_proc, set_word}
use jae_so.Kernel.Cmd.{done, Returns}
use jae_so.Kernel.Rules.{Returns-and_then}
use jae_so.Asl.Find.{seek}
use jae_so.Asl.Remove.{seek-In}
use jae_so.Asl.Head.{head_blocked-none, head_blocked-cons, seek-agree}
use jae_so.Syscalls.Semop.{semop, wake_loop, unsigned32, add_int}
use jae_so.Syscalls.Wake.{CanWake, woken, left, wake_loop-Awake}
use jae_so.Syscalls.Waiters.{known_after}
use jae_so.Nucleus.Room.{queue_le}
use jae_so.Nucleus.{View, IsNucleus, IsNucleus-agree, Place, blocked}
use jae_so.Nucleus.Wake.{woken_view, woken-IsNucleus}

-- What the search and the queue say of a semaphore: `ps` are blocked, at `d` if there are any.
abbrev pub BlockedAt : View → Kernel → ℕ → ℕ → List ℕ → Type 0
BlockedAt v k sem d [] = seek k sem v.active ≡ none
BlockedAt v k sem d (p ∷ ps) = (seek k sem v.active ≡ some d) × (v.queue d ≡ p ∷ ps)

-- Every semaphore is such.
pub who :
    (v : View) (k : Kernel) (sem : ℕ)
    → IsNucleus v k
    → (d : ℕ) × (ps : List ℕ) × BlockedAt v k sem d ps
who v k sem n = go (seek k sem v.active) refl
  where
    at :
        (d : ℕ)
        → seek k sem v.active ≡ some d
        → (l : List ℕ) → v.queue d ≡ l
        → (d : ℕ) × (ps : List ℕ) × BlockedAt v k sem d ps
    at d e [] q = absurd (n.busy d (seek-In k sem d v.active e) q)
    at d e (p ∷ ps) q = (d, p ∷ ps, (e, q))

    go : (o : Option ℕ) → seek k sem v.active ≡ o → (d : ℕ) × (ps : List ℕ) × BlockedAt v k sem d ps
    go none e = (0, [], e)
    go (some d) e = at d e (v.queue d) refl

-- The kernel `k'` is in order, runs the process that `k` ran, and counts as many that wait for the
-- clock.
abbrev pub Ordered : Kernel → Kernel → Type 0
Ordered k k' =
    (v : View) × IsNucleus v k'
    × (k'.current_process ≡ k.current_process)
    × (k'.pseudo_clock_blk ≡ k.pseudo_clock_blk)

pub few : (v : View) (k : Kernel) → IsNucleus v k → length v.active ≤ max_proc
few v k n = omega (arith, n.total)

module _ (arch : Arch) (sem : ℕ) where
  can_wake :
      (v : View) (k : Kernel) (free : ℤ) (d p : ℕ) (ps : List ℕ)
      → IsNucleus v k
      → seek k sem v.active ≡ some d
      → v.queue d ≡ p ∷ ps
      → ltb (unsigned32 free) (k.pcb p).res_requested ≡ false
      → CanWake k sem free d p ps v.active v.semds v.ready_list
  can_wake v k free d p ps n s q e =
      let here : In d v.active = seek-In k sem d v.active s in
      record {
        blocked = record {
          few = few v k n;
          active = n.active;
          known = s;
          queue = rw q at (n.queue d here);
          free = n.semds;
          apart = n.apart;
        };
        ascending = n.ascending;
        ready = n.ready;
        apart = λ r x i j w.
            let z : Place.ready ≡ blocked d =
              sym (n.at_ready r i) ∙ ap v.place w ∙ n.at_queue d x here (rw q j) in
            cc;
        waits = n.waits d p here (rw q (inl refl));
        enough = e;
      }

  -- The first who waits, after a round.
  blocked_after :
      (v : View) (k : Kernel) (d p : ℕ) (ps : List ℕ) (k' : Kernel)
      → IsNucleus v k
      → seek k sem v.active ≡ some d
      → k'.sem_add ≡ k.sem_add
      → BlockedAt (woken_view d p ps v) k' sem d ps
  blocked_after v k d p [] k' n s e =
      seek-agree k k' sem _ e ∙ known_after k sem d [] v.active n.ascending s
  blocked_after v k d p (x ∷ xs) k' n s e = (seek-agree k k' sem _ e ∙ s, rw (==_refl d))

  wake_loop-IsNucleus :
      (fuel : ℕ) (v : View) (k : Kernel) (free : ℤ) (d : ℕ) (ps : List ℕ)
      → length ps < fuel
      → IsNucleus v k
      → BlockedAt v k sem d ps
      → Returns (λ _ k'. Ordered k k') (wake_loop arch fuel sem free k)
  wake_loop-IsNucleus zero v k free d ps l n b = absurd (omega arith)
  wake_loop-IsNucleus (suc fuel) v k free d [] l n b =
      unfold wake_loop in
      rw (head_blocked-none k sem v.active (few v k n) n.active b) (v, n, refl, refl)
  wake_loop-IsNucleus (suc fuel) v k free d (p ∷ ps) l n b =
      let here : In d v.active = seek-In k sem d v.active b.0 in
      let h =
        head_blocked-cons k sem d p ps v.active (few v k n) n.active b.0
          (rw b.1 at (n.queue d here)) in
      elim (Bool-cases (ltb (unsigned32 free) (k.pcb p).res_requested)) [
        | inl e ↦ unfold wake_loop in rw (h, e) (rw h (v, n, refl, refl))
        | inr e ↦
            let c = can_wake v k free d p ps n b.0 b.1 e in
            let s = wake_loop-Awake arch k sem free d p ps v.active v.semds v.ready_list fuel c in
            let n' = woken-IsNucleus arch v k d p ps s.0 n here b.1 s.2 in
            rw s.1 (
              wake_loop-IsNucleus fuel (woken_view d p ps v) (woken arch d p k s.0)
                (left free (k.pcb p).res_requested) d ps (omega arith) n'
                (blocked_after v k d p ps (woken arch d p k s.0) n b.0 refl))
      ]

  -- The processes that wait are few.
  few_waiting :
      (v : View) (k : Kernel) (d : ℕ) (ps : List ℕ)
      → IsNucleus v k
      → BlockedAt v k sem d ps
      → length ps < 22
  few_waiting v k d [] n b = omega arith
  few_waiting v k d (p ∷ ps) n b =
      let l : length (p ∷ ps) ≤ max_proc =
        rw b.1 at (queue_le n d (seek-In k sem d v.active b.0)) in
      omega arith

  pub semop_v-IsNucleus :
      (m : ℕ) (v : View) (k : Kernel)
      → IsNucleus v k
      → Returns (λ _ k'. Ordered k k') (semop arch sem (pos (suc m)) k)
  unfolding semop
  semop_v-IsNucleus m v k n =
      let (d, ps, b) = who v k sem n in
      Returns-and_then (λ _ k'. Ordered k k') (λ _ k'. Ordered k k')
        (wake_loop arch 22 sem (add_int (pos (suc m)) (k.word sem)) k)
        (λ free k'. done tt (set_word sem free k'))
        (wake_loop-IsNucleus 22 v k (add_int (pos (suc m)) (k.word sem)) d ps
          (few_waiting v k d ps n b) n b)
        λ free k' (w, n', e, b). (
          w,
          IsNucleus-agree w k' (set_word sem free k') refl refl (λ x. refl) (λ x. refl)
              n'.at_current refl n',
          e,
          b,
        )
