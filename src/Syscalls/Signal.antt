-- ===== src/Syscalls/Signal.antt =====
-- A V on a semaphore wakes processes in the order in which they blocked, as long as it has enough
-- for the next.
use mathlib.Core.List.{append-nil, append_assoc}
use jae_so.Common.Without.{In-append}
use jae_so.Common.{
  ℕ, zero, suc, ◌<◌, ◌≤◌, ◌≡◌, ◌≢◌, refl, sym, ap, ◌∙◌, inl, inr, List, [], ◌∷◌, ◌++◌, arith,
  length, In, Fresh, Bool-cases, true, false, ltb, ne→==,
}
use jae_so.Common.Int.{ℤ, pos}
use jae_so.Memory.{p_list, Links}
use jae_so.Clist.Ring.{ne_of_Fresh}
use jae_so.Kernel.Arch.{Arch}
use jae_so.Kernel.Machine.{Kernel, max_proc, set_word}
use jae_so.Kernel.Cmd.{done}
use jae_so.Asl.Head.{Ascending-agree, head_blocked-none, head_blocked-cons, seek-agree}
use jae_so.Syscalls.Semop.{semop, wake_loop, unsigned32, add_int}
use jae_so.Syscalls.Wake.{CanWake, Awake, woken, left, wake_loop-Awake}
use jae_so.Syscalls.Waiters.{
  Waiters, served, unserved, remaining, few_after, Ascending-after, known_after, apart_after,
}

-- What a V leaves alone, when it wakes `ps`.
pub record Kept (k k' : Kernel) (ps : List ℕ) : Type 0 where
  pub words : k'.word ≡ k.word
  pub semaphores : k'.sem_add ≡ k.sem_add
  pub current : k'.current_process ≡ k.current_process
  pub processes : k'.process_count ≡ k.process_count
  pub clock_blk : k'.pseudo_clock_blk ≡ k.pseudo_clock_blk
  pub blocks : (x : ℕ) → Fresh x ps → k'.pcb x ≡ k.pcb x

Kept-self : (k : Kernel) → Kept k k []
Kept-self k = record {
  words = refl;
  semaphores = refl;
  current = refl;
  processes = refl;
  clock_blk = refl;
  blocks = λ x f. refl;
}

module _ (arch : Arch) (req : ℕ → ℕ) (sem d : ℕ) where
  -- The first of the processes can be woken.
  pub can_wake :
      (k : Kernel) (free : ℤ) (p : ℕ) (ps ds fs rs : List ℕ)
      → Waiters req k sem d (p ∷ ps) ds fs rs
      → ltb (unsigned32 free) (req p) ≡ false
      → CanWake k sem free d p ps ds fs rs
  can_wake k free p ps ds fs rs w e = record {
    blocked = record {
      few = w.few;
      active = w.active;
      known = w.known;
      queue = w.queue;
      free = w.free;
      apart = w.apart;
    };
    ascending = w.ascending;
    ready = w.ready;
    apart = w.not_ready;
    waits = w.waits p (inl refl);
    enough = rw (w.asks p (inl refl)) e;
  }

  -- After it, the others still wait.
  pub woken-Waiters :
      (k : Kernel) (p : ℕ) (ps ds fs rs : List ℕ) (σ : Links)
      → Waiters req k sem d (p ∷ ps) ds fs rs
      → Awake k d p ps ds fs rs σ
      → (ds' fs' : List ℕ) × Waiters req (woken arch d p k σ) sem d ps ds' fs' (rs ++ p ∷ [])
  woken-Waiters k p ps ds fs rs σ w a =
      let other : (x : ℕ) → In x ps → x ≢ p =
        λ x i e. ne_of_Fresh (p_list p) p_list x ps w.queue.4.0 i (ap p_list e) in
      let k' : Kernel = woken arch d p k σ in
      (
        _,
        _,
        record {
          few = few_after k sem d ps ds w.few;
          active = a.active;
          ascending = Ascending-agree k k' _ refl (Ascending-after k sem d ps ds w.ascending);
          known = seek-agree k k' sem _ refl ∙ known_after k sem d ps ds w.ascending w.known;
          queue = a.queue;
          free = a.free;
          apart = apart_after k sem d ps ds fs w.active w.apart;
          ready = a.ready;
          not_ready = λ r x i j. elim (In-append r rs p i) [
            | inl l ↦ w.not_ready r x l (inr j)
            | inr e ↦ λ q. other x j (sym q ∙ e)
          ];
          waits = λ x i. rw (ne→== x p (other x i)) (w.waits x (inr i));
          asks = λ x i. rw (ne→== x p (other x i)) (w.asks x (inr i));
        },
      )

  woken-Kept :
      (k k' : Kernel) (p : ℕ) (ps : List ℕ) (σ : Links)
      → Kept (woken arch d p k σ) k' ps
      → Kept k k' (p ∷ ps)
  woken-Kept k k' p ps σ h = record {
    words = h.words;
    semaphores = h.semaphores;
    current = h.current;
    processes = h.processes;
    clock_blk = h.clock_blk;
    blocks = λ x f. h.blocks x f.1 ∙ rw (ne→== x p f.0);
  }

  -- The loop ends when no process waits, or the first asks for too much.
  pub round_none :
      (fuel : ℕ) (k : Kernel) (free : ℤ) (ds fs rs : List ℕ)
      → Waiters req k sem d [] ds fs rs
      → wake_loop arch (suc fuel) sem free k ≡ done free k
  unfolding wake_loop
  round_none fuel k free ds fs rs w = rw (head_blocked-none k sem ds w.few w.active w.known)

  pub round_short :
      (fuel : ℕ) (k : Kernel) (free : ℤ) (p : ℕ) (ps ds fs rs : List ℕ)
      → Waiters req k sem d (p ∷ ps) ds fs rs
      → ltb (unsigned32 free) (req p) ≡ true
      → wake_loop arch (suc fuel) sem free k ≡ done free k
  unfolding wake_loop
  round_short fuel k free p ps ds fs rs w e =
      let h = head_blocked-cons k sem d p ps ds w.few w.active w.known w.queue in
      rw (h, w.asks p (inl refl), e) (rw h)

  -- The loop ends within one round more than there are blocked processes.
  wake_loop-Waiters :
      (fuel : ℕ) (k : Kernel) (free : ℤ) (ps ds fs rs : List ℕ)
      → length ps < fuel
      → Waiters req k sem d ps ds fs rs
      → (k' : Kernel) × (wake_loop arch fuel sem free k ≡ done (remaining req free ps) k')
        × Kept k k' (served req free ps)
        × ((ds' fs' : List ℕ) × Waiters req k' sem d
              (unserved req free ps)
              ds'
              fs'
              (rs ++ served req free ps))
  unfolding served unserved remaining
  wake_loop-Waiters zero k free ps ds fs rs l w = absurd (omega arith)
  wake_loop-Waiters (suc fuel) k free [] ds fs rs l w =
      (k, round_none fuel k free ds fs rs w, Kept-self k, (ds, fs, rw (append-nil rs) w))
  wake_loop-Waiters (suc fuel) k free (p ∷ ps) ds fs rs l w =
      elim (Bool-cases (ltb (unsigned32 free) (req p))) [
        | inl e ↦
            rw (e, append-nil rs)
              (k, round_short fuel k free p ps ds fs rs w e, Kept-self k, (ds, fs, w))
        | inr e ↦
            let s =
              wake_loop-Awake arch k sem free d p ps ds fs rs fuel
                (can_wake k free p ps ds fs rs w e) in
            let v = woken-Waiters k p ps ds fs rs s.0 w s.2 in
            let r =
              wake_loop-Waiters fuel (woken arch d p k s.0) (left free (req p)) ps v.0 v.1
                (rs ++ p ∷ []) (omega arith) v.2 in
            rw e (
              r.0,
              s.1
                  ∙ ap (λ n. wake_loop arch fuel sem (left free n) (woken arch d p k s.0))
                      (w.asks p (inl refl))
                  ∙ r.1,
              woken-Kept k r.0 p (served req (left free (req p)) ps) s.0 r.2,
              (
                r.3.0,
                r.3.1,
                rw (← append_assoc rs (p ∷ []) (served req (left free (req p)) ps)) r.3.2,
              ),
            )
      ]

  -- The whole of it, with the comparison of the resources as words.
  pub semop-served :
      (n : ℕ) (k : Kernel) (ps ds fs rs : List ℕ)
      → length ps ≤ max_proc
      → Waiters req k sem d ps ds fs rs
      → (k' : Kernel) × (semop arch sem (pos (suc n)) k
          ≡ done tt (set_word sem (remaining req (add_int (pos (suc n)) (k.word sem)) ps) k'))
        × Kept k k' (served req (add_int (pos (suc n)) (k.word sem)) ps)
        × ((ds' fs' : List ℕ) × Waiters req k' sem d
              (unserved req (add_int (pos (suc n)) (k.word sem)) ps)
              ds'
              fs'
              (rs ++ served req (add_int (pos (suc n)) (k.word sem)) ps))
  unfolding semop
  semop-served n k ps ds fs rs l w =
      let r =
        wake_loop-Waiters 22 k (add_int (pos (suc n)) (k.word sem)) ps ds fs rs (omega arith) w in
      (r.0, rw r.1, r.2, r.3)
