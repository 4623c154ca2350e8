-- ===== src/Interrupts/Tick.antt =====
-- The tick of the pseudo clock: the V operations of handleTimer, one for each process that waits.
use jae_so.Common.{
  sym, ℕ, zero, suc, ◌+◌, ◌*◌, ◌<◌, ◌≤◌, ◌≡◌, refl, ap, ◌∙◌, List, [], ◌∷◌, ◌++◌, length, arith,
  true, false, ltb, ◌^◌, ==_refl, subst, Bool, ◌==◌, ◌||◌,
}
use jae_so.Common.Int.{pos, pos_part, ◌+ℤ◌, ◌-ℤ◌}
use jae_so.Memory.{ready_queue}
use jae_so.Kernel.Arch.{Arch}
use jae_so.Kernel.Machine.{Kernel, max_proc, set_word, sub32, pseudo_clock}
use jae_so.Kernel.Cmd.{Returns, done}
use jae_so.Kernel.Rules.{Returns-weaken}
use jae_so.Pcb.Queue.{IsQueue}
use jae_so.Asl.Head.{seek-agree}
use jae_so.Syscalls.Semop.{semop, unsigned32, add_int}
use jae_so.Syscalls.Free.{IsFree, semop-stored, IsInt, add_int-IsInt}
use jae_so.Syscalls.Wake.{left}
use jae_so.Syscalls.Waiters.{Waiters, served, unserved, remaining}
use jae_so.Syscalls.Signal.{semop-served}
use jae_so.Accounting.{get_todlo}
use jae_so.Interrupts.{tick_loop, pseudo_tick}
use jae_so.Interrupts.Deliver.{one, Waiters-agree}

-- The sum of the numbers up to `n`.
unfoldable pub added : ℕ → ℕ
added zero = 0
added (suc n) = suc n + added n

+ℤ-pos : (a b : ℕ) → pos a +ℤ pos b ≡ pos (a + b)
unfolding ◌+ℤ◌
+ℤ-pos a b = ground arith

add_int-pos : (a b : ℕ) → a + b < 2 ^ 31 → add_int (pos a) (pos b) ≡ pos (a + b)
add_int-pos a b l = add_int-IsInt (pos a) (pos b) (subst IsInt (sym (+ℤ-pos a b)) l) ∙ +ℤ-pos a b

added_le : (n : ℕ) → n ≤ max_proc → added n ≤ max_proc * n
unfolding added
added_le zero l = omega arith
added_le (suc n) l = omega (arith, added_le n (omega arith))

-ℤ-one : (a : ℕ) → pos (suc a) -ℤ pos 1 ≡ pos a
unfolding ◌-ℤ◌
-ℤ-one a = ground arith

covers : (m : ℕ) → suc m < 2 ^ 31 → ltb (unsigned32 (pos (suc m))) 1 ≡ false
covers m l = ground arith

left-one : (m : ℕ) → suc m < 2 ^ 31 → left (pos (suc m)) 1 ≡ pos m
left-one m l = ground arith

-- With as many resources as there are processes that wait for one, all are woken.
all_served :
    (ps : List ℕ)
    → length ps < 2 ^ 31
    → (served one (pos (length ps)) ps ≡ ps)
      × (unserved one (pos (length ps)) ps ≡ [])
      × (remaining one (pos (length ps)) ps ≡ pos 0)
unfolding served unserved remaining
all_served [] l = (refl, refl, refl)
all_served (p ∷ ps) l =
    let c = covers (length ps) l in
    let e = left-one (length ps) l in
    let (a, b, d) = all_served ps (omega arith) in
    (rw (c, e, a) refl, rw (c, e, b) refl, rw (c, e, d) refl)

-- The pseudo clock's time is up.
abbrev pub expired : Kernel → Bool
expired k =
    let elapsed : ℕ = sub32 (k.clock k.clock_reads) k.last_update in
    (k.left_to_100 == elapsed) || ltb pseudo_clock (sub32 k.left_to_100 elapsed)

-- The processes `ps` are ready after those that were, and the value of the semaphore is `w`.
pub record Ticked (sem w : ℕ) (ps rs : List ℕ) (k' : Kernel) : Type 0 where
  pub ready : IsQueue k' ready_queue (rs ++ ps)
  pub value : k'.word sem ≡ pos w

module _ (arch : Arch) where
  -- The loop with no process that waits: each V adds to the semaphore.
  tick_loop-free :
      (fuel n w : ℕ) (k : Kernel) (ds : List ℕ)
      → n < fuel
      → w + added n < 2 ^ 31
      → IsFree k arch.pc_timer_addr ds
      → k.pseudo_clock_blk ≡ pos n
      → k.word arch.pc_timer_addr ≡ pos w
      → Returns
          (λ _ k'. (k'.word arch.pc_timer_addr ≡ pos (w + added n)) × (k'.links ≡ k.links))
          (tick_loop arch fuel k)
  unfolding tick_loop added
  tick_loop-free zero n w k ds l h f b e = absurd (omega arith)
  tick_loop-free (suc fuel) zero w k ds l h f b e =
      let z : w + 0 ≡ w = omega arith in rw (b, z) (e, refl)
  tick_loop-free (suc fuel) (suc n) w k ds l h f b e =
      let sem : ℕ = arch.pc_timer_addr in
      let k1 : Kernel = set_word sem (add_int (pos (suc n)) (k.word sem)) k in
      let k2 : Kernel = record k1 { pseudo_clock_blk = pos (suc n) -ℤ pos 1 } in
      let t : ltb 0 (suc n + 0) ≡ true = ground arith in
      let r =
        tick_loop-free fuel n (suc n + w) k2 ds (omega arith) (omega (arith, h))
          (record {
            few = f.few;
            active = f.active;
            absent = seek-agree k k2 sem ds refl ∙ f.absent;
          })
          (-ℤ-one n) (rw (==_refl sem, e) (add_int-pos (suc n) w (omega (arith, h)))) in
      let u : w + (suc n + added n) ≡ suc n + w + added n = omega arith in
      simp (b, t, semop-stored arch k sem ds f (pos (suc n)) tt, u) r

  -- The kernel after the first round, in which all processes have been woken.
  first_round :
      (k : Kernel) (d p : ℕ) (ps ds fs rs : List ℕ)
      → length (p ∷ ps) ≤ max_proc
      → Waiters one k arch.pc_timer_addr d (p ∷ ps) ds fs rs
      → k.word arch.pc_timer_addr ≡ pos 0
      → (k' : Kernel) × (semop arch arch.pc_timer_addr (pos (suc (length ps))) k
          ≡ done tt (set_word arch.pc_timer_addr (pos 0) k'))
        × (k'.pseudo_clock_blk ≡ k.pseudo_clock_blk)
        × ((ds' fs' : List ℕ) × Waiters one k' arch.pc_timer_addr d [] ds' fs' (rs ++ p ∷ ps))
  first_round k d p ps ds fs rs l w z =
      let sem : ℕ = arch.pc_timer_addr in
      let e : add_int (pos (suc (length ps))) (k.word sem) ≡ pos (length (p ∷ ps)) =
        ap (λ v. add_int (pos (suc (length ps))) v) z
        ∙ add_int-pos (suc (length ps)) 0 (omega (arith, l))
        ∙ ap pos (omega arith) in
      let (a, b, c) = all_served (p ∷ ps) (omega arith) in
      let r = semop-served arch one sem d (length ps) k (p ∷ ps) ds fs rs l w in
      (
        r.0,
        r.1 ∙ ap (λ v. done tt (set_word sem v r.0)) (ap (λ v. remaining one v (p ∷ ps)) e ∙ c),
        r.2.clock_blk,
        (
          r.3.0,
          r.3.1,
          subst (λ ys. Waiters one r.0 sem d ys r.3.0 r.3.1 (rs ++ p ∷ ps))
              (ap (λ v. unserved one v (p ∷ ps)) e ∙ b)
              (subst
                (λ ys.
                  Waiters one r.0 sem d
                    (unserved one (add_int (pos (suc (length ps))) (k.word sem)) (p ∷ ps)) r.3.0
                    r.3.1 (rs ++ ys))
                (ap (λ v. served one v (p ∷ ps)) e ∙ a) r.3.2),
        ),
      )

  tick_loop-Ticked :
      (fuel : ℕ) (k : Kernel) (d p : ℕ) (ps ds fs rs : List ℕ)
      → length ps < fuel
      → length (p ∷ ps) ≤ max_proc
      → Waiters one k arch.pc_timer_addr d (p ∷ ps) ds fs rs
      → k.word arch.pc_timer_addr ≡ pos 0
      → k.pseudo_clock_blk ≡ pos (suc (length ps))
      → Returns
          (λ _ k'. Ticked arch.pc_timer_addr (added (length ps)) (p ∷ ps) rs k')
          (tick_loop arch (suc fuel) k)
  unfolding tick_loop
  tick_loop-Ticked fuel k d p ps ds fs rs f l w z b =
      let sem : ℕ = arch.pc_timer_addr in
      let r = first_round k d p ps ds fs rs l w z in
      let k2 : Kernel = record (set_word sem (pos 0) r.0) {
        pseudo_clock_blk = r.0.pseudo_clock_blk -ℤ pos 1;
      } in
      let v : Waiters one r.0 sem d [] r.3.0 r.3.1 (rs ++ p ∷ ps) = r.3.2 in
      let t : ltb 0 (suc (length ps) + 0) ≡ true = ground arith in
      let h : k2.pseudo_clock_blk ≡ pos (length ps) =
        ap (λ y. y -ℤ pos 1) (r.2 ∙ b) ∙ -ℤ-one (length ps) in
      simp (b, t, r.1)
        (Returns-weaken
          (λ _ k'. (k'.word sem ≡ pos (0 + added (length ps))) × (k'.links ≡ k2.links))
          (λ _ k'. Ticked sem (added (length ps)) (p ∷ ps) rs k') (tick_loop arch fuel k2)
          (tick_loop-free fuel (length ps) 0 k2 r.3.0 f
            (omega (arith, l, added_le (length ps) (omega (arith, l))))
            (record {
              few = v.few;
              active = v.active;
              absent = seek-agree r.0 k2 sem r.3.0 refl ∙ v.known;
            })
            h (rw (==_refl sem) refl))
          λ _ k' (e, g). record { ready = rw g v.ready; value = e ∙ ap pos (omega arith) })

  -- When the pseudo clock's time is up, from one to MAXPROC processes wait at its semaphore, of
  -- value 0, each for one, with its semaphore field right, g_pseudoClockBlk counts them, the
  -- active list is in ascending order, and the descriptors, the queue and the ready queue are well
  -- formed and apart, the first test of handleTimer and its loop return: all of them are at the
  -- end of the ready queue, in order, and the value of the semaphore is the sum of the numbers
  -- below the count of those processes.
  pub pseudo_tick-Ticked :
      (k : Kernel) (d p : ℕ) (ps ds fs rs : List ℕ)
      → expired k ≡ true
      → length (p ∷ ps) ≤ max_proc
      → Waiters one k arch.pc_timer_addr d (p ∷ ps) ds fs rs
      → k.word arch.pc_timer_addr ≡ pos 0
      → k.pseudo_clock_blk ≡ pos (suc (length ps))
      → Returns
          (λ _ k'. Ticked arch.pc_timer_addr (added (length ps)) (p ∷ ps) rs k')
          (pseudo_tick arch k)
  unfolding pseudo_tick get_todlo
  pseudo_tick-Ticked k d p ps ds fs rs x l w z b =
      let k1 : Kernel = record k { clock_reads = k.clock_reads + 1; left_to_100 = pseudo_clock } in
      let u : pos_part k.pseudo_clock_blk ≡ suc (length ps) = ap pos_part b in
      rw x (
        tick_loop-Ticked (pos_part k.pseudo_clock_blk) k1 d p ps ds fs rs (omega (arith, u)) l
          (Waiters-agree k k1 arch.pc_timer_addr d (p ∷ ps) ds fs rs refl refl (λ y i. refl) w) z b)
