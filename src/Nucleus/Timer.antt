-- ===== src/Nucleus/Timer.antt =====
-- The timer interrupt keeps the nucleus in order: the tick of the clock, and the end of a slice.
use jae_so.Common.{
  ℕ, zero, suc, ◌+◌, ◌<◌, ◌≡◌, ◌≢◌, refl, sym, ap, ◌∙◌, inl, inr, none, some, [], ◌∷◌, ◌++◌, map,
  In, ==_refl, ne→==, arith, Bool-cases, true, false, ltb, ◌==◌, ◌||◌,
}
use jae_so.Common.Int.{ℤ, pos, negsuc, pos_part, ◌-ℤ◌}
use jae_so.Common.Without.{In-append}
use jae_so.Memory.{p_list, ready_queue, Links}
use jae_so.Clist.Ring.{Fresh-map}
use jae_so.Kernel.Arch.{Arch}
use jae_so.Kernel.Machine.{Kernel, time_slice, pseudo_clock, sub32}
use jae_so.Kernel.Cmd.{Returns, done}
use jae_so.Kernel.Rules.{Returns-and_then, Returns-weaken}
use jae_so.Pcb.{insert_proc_q}
use jae_so.Pcb.Queue.{insert_proc_q-append, Left}
use jae_so.Accounting.{get_todlo, on_handler_exit}
use jae_so.Syscalls.Semop.{semop}
use jae_so.Interrupts.{tick_loop, pseudo_tick, end_slice, handle_timer}
use jae_so.Nucleus.{View, IsNucleus, IsNucleus-agree, IsOrdered, Place, running}
use jae_so.Nucleus.Frame.{Frame, Frame-of, Frame-trans, IsOrdered-Frame, on_handler_exit-Frame}
use jae_so.Nucleus.Schedule.{Moved, moved_view, moved-IsNucleus}
use jae_so.Nucleus.Signal.{Ordered, semop_v-IsNucleus}

-- The running process is put back in the ready queue.
abbrev yielded : ℕ → Links → Kernel → Kernel
yielded p σ k = record k { links = σ; current_process = none }

module _ (v : View) (k : Kernel) (p : ℕ) (n : IsNucleus v k)
    (runs : k.current_process ≡ some p) where
  ran : v.place p ≡ running
  ran = n.at_current p runs

  not_ready : (x : ℕ) → In x v.ready_list → p ≢ x
  not_ready x i e = let z : running ≡ Place.ready = sym ran ∙ ap v.place e ∙ n.at_ready x i in cc

  queued :
      (σ : Links) × (insert_proc_q ready_queue p k ≡ done tt (record k { links = σ }))
      × Left k ready_queue (p_list p ∷ map p_list v.ready_list) (v.ready_list ++ p ∷ []) σ
  queued =
      insert_proc_q-append k ready_queue p v.ready_list (λ x e. cc) n.ready
        (Fresh-map (p_list p) p_list v.ready_list λ x i e. not_ready x i (cc))

  yielded-Moved : Moved v k p Place.ready (v.ready_list ++ p ∷ []) (yielded p queued.0 k)
  yielded-Moved = record {
    ready = queued.2.queue;
    at_ready = λ x i. elim (In-append x v.ready_list p i) [
      | inl j ↦ rw (ne→== x p λ e. not_ready x j (sym e)) (n.at_ready x j)
      | inr e ↦ rw (e, ==_refl p)
    ];
    at_current = λ x e. cc;
    was = inr ran;
    semaphores = refl;
    sems = λ x. refl;
    parents = λ x. refl;
    count = refl;
    same = λ b a c f. queued.2.same b (a, (c, Fresh-map b p_list v.ready_list f));
  }

-- The end of end_slice.
yield_proc :
    (k : Kernel) (p : ℕ)
    → IsOrdered k
    → k.current_process ≡ some p
    → (σ : Links) × (insert_proc_q ready_queue p k ≡ done tt (record k { links = σ }))
      × IsOrdered (yielded p σ k)
yield_proc k p (v, n) c = (
  (queued v k p n c).0,
  (queued v k p n c).1,
  (
    moved_view p Place.ready (v.ready_list ++ p ∷ []) v,
    moved-IsNucleus v k p Place.ready (v.ready_list ++ p ∷ []) (yielded p (queued v k p n c).0 k) n
        (yielded-Moved v k p n c),
  ),
)

-- The clock is read while `p` runs.
abbrev pub ticked : ℕ → Kernel → Kernel
ticked p k = record k { current_process = some p; clock_reads = k.clock_reads + 1 }

ticked-Frame : (p : ℕ) (k : Kernel) → k.current_process ≡ some p → Frame k (ticked p k)
ticked-Frame p k c = Frame-of k (ticked p k) refl refl refl (sym c) refl refl

-- The clock counts one less.
tick_once : (z : ℤ) (m : ℕ) → z ≡ pos (suc m) → pos_part (z -ℤ pos 1) ≡ m
unfolding ◌-ℤ◌
tick_once z m e = rw e (ground arith)

module _ (arch : Arch) where
  pub end_slice-IsOrdered :
      (k : Kernel) (p : ℕ)
      → IsOrdered k
      → k.current_process ≡ some p
      → Returns (λ _ k'. IsOrdered k') (end_slice arch k)
  unfolding end_slice get_todlo
  end_slice-IsOrdered k p o c = elim (Bool-cases (ltb time_slice (k.pcb p).p_time_slice)) [
    | inr e ↦ simp (c, e) o
    | inl e ↦
        simp (c, e)
          (Returns-and_then (λ _ k'. Frame (ticked p k) k') (λ _ k'. IsOrdered k')
            (on_handler_exit (k.clock k.clock_reads) 1 (ticked p k)) _
            (on_handler_exit-Frame (k.clock k.clock_reads) (ticked p k) 1)
            λ _ k' f.
              let o' : IsOrdered k' =
                IsOrdered-Frame k k' (Frame-trans k (ticked p k) k' (ticked-Frame p k c) f) o in
              let y = yield_proc k' p o' f.current in rw y.1 y.2)
  ]

  abbrev pub Ticked : Kernel → Kernel → Type 0
  Ticked k k' = IsOrdered k' × (k'.current_process ≡ k.current_process)

  tick_round :
      (fuel : ℕ) (k : Kernel) (z : ℤ)
      → pos_part z < suc fuel
      → IsOrdered k
      → k.pseudo_clock_blk ≡ z
      → ((k1 : Kernel)
          → pos_part k1.pseudo_clock_blk < fuel
          → IsOrdered k1
          → Returns (λ _ k'. Ticked k1 k') (tick_loop arch fuel k1))
      → Returns (λ _ k'. Ticked k k') (tick_loop arch (suc fuel) k)
  unfolding tick_loop
  tick_round fuel k (negsuc m) l o e rec =
      let t : ltb (0 + suc m) (0 + 0) ≡ false = ground arith in simp (e, t) (o, refl)
  tick_round fuel k (pos zero) l o e rec = simp e (o, refl)
  tick_round fuel k (pos (suc m)) l (v, n) e rec =
      let t : ltb 0 (suc m + 0) ≡ true = ground arith in
      simp (e, t)
        (Returns-and_then (λ _ k'. Ordered k k') (λ _ k'. Ticked k k')
          (semop arch arch.pc_timer_addr (pos (suc m)) k) _
          (semop_v-IsNucleus arch arch.pc_timer_addr m v k n)
          λ _ k' (w, n', c, b).
            let k1 : Kernel = record k' { pseudo_clock_blk = k'.pseudo_clock_blk -ℤ pos 1 } in
            let o1 : IsOrdered k1 = (
              w,
              IsNucleus-agree w k' k1 refl refl (λ x. refl) (λ x. refl) n'.at_current refl n',
            ) in
            let u = tick_once k'.pseudo_clock_blk m (b ∙ e) in
            Returns-weaken (λ _ k2. Ticked k1 k2) (λ _ k2. Ticked k k2) (tick_loop arch fuel k1)
              (rec k1 (omega (arith, u)) o1) λ _ k2 r. (r.0, r.1 ∙ c))

  tick_loop-Ticked :
      (fuel : ℕ) (k : Kernel)
      → pos_part k.pseudo_clock_blk < fuel
      → IsOrdered k
      → Returns (λ _ k'. Ticked k k') (tick_loop arch fuel k)
  tick_loop-Ticked zero k l o = absurd (omega arith)
  tick_loop-Ticked (suc fuel) k l o =
      tick_round fuel k k.pseudo_clock_blk l o refl (tick_loop-Ticked fuel)

  pub tick_cases : (k : Kernel) → IsOrdered k → Returns (λ _ k'. Ticked k k') (pseudo_tick arch k)
  unfolding pseudo_tick get_todlo
  tick_cases k o =
      elim (Bool-cases (
        k.left_to_100 == sub32 (k.clock k.clock_reads) k.last_update
        || ltb pseudo_clock (sub32 k.left_to_100 (sub32 (k.clock k.clock_reads) k.last_update)))) [
          | inr e ↦ rw e (IsOrdered-Frame k _ (Frame-of k _ refl refl refl refl refl refl) o, refl)
          | inl e ↦
              let k1 : Kernel = record k {
                clock_reads = k.clock_reads + 1;
                left_to_100 = pseudo_clock;
              } in
              rw e (
                tick_loop-Ticked (suc (pos_part k.pseudo_clock_blk)) k1 (omega arith)
                  (IsOrdered-Frame k k1 (Frame-of k k1 refl refl refl refl refl refl) o))
        ]

  -- The timer interrupt, with a process that runs.
  pub handle_timer-IsOrdered :
      (k : Kernel) (p : ℕ)
      → IsOrdered k
      → k.current_process ≡ some p
      → Returns (λ _ k'. IsOrdered k') (handle_timer arch k)
  unfolding handle_timer
  handle_timer-IsOrdered k p o c =
      Returns-and_then (λ _ k'. Ticked k k') (λ _ k'. IsOrdered k') (pseudo_tick arch k) _
        (tick_cases k o) λ _ k' (o', e). end_slice-IsOrdered k' p o' (e ∙ c)
