-- ===== src/Interrupts/Deliver.antt =====
-- handleDevices: the status of a device reaches the process that has waited longest for it.
use jae_so.Common.{
  subst, ◌-◌, ◌%◌, ◌^◌, ◌==◌, ◌||◌, true, ℕ, suc, ◌≡◌, ◌≢◌, refl, sym, ap, ◌∙◌, inl, none, some,
  Option, List, [], ◌∷◌, ◌++◌, In, false, ne→==, ==_refl, ℕ_discrete,
}
use jae_so.Common.Int.{pos, ◌+ℤ◌}
use jae_so.Memory.{p_list, Links}
use jae_so.Clist.Ring.{ne_of_Fresh}
use jae_so.Kernel.Arch.{Arch, dev_sem}
use jae_so.Kernel.Machine.{Kernel, DevReg, set_pcb, set_word, set_dev, update}
use jae_so.Kernel.Cmd.{Returns, done}
use jae_so.Kernel.Rules.{Returns-weaken}
use jae_so.Asl.{head_blocked}
use jae_so.Asl.Head.{head_blocked-none, head_blocked-cons, seek-agree, Ascending-agree}
use jae_so.Syscalls.Semop.{semop, wake_loop, add_int}
use jae_so.Syscalls.Wake.{woken, left, wake_loop-Awake}
use jae_so.Syscalls.Waiters.{Waiters}
use jae_so.Syscalls.Signal.{can_wake, woken-Waiters, round_none, round_short}
use jae_so.Interrupts.{find_device, acknowledge, same, signal_device, handle_devices}

-- Each process asks for one.
abbrev pub one : ℕ → ℕ
one x = 1

-- The first process that waits.
abbrev first : List ℕ → Option ℕ
first [] = none
first (p ∷ ps) = some p

head_blocked-first :
    (k : Kernel) (sem d : ℕ) (ps ds fs rs : List ℕ)
    → Waiters one k sem d ps ds fs rs
    → head_blocked sem k ≡ done (first ps) k
head_blocked-first k sem d [] ds fs rs w = head_blocked-none k sem ds w.few w.active w.known
head_blocked-first k sem d (p ∷ ps) ds fs rs w =
    head_blocked-cons k sem d p ps ds w.few w.active w.known w.queue

-- A state that differs in words, registers and the contents of blocks only.
pub Waiters-agree :
    (k k' : Kernel) (sem d : ℕ) (ps ds fs rs : List ℕ)
    → k'.links ≡ k.links
    → k'.sem_add ≡ k.sem_add
    → ((x : ℕ) → In x ps → k'.pcb x ≡ k.pcb x)
    → Waiters one k sem d ps ds fs rs
    → Waiters one k' sem d ps ds fs rs
Waiters-agree k k' sem d ps ds fs rs l a b w = record {
  few = w.few;
  active = rw l w.active;
  ascending = Ascending-agree k k' ds a w.ascending;
  known = seek-agree k k' sem ds a ∙ w.known;
  queue = rw l w.queue;
  free = rw l w.free;
  apart = w.apart;
  ready = rw l w.ready;
  not_ready = w.not_ready;
  waits = λ x i. rw (b x i) (w.waits x i);
  asks = λ x i. rw (b x i) (w.asks x i);
}

-- The first process is not in the rest of the queue.
first-other :
    (k : Kernel) (sem d p : ℕ) (ps ds fs rs : List ℕ)
    → Waiters one k sem d (p ∷ ps) ds fs rs
    → (x : ℕ) → In x ps
    → x ≢ p
first-other k sem d p ps ds fs rs w x i e =
    ne_of_Fresh (p_list p) p_list x ps w.queue.4.0 i (ap p_list e)

same-first : (p : ℕ) (ps : List ℕ) → ((x : ℕ) → In x ps → x ≢ p) → same (some p) (first ps) ≡ false
same-first p [] h = refl
same-first p (x ∷ xs) h = ne→== p x λ e. h x (inl refl) (sym e)

one_more : add_int (pos 1) (pos 0) ≡ pos 1
unfolding add_int ◌+ℤ◌
one_more = refl

module _ (arch : Arch) (sem d : ℕ) where
  -- Nothing is left for the next one.
  round_empty :
      (fuel : ℕ) (k : Kernel) (ps ds fs rs : List ℕ)
      → Waiters one k sem d ps ds fs rs
      → wake_loop arch (suc fuel) sem (pos 0) k ≡ done (pos 0) k
  round_empty fuel k [] ds fs rs w = round_none arch one sem d fuel k (pos 0) ds fs rs w
  round_empty fuel k (p ∷ ps) ds fs rs w =
      round_short arch one sem d fuel k (pos 0) p ps ds fs rs w refl

  -- A V of one on a semaphore of value 0 wakes the first process only.
  semop-one :
      (k : Kernel) (p : ℕ) (ps ds fs rs : List ℕ)
      → Waiters one k sem d (p ∷ ps) ds fs rs
      → k.word sem ≡ pos 0
      → (σ : Links) × (semop arch sem (pos 1) k
          ≡ done tt (set_word sem (pos 0) (woken arch d p k σ)))
        × ((ds' fs' : List ℕ) × Waiters one (woken arch d p k σ) sem d ps ds' fs' (rs ++ p ∷ []))
  unfolding semop
  semop-one k p ps ds fs rs w z =
      let a =
        wake_loop-Awake arch k sem (pos 1) d p ps ds fs rs 21
          (can_wake arch one sem d k (pos 1) p ps ds fs rs w refl) in
      let v = woken-Waiters arch one sem d k p ps ds fs rs a.0 w a.2 in
      let k1 : Kernel = woken arch d p k a.0 in
      let loop : wake_loop arch 22 sem (add_int (pos 1) (k.word sem)) k ≡ done (pos 0) k1 =
        ap (λ v. wake_loop arch 22 sem v k) (ap (λ v. add_int (pos 1) v) z ∙ one_more)
        ∙ a.1
        ∙ ap (λ n. wake_loop arch 21 sem (left (pos 1) n) k1) (w.asks p (inl refl))
        ∙ round_empty 20 k1 ps v.0 v.1 (rs ++ p ∷ []) v.2 in
      (a.0, rw loop, v)

-- The process `p` has left the queue of the semaphore for the ready queue, with `s` in its a1; the
-- others wait on, and the value is 0.
pub record Delivered (k : Kernel) (sem d p s : ℕ) (ps rs : List ℕ) (k' : Kernel) : Type 0 where
  pub waiting : (ds' fs' : List ℕ) × Waiters one k' sem d ps ds' fs' (rs ++ p ∷ [])
  pub status : (k'.pcb p).p_s ≡ record (k.pcb p).p_s { a1 = s }
  pub others : (x : ℕ) → x ≢ p → k'.pcb x ≡ k.pcb x
  pub word : (x : ℕ) → k'.word x ≡ k.word x
  pub current : k'.current_process ≡ k.current_process

-- The status is written to the block of `p`.
abbrev given : ℕ → ℕ → Kernel → Kernel
given s p k = set_pcb p (record (k.pcb p) { p_s = record (k.pcb p).p_s { a1 = s } }) k

module _ (arch : Arch) (sem d : ℕ) where
  given-Delivered :
      (s : ℕ) (k : Kernel) (p : ℕ) (ps ds fs rs ds' fs' : List ℕ) (σ : Links)
      → k.word sem ≡ pos 0
      → ((x : ℕ) → In x ps → x ≢ p)
      → Waiters one (woken arch d p k σ) sem d ps ds' fs' (rs ++ p ∷ [])
      → Delivered k sem d p s ps rs (given s p (set_word sem (pos 0) (woken arch d p k σ)))
  given-Delivered s k p ps ds fs rs ds' fs' σ z other w = record {
    waiting = (
      ds',
      fs',
      Waiters-agree (woken arch d p k σ) (given s p (set_word sem (pos 0) (woken arch d p k σ))) sem
          d ps ds' fs' (rs ++ p ∷ []) refl refl (λ x i. rw (ne→== x p (other x i)) refl) w,
    );
    status = rw (==_refl p) refl;
    others = λ x m. rw (ne→== x p m) refl;
    word = λ x. elim (ℕ_discrete x sem) [
      | yes e ↦ rw (e, ==_refl sem) (sym z)
      | no m ↦ rw (ne→== x sem m) refl
    ];
    current = refl;
  }

  signal_device-Delivered :
      (s : ℕ) (k : Kernel) (p : ℕ) (ps ds fs rs : List ℕ)
      → Waiters one k sem d (p ∷ ps) ds fs rs
      → k.word sem ≡ pos 0
      → Returns
          (λ _ k'. Delivered k sem d p s ps rs k' × (k'.dev ≡ k.dev))
          (signal_device arch sem (some s) k)
  unfolding signal_device
  signal_device-Delivered s k p ps ds fs rs w z =
      let other = first-other k sem d p ps ds fs rs w in
      let r = semop-one arch sem d k p ps ds fs rs w z in
      let k1 : Kernel = set_word sem (pos 0) (woken arch d p k r.0) in
      let v : Waiters one k1 sem d ps r.2.0 r.2.1 (rs ++ p ∷ []) =
        Waiters-agree (woken arch d p k r.0) k1 sem d ps r.2.0 r.2.1 (rs ++ p ∷ []) refl refl
          (λ x i. refl) r.2.2 in
      let h0 = head_blocked-first k sem d (p ∷ ps) ds fs rs w in
      let h1 = head_blocked-first k1 sem d ps r.2.0 r.2.1 (rs ++ p ∷ []) v in
      rw (h0, z, r.1, h1, same-first p ps other)
        (given-Delivered s k p ps ds fs rs r.2.0 r.2.1 r.0 z other r.2.2, refl)

-- How a device of `line` with the registers `r` is acknowledged, but for a terminal that has received a
-- character: the row of its semaphore, the status that is given, and the registers after the command.
pub data Acknowledged (arch : Arch) (line : ℕ) (r : DevReg) : ℕ → ℕ → DevReg → Type 0 where
  device :
      line ≢ arch.il_terminal
      → Acknowledged arch line r
          (line - arch.dev_il_start)
          r.status
          (record r { command = arch.dev_c_ack })
  sent :
      line ≡ arch.il_terminal
      → (r.recv_status % 2 ^ 8 == arch.dev_trcv_s_charrecv
          || r.recv_status % 2 ^ 8 == arch.dev_trcv_s_recverr)
        ≡ false
      → (r.transm_status % 2 ^ 8 == arch.dev_ttrs_s_chartrsm
          || r.transm_status % 2 ^ 8 == arch.dev_ttrs_s_trsmerr)
        ≡ true
      → Acknowledged arch line r
          (line - arch.dev_il_start)
          r.transm_status
          (record r { transm_command = arch.dev_c_ack })

Acknowledged-run :
    (arch : Arch) (line dev row s : ℕ) (r reg : DevReg)
    → Acknowledged arch line r row s reg
    → acknowledge arch line dev r ≡ ((row, some s), reg)
unfolding acknowledge
Acknowledged-run arch line dev _ _ r _ (device m) = rw (ne→== line arch.il_terminal m) refl
Acknowledged-run arch line dev _ _ r _ (sent e n t) =
    let q : (line == arch.il_terminal) ≡ true = rw e (==_refl arch.il_terminal) in rw (q, n, t) refl

-- The first device of `line` with a pending interrupt is `dev`; its semaphore is in the row `row`, its
-- status is `s`, and `reg` are its registers when it has been acknowledged.
pub record Finished (arch : Arch) (line dev row s : ℕ) (reg : DevReg) (k : Kernel) : Type 0 where
  pub pending : (find_device arch.n_dev_per_il 0 (k.bitmap line)).0 ≡ some dev
  pub known : Acknowledged arch line (k.dev line dev) row s reg

-- The semaphore of the device that is acknowledged.
abbrev sem_of : Arch → ℕ → ℕ → Kernel → ℕ
sem_of arch line dev k = dev_sem arch (acknowledge arch line dev (k.dev line dev)).0.0 dev

handle_devices-run :
    (arch : Arch) (line dev s d p : ℕ) (k : Kernel) (ps ds fs rs : List ℕ)
    → (find_device arch.n_dev_per_il 0 (k.bitmap line)).0 ≡ some dev
    → (acknowledge arch line dev (k.dev line dev)).0.1 ≡ some s
    → Waiters one k (sem_of arch line dev k) d (p ∷ ps) ds fs rs
    → k.word (sem_of arch line dev k) ≡ pos 0
    → Returns
        (λ _ k'.
          Delivered k (sem_of arch line dev k) d p s ps rs k'
          × (k'.dev line dev ≡ (acknowledge arch line dev (k.dev line dev)).1))
        (handle_devices arch line k)
unfolding handle_devices
handle_devices-run arch line dev s d p k ps ds fs rs pending known w z =
    let reg : DevReg = (acknowledge arch line dev (k.dev line dev)).1 in
    let sem : ℕ = sem_of arch line dev k in
    let k0 : Kernel = set_dev line dev reg (record k {
      bitmap = update k.bitmap line (find_device arch.n_dev_per_il 0 (k.bitmap line)).1;
    }) in
    rw (pending, known)
      (Returns-weaken (λ _ k'. Delivered k0 sem d p s ps rs k' × (k'.dev ≡ k0.dev))
        (λ _ k'. Delivered k sem d p s ps rs k' × (k'.dev line dev ≡ reg))
        (signal_device arch sem (some s) k0)
        (signal_device-Delivered arch sem d s k0 p ps ds fs rs
          (Waiters-agree k k0 sem d (p ∷ ps) ds fs rs refl refl (λ x i. refl) w) z)
        λ _ k' (c, e). (
          record {
            waiting = c.waiting;
            status = c.status;
            others = c.others;
            word = c.word;
            current = c.current;
          },
          ap (λ g. g line dev) e ∙ rw (==_refl line, ==_refl dev) refl,
        ))

-- When the first device of a line with a pending interrupt is not of a terminal, or is a terminal
-- that has received nothing and has sent a character or failed to (Acknowledged), processes wait
-- at the semaphore of value 0 in its row of the array, each for one, with its semaphore field
-- right, the active list is in ascending order, and the descriptors, the queue and the ready queue
-- are well formed and apart, handleDevices returns: the process that has waited longest is at the
-- end of the ready queue, with the status of the device, or of the transmitter, in its a1 and no
-- other register changed, the others wait on as before, no other block, no word and not the
-- current process has changed, and the command of the device, or of the transmitter, is the
-- acknowledgement, with the other registers of the device as they were.
pub handle_devices-Delivered :
    (arch : Arch) (line dev row s d p : ℕ) (reg : DevReg) (k : Kernel) (ps ds fs rs : List ℕ)
    → Finished arch line dev row s reg k
    → Waiters one k (dev_sem arch row dev) d (p ∷ ps) ds fs rs
    → k.word (dev_sem arch row dev) ≡ pos 0
    → Returns
        (λ _ k'. Delivered k (dev_sem arch row dev) d p s ps rs k' × (k'.dev line dev ≡ reg))
        (handle_devices arch line k)
handle_devices-Delivered arch line dev row s d p reg k ps ds fs rs r =
    let e = Acknowledged-run arch line dev row s (k.dev line dev) reg r.known in
    subst
      (λ (a : (ℕ × Option ℕ) × DevReg).
        Waiters one k (dev_sem arch a.0.0 dev) d (p ∷ ps) ds fs rs
        → k.word (dev_sem arch a.0.0 dev) ≡ pos 0
        → Returns
            (λ _ k'. Delivered k (dev_sem arch a.0.0 dev) d p s ps rs k' × (k'.dev line dev ≡ a.1))
            (handle_devices arch line k))
      e
      (handle_devices-run arch line dev s d p k ps ds fs rs r.pending
        (ap (λ (a : (ℕ × Option ℕ) × DevReg). a.0.1) e))
