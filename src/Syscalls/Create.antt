-- ===== src/Syscalls/Create.antt =====
-- createProcess on the free list, the ready queue and the children of the caller.
use mathlib.Core.List.{map-append}
use jae_so.Common.{
  ℕ, ◌+◌, ◌<◌, ◌≡◌, refl, sym, ◌∙◌, ◌≢◌, inl, inr, none, some, List, [], ◌∷◌, ◌++◌, map, arith,
  Fresh, In, ==_refl, ne→==, lt→ltb,
}
use jae_so.Memory.{Loc, p_list, p_children, p_siblings, pcb_free, ready_queue, Links}
use jae_so.Clist.{enqueue}
use jae_so.Clist.Ring.{IsClist, IsClist-agree, All-map, Fresh-map, ne_of_Fresh}
use jae_so.Clist.Queue.{enqueue-append, enqueue-frame}
use jae_so.Kernel.Machine.{Kernel, max_proc, add32, update-update}
use jae_so.Kernel.Cmd.{Returns}
use jae_so.Pcb.{insert_child, insert_proc_q}
use jae_so.Pcb.FreeList.{Allocated, alloc_pcb-cons}
use jae_so.Pcb.Queue.{IsQueue}
use jae_so.Pcb.Tree.{IsFamily}
use jae_so.Accounting.{copy_state}
use jae_so.Syscalls.Process.{create_process}
use jae_so.Syscalls.Pid.{pid_of}

-- The process `q` runs, `p` is the first free block, and the free blocks, the ready queue `rs` and
-- the children `cs` of `q` do not share one.
pub record CanCreate (k : Kernel) (q p : ℕ) (xs rs cs : List ℕ) : Type 0 where
  pub current : k.current_process ≡ some q
  pub room : k.process_count < max_proc
  pub free : IsClist k.links pcb_free (map p_list (p ∷ xs))
  pub ready : IsQueue k ready_queue rs
  pub family : IsFamily k q cs
  pub other : q ≢ p
  pub ready_apart : (r x : ℕ) → In r rs → In x (p ∷ xs) → r ≢ x
  pub family_apart : (x : ℕ) → In x cs → x ≢ p

-- The state after it: `p` runs with the state at `np` as soon as it is its turn.
pub record Created (np : ℕ) (k : Kernel) (q p : ℕ) (xs rs cs : List ℕ) (k' : Kernel) : Type 0 where
  pub free : IsClist k'.links pcb_free (map p_list xs)
  pub ready : IsQueue k' ready_queue (rs ++ p ∷ [])
  pub family : IsFamily k' q (cs ++ p ∷ [])
  pub childless : IsFamily k' p []
  pub parent : (k'.pcb p).p_parent ≡ some q
  pub unblocked : (k'.pcb p).p_cursem ≡ none
  pub state : (k'.pcb p).p_s ≡ k.state_at np
  pub pid : (k'.pcb p).p_pid ≡ pid_of k'.abs_process_count k'.process_count
  pub made : k'.abs_process_count ≡ add32 k.abs_process_count 1
  pub result : k'.sysbp_old.a1 ≡ (k'.pcb p).p_pid
  pub count : k'.process_count ≡ k.process_count + 1
  pub others : (o : ℕ) → o ≢ p → k'.pcb o ≡ k.pcb o
  pub current : k'.current_process ≡ k.current_process
  pub semaphores : k'.sem_add ≡ k.sem_add
  pub same :
      (b : Loc)
      → b ≢ pcb_free
      → b ≢ ready_queue
      → b ≢ p_children p
      → b ≢ p_children q
      → ((x : ℕ) → In x (p ∷ cs) → b ≢ p_siblings x)
      → ((x : ℕ) → In x (p ∷ xs) → b ≢ p_list x)
      → ((x : ℕ) → In x rs → b ≢ p_list x)
      → k'.links b ≡ k.links b

module _ {k : Kernel} {q p : ℕ} {xs rs cs : List ℕ} (c : CanCreate k q p xs rs cs) where
  -- The three versions of the links that createProcess goes through.
  allocated : (σ : Links) × Allocated k p xs σ
  allocated = alloc_pcb-cons k p xs c.free

  abbrev adopted : Links
  adopted = enqueue (p_siblings p) (p_children q) allocated.0

  abbrev queued : Links
  queued = enqueue (p_list p) ready_queue adopted

  -- What allocPcb leaves alone.
  allocated_same :
      (b : Loc)
      → b ≢ pcb_free
      → b ≢ p_children p
      → b ≢ p_siblings p
      → ((x : ℕ) → In x (p ∷ xs) → b ≢ p_list x)
      → allocated.0 b ≡ k.links b
  allocated_same b f n s l = allocated.1.same b (f, (n, (s, Fresh-map b p_list (p ∷ xs) l)))

  allocated-family : IsClist allocated.0 (p_children q) (map p_siblings cs)
  allocated-family =
      IsClist-agree k.links allocated.0 (p_children q) (map p_siblings cs)
        (allocated_same (p_children q) (λ e. cc) (λ e. c.other (ground arith)) (λ e. cc)
          (λ x i e. cc))
        (All-map (λ b. allocated.0 b ≡ k.links b) p_siblings cs
          λ x i.
            allocated_same (p_siblings x) (λ e. cc) (λ e. cc)
              (λ e. c.family_apart x i (ground arith)) (λ y j e. cc))
        c.family

  siblings-Fresh : Fresh (p_siblings p) (map p_siblings cs)
  siblings-Fresh =
      Fresh-map (p_siblings p) p_siblings cs (λ x i e. c.family_apart x i (ground arith))

  adopted-family : IsClist adopted (p_children q) (map p_siblings (cs ++ p ∷ []))
  adopted-family = rw (map-append p_siblings cs (p ∷ [])) (
      enqueue-append allocated.0 (p_children q) (p_siblings p) (map p_siblings cs) allocated-family
        (λ e. cc) siblings-Fresh)

  -- What insertChild leaves alone.
  adopted_same :
      (b : Loc)
      → b ≢ p_children q
      → ((x : ℕ) → In x (p ∷ cs) → b ≢ p_siblings x)
      → adopted b ≡ allocated.0 b
  adopted_same b n s =
      enqueue-frame allocated.0 (p_children q) (p_siblings p) b (map p_siblings cs) allocated-family
        (n, Fresh-map b p_siblings (p ∷ cs) s)

  adopted-ready : IsClist adopted ready_queue (map p_list rs)
  adopted-ready =
      IsClist-agree k.links adopted ready_queue (map p_list rs)
        (adopted_same ready_queue (λ e. cc) (λ x i e. cc)
          ∙ allocated_same ready_queue (λ e. cc) (λ e. cc) (λ e. cc) (λ x i e. cc))
        (All-map (λ b. adopted b ≡ k.links b) p_list rs
          λ r i.
            adopted_same (p_list r) (λ e. cc) (λ x i e. cc)
            ∙ allocated_same (p_list r) (λ e. cc) (λ e. cc) (λ e. cc)
                (λ x j e. c.ready_apart r x i j (ground arith)))
        c.ready

  queued-ready : IsClist queued ready_queue (map p_list (rs ++ p ∷ []))
  queued-ready = rw (map-append p_list rs (p ∷ [])) (
      enqueue-append adopted ready_queue (p_list p) (map p_list rs) adopted-ready (λ e. cc)
        (Fresh-map (p_list p) p_list rs λ r i e. c.ready_apart r p i (inl refl) (ground arith)))

  -- What insertProcQ leaves alone.
  queued_same :
      (b : Loc)
      → b ≢ ready_queue
      → b ≢ p_list p
      → ((r : ℕ) → In r rs → b ≢ p_list r)
      → queued b ≡ adopted b
  queued_same b n s l =
      enqueue-frame adopted ready_queue (p_list p) b (map p_list rs) adopted-ready
        (n, (s, Fresh-map b p_list rs l))

  queued-free : IsClist queued pcb_free (map p_list xs)
  queued-free =
      IsClist-agree allocated.0 queued pcb_free (map p_list xs)
        (queued_same pcb_free (λ e. cc) (λ e. cc) (λ r i e. cc)
          ∙ adopted_same pcb_free (λ e. cc) (λ x i e. cc))
        (All-map (λ b. queued b ≡ allocated.0 b) p_list xs
          λ x i.
            queued_same (p_list x) (λ e. cc) (ne_of_Fresh (p_list p) p_list x xs c.free.4.0 i)
              (λ r j e. c.ready_apart r x j (inr i) (ground arith))
            ∙ adopted_same (p_list x) (λ e. cc) (λ y i e. cc))
        allocated.1.free

  queued-family : IsClist queued (p_children q) (map p_siblings (cs ++ p ∷ []))
  queued-family =
      IsClist-agree adopted queued (p_children q) (map p_siblings (cs ++ p ∷ []))
        (queued_same (p_children q) (λ e. cc) (λ e. cc) (λ r i e. cc))
        (All-map (λ b. queued b ≡ adopted b) p_siblings (cs ++ p ∷ [])
          λ x i. queued_same (p_siblings x) (λ e. cc) (λ e. cc) (λ r j e. cc))
        adopted-family

  queued-childless : queued (p_children p) ≡ none
  queued-childless =
      queued_same (p_children p) (λ e. cc) (λ e. cc) (λ r i e. cc)
      ∙ adopted_same (p_children p) (λ e. c.other (ground arith)) (λ x i e. cc)
      ∙ allocated.1.unlinked.1

  -- With a process running, fewer than MAXPROC processes, and the free blocks, the ready queue and
  -- the caller's children well formed and apart, createProcess makes the first free block the last
  -- child of the caller and the last of the ready queue, with the state it was given, no children
  -- and no semaphore; it counts one process more, both of those made and of those that live, gives
  -- the block the identifier that pid_selector makes of the two counts, and returns it in a1; it
  -- changes no other block, and no link but those of these lists and of the block.
  pub create_process-Created :
      (np : ℕ) → Returns (λ _ k'. Created np k q p xs rs cs k') (create_process np k)
  unfolding create_process copy_state insert_child insert_proc_q
  create_process-Created np =
      simp
        (lt→ltb k.process_count max_proc c.room, allocated.1.run, c.current, ==_refl, update-update)
        (record {
          free = queued-free;
          ready = queued-ready;
          family = queued-family;
          childless = queued-childless;
          parent = rw (==_refl p);
          unblocked = rw (==_refl p);
          state = rw (==_refl p);
          pid = rw (==_refl p);
          made = refl;
          result = rw (==_refl p);
          count = omega (arith, c.room);
          others = λ o n. rw (ne→== o p n);
          current = sym c.current;
          semaphores = refl;
          same = λ b n1 n2 n3 n4 n5 n6 n7.
              queued_same b n2 (n6 p (inl refl)) n7
              ∙ adopted_same b n4 n5
              ∙ allocated_same b n1 n3 (n5 p (inl refl)) n6;
        })
