-- ===== src/Syscalls/Park.antt =====
-- A P on a semaphore on which processes are blocked already: the caller joins them.
use mathlib.Core.List.{map-append}
use jae_so.Common.{
  ℕ, suc, ◌≤◌, ◌≡◌, ◌≢◌, refl, ◌∙◌, ap, none, some, List, [], ◌∷◌, ◌++◌, map, arith, length, In,
  if◌then◌else◌, Bool-cases, ==_refl, ne→==, inl, inr,
}
use jae_so.Common.Int.{negsuc}
use jae_so.Memory.{Loc, p_list, s_procq, Links}
use jae_so.Clist.{enqueue}
use jae_so.Clist.Ring.{IsClist, Fresh-map}
use jae_so.Clist.Queue.{enqueue-append, enqueue-frame}
use jae_so.Kernel.Arch.{Arch, is_dev}
use jae_so.Kernel.Machine.{Kernel, max_proc, add32, set_pcb, update_self, update_other, Pcb}
use jae_so.Kernel.Cmd.{done, Returns}
use jae_so.Kernel.Rules.{Returns-weaken}
use jae_so.Pcb.Queue.{IsQueue}
use jae_so.Accounting.{get_todlo, on_handler_exit}
use jae_so.Asl.{insert_blocked}
use jae_so.Asl.Find.{IsActive, seek, find_semd-seek}
use jae_so.Asl.Head.{head_blocked-cons}
use jae_so.Syscalls.Semop.{semop, park, take_resources}

-- The process `p` runs, and `q ∷ qs` are blocked on the semaphore at `sem`.
pub record CanPark (k : Kernel) (sem d p q : ℕ) (qs ds : List ℕ) : Type 0 where
  pub current : k.current_process ≡ some p
  pub few : length ds ≤ max_proc
  pub active : IsActive k ds
  pub known : seek k sem ds ≡ some d
  pub queue : IsQueue k (s_procq d) (q ∷ qs)
  pub awake : (x : ℕ) → In x (q ∷ qs) → p ≢ x

-- The state after it.
pub record Parked (arch : Arch) (amount : ℕ) (k : Kernel) (sem d p q : ℕ) (qs : List ℕ)
    (k' : Kernel) : Type 0 where
  pub queue : IsQueue k' (s_procq d) (q ∷ qs ++ p ∷ [])
  pub current : k'.current_process ≡ none
  pub request : (k'.pcb p).res_requested ≡ amount
  pub cursem : (k'.pcb p).p_cursem ≡ some d
  pub parent : (k'.pcb p).p_parent ≡ (k.pcb p).p_parent
  pub processes : k'.process_count ≡ k.process_count
  pub semaphores : k'.sem_add ≡ k.sem_add
  pub count :
      k'.soft_block_count
      ≡ (if is_dev arch sem then add32 k.soft_block_count 1 else k.soft_block_count)
  pub words : k'.word ≡ k.word
  pub others : (x : ℕ) → x ≢ p → k'.pcb x ≡ k.pcb x
  pub same :
      (b : Loc)
      → b ≢ s_procq d
      → ((x : ℕ) → In x (p ∷ q ∷ qs) → b ≢ p_list x)
      → k'.links b ≡ k.links b

-- What `park` does to a kernel in which `p` runs.
pub record Stopped (arch : Arch) (amount sem p : ℕ) (k k' : Kernel) : Type 0 where
  pub links : k'.links ≡ k.links
  pub current : k'.current_process ≡ none
  pub request : (k'.pcb p).res_requested ≡ amount
  pub cursem : (k'.pcb p).p_cursem ≡ (k.pcb p).p_cursem
  pub parent : (k'.pcb p).p_parent ≡ (k.pcb p).p_parent
  pub processes : k'.process_count ≡ k.process_count
  pub semaphores : k'.sem_add ≡ k.sem_add
  pub count :
      k'.soft_block_count
      ≡ (if is_dev arch sem then add32 k.soft_block_count 1 else k.soft_block_count)
  pub words : k'.word ≡ k.word
  pub others : (x : ℕ) → x ≢ p → k'.pcb x ≡ k.pcb x

pub park-Stopped :
    (arch : Arch) (amount sem p : ℕ) (k : Kernel)
    → k.current_process ≡ some p
    → Returns (λ _ k'. Stopped arch amount sem p k k') (park arch sem amount p k)
unfolding park get_todlo on_handler_exit
park-Stopped arch amount sem p k c = elim (Bool-cases (is_dev arch sem)) [
  | inl e ↦
      rw (c, park, e, on_handler_exit)
        (record {
          links = refl;
          current = refl;
          request = rw (==_refl p);
          cursem = rw (==_refl p);
          parent = rw (==_refl p);
          processes = refl;
          semaphores = refl;
          count = rw e;
          words = refl;
          others = λ x n. rw (ne→== x p n);
        })
  | inr e ↦
      rw (c, park, e, on_handler_exit)
        (record {
          links = refl;
          current = refl;
          request = rw (==_refl p);
          cursem = rw (==_refl p);
          parent = rw (==_refl p);
          processes = refl;
          semaphores = refl;
          count = rw e;
          words = refl;
          others = λ x n. rw (ne→== x p n);
        })
]

module _ {k : Kernel} {sem d p q : ℕ} {qs ds : List ℕ} (c : CanPark k sem d p q qs ds) where
  abbrev joined : Links
  joined = enqueue (p_list p) (s_procq d) k.links

  joined-queue : IsClist joined (s_procq d) (map p_list (q ∷ qs ++ p ∷ []))
  joined-queue = rw (map-append p_list qs (p ∷ [])) (
      enqueue-append k.links (s_procq d) (p_list p) (map p_list (q ∷ qs)) c.queue (λ e. cc)
        (Fresh-map (p_list p) p_list (q ∷ qs) λ x i e. c.awake x i (ground arith)))

  joined_same :
      (b : Loc)
      → b ≢ s_procq d
      → ((x : ℕ) → In x (p ∷ q ∷ qs) → b ≢ p_list x)
      → joined b ≡ k.links b
  joined_same b n s =
      enqueue-frame k.links (s_procq d) (p_list p) b (map p_list (q ∷ qs)) c.queue
        (n, Fresh-map b p_list (p ∷ q ∷ qs) s)

  insert_blocked-known :
      insert_blocked sem p k
      ≡ done 0 (set_pcb p (record (k.pcb p) { p_cursem = some d }) (record k { links = joined }))
  unfolding insert_blocked
  insert_blocked-known = rw (find_semd-seek k sem ds c.few c.active, c.known)

  abbrev blocked : Kernel
  blocked = set_pcb p (record (k.pcb p) { p_cursem = some d }) (record k { links = joined })

  semop-park : (arch : Arch) (n : ℕ) → semop arch sem (negsuc n) k ≡ park arch sem (suc n) p blocked
  unfolding semop take_resources
  semop-park arch n = simp (
    head_blocked-cons k sem d q qs ds c.few c.active c.known c.queue,
    c.current,
    insert_blocked-known,
  )

  -- With a process running that is not in the queue of the semaphore, and processes blocked there,
  -- the active list and the queue well formed and the descriptor found by the search, semop with a
  -- negative weight returns: the caller is then the last of the queue, with its request and its
  -- semaphore field set, no process is the current one, the count of soft-blocked processes is one
  -- more if the semaphore is a device's, and no word, no semaphore's address, no other block, not
  -- the caller's parent nor the count of processes, and no link but those of the queue and the
  -- caller has changed.
  pub semop-Parked :
      (arch : Arch) (n : ℕ)
      → Returns (λ _ k'. Parked arch (suc n) k sem d p q qs k') (semop arch sem (negsuc n) k)
  semop-Parked arch n = rw (semop-park arch n) (
      Returns-weaken (λ _. Stopped arch (suc n) sem p blocked)
        (λ _. Parked arch (suc n) k sem d p q qs) (park arch sem (suc n) p blocked)
        (park-Stopped arch (suc n) sem p blocked c.current)
        λ _ k' s. record {
          queue = rw s.links joined-queue;
          current = s.current;
          request = s.request;
          cursem = s.cursem ∙ ap (λ (b : Pcb). b.p_cursem) (update_self k.pcb p _);
          parent = s.parent ∙ ap (λ (b : Pcb). b.p_parent) (update_self k.pcb p _);
          processes = s.processes;
          semaphores = s.semaphores;
          count = s.count;
          words = s.words;
          others = λ x m. s.others x m ∙ update_other k.pcb p x _ m;
          same = λ b m f. rw s.links (joined_same b m f);
        })
