-- ===== src/Nucleus/Stale.antt =====
-- terminateProgeny of a process that was woken: its p_cursem still names the descriptor that it waited
-- at.
use jae_so.Common.{
  ℕ, ◌≤◌, ◌≡◌, sym, ap, ◌∙◌, subst, inl, inr, none, some, List, [], ◌∷◌, ◌++◌, map, In, Fresh, last,
  length,
}
use jae_so.Common.Without.{In-append_last}
use jae_so.Memory.{p_list, s_procq, ready_queue, pcb_free}
use jae_so.Clist.Ring.{IsClist, Fresh-map}
use jae_so.Clist.Unique.{IsClist-unique_map}
use jae_so.Kernel.Arch.{Arch}
use jae_so.Kernel.Machine.{Kernel, max_proc}
use jae_so.Kernel.Cmd.{done, Returns}
use jae_so.Pcb.FreeList.{free_pcb-append}
use jae_so.Pcb.Queue.{IsQueue, out_proc_q-Fresh}
use jae_so.Asl.{out_blocked}
use jae_so.Asl.Release.{release_semd-busy}
use jae_so.Syscalls.Process.{terminate_one}
use jae_so.Nucleus.{IsNucleus, View, IsOrdered, Place, unused}
use jae_so.Nucleus.Leave.{waiting_run, uncounted}

-- The process `p` is the last of the ready queue, and its block names the descriptor `d`, at which
-- others wait, `q ∷ qs`.
pub record IsStale (k : Kernel) (p d q : ℕ) (qs : List ℕ) : Type 0 where
  pub ready : k.links ready_queue ≡ some (p_list p)
  pub stale : (k.pcb p).p_cursem ≡ some d
  pub queue : IsQueue k (s_procq d) (q ∷ qs)
  pub few : length (q ∷ qs) ≤ max_proc
  pub elsewhere : Fresh (p_list p) (map p_list (q ∷ qs))

-- The block `p` is the last of the ready queue and of the free list, and there is no order.
pub record Doubled (p : ℕ) (k' : Kernel) : Type 0 where
  pub ready : k'.links ready_queue ≡ some (p_list p)
  pub free : (bs : List ℕ) × IsClist k'.links pcb_free (map p_list (bs ++ p ∷ []))
  pub disorder : ¬ IsOrdered k'

last-In : (p x : ℕ) (xs : List ℕ) → p_list p ≡ last (p_list x) (map p_list xs) → In p (x ∷ xs)
last-In p x [] e = inl (cc)
last-In p x (y ∷ ys) e = inr (last-In p y ys e)

-- The list of a tail pointer that is not NULL has the process that it points at.
tail-In :
    (k : Kernel) (p : ℕ) (xs : List ℕ)
    → k.links ready_queue ≡ some (p_list p)
    → IsQueue k ready_queue xs
    → In p xs
tail-In k p [] r c = let z : none ≡ some (p_list p) = sym c ∙ r in absurd (cc)
tail-In k p (x ∷ xs) r c =
    last-In p x xs
      (let z : some (p_list p) ≡ some (last (p_list x) (map p_list xs)) = sym r ∙ c.0 in cc)

-- A block cannot be both the last of the ready queue and free.
not_both :
    (k : Kernel) (p : ℕ) (bs : List ℕ)
    → k.links ready_queue ≡ some (p_list p)
    → IsClist k.links pcb_free (map p_list (bs ++ p ∷ []))
    → ¬ IsOrdered k
not_both k p bs r f (v, n) =
    let b : bs ++ p ∷ [] ≡ v.blocks =
      IsClist-unique_map k.links pcb_free p_list (bs ++ p ∷ []) v.blocks (λ x y e. cc) f n.blocks in
    let free : v.place p ≡ unused = n.at_blocks p (subst (In p) b (In-append_last bs p)) in
    let ready : v.place p ≡ Place.ready = n.at_ready p (tail-In k p v.ready_list r n.ready) in
    let z : unused ≡ Place.ready = sym free ∙ ready in cc

-- A ready process has no free block.
not_free :
    (v : View) (k : Kernel) (p : ℕ)
    → IsNucleus v k
    → k.links ready_queue ≡ some (p_list p)
    → Fresh (p_list p) (map p_list v.blocks)
not_free v k p n r = Fresh-map (p_list p) p_list v.blocks λ x i e.
    let ready : v.place p ≡ Place.ready = n.at_ready p (tail-In k p v.ready_list r n.ready) in
    let q : p ≡ x = cc in
    let z : Place.ready ≡ unused = sym ready ∙ ap v.place q ∙ n.at_blocks x i in cc

-- On a nucleus in order, with a process last in the ready queue whose p_cursem names a descriptor
-- at which others wait, at most MAXPROC, in a well-formed queue without the process (IsStale), the
-- part of terminateProgeny that follows the loop returns with the block of the process last both
-- in the ready queue and in the free list, and the nucleus no longer in order: no view satisfies
-- IsNucleus (Doubled).
pub terminate_one-IsStale :
    (arch : Arch) (k : Kernel) (p d q : ℕ) (qs : List ℕ)
    → IsOrdered k
    → IsStale k p d q qs
    → Returns (λ _ k'. Doubled p k') (terminate_one arch p k)
unfolding out_blocked
terminate_one-IsStale arch k p d q qs (v, n) s =
    let k0 : Kernel = uncounted arch d k in
    let f = free_pcb-append k0 p v.blocks n.blocks (not_free v k p n s.ready) in
    let o : out_blocked p k0 ≡ done none k0 = rw (
      s.stale,
      out_proc_q-Fresh k0 (s_procq d) p (q ∷ qs) s.few s.queue s.elsewhere,
      release_semd-busy k0 d (p_list q) (map p_list qs) s.queue,
    ) in
    let r : f.0 ready_queue ≡ some (p_list p) =
      f.3 ready_queue ((λ e. cc), ((λ e. cc), Fresh-map ready_queue p_list v.blocks (λ x i e. cc)))
      ∙ s.ready in
    rw (waiting_run arch k p d none k0.links f.0 s.stale o f.1)
      (record { ready = r; free = (v.blocks, f.2); disorder = not_both _ p v.blocks r f.2 })
