-- ===== src/Pcb.antt =====
-- src/pcb.c: process control blocks, their free list, process queues and the process tree.
-- A queue is named by its tail pointer. Each walk over a circular list has `rounds` rounds: a list
-- of the 20 blocks has at most 20 elements, and the last test takes one round more.
pub mod FreeList
pub mod Queue
pub mod Tree
use jae_so.Common.{
  ℕ, zero, suc, ◌+◌, Bool, true, false, Option, none, some, if◌then◌else◌, ◌==◌, not,
}
use jae_so.Memory.{
  Loc, Ptr, p_list, p_children, p_siblings, pcb_free, Links, Loc-discrete, set_next,
}
use jae_so.Clist
use jae_so.Clist.{Result, ok, fault}
use jae_so.Clist.Remove.{remove, is}
use jae_so.Kernel.Machine.{Kernel, Pcb, zero_pcb, max_proc, pcb_of, sibling_of, set_pcb}
use jae_so.Kernel.Cmd.{
  Cmd, pure, failed, ask, need, lift, modify, relink, modify_pcb, ◌>>=◌, ◌>>◌, diverge,
}

abbrev pub rounds : ℕ
rounds = 22

-- The loop of initPcbs, with `n` elements left, the next of which is `i`.
unfoldable pub init_pcbs_loop : ℕ → ℕ → Links → Links
init_pcbs_loop zero i σ = σ
init_pcbs_loop (suc n) i σ = init_pcbs_loop n (i + 1) (Clist.enqueue (p_list i) pcb_free σ)

-- initPcbs
unfoldable pub init_pcbs : Cmd (Unit {0})
unfolding init_pcbs_loop
init_pcbs = relink λ σ. ok (init_pcbs_loop max_proc 0 σ)

-- a_memset(l_tmp, 0, sizeof(struct pcb_t))
unfoldable pub clear_pcb : ℕ → Cmd (Unit {0})
clear_pcb p = do
  modify_pcb p (λ _. zero_pcb)
  relink λ σ.
      ok (set_next (set_next (set_next σ (p_list p) none) (p_children p) none) (p_siblings p) none)

-- allocPcb
unfoldable pub alloc_pcb : Cmd (Option ℕ)
unfolding clear_pcb
alloc_pcb = do
  empty ← ask λ k. Clist.is_empty pcb_free k.links
  if empty then pure none else do
    first ← ask λ k. Clist.head pcb_free k.links
    link ← need first
    p ← need (pcb_of link)
    relink (Clist.dequeue pcb_free)
    clear_pcb p
    pure (some p)

-- freePcb
unfoldable pub free_pcb : ℕ → Cmd (Unit {0})
free_pcb p = relink λ σ. ok (Clist.enqueue (p_list p) pcb_free σ)

-- insertProcQ
unfoldable pub insert_proc_q : Loc → ℕ → Cmd (Unit {0})
insert_proc_q q p = relink λ σ. ok (Clist.enqueue (p_list p) q σ)

-- removeProcQ
unfoldable pub remove_proc_q : Loc → Cmd (Option ℕ)
remove_proc_q q = do
  empty ← ask λ k. Clist.is_empty q k.links
  if empty then pure none else do
    first ← ask λ k. Clist.head q k.links
    relink (Clist.dequeue q)
    link ← need first
    p ← need (pcb_of link)
    pure (some p)

-- outProcQ: the loop with its deletion is Clist.Remove.remove.
unfoldable pub out_proc_q : Loc → ℕ → Cmd (Option ℕ)
unfolding remove is
out_proc_q q p = do
  σ ← ask λ k. k.links
  (σ', found) ← lift (remove rounds (p_list p) q σ)
  modify λ k. record k { links = σ' }
  pure (if found then some p else none)

-- headProcQ
unfoldable pub head_proc_q : Loc → Cmd (Option ℕ)
head_proc_q q = do
  empty ← ask λ k. Clist.is_empty q k.links
  if empty then pure none else do
    first ← ask λ k. Clist.head q k.links
    link ← need first
    p ← need (pcb_of link)
    pure (some p)

-- emptyChild
unfoldable pub empty_child : ℕ → Cmd Bool
empty_child p = ask λ k. Clist.is_empty (p_children p) k.links

-- insertChild
unfoldable pub insert_child : ℕ → ℕ → Cmd (Unit {0})
insert_child parent p = do
  modify_pcb p (λ b. record b { p_parent = some parent })
  relink λ σ. ok (Clist.enqueue (p_siblings p) (p_children parent) σ)

-- removeChild
unfoldable pub remove_child : ℕ → Cmd (Option ℕ)
unfolding empty_child
remove_child p = do
  empty ← empty_child p
  if empty then pure none else do
    first ← ask λ k. Clist.head (p_children p) k.links
    link ← need first
    child ← need (sibling_of link)
    relink (Clist.dequeue (p_children p))
    modify_pcb child (λ b. record b { p_parent = none })
    relink λ σ. ok (set_next σ (p_siblings child) none)
    pure (some child)

-- outChild
unfoldable pub out_child : ℕ → Cmd (Option ℕ)
out_child p = do
  parent ← ask λ k. (k.pcb p).p_parent
  elim parent [
    | none ↦ pure none
    | some q ↦ do
      σ ← ask λ k. k.links
      (σ', missing) ← lift (Clist.delete rounds (p_siblings p) (p_children q) σ)
      modify λ k. record k { links = σ' }
      if missing then pure none else do
        modify_pcb p (λ b. record b { p_parent = none })
        relink λ σ. ok (set_next σ (p_siblings p) none)
        pure (some p)
  ]

-- What a round of the loop in childByPid returns with: the child itself, or a call on it.
pub data Visit : Type 0 where
  found descend : ℕ → Visit
  bad : Visit

-- The body of the loop: `none` goes on to the next child.
unfoldable pub visit_child : ℕ → Kernel → Loc → Option Visit
visit_child pid k s = elim (sibling_of s) [
  | none ↦ some bad
  | some c ↦
      if (k.pcb c).p_pid == pid
      then some (found c)
      else if not (Clist.is_empty (p_children c) k.links)
      then some (descend c)
      else none
]

-- How the loop of childByPid was left.
unfoldable pub follow : (ℕ → Cmd (Option ℕ)) → Option Visit → Cmd (Option ℕ)
follow deeper none = pure none
follow deeper (some (found c)) = pure (some c)
follow deeper (some (descend c)) = deeper c
follow deeper (some bad) = failed

-- childByPid, with a bound on its depth
unfoldable pub child_by_pid : ℕ → ℕ → ℕ → Cmd (Option ℕ)
unfolding empty_child visit_child follow
child_by_pid zero p pid = λ k. diverge
child_by_pid (suc fuel) p pid = do
  empty ← empty_child p
  if empty then pure none else do
    k ← ask λ k. k
    s ← lift (Clist.foreach (visit_child pid k) (p_children p) k.links rounds)
    follow (λ c. child_by_pid fuel c pid) s.broke
