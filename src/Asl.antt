-- ===== src/Asl.antt =====
-- src/asl.c: the active semaphore list, in ascending order of the semaphores' addresses, and the
-- free descriptors.
pub mod Find
pub mod Release
pub mod Remove
pub mod Out
pub mod Head
pub mod Place
pub mod Insert
pub mod Order
pub mod Start
pub mod Roundtrip
use jae_so.Common.{
  ℕ, zero, suc, ◌+◌, Bool, true, false, Option, none, some, if◌then◌else◌, ◌==◌, ltb, not, ◌||◌,
}
use jae_so.Memory.{Loc, Ptr, p_list, s_link, s_procq, aslh, semd_free, Links, set_next}
use jae_so.Clist
use jae_so.Clist.{Result, ok, fault, Scan}
use jae_so.Kernel.Machine.{Kernel, Pcb, max_proc, pcb_of, semd_of, update}
use jae_so.Kernel.Cmd.{
  Cmd, pure, failed, ask, need, lift, modify, relink, modify_pcb, when, ◌>>=◌, ◌>>◌,
}
use jae_so.Pcb.{rounds, out_proc_q, head_proc_q}

-- The body of the searches for a semaphore: a break with `flag`, or `none` to go on.
unfoldable pub find_body : ℕ → Kernel → Loc → Option (Result Bool)
find_body sem k s = elim (semd_of s) [
  | none ↦ some fault
  | some d ↦
      if k.sem_add d == sem
      then some (ok true)
      else if ltb sem (k.sem_add d)
      then some (ok false)
      else none
]

-- The descriptor at `l_scan` when the search has ended, or `none` where the functions test
-- `(flag == 0) || clist_foreach_all(…)`.
unfoldable pub found_semd : Scan (Result Bool) → Cmd (Option ℕ)
found_semd s = do
  flag ← elim s.broke [ none ↦ pure false | some r ↦ lift r ]
  all ← ask λ k. Clist.foreach_all s.tmp aslh k.links
  if not flag || all
      then pure none
      else do link ← need s.scan; d ← need (semd_of link); pure (some d)

-- The search that insertBlocked, removeBlocked and headBlocked begin with.
unfoldable pub find_semd : ℕ → Cmd (Option ℕ)
unfolding find_body found_semd
find_semd sem = do
  k ← ask λ k. k
  s ← lift (Clist.foreach (find_body sem k) aslh k.links rounds)
  found_semd s

-- The body of the search for the place of a new descriptor.
unfoldable pub place_body : ℕ → Kernel → Loc → Option (Result (Unit {0}))
place_body sem k s = elim (semd_of s) [
  | none ↦ some fault
  | some d ↦ if ltb sem (k.sem_add d) then some (ok tt) else none
]

-- Lines 44 to 54 of insertBlocked: the descriptor goes before the first greater one, or at the end.
unfoldable pub place_semd : ℕ → ℕ → Cmd (Unit {0})
unfolding place_body
place_semd sem d = do
  k ← ask λ k. k
  s ← lift (Clist.foreach (place_body sem k) aslh k.links rounds)
  elim s.broke [
    | none ↦ pure tt
    | some r ↦ do lift r; at ← need s.scan; relink (Clist.foreach_add (s_link d) at s.tmp aslh)
  ]
  all ← ask λ k. Clist.foreach_all s.tmp aslh k.links
  when all (relink λ σ. ok (Clist.enqueue (s_link d) aslh σ))

-- insertBlocked; 1 if there is no free descriptor
unfoldable pub insert_blocked : ℕ → ℕ → Cmd ℕ
unfolding find_semd place_semd
insert_blocked sem p = do
  known ← find_semd sem
  elim known [
    | some d ↦ do
      relink λ σ. ok (Clist.enqueue (p_list p) (s_procq d) σ)
      modify_pcb p (λ b. record b { p_cursem = some d })
      pure 0
    | none ↦ do
      empty ← ask λ k. Clist.is_empty semd_free k.links
      if empty then pure 1 else do
        first ← ask λ k. Clist.head semd_free k.links
        elim first [
          | none ↦ pure 0
          | some link ↦ do
            d ← need (semd_of link)
            relink (Clist.dequeue semd_free)
            place_semd sem d
            modify λ k. record k { sem_add = update k.sem_add d sem }
            relink λ σ. ok (set_next σ (s_procq d) none)
            modify_pcb p (λ b. record b { p_cursem = some d })
            relink λ σ. ok (Clist.enqueue (p_list p) (s_procq d) σ)
            pure 0
        ]
  ]

-- The end of removeBlocked and outBlocked: a descriptor with no process goes back to the free list.
unfoldable pub release_semd : ℕ → Cmd (Unit {0})
release_semd d = do
  empty ← ask λ k. Clist.is_empty (s_procq d) k.links
  when empty (do
    σ ← ask λ k. k.links
    (σ', _) ← lift (Clist.delete rounds (s_link d) aslh σ)
    modify λ k. record k { links = σ' }
    relink λ σ. ok (Clist.enqueue (s_link d) semd_free σ))

-- removeBlocked
unfoldable pub remove_blocked : ℕ → Cmd (Option ℕ)
unfolding find_semd release_semd head_proc_q
remove_blocked sem = do
  known ← find_semd sem
  elim known [
    | none ↦ pure none
    | some d ↦ do
      result ← head_proc_q (s_procq d)
      relink (Clist.dequeue (s_procq d))
      release_semd d
      pure result
  ]

-- outBlocked
unfoldable pub out_blocked : ℕ → Cmd (Option ℕ)
unfolding release_semd out_proc_q
out_blocked p = do
  cursem ← ask λ k. (k.pcb p).p_cursem
  d ← need cursem
  r ← out_proc_q (s_procq d) p
  release_semd d
  pure r

-- headBlocked
unfoldable pub head_blocked : ℕ → Cmd (Option ℕ)
unfolding find_semd head_proc_q
head_blocked sem = do
  known ← find_semd sem
  elim known [
    | none ↦ pure none
    | some d ↦ do
      unlinked ← ask λ k. Clist.is_empty (s_link d) k.links
      if unlinked then pure none else head_proc_q (s_procq d)
  ]

-- The loop of initASL.
init_asl_loop : ℕ → ℕ → Links → Links
init_asl_loop zero i σ = σ
init_asl_loop (suc n) i σ = init_asl_loop n (i + 1) (Clist.enqueue (s_link i) semd_free σ)

-- initASL
unfoldable pub init_asl : Cmd (Unit {0})
unfolding init_asl_loop
init_asl = relink λ σ. ok (init_asl_loop max_proc 0 σ)
