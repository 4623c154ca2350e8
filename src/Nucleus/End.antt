-- ===== src/Nucleus/End.antt =====
-- When terminateProcess keeps the nucleus in order, said of the memory alone.
use jae_so.Common.{ℕ, ◌≡◌, ◌≢◌, refl, sym, ◌∙◌, inl, inr, ◌⊎◌, some, none, List, In, subst}
use jae_so.Memory.{p_list, s_link, s_procq, aslh}
use jae_so.Clist.Unique.{IsClist-unique_map}
use jae_so.Kernel.Arch.{Arch}
use jae_so.Kernel.Machine.{Kernel}
use jae_so.Kernel.Cmd.{Returns}
use jae_so.Kernel.Rules.{Returns-weaken}
use jae_so.Pcb.Queue.{IsQueue}
use jae_so.Asl.Find.{IsActive}
use jae_so.Syscalls.Process.{terminate_process}
use jae_so.Nucleus.{View, Place, IsNucleus, IsOrdered, IsNucleus-agree}
use jae_so.Nucleus.Family.{Descends, here, below}
use jae_so.Nucleus.Frame.{Frame}
use jae_so.Nucleus.Leave.{idle, IsHonest}
use jae_so.Nucleus.Terminate.{Terminated, itself, other, nobody, terminate_process-Terminated}

-- `x` is `p`, or its parent is, or the parent of that, and so on.
pub data Lineage (k : Kernel) (p : ℕ) : ℕ → Type 0 where
  founder : Lineage k p p
  heir : {x q : ℕ} → (k.pcb x).p_parent ≡ some q → Lineage k p q → Lineage k p x

-- The process is in the queue of the descriptor `d`, which is active.
pub record Waits (k : Kernel) (x d : ℕ) : Type 0 where
  pub active : List ℕ
  pub waiting : List ℕ
  pub listed : IsActive k active
  pub queued : IsQueue k (s_procq d) waiting
  pub semaphore : In d active
  pub process : In x waiting

-- Of `p` and its descendants, those that have a semaphore in their block wait there: none has been
-- blocked and woken again.
abbrev pub MayEnd : Kernel → ℕ → Type 0
MayEnd k p = (x d : ℕ) → Lineage k p x → (k.pcb x).p_cursem ≡ some d → Waits k x d

Lineage-below :
    (k : Kernel) (p c x : ℕ) → (k.pcb c).p_parent ≡ some p → Lineage k c x → Lineage k p x
Lineage-below k p c _ e founder = heir e founder
Lineage-below k p c x e (heir {q = q} f l) = heir f (Lineage-below k p c q e l)

Lineage-of_Descends :
    (v : View) (k : Kernel) (x p : ℕ) → IsNucleus v k → Descends v.children x p → Lineage k p x
Lineage-of_Descends v k x _ n here = founder
Lineage-of_Descends v k x p n (below {c = c} i d) =
    Lineage-below k p c x (n.parents p c i) (Lineage-of_Descends v k x c n d)

Waits-view :
    (v : View) (k : Kernel) (x d : ℕ)
    → IsNucleus v k
    → Waits k x d
    → In d v.active × In x (v.queue d)
Waits-view v k x d n w =
    let a : w.active ≡ v.active =
      IsClist-unique_map k.links aslh s_link w.active v.active (λ x y e. cc) w.listed n.active in
    let i : In d v.active = subst (In d) a w.semaphore in
    let q : w.waiting ≡ v.queue d =
      IsClist-unique_map k.links (s_procq d) p_list w.waiting (v.queue d) (λ x y e. cc) w.queued
        (n.queue d i) in
    (i, subst (In x) q w.process)

MayEnd-IsHonest :
    (v : View) (k : Kernel) (p x : ℕ)
    → IsNucleus v k
    → MayEnd k p
    → Descends v.children x p
    → IsHonest v k x
MayEnd-IsHonest v k p x n m d u a e =
    Waits-view v k x a n (m x a (Lineage-of_Descends v k x p n d) e)

ended :
    (v : View) (k : Kernel) (p pid : ℕ) (k' : Kernel)
    → IsNucleus v k
    → Terminated v k p pid k'
    → IsOrdered k'
ended v k p pid k' n (itself v' e w c) = (
  v',
  IsNucleus-agree v' (idle k') k' refl refl (λ x. refl) (λ x. refl)
      (λ x f. let z : none ≡ some x = sym c ∙ f in cc) refl w.ordered,
)
ended v k p pid k' n (other c v' m d e w u r) = (
  v',
  IsNucleus-agree v' (idle k') k' refl refl (λ x. refl) (λ x. refl)
      (λ x f. let z : some p ≡ some x = sym u ∙ f in subst (λ y. v'.place y ≡ Place.running) (cc) r)
      refl w.ordered,
)
ended v k p pid k' n (nobody m a e) = (v, rw e n)

-- With a process running on a nucleus in order that has no descendant, and is itself none, with a
-- semaphore in its block on which it does not wait (MayEnd), terminateProcess of any identifier
-- returns and leaves the nucleus in order.
pub terminate_process-IsOrdered :
    (arch : Arch) (pid p : ℕ) (k : Kernel)
    → IsOrdered k
    → k.current_process ≡ some p
    → MayEnd k p
    → Returns (λ _ k'. IsOrdered k') (terminate_process arch pid k)
terminate_process-IsOrdered arch pid p k (v, n) c m =
    Returns-weaken (λ _ k'. Terminated v k p pid k') (λ _ k'. IsOrdered k')
      (terminate_process arch pid k)
      (terminate_process-Terminated arch v k p n c (λ x d. MayEnd-IsHonest v k p x n m d) pid)
      λ _ k' t. ended v k p pid k' n t

Lineage-Frame : (k k' : Kernel) (p x : ℕ) → Frame k k' → Lineage k' p x → Lineage k p x
Lineage-Frame k k' p _ f founder = founder
Lineage-Frame k k' p x f (heir {q = q} e l) =
    heir (sym (f.parents x) ∙ e) (Lineage-Frame k k' p q f l)

pub MayEnd-Frame : (k k' : Kernel) (p : ℕ) → Frame k k' → MayEnd k p → MayEnd k' p
MayEnd-Frame k k' p f m x d l e =
    let w = m x d (Lineage-Frame k k' p x f l) (sym (f.sems x) ∙ e) in
    record {
      active = w.active;
      waiting = w.waiting;
      listed = rw f.links w.listed;
      queued = rw f.links w.queued;
      semaphore = w.semaphore;
      process = w.process;
    }

-- A process handles an exception itself, or may be ended.
abbrev pub HandlesOrEnds : Kernel → ℕ → ℕ → Type 0
HandlesOrEnds k p pc = (pc ≢ 0) ⊎ MayEnd k p

pub HandlesOrEnds-Frame :
    (k k' : Kernel) (p pc pc' : ℕ)
    → Frame k k'
    → pc' ≡ pc
    → HandlesOrEnds k p pc
    → HandlesOrEnds k' p pc'
HandlesOrEnds-Frame k k' p pc pc' f e (inl n) = inl (λ q. n (sym e ∙ q))
HandlesOrEnds-Frame k k' p pc pc' f e (inr m) = inr (MayEnd-Frame k k' p f m)
