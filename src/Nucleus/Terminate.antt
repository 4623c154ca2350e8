-- ===== src/Nucleus/Terminate.antt =====
-- terminateProcess: a process is ended with all its descendants, and the nucleus stays in order.
use jae_so.Common.{
  ℕ, ◌<◌, ◌≡◌, ◌≢◌, ◌⊎◌, inl, inr, true, false, List, ◌∷◌, map, refl, sym, ap, ◌∙◌, none, some,
  Option, [], arith, In, ℕ_discrete, ◌==◌, not,
}
use jae_so.Memory.{p_children, p_siblings}
use jae_so.Clist.{is_empty}
use jae_so.Clist.Queue.{is_empty-cons}
use jae_so.Kernel.Arch.{Arch}
use jae_so.Kernel.Machine.{Kernel, max_proc}
use jae_so.Kernel.Cmd.{pure, done, Cmd, Returns, need, modify}
use jae_so.Kernel.Rules.{need-some, Returns-and_then, Returns-if, Returns-done, Returns-weaken}
use jae_so.Pcb.{rounds, empty_child, child_by_pid}
use jae_so.Syscalls.Process.{terminate_progeny, terminate_process}
use jae_so.Nucleus.{View, IsNucleus, IsNucleus-agree, running, unused}
use jae_so.Nucleus.Leave.{idle, IsHonest}
use jae_so.Nucleus.Family.{Descends, Descends-level, Descends-append, Descends-trans}
use jae_so.Nucleus.Child.{v1}
use jae_so.Nucleus.Sweep.{Swept, Sweeps, alone, terminate_progeny-Swept}
use jae_so.Nucleus.Lookup.{Answer, absent, present, child_by_pid-Answer}

-- What terminateProcess of `pid` leaves when `p` runs: for 0, `p` and its descendants are ended, and
-- no process runs; otherwise a descendant with the identifier is ended with its own, or, where `p` has no
-- children or childByPid finds none, nothing is changed.
pub data Terminated (v : View) (k : Kernel) (p pid : ℕ) (k' : Kernel) : Type 0 where
  itself :
      (v' : View) → pid ≡ 0 → Swept v p v' k' → k'.current_process ≡ none → Terminated v k p pid k'
  other :
      (c : ℕ) (v' : View)
      → pid ≢ 0
      → Descends v.children c p
      → (k.pcb c).p_pid ≡ pid
      → Swept v c v' k'
      → k'.current_process ≡ some p
      → v'.place p ≡ running
      → Terminated v k p pid k'
  nobody :
      pid ≢ 0
      → (v.children p ≡ []) ⊎ (child_by_pid rounds p pid k ≡ done none k)
      → k' ≡ k
      → Terminated v k p pid k'

module _ (arch : Arch) (v : View) (k : Kernel) (p : ℕ) (n : IsNucleus v k)
    (current : k.current_process ≡ some p)
    (honest : (x : ℕ) → Descends v.children x p → IsHonest v k x) where
  resting : IsNucleus v (idle k)
  resting =
      IsNucleus-agree v k (idle k) refl refl (λ x. refl) (λ x. refl)
        (λ x e. let z : none ≡ some x = e in cc) refl n

  low : p < max_proc
  low = n.bound p (λ e. let z = n.at_current p current in cc)

  used : (x : ℕ) → In x v.blocks → x ≢ p
  used x i e =
      let z : unused ≡ running = sym (n.at_blocks x i) ∙ ap v.place e ∙ n.at_current p current in cc

  -- The process itself.
  pub ended_self : Returns (λ _ k'. Terminated v k p 0 k') (terminate_process arch 0 k)
  unfolding terminate_process
  ended_self =
      Returns-done (λ _ k'. Terminated v k p 0 k') (need k.current_process k) _ p k
        (need-some k.current_process p k current)
        (Returns-and_then (λ _ k1. Sweeps v k p k1) (λ _ k'. Terminated v k p 0 k')
          (terminate_progeny arch rounds p k) (λ _. modify λ k. record k { current_process = none })
          (terminate_progeny-Swept arch v k p resting low used honest)
          λ _ k1 (v1, w, c).
            itself v1 refl
              (record {
                ordered = w.ordered;
                freed = w.freed;
                kept = w.kept;
                only = w.only;
                places = w.places;
              })
              refl)

  -- A descendant.
  ended_child :
      (pid : ℕ) (r : Option ℕ)
      → pid ≢ 0
      → Answer v k pid p r
      → child_by_pid rounds p pid k ≡ done r k
      → Returns
          (λ _ k'. Terminated v k p pid k')
          ((elim r as (λ _. Cmd (Unit {0})) [
            | none ↦ pure tt
            | some c ↦ terminate_progeny arch rounds c
          ])
            k)
  ended_child pid none m absent f = nobody m (inr f) refl
  ended_child pid (some _) m (present c q i d e) f =
      let l : v.level p < v.level c = omega (arith, n.levels q c i, Descends-level n q p d) in
      Returns-weaken (λ _ k'. Sweeps v k c k') (λ _ k'. Terminated v k p pid k')
        (terminate_progeny arch rounds c k)
        (terminate_progeny-Swept arch v k c resting (n.small q c i)
          (λ x j w.
            let z : none ≡ some q =
              sym (n.orphans x j) ∙ ap (λ y. (k.pcb y).p_parent) w ∙ n.parents q c i in
            cc)
          (λ x j.
            honest x (Descends-trans v.children x c p j (Descends-append v.children c q p i d))))
        λ _ k' (v', w, u).
          other c v' m (Descends-append v.children c q p i d) e w (u ∙ current)
            (w.places p l ∙ n.at_current p current)

  no_children : not (is_empty (p_children p) k.links) ≡ false → v.children p ≡ []
  no_children u = go (v.children p) refl
    where
      go : (cs : List ℕ) → v.children p ≡ cs → v.children p ≡ []
      go [] e = e
      go (x ∷ xs) e =
          let t : is_empty (p_children p) k.links ≡ false =
            is_empty-cons k.links (p_children p) (p_siblings x) (map p_siblings xs)
              (rw e at (n.family p)) in
          let z : true ≡ false = ap not (sym t) ∙ u in cc

  ended_other :
      (pid : ℕ) → pid ≢ 0 → Returns (λ _ k'. Terminated v k p pid k') (terminate_process arch pid k)
  unfolding terminate_process empty_child
  ended_other pid m =
      let (r, e, a) = child_by_pid-Answer v k pid rounds p [] (omega arith) (alone v p low) n in
      let T : Unit {0} → Kernel → Type 0 = λ _ k'. Terminated v k p pid k' in
      Returns-if T (not (pid == 0)) _ _ k
        (λ t.
          Returns-done T (need k.current_process k) _ p k (need-some k.current_process p k current)
            (Returns-if T (not (is_empty (p_children p) k.links)) _ (pure tt) k
              (λ u. Returns-done T (child_by_pid rounds p pid k) _ r k e (ended_child pid r m a e))
              (λ u. nobody m (inl (no_children u)) refl)))
        (λ t. absurd (m (ground arith)))

  -- With a process running on a nucleus in order, when every block in use of one of its
  -- descendants, or its own, that has a semaphore in it waits there, terminateProcess of any
  -- identifier returns. For 0, the blocks of the running process and its descendants are then
  -- free, no others have been freed, and no process runs. For another identifier, either a
  -- descendant with it has been ended in the same way, with its own, and the running process still
  -- runs, or the running process has no children, or childByPid finds none, and nothing is
  -- changed. The nucleus is in order after it.
  pub terminate_process-Terminated :
      (pid : ℕ) → Returns (λ _ k'. Terminated v k p pid k') (terminate_process arch pid k)
  terminate_process-Terminated pid = elim (ℕ_discrete pid 0) [
    | yes e ↦ rw e ended_self
    | no m ↦ ended_other pid m
  ]
