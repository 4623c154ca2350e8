-- ===== src/Nucleus/Lookup.antt =====
-- childByPid in a nucleus in order.
use jae_so.Common.{
  ℕ, zero, suc, ◌+◌, ◌≤◌, ◌≡◌, refl, inl, inr, ◌⊎◌, none, some, Option, List, [], ◌∷◌, map, arith,
  In, length, length-map, Bool-cases, ◌==◌,
}
use jae_so.Memory.{Loc, Ptr, p_children, p_siblings}
use jae_so.Clist.{is_empty}
use jae_so.Clist.Queue.{is_empty-nil, is_empty-cons}
use jae_so.Clist.Search.{locate, foreach-locate, locate-first, locate-next, locate-end}
use jae_so.Kernel.Machine.{Kernel, max_proc}
use jae_so.Kernel.Cmd.{Cmd, done}
use jae_so.Pcb.Tree.{IsFamily}
use jae_so.Pcb.{rounds, child_by_pid, visit_child, follow, Visit, found, descend, bad, empty_child}
use jae_so.Nucleus.{View, IsNucleus}
use jae_so.Nucleus.Family.{
  Descends, here, below, IsChain, IsChain-child, IsChain-length, children_le,
}

-- How the loop over the children `cs` ends.
pub data Visited (k : Kernel) (pid : ℕ) (cs : List ℕ) : Option Visit → Type 0 where
  passed : Visited k pid cs none
  hit : (c : ℕ) → In c cs → (k.pcb c).p_pid ≡ pid → Visited k pid cs (some (found c))
  down : (c : ℕ) → In c cs → Visited k pid cs (some (descend c))

Visited-cons :
    (k : Kernel) (pid c : ℕ) (cs : List ℕ) (w : Option Visit)
    → Visited k pid cs w
    → Visited k pid (c ∷ cs) w
Visited-cons k pid c cs w passed = passed
Visited-cons k pid c cs w (hit x i e) = hit x (inr i) e
Visited-cons k pid c cs w (down x i) = down x (inr i)

module _ (k : Kernel) (pid : ℕ) where
  -- One round of the loop.
  visit_cases :
      (y : ℕ)
      → ((visit_child pid k (p_siblings y) ≡ some (found y)) × ((k.pcb y).p_pid ≡ pid))
        ⊎ (visit_child pid k (p_siblings y) ≡ some (descend y))
        ⊎ (visit_child pid k (p_siblings y) ≡ none)
  unfolding visit_child
  visit_cases y = elim (Bool-cases ((k.pcb y).p_pid == pid)) [
    | inl e ↦ inl (rw e refl, ground arith)
    | inr e ↦ elim (Bool-cases (is_empty (p_children y) k.links)) [
      | inl f ↦ inr (inr (rw (e, f) refl))
      | inr f ↦ inr (inl (rw (e, f) refl))
    ]
  ]

  locate-Visited :
      (first : Loc) (tmp : Ptr) (y : ℕ) (ys : List ℕ)
      → Visited k pid
          (y ∷ ys)
          (locate (visit_child pid k) first tmp (p_siblings y) (map p_siblings ys)).broke
  locate-Visited first tmp y [] = elim (visit_cases y) [
    | inl (e, q) ↦
        rw (locate-first (visit_child pid k) first tmp (p_siblings y) [] e) (hit y (inl refl) q)
    | inr (inl e) ↦
        rw (locate-first (visit_child pid k) first tmp (p_siblings y) [] e) (down y (inl refl))
    | inr (inr e) ↦ rw (locate-end (visit_child pid k) first tmp (p_siblings y) e) passed
  ]
  locate-Visited first tmp y (z ∷ zs) = elim (visit_cases y) [
    | inl (e, q) ↦
        rw (locate-first (visit_child pid k) first tmp (p_siblings y) (map p_siblings (z ∷ zs)) e)
          (hit y (inl refl) q)
    | inr (inl e) ↦
        rw (locate-first (visit_child pid k) first tmp (p_siblings y) (map p_siblings (z ∷ zs)) e)
          (down y (inl refl))
    | inr (inr e) ↦
        rw
          (locate-next (visit_child pid k) first tmp (p_siblings y) (p_siblings z)
            (map p_siblings zs) e)
          (Visited-cons k pid y (z ∷ zs) _ (locate-Visited first (some (p_siblings y)) z zs))
  ]

-- What childByPid returns for `p`: NULL, or a descendant with the pid, and not `p` itself.
pub data Answer (v : View) (k : Kernel) (pid p : ℕ) : Option ℕ → Type 0 where
  absent : Answer v k pid p none
  present :
      (c q : ℕ)
      → In c (v.children q)
      → Descends v.children q p
      → (k.pcb c).p_pid ≡ pid
      → Answer v k pid p (some c)

Answer-below :
    (v : View) (k : Kernel) (pid p c : ℕ) (r : Option ℕ)
    → In c (v.children p)
    → Answer v k pid c r
    → Answer v k pid p r
Answer-below v k pid p c r i absent = absent
Answer-below v k pid p c r i (present x q j d e) = present x q j (below i d) e

abbrev pub Answers : View → Kernel → ℕ → ℕ → Cmd (Option ℕ) → Type 0
Answers v k pid p m = (r : Option ℕ) × (m k ≡ done r k) × Answer v k pid p r

-- From the way the loop was left.
follow-Answers :
    (v : View) (k : Kernel) (pid p : ℕ) (deeper : ℕ → Cmd (Option ℕ)) (w : Option Visit)
    → Visited k pid (v.children p) w
    → ((c : ℕ) → In c (v.children p) → Answers v k pid c (deeper c))
    → Answers v k pid p (follow deeper w)
unfolding follow
follow-Answers v k pid p deeper none passed h = (none, refl, absent)
follow-Answers v k pid p deeper (some (found _)) (hit c i e) h =
    (some c, refl, present c p i here e)
follow-Answers v k pid p deeper (some (descend _)) (down c i) h =
    let (r, e, a) = h c i in (r, e, Answer-below v k pid p c r i a)
follow-Answers v k pid p deeper (some bad) x h = elim x [ ]

-- The loop over the children.
loop-Answers :
    (v : View) (k : Kernel) (pid fuel p : ℕ) (cs : List ℕ)
    → IsNucleus v k
    → v.children p ≡ cs
    → ((c : ℕ) → In c (v.children p) → Answers v k pid c (child_by_pid fuel c pid))
    → Answers v k pid p (child_by_pid (suc fuel) p pid)
unfolding child_by_pid empty_child
loop-Answers v k pid fuel p [] n e h =
    (none, rw (is_empty-nil k.links (p_children p) (rw e at (n.family p))) refl, absent)
loop-Answers v k pid fuel p (c ∷ cs) n e h =
    let q : IsFamily k p (c ∷ cs) = rw e at (n.family p) in
    let l : length (c ∷ cs) ≤ max_proc = rw e at (children_le v k p n) in
    let w = locate (visit_child pid k) (p_siblings c) none (p_siblings c) (map p_siblings cs) in
    let (r, f, a) =
      follow-Answers v k pid p (λ c. child_by_pid fuel c pid) w.broke
        (rw e (locate-Visited k pid (p_siblings c) none c cs)) h in
    (
      r,
      rw
          (
            is_empty-cons k.links (p_children p) (p_siblings c) (map p_siblings cs) q,
            foreach-locate (visit_child pid k) (p_children p) (p_siblings c) k.links 22
                (map p_siblings cs) (omega (arith, l, length-map p_siblings cs)) q,
          )
          f,
      a,
    )

-- In a nucleus in order, childByPid of a process with the chain of its ancestors given, whose
-- bound on the depth and the length of that chain are together at least the bound that
-- terminateProcess uses, ends and returns NULL or a proper descendant that has the identifier, and
-- changes nothing.
pub child_by_pid-Answer :
    (v : View) (k : Kernel) (pid fuel p : ℕ) (above : List ℕ)
    → rounds ≤ fuel + length above
    → IsChain v.level p above
    → IsNucleus v k
    → Answers v k pid p (child_by_pid fuel p pid)
child_by_pid-Answer v k pid zero p above l h n =
    absurd (omega (arith, l, IsChain-length v.level p above h))
child_by_pid-Answer v k pid (suc fuel) p above l h n =
    loop-Answers v k pid fuel p (v.children p) n refl λ c i.
      child_by_pid-Answer v k pid fuel c (p ∷ above) (omega (arith, l))
        (IsChain-child v.level p c above (n.levels p c i) (n.small p c i) h) n
