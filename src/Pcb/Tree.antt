-- ===== src/Pcb/Tree.antt =====
-- insertChild, removeChild, outChild and childByPid: the children of a process.
use mathlib.Core.List.{map-append}
use jae_so.Common.{
  ℕ, suc, ◌≤◌, ◌<◌, ◌≡◌, refl, sym, ◌∙◌, true, false, Option, none, some, List, [], ◌∷◌, ◌++◌, map,
  arith, length, length-map, Fresh, Distinct, All, ◌==◌, In,
}
use jae_so.Memory.{Loc, Ptr, p_children, p_siblings, Links, set_next}
use jae_so.Clist.{enqueue, is_empty}
use jae_so.Clist.Ring.{IsClist, IsClist-set, set_next_other}
use jae_so.Clist.Queue.{enqueue-append, head-cons, is_empty-cons, is_empty-nil, dequeue-cons}
use jae_so.Clist.Search.{foreach-locate, locate-first, locate-next, locate}
use jae_so.Clist.Unlink.{erase, In-ne}
use jae_so.Clist.Remove.{delete-In}
use jae_so.Kernel.Machine.{Kernel, max_proc, set_pcb}
use jae_so.Kernel.Cmd.{done}
use jae_so.Pcb.{
  insert_child, remove_child, out_child, child_by_pid, visit_child, Visit, found, descend, follow,
}

-- The children of `p`, oldest first.
abbrev pub IsFamily : Kernel → ℕ → List ℕ → Type 0
IsFamily k p cs = IsClist k.links (p_children p) (map p_siblings cs)

abbrev pub set_parent : ℕ → Option ℕ → Kernel → Kernel
set_parent c parent k = set_pcb c (record (k.pcb c) { p_parent = parent }) k

-- insertChild of a process that is not among the well-formed children makes it the last child,
-- well formed, and sets its parent.
pub insert_child-append :
    (k : Kernel) (p c : ℕ) (cs : List ℕ)
    → IsFamily k p cs
    → Fresh (p_siblings c) (map p_siblings cs)
    → (σ : Links) × (insert_child p c k ≡ done tt (record (set_parent c (some p) k) { links = σ }))
      × IsClist σ (p_children p) (map p_siblings (cs ++ c ∷ []))
unfolding insert_child
insert_child-append k p c cs f n = (
  enqueue (p_siblings c) (p_children p) k.links,
  refl,
  rw (map-append p_siblings cs (c ∷ []))
      (enqueue-append k.links (p_children p) (p_siblings c) (map p_siblings cs) f (λ q. cc) n),
)

-- removeChild of a process with well-formed children returns the first child, which then has no
-- parent and no next sibling, and leaves the others as the children; every link but those
-- of the children is as it was.
pub remove_child-cons :
    (k : Kernel) (p c : ℕ) (cs : List ℕ)
    → IsFamily k p (c ∷ cs)
    → (σ : Links) × (remove_child p k ≡ done (some c) (record (set_parent c none k) { links = σ }))
      × IsClist σ (p_children p) (map p_siblings cs)
      × (σ (p_siblings c) ≡ none)
      × ((b : Loc) → Fresh b (p_children p ∷ map p_siblings (c ∷ cs)) → σ b ≡ k.links b)
unfolding remove_child
remove_child-cons k p c cs f =
    let d = dequeue-cons k.links (p_children p) (p_siblings c) (map p_siblings cs) f in
    (
      set_next d.0 (p_siblings c) none,
      rw (
        is_empty-cons k.links (p_children p) (p_siblings c) (map p_siblings cs) f,
        head-cons k.links (p_children p) (p_siblings c) (map p_siblings cs) f,
        d.1,
      ),
      IsClist-set d.0 (p_siblings c) none (p_children p) _ (λ q. cc) f.4.0 d.2,
      (unfold set_next in ground arith),
      λ b g. set_next_other d.0 (p_siblings c) b none g.1.0 ∙ d.3 b g,
    )

pub remove_child-nil : (k : Kernel) (p : ℕ) → IsFamily k p [] → remove_child p k ≡ done none k
unfolding remove_child
remove_child-nil k p f = rw (is_empty-nil k.links (p_children p) f)

Fresh-erase_self : (e : Loc) (xs : List Loc) → Distinct xs → Fresh e (erase e xs)
unfolding erase
Fresh-erase_self e [] d = tt
Fresh-erase_self e (x ∷ xs) d = ground (arith, Fresh-erase_self e xs d.1)

-- outChild of a process that is among the at most MAXPROC well-formed children of its parent
-- returns the process, which then has no parent and no next sibling; the children are then the old
-- ones without it, and every link but those of the children is as it was.
pub out_child-In :
    (k : Kernel) (p c : ℕ) (cs : List ℕ)
    → (k.pcb c).p_parent ≡ some p
    → length cs ≤ max_proc
    → IsFamily k p cs
    → Distinct (map p_siblings cs)
    → In (p_siblings c) (map p_siblings cs)
    → (σ : Links) × (out_child c k ≡ done (some c) (record (set_parent c none k) { links = σ }))
      × IsClist σ (p_children p) (erase (p_siblings c) (map p_siblings cs))
      × (σ (p_siblings c) ≡ none)
      × ((b : Loc) → Fresh b (p_children p ∷ map p_siblings cs) → σ b ≡ k.links b)
unfolding out_child
out_child-In k p c cs e l f u i =
    let r =
      delete-In k.links (p_children p) (p_siblings c) 22 (map p_siblings cs)
        (omega (arith, length-map p_siblings cs)) f i in
    (
      set_next r.0 (p_siblings c) none,
      rw (e, r.1),
      IsClist-set r.0 (p_siblings c) none (p_children p) _ (λ q. cc)
          (Fresh-erase_self (p_siblings c) (map p_siblings cs) u) r.2.clist,
      (unfold set_next in ground arith),
      λ b g.
          set_next_other r.0 (p_siblings c) b none
            (λ e. In-ne b (p_siblings c) (map p_siblings cs) i g.1 (sym e))
          ∙ r.2.same b g,
    )

-- A process with no parent is left alone.
pub out_child-none : (k : Kernel) (c : ℕ) → (k.pcb c).p_parent ≡ none → out_child c k ≡ done none k
unfolding out_child
out_child-none k c e = rw e

visit_child-descend :
    (k : Kernel) (c pid : ℕ)
    → ((k.pcb c).p_pid == pid) ≡ false
    → is_empty (p_children c) k.links ≡ false
    → visit_child pid k (p_siblings c) ≡ some (descend c)
unfolding visit_child
visit_child-descend k c pid ne kids = rw (ne, kids)

visit_child-found :
    (k : Kernel) (c pid : ℕ)
    → ((k.pcb c).p_pid == pid) ≡ true
    → visit_child pid k (p_siblings c) ≡ some (found c)
unfolding visit_child
visit_child-found k c pid e = rw e

child_by_pid-follow :
    (k : Kernel) (fuel p c : ℕ) (cs : List ℕ) (pid : ℕ) (v : Visit)
    → length cs < max_proc
    → IsFamily k p (c ∷ cs)
    → visit_child pid k (p_siblings c) ≡ some v
    → child_by_pid (suc fuel) p pid k ≡ follow (λ c. child_by_pid fuel c pid) (some v) k
unfolding child_by_pid
child_by_pid-follow k fuel p c cs pid v l f e = rw (
  is_empty-cons k.links (p_children p) (p_siblings c) (map p_siblings cs) f,
  foreach-locate (visit_child pid k) (p_children p) (p_siblings c) k.links 22 (map p_siblings cs)
      (omega (arith, length-map p_siblings cs)) f,
  locate-first (visit_child pid k) (p_siblings c) none (p_siblings c) (map p_siblings cs) e,
)

-- A first child with the pid is found.
pub child_by_pid-found :
    (k : Kernel) (fuel p c : ℕ) (cs : List ℕ) (pid : ℕ)
    → length cs < max_proc
    → IsFamily k p (c ∷ cs)
    → ((k.pcb c).p_pid == pid) ≡ true
    → child_by_pid (suc fuel) p pid k ≡ done (some c) k
unfolding follow
child_by_pid-found k fuel p c cs pid l f e =
    child_by_pid-follow k fuel p c cs pid (found c) l f (visit_child-found k c pid e)

-- A child with another pid and no children.
abbrev pub IsPassed : Kernel → ℕ → ℕ → Type 0
IsPassed k pid b = (((k.pcb b).p_pid == pid) ≡ false) × (is_empty (p_children b) k.links ≡ true)

visit_child-IsPassed :
    (k : Kernel) (pid b : ℕ) → IsPassed k pid b → visit_child pid k (p_siblings b) ≡ none
unfolding visit_child
visit_child-IsPassed k pid b (e, f) = rw (e, f) refl

-- The search comes to `c` when all before it are passed.
locate-IsPassed :
    (k : Kernel) (pid b c : ℕ) (bs cs : List ℕ) (first : Loc) (tmp : Ptr) (v : Visit)
    → All (IsPassed k pid) (b ∷ bs)
    → visit_child pid k (p_siblings c) ≡ some v
    → (locate (visit_child pid k) first tmp (p_siblings b) (map p_siblings (bs ++ c ∷ cs))).broke
      ≡ some v
locate-IsPassed k pid b c [] cs first tmp v (p, q) e =
    rw
      (locate-next (visit_child pid k) first tmp (p_siblings b) (p_siblings c) (map p_siblings cs)
        (visit_child-IsPassed k pid b p))
      (rw
        (locate-first (visit_child pid k) first (some (p_siblings b)) (p_siblings c)
          (map p_siblings cs) e)
        refl)
locate-IsPassed k pid b c (d ∷ ds) cs first tmp v (p, q) e =
    rw
      (locate-next (visit_child pid k) first tmp (p_siblings b) (p_siblings d)
        (map p_siblings (ds ++ c ∷ cs)) (visit_child-IsPassed k pid b p))
      (locate-IsPassed k pid d c ds cs first (some (p_siblings b)) v q e)

-- Of at most MAXPROC well-formed children, if the first ones have another pid and no children, and
-- the next has another pid and children of its own, childByPid's answer, NULL included, is its
-- answer for that child, whatever the later siblings are: they are not searched.
pub child_by_pid-first :
    (k : Kernel) (fuel p c : ℕ) (bs cs : List ℕ) (pid : ℕ)
    → length (bs ++ c ∷ cs) ≤ max_proc
    → IsFamily k p (bs ++ c ∷ cs)
    → All (IsPassed k pid) bs
    → ((k.pcb c).p_pid == pid) ≡ false
    → is_empty (p_children c) k.links ≡ false
    → child_by_pid (suc fuel) p pid k ≡ child_by_pid fuel c pid k
unfolding follow child_by_pid
child_by_pid-first k fuel p c [] cs pid l f a ne kids =
    child_by_pid-follow k fuel p c cs pid (descend c) (omega arith) f
      (visit_child-descend k c pid ne kids)
child_by_pid-first k fuel p c (b ∷ bs) cs pid l f a ne kids = rw (
  is_empty-cons k.links (p_children p) (p_siblings b) (map p_siblings (bs ++ c ∷ cs)) f,
  foreach-locate (visit_child pid k) (p_children p) (p_siblings b) k.links 22
      (map p_siblings (bs ++ c ∷ cs)) (omega (arith, l, length-map p_siblings (bs ++ c ∷ cs))) f,
  locate-IsPassed k pid b c bs cs (p_siblings b) none (descend c) a
      (visit_child-descend k c pid ne kids),
)
