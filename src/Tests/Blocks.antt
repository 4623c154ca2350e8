-- ===== src/Tests/Blocks.antt =====
-- Instances of the theorems on control blocks and semaphores.
use jae_so.Common.{
  ◌≡◌, refl, inl, inr, none, some, [], ◌∷◌, map, arith, Fresh, ◌==◌, if◌then◌else◌, false,
}
use jae_so.Memory.{Loc, p_list, p_children, p_siblings, s_link, pcb_free, aslh, Links}
use jae_so.Clist.{enqueue, is_empty}
use jae_so.Clist.Ring.{IsClist}
use jae_so.Clist.Queue.{enqueue-append, enqueue-frame}
use jae_so.Clist.Fill.{upto}
use jae_so.Clist.Unlink.{erase}
use jae_so.Kernel.Machine.{Kernel, max_proc}
use jae_so.Kernel.Cmd.{done}
use jae_so.Pcb.{init_pcbs, out_child, child_by_pid}
use jae_so.Pcb.FreeList.{init_pcbs_lem}
use jae_so.Pcb.Tree.{IsFamily, set_parent, out_child-In, child_by_pid-first}
use jae_so.Asl.{find_semd}
use jae_so.Asl.Find.{IsActive, seek, find_semd-seek}
use jae_so.Tests.Fixture.{power_on, exit_of}
use jae_so.Tests.Lists.{nothing, three}

init_pcbs_lem_example :
    (σ : Links) × (init_pcbs power_on ≡ done tt (record power_on { links = σ }))
    × IsClist σ pcb_free (map p_list (upto max_proc 0))
init_pcbs_lem_example = init_pcbs_lem power_on refl

-- Two free blocks, 4 and 5.
abbrev pub free_links : Links
free_links = enqueue (p_list 5) pcb_free (enqueue (p_list 4) pcb_free nothing)

pub free-IsClist : IsClist free_links pcb_free (p_list 4 ∷ p_list 5 ∷ [])
free-IsClist =
    enqueue-append _ pcb_free (p_list 5) (p_list 4 ∷ [])
      (enqueue-append nothing pcb_free (p_list 4) [] refl (λ e. cc) tt) (λ e. cc) (ground arith, tt)

-- Three processes ready.
abbrev pub with_ready : Kernel
with_ready = record power_on { links = three }

-- Block 0 has the children 1 and 2; their parent fields say so. Block 1 has the child 3.
abbrev pub family_links : Links
family_links = enqueue (p_siblings 2) (p_children 0) (enqueue (p_siblings 1) (p_children 0) nothing)

pub family-IsClist : IsClist family_links (p_children 0) (p_siblings 1 ∷ p_siblings 2 ∷ [])
family-IsClist =
    enqueue-append _ (p_children 0) (p_siblings 2) (p_siblings 1 ∷ [])
      (enqueue-append nothing (p_children 0) (p_siblings 1) [] refl (λ e. cc) tt) (λ e. cc)
      (ground arith, tt)

abbrev own_child : Links
own_child = enqueue (p_siblings 3) (p_children 1) nothing

abbrev pub with_family : Kernel
with_family = record power_on {
  links = own_child;
  pcb = λ p. record (power_on.pcb p) {
    p_pid = p;
    p_parent = if p == 1 then some 0 else if p == 2 then some 0 else none;
  };
}

with_family-IsFamily : IsFamily (record with_family { links = family_links }) 0 (1 ∷ 2 ∷ [])
with_family-IsFamily = family-IsClist

out_child-In_example :
    (σ : Links) × (out_child 2 (record with_family { links = family_links })
      ≡ done (some 2) (record (set_parent 2 none with_family) { links = σ }))
    × IsClist σ (p_children 0) (erase (p_siblings 2) (map p_siblings (1 ∷ 2 ∷ [])))
    × (σ (p_siblings 2) ≡ none)
    × ((b : Loc) → Fresh b (p_children 0 ∷ map p_siblings (1 ∷ 2 ∷ [])) → σ b ≡ family_links b)
out_child-In_example =
    out_child-In (record with_family { links = family_links }) 0 2 (1 ∷ 2 ∷ []) refl (omega arith)
      family-IsClist ((ground arith, tt), (tt, tt)) (inr (inl refl))

abbrev pub with_tree : Kernel
with_tree = record with_family {
  links = enqueue (p_siblings 2) (p_children 0) (enqueue (p_siblings 1) (p_children 0) own_child);
}

with_tree-IsFamily : IsFamily with_tree 0 (1 ∷ 2 ∷ [])
with_tree-IsFamily =
    enqueue-append _ (p_children 0) (p_siblings 2) (p_siblings 1 ∷ [])
      (enqueue-append own_child (p_children 0) (p_siblings 1) []
        (enqueue-frame nothing (p_children 1) (p_siblings 3) (p_children 0) [] refl
          (ground arith, ((λ e. cc), tt)))
        (λ e. cc) tt)
      (λ e. cc) (ground arith, tt)

with_tree-kids : is_empty (p_children 1) with_tree.links ≡ false
unfolding exit_of
with_tree-kids = refl

-- The child with pid 2 is not found: its sibling 1 has children.
child_by_pid-first_example : child_by_pid 22 0 2 with_tree ≡ child_by_pid 21 1 2 with_tree
child_by_pid-first_example =
    child_by_pid-first with_tree 21 0 1 [] (2 ∷ []) 2 (omega arith) with_tree-IsFamily tt refl
      with_tree-kids

-- Two active semaphores, at the addresses 100 and 200.
abbrev active_links : Links
active_links = enqueue (s_link 1) aslh (enqueue (s_link 0) aslh nothing)

abbrev pub with_active : Kernel
with_active = record power_on { links = active_links; sem_add = λ d. if d == 0 then 100 else 200 }

pub two_semds-IsActive : IsActive with_active (0 ∷ 1 ∷ [])
two_semds-IsActive =
    enqueue-append _ aslh (s_link 1) (s_link 0 ∷ [])
      (enqueue-append nothing aslh (s_link 0) [] refl (λ e. cc) tt) (λ e. cc) (ground arith, tt)

find_semd-seek_example : find_semd 200 with_active ≡ done (some 1) with_active
unfolding seek
find_semd-seek_example =
    find_semd-seek with_active 200 (0 ∷ 1 ∷ []) (omega arith) two_semds-IsActive
