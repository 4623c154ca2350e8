-- ===== src/Pcb/FreeList.antt =====
-- initPcbs, allocPcb and freePcb on the list of free blocks.
use jae_so.Common.{
  ℕ, zero, suc, ◌+◌, ◌≡◌, refl, ap, none, some, List, [], ◌∷◌, ◌++◌, map, arith, Fresh,
}
use mathlib.Core.List.{map-append}
use jae_so.Memory.{Loc, p_list, p_children, p_siblings, pcb_free, Links, set_next}
use jae_so.Clist.{enqueue}
use jae_so.Clist.Fill.{upto, fill, fill-IsClist}
use jae_so.Clist.Ring.{IsClist, Fresh-map, IsClist-set}
use jae_so.Clist.Queue.{
  enqueue-append, enqueue-frame, head-cons, is_empty-cons, is_empty-nil, dequeue-cons,
}
use jae_so.Kernel.Machine.{Kernel, zero_pcb, max_proc, update}
use jae_so.Kernel.Cmd.{done}
use jae_so.Pcb.{init_pcbs_loop, init_pcbs, alloc_pcb, free_pcb}

-- initPcbs fills the free list.
init_pcbs_loop-fill : (n i : ℕ) (σ : Links) → init_pcbs_loop n i σ ≡ fill p_list pcb_free n i σ
unfolding init_pcbs_loop fill
init_pcbs_loop-fill zero i σ = refl
init_pcbs_loop-fill (suc n) i σ = init_pcbs_loop-fill n (i + 1) (enqueue (p_list i) pcb_free σ)

pub init_pcbs-fill :
    (k : Kernel)
    → init_pcbs k ≡ done tt (record k { links = fill p_list pcb_free max_proc 0 k.links })
unfolding init_pcbs
init_pcbs-fill k =
    ap (λ σ. done tt (record k { links = σ })) (init_pcbs_loop-fill max_proc 0 k.links)

-- From an empty free list, initPcbs makes a well-formed one of all MAXPROC blocks, in the order of
-- the array, and changes nothing but links.
pub init_pcbs_lem :
    (k : Kernel)
    → k.links pcb_free ≡ none
    → (σ : Links) × (init_pcbs k ≡ done tt (record k { links = σ }))
      × IsClist σ pcb_free (map p_list (upto max_proc 0))
init_pcbs_lem k e = (
  fill p_list pcb_free max_proc 0 k.links,
  init_pcbs-fill k,
  fill-IsClist p_list pcb_free (λ x y q. cc) (λ x q. cc) max_proc 0 [] k.links e tt,
)

-- The links that allocPcb leaves: the block's own are cleared.
abbrev pub cleared : Links → ℕ → Links
cleared σ p =
    set_next (set_next (set_next σ (p_list p) none) (p_children p) none) (p_siblings p) none

-- What allocPcb does for the first block `p` of a free list `p ∷ xs`.
pub record Allocated (k : Kernel) (p : ℕ) (xs : List ℕ) (σ : Links) : Type 0 where
  pub run : alloc_pcb k ≡ done (some p) (record k { links = σ; pcb = update k.pcb p zero_pcb })
  pub free : IsClist σ pcb_free (map p_list xs)
  pub unlinked : (σ (p_list p) ≡ none) × (σ (p_children p) ≡ none) × (σ (p_siblings p) ≡ none)
  pub same :
      (b : Loc)
      → Fresh b (pcb_free ∷ p_children p ∷ p_siblings p ∷ map p_list (p ∷ xs))
      → σ b ≡ k.links b

-- allocPcb on a well-formed free list that is not empty returns its first block, filled with zeros
-- and its links cleared, and leaves the rest as the free list.
pub alloc_pcb-cons :
    (k : Kernel) (p : ℕ) (xs : List ℕ)
    → IsClist k.links pcb_free (map p_list (p ∷ xs))
    → (σ : Links) × Allocated k p xs σ
unfolding alloc_pcb
alloc_pcb-cons k p xs c =
    let d = dequeue-cons k.links pcb_free (p_list p) (map p_list xs) c in
    (
      cleared d.0 p,
      record {
        run = rw (
          is_empty-cons k.links pcb_free (p_list p) (map p_list xs) c,
          head-cons k.links pcb_free (p_list p) (map p_list xs) c,
          d.1,
        );
        free =
            IsClist-set _ (p_siblings p) none pcb_free _ (λ q. cc)
              (Fresh-map (p_siblings p) p_list xs (λ x i q. cc))
              (IsClist-set _ (p_children p) none pcb_free _ (λ q. cc)
                (Fresh-map (p_children p) p_list xs (λ x i q. cc))
                (IsClist-set d.0 (p_list p) none pcb_free _ (λ q. cc) c.4.0 d.2));
        unlinked = (unfold set_next in (ground arith, ground arith, ground arith));
        same = λ b f. (unfold set_next in ground (arith, d.3 b));
      },
    )

-- With no free block it returns NULL and changes nothing.
pub alloc_pcb-nil : (k : Kernel) → IsClist k.links pcb_free [] → alloc_pcb k ≡ done none k
unfolding alloc_pcb
alloc_pcb-nil k c = rw (is_empty-nil k.links pcb_free c)

-- freePcb of a block that is not in the well-formed free list puts it at the end, well formed.
pub free_pcb-append :
    (k : Kernel) (p : ℕ) (xs : List ℕ)
    → IsClist k.links pcb_free (map p_list xs)
    → Fresh (p_list p) (map p_list xs)
    → (σ : Links) × (free_pcb p k ≡ done tt (record k { links = σ }))
      × IsClist σ pcb_free (map p_list (xs ++ p ∷ []))
      × ((b : Loc) → Fresh b (pcb_free ∷ p_list p ∷ map p_list xs) → σ b ≡ k.links b)
unfolding free_pcb
free_pcb-append k p xs c f = (
  enqueue (p_list p) pcb_free k.links,
  refl,
  rw (map-append p_list xs (p ∷ []))
      (enqueue-append k.links pcb_free (p_list p) (map p_list xs) c (λ q. cc) f),
  λ b g. enqueue-frame k.links pcb_free (p_list p) b (map p_list xs) c g,
)
