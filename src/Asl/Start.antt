-- ===== src/Asl/Start.antt =====
-- initASL makes the list of free descriptors.
use jae_so.Common.{ℕ, zero, suc, ◌+◌, ◌≡◌, refl, ap, none, [], map}
use jae_so.Memory.{s_link, semd_free, Links}
use jae_so.Clist.{enqueue}
use jae_so.Clist.Fill.{upto, fill, fill-IsClist}
use jae_so.Clist.Ring.{IsClist}
use jae_so.Kernel.Machine.{Kernel, max_proc}
use jae_so.Kernel.Cmd.{done}
use jae_so.Asl.{init_asl, init_asl_loop}

init_asl_loop-fill : (n i : ℕ) (σ : Links) → init_asl_loop n i σ ≡ fill s_link semd_free n i σ
unfolding init_asl_loop fill
init_asl_loop-fill zero i σ = refl
init_asl_loop-fill (suc n) i σ = init_asl_loop-fill n (i + 1) (enqueue (s_link i) semd_free σ)

pub init_asl-fill :
    (k : Kernel)
    → init_asl k ≡ done tt (record k { links = fill s_link semd_free max_proc 0 k.links })
unfolding init_asl
init_asl-fill k = ap (λ σ. done tt (record k { links = σ })) (init_asl_loop-fill max_proc 0 k.links)

-- From an empty list of free descriptors, initASL makes a well-formed one of all MAXPROC.
pub init_asl_lem :
    (k : Kernel)
    → k.links semd_free ≡ none
    → (σ : Links) × (init_asl k ≡ done tt (record k { links = σ }))
      × IsClist σ semd_free (map s_link (upto max_proc 0))
init_asl_lem k e = (
  fill s_link semd_free max_proc 0 k.links,
  init_asl-fill k,
  fill-IsClist s_link semd_free (λ x y q. cc) (λ x q. cc) max_proc 0 [] k.links e tt,
)
