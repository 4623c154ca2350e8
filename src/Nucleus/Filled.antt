-- ===== src/Nucleus/Filled.antt =====
-- The memory after initPcbs and initASL.
use jae_so.Common.{ℕ, ◌≡◌, ◌≢◌, ◌∙◌, none, [], map}
use jae_so.Memory.{Loc, p_list, s_link, semd_free, pcb_free, Links}
use jae_so.Clist.Fill.{upto, fill, fill-IsClist, fill-frame}
use jae_so.Clist.Ring.{IsClist, IsClist-agree_map}
use jae_so.Kernel.Machine.{max_proc}

module _ (σ : Links) (cleared : (b : Loc) → σ b ≡ none) where
  -- The links after initPcbs and initASL.
  abbrev pub filled : Links
  filled = fill s_link semd_free max_proc 0 (fill p_list pcb_free max_proc 0 σ)

  no_semds : fill p_list pcb_free max_proc 0 σ semd_free ≡ none
  no_semds =
      fill-frame p_list pcb_free (λ x y q. cc) (λ x q. cc) max_proc 0 [] σ semd_free
        (cleared pcb_free) tt (λ q. cc) (λ x q. cc)
      ∙ cleared semd_free

  semds_frame :
      (b : Loc)
      → b ≢ semd_free
      → ((x : ℕ) → b ≢ s_link x)
      → filled b ≡ fill p_list pcb_free max_proc 0 σ b
  semds_frame b n s =
      fill-frame s_link semd_free (λ x y q. cc) (λ x q. cc) max_proc 0 []
        (fill p_list pcb_free max_proc 0 σ) b no_semds tt n s

  pub filled_other :
      (b : Loc)
      → b ≢ pcb_free
      → b ≢ semd_free
      → ((x : ℕ) → b ≢ p_list x)
      → ((x : ℕ) → b ≢ s_link x)
      → filled b ≡ none
  filled_other b n m s t =
      semds_frame b m t
      ∙ fill-frame p_list pcb_free (λ x y q. cc) (λ x q. cc) max_proc 0 [] σ b (cleared pcb_free) tt
          n s
      ∙ cleared b

  pub filled-free : IsClist filled pcb_free (map p_list (upto max_proc 0))
  filled-free =
      IsClist-agree_map (fill p_list pcb_free max_proc 0 σ) filled pcb_free p_list (upto max_proc 0)
        (semds_frame pcb_free (λ q. cc) (λ x q. cc))
        (λ x i. semds_frame (p_list x) (λ q. cc) (λ y q. cc))
        (fill-IsClist p_list pcb_free (λ x y q. cc) (λ x q. cc) max_proc 0 [] σ (cleared pcb_free)
          tt)

  pub filled-semds : IsClist filled semd_free (map s_link (upto max_proc 0))
  filled-semds = fill-IsClist s_link semd_free (λ x y q. cc) (λ x q. cc) max_proc 0 [] _ no_semds tt
