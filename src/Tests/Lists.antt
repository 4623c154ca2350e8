-- ===== src/Tests/Lists.antt =====
-- Instances of the theorems on circular lists: a ready queue of the blocks 0, 1 and 2.
use jae_so.Common.{◌≡◌, refl, inl, inr, none, [], ◌∷◌, arith, false, true}
use jae_so.Memory.{p_list, ready_queue, Links}
use jae_so.Clist.{enqueue, foreach, delete, ok}
use jae_so.Clist.Ring.{IsClist}
use jae_so.Clist.Queue.{enqueue-append}
use jae_so.Clist.Search.{foreach-locate, locate}
use jae_so.Clist.Remove.{is, remove, remove-In, delete-In, Removed}

abbrev pub nothing : Links
nothing _ = none

abbrev pub one : Links
one = enqueue (p_list 0) ready_queue nothing

abbrev pub two : Links
two = enqueue (p_list 1) ready_queue one

abbrev pub three : Links
three = enqueue (p_list 2) ready_queue two

pub one-IsClist : IsClist one ready_queue (p_list 0 ∷ [])
one-IsClist = enqueue-append nothing ready_queue (p_list 0) [] refl (λ e. cc) tt

pub two-IsClist : IsClist two ready_queue (p_list 0 ∷ p_list 1 ∷ [])
two-IsClist =
    enqueue-append one ready_queue (p_list 1) (p_list 0 ∷ []) one-IsClist (λ e. cc)
      (ground arith, tt)

pub three-IsClist : IsClist three ready_queue (p_list 0 ∷ p_list 1 ∷ p_list 2 ∷ [])
three-IsClist =
    enqueue-append two ready_queue (p_list 2) (p_list 0 ∷ p_list 1 ∷ []) two-IsClist (λ e. cc)
      (ground arith, (ground arith, tt))

foreach-locate_example :
    foreach (is (p_list 1)) ready_queue three 22
    ≡ ok (locate (is (p_list 1)) (p_list 0) none (p_list 0) (p_list 1 ∷ p_list 2 ∷ []))
foreach-locate_example =
    foreach-locate (is (p_list 1)) ready_queue (p_list 0) three 22 (p_list 1 ∷ p_list 2 ∷ [])
      (omega arith) three-IsClist

-- The last element, so that the tail pointer moves.
remove-In_example :
    (σ : Links) × (remove 22 (p_list 2) ready_queue three ≡ ok (σ, true))
    × Removed three ready_queue (p_list 2) (p_list 0 ∷ p_list 1 ∷ p_list 2 ∷ []) σ
remove-In_example =
    remove-In three ready_queue (p_list 2) 22 (p_list 0 ∷ p_list 1 ∷ p_list 2 ∷ []) (omega arith)
      three-IsClist (inr (inr (inl refl)))

delete-In_example :
    (σ : Links) × (delete 22 (p_list 1) ready_queue three ≡ ok (σ, false))
    × Removed three ready_queue (p_list 1) (p_list 0 ∷ p_list 1 ∷ p_list 2 ∷ []) σ
delete-In_example =
    delete-In three ready_queue (p_list 1) 22 (p_list 0 ∷ p_list 1 ∷ p_list 2 ∷ []) (omega arith)
      three-IsClist (inr (inl refl))
