-- ===== src/Nucleus/Boot.antt =====
-- main brings the nucleus in order.
use jae_so.Common.{ℕ, zero, suc, ◌+◌, ◌-◌, ◌≡◌, ◌≢◌, refl, ◌∙◌, none, map}
use jae_so.Memory.{Loc, p_list, s_link, semd_free, ready_queue, pcb_free, set_next}
use jae_so.Clist.Fill.{upto, fill}
use jae_so.Clist.Ring.{IsClist, IsClist-set, Fresh-map}
use jae_so.Kernel.Arch.{Arch, n_dev_types}
use jae_so.Kernel.Machine.{Kernel, max_proc, pseudo_clock, set_word}
use jae_so.Kernel.Rules.{Stops-done, Stops-returned}
use jae_so.Pcb.{init_pcbs}
use jae_so.Asl.{init_asl}
use jae_so.Common.Int.{pos}
use jae_so.Pcb.FreeList.{init_pcbs-fill}
use jae_so.Asl.Start.{init_asl-fill}
use jae_so.Boot.{main, init_new_area, clear_row, clear_rows, init_variables, start_init}
use jae_so.Nucleus.{IsOrdered, EndsOrdered, Settles}
use jae_so.Nucleus.Frame.{Frame, Frame-of, Frame-trans}
use jae_so.Nucleus.Schedule.{scheduler-IsOrdered}
use jae_so.Nucleus.Filled.{filled, filled_other, filled-free, filled-semds}
use jae_so.Nucleus.First.{Cold, set_next-none, start_init-IsOrdered}

-- Static memory before main, all zero: no pointer is set.
pub record IsCleared (k : Kernel) : Type 0 where
  pub links : (b : Loc) → k.links b ≡ none
  pub orphans : (x : ℕ) → (k.pcb x).p_parent ≡ none

-- The loops over the semaphores of the devices concern no list.
clear_row-Frame : (arch : Arch) (n i j : ℕ) (k : Kernel) → Frame k (clear_row arch i n j k)
unfolding clear_row
clear_row-Frame arch zero i j k = Frame-of k k refl refl refl refl refl refl
clear_row-Frame arch (suc n) i j k =
    let k1 : Kernel = set_word _ _ k in
    Frame-trans k k1 _ (Frame-of k k1 refl refl refl refl refl refl)
      (clear_row-Frame arch n i (j + 1) k1)

clear_rows-Frame : (arch : Arch) (n i : ℕ) (k : Kernel) → Frame k (clear_rows arch n i k)
unfolding clear_rows
clear_rows-Frame arch zero i k = Frame-of k k refl refl refl refl refl refl
clear_rows-Frame arch (suc n) i k =
    let k1 : Kernel = clear_row arch i (arch.n_dev_per_il - 1) 1 k in
    Frame-trans k k1 _ (clear_row-Frame arch (arch.n_dev_per_il - 1) i 1 k)
      (clear_rows-Frame arch n (i + 1) k1)

-- The variables of the nucleus, once the lists are filled.
set_up :
    (arch : Arch) (k : Kernel)
    → ((b : Loc)
        → b ≢ pcb_free
        → b ≢ semd_free
        → ((x : ℕ) → b ≢ p_list x)
        → ((x : ℕ) → b ≢ s_link x)
        → k.links b ≡ none)
    → IsClist k.links pcb_free (map p_list (upto max_proc 0))
    → IsClist k.links semd_free (map s_link (upto max_proc 0))
    → ((x : ℕ) → (k.pcb x).p_parent ≡ none)
    → Cold (init_variables arch k)
unfolding init_variables
set_up arch k rest free semds o =
    let k1 : Kernel = record k {
      process_count = 1;
      soft_block_count = 0;
      links = set_next k.links ready_queue none;
      current_process = none;
      last_update = 0;
      pseudo_clock_blk = pos 0;
      left_to_100 = pseudo_clock;
    } in
    let k2 : Kernel = clear_rows arch (n_dev_types arch - 1) 1 k1 in
    let f : Frame k1 k2 = clear_rows-Frame arch (n_dev_types arch - 1) 1 k1 in
    record {
      free = rw f.links (
          IsClist-set k.links ready_queue none pcb_free (map p_list (upto max_proc 0)) (λ q. cc)
            (Fresh-map ready_queue p_list (upto max_proc 0) λ x i q. cc) free);
      semds = rw f.links (
          IsClist-set k.links ready_queue none semd_free (map s_link (upto max_proc 0)) (λ q. cc)
            (Fresh-map ready_queue s_link (upto max_proc 0) λ x i q. cc) semds);
      rest = λ b n m s t. rw f.links (set_next-none k.links ready_queue b (rest b n m s t));
      current = f.current;
      count = f.count;
      orphans = λ x. f.parents x ∙ o x;
    }

pub main-IsOrdered : (arch : Arch) (k : Kernel) → IsCleared k → EndsOrdered (main arch k)
unfolding main
main-IsOrdered arch k c =
    let k1 : Kernel = record k {
      int_new = init_new_area arch arch.interrupt_handler_addr k.int_new;
      tlb_new = init_new_area arch arch.tlb_handler_addr k.tlb_new;
      pgm_new = init_new_area arch arch.pgm_trap_handler_addr k.pgm_new;
      sysbp_new = init_new_area arch arch.sys_bp_handler_addr k.sysbp_new;
    } in
    let k2 : Kernel = record k1 { links = fill p_list pcb_free max_proc 0 k.links } in
    let k3 : Kernel = record k1 { links = filled k.links c.links } in
    let d : Cold (init_variables arch k3) =
      set_up arch k3 (filled_other k.links c.links) (filled-free k.links c.links)
        (filled-semds k.links c.links) c.orphans in
    Stops-done Settles (init_pcbs k1) _ tt k2 (init_pcbs-fill k1) (
      Stops-done Settles (init_asl k2) _ tt k3 (init_asl-fill k2) (
        Stops-returned (λ _ k'. IsOrdered k') Settles (start_init arch (init_variables arch k3)) _
          (start_init-IsOrdered arch (init_variables arch k3) d)
          λ _ k' o. scheduler-IsOrdered arch k' o))
