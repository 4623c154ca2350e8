-- ===== src/Nucleus/Retire.antt =====
-- The end of terminateProgeny for one process, wherever it is.
use jae_so.Common.{
  ℕ, ◌≡◌, ◌≢◌, refl, sym, ap, ◌∙◌, inl, inr, none, some, Option, [], map, In, arith, ne→==, ==_refl,
  ℕ_discrete, Fresh,
}
use jae_so.Common.Without.{without, without-In}
use jae_so.Memory.{p_list, ready_queue, Links}
use jae_so.Clist.Ring.{Fresh-map, ne_of_Fresh}
use jae_so.Clist.Map.{erase-map}
use jae_so.Clist.Unlink.{Fresh-or-In}
use jae_so.Kernel.Arch.{Arch}
use jae_so.Kernel.Machine.{Kernel}
use jae_so.Kernel.Cmd.{Returns}
use jae_so.Pcb.Queue.{out_proc_q-In, out_proc_q-Fresh}
use jae_so.Asl.Out.{out_blocked-Out}
use jae_so.Syscalls.Process.{terminate_one}
use jae_so.Nucleus.{View, IsNucleus, IsNucleus-agree, Place, blocked}
use jae_so.Nucleus.Room.{queue_le, ready_le}
use jae_so.Nucleus.Freed.{IsLoose, freed_view}
use jae_so.Nucleus.Leave.{
  idle, IsHonest, Retired, Dying, ready_run, uncounted, waiting_run, freeing, In-active_after,
  finish,
}
use jae_so.Nucleus.Unready.{Unready, unready_view, remaining, unready-IsNucleus}
use jae_so.Nucleus.Unqueue.{unqueued_view, unqueued-IsNucleus, unqueued-other}

module _ (arch : Arch) (v : View) (k : Kernel) (p : ℕ) (n : IsNucleus v (idle k))
    (y : Dying v k p) where
  -- It is not blocked.
  module _ (e : (k.pcb p).p_cursem ≡ none) where
    not_waiting : (d x : ℕ) → In d v.active → In x (v.queue d) → x ≢ p
    not_waiting d x i j q =
        let z : none ≡ some d = sym e ∙ ap (λ a. (k.pcb a).p_cursem) (sym q) ∙ n.waits d x i j in cc

    retire_stray :
        Fresh (p_list p) (map p_list v.ready_list)
        → Returns (λ _ k'. (v' : View) × Retired v k p v' k') (terminate_one arch p k)
    retire_stray s =
        let loose : IsLoose v p = record {
          not_ready = λ x i q. ne_of_Fresh (p_list p) p_list x v.ready_list s i (ap p_list q);
          not_waiting = not_waiting;
          not_free = y.used;
        } in
        let f = freeing v k p n y.used in
        rw
          (ready_run arch k p none k.links f.0 e
            (out_proc_q-Fresh k ready_queue p v.ready_list (ready_le n) n.ready s) f.1)
          (freed_view p v, finish arch v k p n y v k f.0 n loose f.2 refl refl refl (λ x m h. h))

    retire_ready :
        In (p_list p) (map p_list v.ready_list)
        → Returns (λ _ k'. (v' : View) × Retired v k p v' k') (terminate_one arch p k)
    retire_ready i =
        let r = out_proc_q-In k ready_queue p v.ready_list (ready_le n) n.ready i in
        let k1 : Kernel = record k { links = r.0 } in
        let u : Unready v (idle k) p r.0 = record {
          ready = rw (← erase-map p_list (λ x y e. cc) p v.ready_list) r.2.clist;
          same = λ b m s. r.2.same b (m, Fresh-map b p_list v.ready_list s);
        } in
        let loose : IsLoose (unready_view p v) p = record {
          not_ready = λ x i. (remaining n u x i).1;
          not_waiting = not_waiting;
          not_free = y.used;
        } in
        let n1 : IsNucleus (unready_view p v) (idle k1) = unready-IsNucleus n u in
        let f = freeing (unready_view p v) k1 p n1 y.used in
        rw (ready_run arch k p (some p) r.0 f.0 e r.1 f.1) (
          freed_view p (unready_view p v),
          finish arch v k p n y (unready_view p v) k1 f.0 n1 loose f.2 refl refl refl (λ x m h. h),
        )

  -- It is blocked at `d`.
  module _ (d : ℕ) (e : (k.pcb p).p_cursem ≡ some d) where
    abbrev here : In d v.active × In p (v.queue d)
    here = y.honest y.used d e

    still_waits :
        (σ : Links) (x : ℕ)
        → x ≢ p
        → IsHonest v k x
        → IsHonest (unqueued_view d p v) (record (uncounted arch d k) { links = σ }) x
    still_waits σ x m h u a q =
        let (i, j) = h u a q in
        elim (ℕ_discrete a d) [
          | yes r ↦
              let l : In x (without p (v.queue d)) = without-In p x (v.queue d) (rw r at j) m in
              (
                In-active_after d a (without p (v.queue d)) v.active i
                    (λ z w. let t : In x [] = rw w at l in elim t [ ]),
                rw (r, ==_refl d) l,
              )
          | no r ↦ (
            In-active_after d a (without p (v.queue d)) v.active i (λ z. absurd (r z)),
            rw (ne→== a d r) j,
          )
        ]

    retire_waiting : Returns (λ _ k'. (v' : View) × Retired v k p v' k') (terminate_one arch p k)
    retire_waiting =
        let k0 : Kernel = uncounted arch d k in
        let o =
          out_blocked-Out k0 d p (v.queue d) v.active v.semds
            (record {
              few = omega (arith, n.total);
              active = n.active;
              member = here.0;
              free = n.semds;
              apart = n.apart;
            })
            e (queue_le n d here.0) (n.queue d here.0) here.1 in
        let k1 : Kernel = record k0 { links = o.0 } in
        let n0 : IsNucleus v (idle k0) =
          IsNucleus-agree v (idle k) (idle k0) refl refl (λ x. refl) (λ x. refl) n.at_current refl
            n in
        let w : View = unqueued_view d p v in
        let n1 : IsNucleus w (idle k1) = unqueued-IsNucleus n0 here.0 o.2 in
        let at : v.place p ≡ blocked d = n.at_queue d p here.0 here.1 in
        let loose : IsLoose w p = record {
          not_ready = λ x i q.
              let z : Place.ready ≡ blocked d = sym (n.at_ready x i) ∙ ap v.place q ∙ at in cc;
          not_waiting = unqueued-other n0 here.0 o.2 at;
          not_free = y.used;
        } in
        let f = freeing w k1 p n1 y.used in
        rw (waiting_run arch k p d (some p) o.0 f.0 e o.1 f.1) (
          freed_view p w,
          finish arch v k p n y w k1 f.0 n1 loose f.2 refl refl refl (still_waits o.0),
        )

  -- The end of terminateProgeny frees the block, wherever the process is.
  pub retire : Returns (λ _ k'. (v' : View) × Retired v k p v' k') (terminate_one arch p k)
  retire = go (k.pcb p).p_cursem refl
    where
      go :
          (c : Option ℕ)
          → (k.pcb p).p_cursem ≡ c
          → Returns (λ _ k'. (v' : View) × Retired v k p v' k') (terminate_one arch p k)
      go none e = elim (Fresh-or-In (p_list p) (map p_list v.ready_list)) [
        | inl s ↦ retire_stray e s
        | inr i ↦ retire_ready e i
      ]
      go (some d) e = retire_waiting d e
