-- ===== src/Nucleus/Wait.antt =====
-- A P keeps the nucleus in order, whether the caller waits or not.
use jae_so.Common.{
  ℕ, suc, ◌+◌, ◌≡◌, ◌≢◌, refl, sym, ap, ◌∙◌, inl, inr, none, some, List, [], ◌∷◌, ◌++◌, map, arith,
  length, In, Bool-cases, true, ℕ_discrete,
}
use jae_so.Common.Int.{pos, negsuc, ltb_ℤ}
use jae_so.Common.Without.{In-append, In-append_left, In-append_last}
use jae_so.Memory.{s_link, aslh, semd_free, Links}
use jae_so.Clist.Ring.{IsClist-agree, All-map, ne_of_Fresh}
use jae_so.Kernel.Arch.{Arch}
use jae_so.Kernel.Machine.{Kernel, Pcb, max_proc, update, set_word, update_self, update_other}
use jae_so.Kernel.Cmd.{Returns}
use jae_so.Kernel.Rules.{Returns-weaken}
use jae_so.Asl.Find.{seek}
use jae_so.Asl.Head.{head_blocked-none, Ascending-agree}
use jae_so.Asl.Insert.{CanEnrol, Enrolled, enrolled, insert_blocked-Enrolled}
use jae_so.Asl.Order.{In-placed, seek-absent, Ascending-placed, length-placed}
use jae_so.Asl.Place.{placed}
use jae_so.Asl.Remove.{seek-In}
use jae_so.Syscalls.Free.{semop-stored}
use jae_so.Syscalls.Park.{Parked, Stopped, semop-Parked, park-Stopped}
use jae_so.Syscalls.Semop.{semop, park, take_resources, sub_int}
use jae_so.Nucleus.{View, IsNucleus, IsOrdered, IsNucleus-agree, blocked, running}
use jae_so.Nucleus.Join.{Joined, joined_view, joined-IsNucleus}
use jae_so.Nucleus.Room.{semds_left}
use jae_so.Nucleus.Signal.{BlockedAt, who, few}

module _ (arch : Arch) (sem p : ℕ) (v : View) (k : Kernel) (n : IsNucleus v k)
    (runs : k.current_process ≡ some p) where
  -- The running process waits nowhere.
  not_waiting : (d x : ℕ) → In d v.active → In x (v.queue d) → p ≢ x
  not_waiting d x i j e =
      let z : running ≡ blocked d = sym (n.at_current p runs) ∙ ap v.place e ∙ n.at_queue d x i j in
      cc

  module _ (d q : ℕ) (qs : List ℕ) (here : In d v.active) (waiting : v.queue d ≡ q ∷ qs) where
    waits_here : (x : ℕ) → In x (q ∷ qs) → In x (v.queue d)
    waits_here x i = rw waiting i

    Parked-Joined :
        (m : ℕ) (k' : Kernel)
        → Parked arch (suc m) k sem d p q qs k'
        → Joined v k d p (q ∷ qs ++ p ∷ []) v.active v.semds k'
    Parked-Joined m k' s = record {
      active =
          IsClist-agree k.links k'.links aslh (map s_link v.active)
            (s.same aslh (λ e. cc) (λ x i e. cc))
            (All-map (λ b. k'.links b ≡ k.links b) s_link v.active
              λ x i. s.same (s_link x) (λ e. cc) (λ y j e. cc))
            n.active;
      ascending = Ascending-agree k k' v.active s.semaphores n.ascending;
      others = λ e i r. i;
      semds =
          IsClist-agree k.links k'.links semd_free (map s_link v.semds)
            (s.same semd_free (λ e. cc) (λ x i e. cc))
            (All-map (λ b. k'.links b ≡ k.links b) s_link v.semds
              λ x i. s.same (s_link x) (λ e. cc) (λ y j e. cc))
            n.semds;
      apart = n.apart;
      total = n.total;
      queue = s.queue;
      busy = λ e. cc;
      members = λ x i. elim (In-append x (q ∷ qs) p i) [
        | inl j ↦ inr (n.at_queue d x here (waits_here x j))
        | inr e ↦ inl e
      ];
      waits = λ x i. elim (In-append x (q ∷ qs) p i) [
        | inl j ↦
            let w : In x (v.queue d) = waits_here x j in
            ap (λ (b : Pcb). b.p_cursem) (s.others x (λ e. not_waiting d x here w (sym e)))
            ∙ n.waits d x here w
        | inr e ↦ rw e s.cursem
      ];
      current = s.current;
      count = s.processes;
      sems = λ x r. ap (λ (b : Pcb). b.p_cursem) (s.others x r);
      parents = λ x. elim (ℕ_discrete x p) [
        | yes e ↦ rw e s.parent
        | no r ↦ ap (λ (b : Pcb). b.p_parent) (s.others x r)
      ];
      same = λ b n1 n2 n3 n4 n5. s.same b n3 λ x i. elim i [
        | inl e ↦ rw e (n5 p (In-append_last (q ∷ qs) p))
        | inr j ↦ n5 x (In-append_left x (q ∷ qs) p j)
      ];
    }

    semop-known :
        (m : ℕ)
        → seek k sem v.active ≡ some d
        → Returns (λ _ k'. IsOrdered k') (semop arch sem (negsuc m) k)
    semop-known m known =
        Returns-weaken (λ _. Parked arch (suc m) k sem d p q qs) (λ _ k'. IsOrdered k')
          (semop arch sem (negsuc m) k)
          (semop-Parked
            (record {
              current = runs;
              few = few v k n;
              active = n.active;
              known = known;
              queue = rw waiting at (n.queue d here);
              awake = λ x i. not_waiting d x here (waits_here x i);
            })
            arch m)
          λ _ k' s. (
            joined_view d p (q ∷ qs ++ p ∷ []) v.active v.semds v,
            joined-IsNucleus v k d p (q ∷ qs ++ p ∷ []) v.active v.semds k' n runs
                (Parked-Joined m k' s),
          )

  module _ (d : ℕ) (fs : List ℕ) (free : v.semds ≡ d ∷ fs)
      (absent : seek k sem v.active ≡ none) where
    can_enrol : CanEnrol k sem d v.active fs
    can_enrol = record {
      few = few v k n;
      active = n.active;
      absent = absent;
      free = rw free at n.semds;
      apart = λ x y i j. n.apart x y i (rw free j);
    }

    other : (x : ℕ) → In x v.active → x ≢ d
    other x i = can_enrol.apart x d i (inl refl)

    module _ (σ : Links) (e : Enrolled k sem d p v.active fs σ) where
      semop-park :
          (m : ℕ)
          → ltb_ℤ (sub_int (k.word sem) (pos (suc m))) (pos 0) ≡ true
          → semop arch sem (negsuc m) k ≡ park arch sem (suc m) p (enrolled sem d p k σ)
      unfolding semop take_resources
      semop-park m t =
          simp (head_blocked-none k sem v.active (few v k n) n.active absent, t, runs, e.run)

      enrolled-Joined :
          (m : ℕ) (k' : Kernel)
          → Stopped arch (suc m) sem p (enrolled sem d p k σ) k'
          → Joined v k d p (p ∷ []) (placed k.sem_add sem d v.active) fs k'
      enrolled-Joined m k' s = record {
        active = rw s.links e.active;
        ascending =
            Ascending-agree (record k { sem_add = update k.sem_add d sem }) k'
              (placed k.sem_add sem d v.active) s.semaphores
              (Ascending-placed k sem d v.active other
                (seek-absent k sem v.active n.ascending absent) n.ascending);
        others = λ x i r. elim (In-placed k.sem_add sem d x v.active i) [
          | inl q ↦ absurd (r q)
          | inr j ↦ j
        ];
        semds = rw s.links e.free;
        apart = λ x y i j. elim (In-placed k.sem_add sem d x v.active i) [
          | inl q ↦
              λ w. ne_of_Fresh (s_link d) s_link y fs can_enrol.free.4.0 j (ap s_link (sym w ∙ q))
          | inr l ↦ can_enrol.apart x y l (inr j)
        ];
        total =
            let t : length v.active + length (d ∷ fs) ≡ max_proc = rw free at n.total in
            omega (arith, length-placed k.sem_add sem d v.active, t);
        queue = rw s.links e.queue;
        busy = λ q. cc;
        members = λ x i. elim i [ inl q ↦ inl q | inr j ↦ elim j [ ] ];
        waits = λ x i. elim i [
          | inl q ↦ rw q (s.cursem ∙ ap (λ (b : Pcb). b.p_cursem) (update_self k.pcb p _))
          | inr j ↦ elim j [ ]
        ];
        current = s.current;
        count = s.processes;
        sems = λ x r. ap (λ (b : Pcb). b.p_cursem) (s.others x r ∙ update_other k.pcb p x _ r);
        parents = λ x. elim (ℕ_discrete x p) [
          | yes q ↦ rw q (s.parent ∙ ap (λ (b : Pcb). b.p_parent) (update_self k.pcb p _))
          | no r ↦ ap (λ (b : Pcb). b.p_parent) (s.others x r ∙ update_other k.pcb p x _ r)
        ];
        same = λ b n1 n2 n3 n4 n5. rw s.links (e.same b n1 n2 n3 (n5 p (inl refl)) n4);
      }

      semop-enrolled :
          (m : ℕ)
          → ltb_ℤ (sub_int (k.word sem) (pos (suc m))) (pos 0) ≡ true
          → Returns (λ _ k'. IsOrdered k') (semop arch sem (negsuc m) k)
      semop-enrolled m t = rw (semop-park m t) (
          Returns-weaken (λ _. Stopped arch (suc m) sem p (enrolled sem d p k σ))
            (λ _ k'. IsOrdered k') (park arch sem (suc m) p (enrolled sem d p k σ))
            (park-Stopped arch (suc m) sem p (enrolled sem d p k σ) runs)
            λ _ k' s. (
              joined_view d p (p ∷ []) (placed k.sem_add sem d v.active) fs v,
              joined-IsNucleus v k d p (p ∷ []) (placed k.sem_add sem d v.active) fs k' n runs
                  (enrolled-Joined m k' s),
            ))

  -- No process waits yet.
  semop-absent :
      (m : ℕ)
      → seek k sem v.active ≡ none
      → Returns (λ _ k'. IsOrdered k') (semop arch sem (negsuc m) k)
  semop-absent m absent = elim (Bool-cases (ltb_ℤ (sub_int (k.word sem) (pos (suc m))) (pos 0))) [
    | inl t ↦
        let (d, fs, free) = semds_left v k p n runs in
        let r = insert_blocked-Enrolled (can_enrol d fs free absent) p in
        semop-enrolled d fs free absent r.0 r.1 m t
    | inr t ↦
        rw
          (semop-stored arch k sem v.active
            (record { few = few v k n; active = n.active; absent = absent }) (negsuc m) t)
          (
            v,
            IsNucleus-agree v k (set_word sem _ k) refl refl (λ x. refl) (λ x. refl) n.at_current
                refl n,
          )
  ]

  pub semop_p-IsNucleus : (m : ℕ) → Returns (λ _ k'. IsOrdered k') (semop arch sem (negsuc m) k)
  semop_p-IsNucleus m = go (who v k sem n)
    where
      go :
          ((d : ℕ) × (ps : List ℕ) × BlockedAt v k sem d ps)
          → Returns (λ _ k'. IsOrdered k') (semop arch sem (negsuc m) k)
      go (d, [], absent) = semop-absent m absent
      go (d, q ∷ qs, b) = semop-known d q qs (seek-In k sem d v.active b.0) b.1 m b.0
