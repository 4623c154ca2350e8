-- ===== src/Asl/Roundtrip.antt =====
-- insertBlocked and then removeBlocked on a semaphore on which no process was blocked.
use jae_so.Common.{
  ℕ, ◌<◌, ◌≡◌, ◌≢◌, refl, sym, ap, ◌∙◌, inl, inr, some, List, [], ◌∷◌, ◌++◌, map, arith, length, In,
  ltb, Bool-cases, ==_refl,
}
use jae_so.Common.Without.{without, without-hit, without-miss}
use jae_so.Memory.{s_link, aslh, semd_free, Links}
use jae_so.Clist.Ring.{IsClist, ne_of_Fresh}
use jae_so.Kernel.Machine.{Kernel, max_proc, update}
use jae_so.Kernel.Cmd.{done}
use jae_so.Asl.{insert_blocked, remove_blocked}
use jae_so.Asl.Find.{Ascending, seek_complete}
use jae_so.Asl.Head.{Ascending-agree}
use jae_so.Asl.Insert.{CanEnrol, Enrolled, enrolled, insert_blocked-Enrolled}
use jae_so.Asl.Order.{In-placed, placed-member, seek-absent, Ascending-placed, length-placed}
use jae_so.Asl.Place.{placed}
use jae_so.Asl.Remove.{Blocked, remove_blocked-Unblocked}

-- The place of a descriptor, and its removal.
without-placed :
    (f : ℕ → ℕ) (sem d : ℕ) (ds : List ℕ)
    → ((x : ℕ) → In x ds → x ≢ d)
    → without d (placed f sem d ds) ≡ ds
unfolding placed
without-placed f sem d [] n = without-hit d d [] refl
without-placed f sem d (x ∷ xs) n = elim (Bool-cases (ltb sem (f x))) [
  | inl e ↦ rw e (without-hit d d (x ∷ xs) refl)
  | inr e ↦ rw e (
      without-miss d x (placed f sem d xs) (λ q. n x (inl refl) (sym q))
      ∙ ap (λ l. x ∷ l) (without-placed f sem d xs (λ y i. n y (inr i))))
]

module _ {k : Kernel} {sem d : ℕ} {ds fs : List ℕ} (c : CanEnrol k sem d ds fs)
    (room : length ds < max_proc) (up : Ascending k ds) (p : ℕ) where
  other : (x : ℕ) → In x ds → x ≢ d
  other x i = c.apart x d i (inl refl)

  enrolled-Blocked :
      (σ : Links)
      → Enrolled k sem d p ds fs σ
      → Blocked (enrolled sem d p k σ) sem d p [] (placed k.sem_add sem d ds) fs
  enrolled-Blocked σ e =
      let k1 : Kernel = enrolled sem d p k σ in
      record {
        few = omega (arith, room, length-placed k.sem_add sem d ds);
        active = e.active;
        known =
            seek_complete k1 sem d (placed k.sem_add sem d ds)
              (Ascending-agree (record k { sem_add = update k.sem_add d sem }) k1
                (placed k.sem_add sem d ds) refl
                (Ascending-placed k sem d ds other (seek-absent k sem ds up c.absent) up))
              (placed-member k.sem_add sem d ds) (rw (==_refl d));
        queue = e.queue;
        free = e.free;
        apart = λ x y i j. elim (In-placed k.sem_add sem d x ds i) [
          | inl q ↦ λ w. ne_of_Fresh (s_link d) s_link y fs c.free.4.0 j (ap s_link (sym w ∙ q))
          | inr l ↦ c.apart x y l (inr j)
        ];
      }

  -- With fewer than MAXPROC active descriptors in ascending order, no descriptor for the
  -- semaphore, a free one, and the two lists well formed and apart, insertBlocked of a process
  -- returns 0, and removeBlocked after it returns the process, leaves the active list as it was
  -- before both, and the descriptor last in the free list.
  pub remove_blocked-insert_blocked :
      (k1 k2 : Kernel) × (insert_blocked sem p k ≡ done 0 k1)
      × (remove_blocked sem k1 ≡ done (some p) k2)
      × IsClist k2.links aslh (map s_link ds)
      × IsClist k2.links semd_free (map s_link (fs ++ d ∷ []))
  remove_blocked-insert_blocked =
      let e = insert_blocked-Enrolled c p in
      let u =
        remove_blocked-Unblocked (enrolled sem d p k e.0) sem d p [] (placed k.sem_add sem d ds) fs
          (enrolled-Blocked e.0 e.1) in
      (
        enrolled sem d p k e.0,
        record (enrolled sem d p k e.0) { links = u.0 },
        e.1.run,
        u.1.run,
        rw (without-placed k.sem_add sem d ds other) at u.1.active,
        u.1.free,
      )
