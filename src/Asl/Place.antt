-- ===== src/Asl/Place.antt =====
-- The place of a new descriptor in the active semaphore list.
use jae_so.Common.{
  ℕ, ◌≤◌, ◌≡◌, refl, sym, ap, ◌∙◌, inl, inr, true, false, none, some, List, [], ◌∷◌, map, arith,
  length, length-map, Fresh, In, ltb, if◌then◌else◌, Bool-cases,
}
use jae_so.Memory.{Loc, s_link, aslh, Links}
use jae_so.Clist.{Result, ok, enqueue}
use jae_so.Clist.Ring.{IsClist}
use jae_so.Clist.Insert.{insert-place}
use jae_so.Clist.Place.{place, place-hit, place-miss}
use jae_so.Kernel.Machine.{Kernel, max_proc}
use jae_so.Kernel.Cmd.{done}
use jae_so.Asl.{place_body, place_semd}
use jae_so.Asl.Find.{IsActive}

-- The list with `d` before the first descriptor of a greater semaphore.
unfoldable pub placed : (ℕ → ℕ) → ℕ → ℕ → List ℕ → List ℕ
placed f sem d [] = d ∷ []
placed f sem d (x ∷ xs) = if ltb sem (f x) then d ∷ x ∷ xs else x ∷ placed f sem d xs

pub In-unmap : (a : Loc) (xs : List ℕ) → In a (map s_link xs) → (x : ℕ) × (a ≡ s_link x)
In-unmap a [] i = elim i [ ]
In-unmap a (x ∷ xs) (inl e) = (x, e)
In-unmap a (x ∷ xs) (inr i) = In-unmap a xs i

module _ (k : Kernel) (sem d : ℕ) where
  pub placed-hit :
      (x : ℕ) (xs : List ℕ)
      → ltb sem (k.sem_add x) ≡ true
      → placed k.sem_add sem d (x ∷ xs) ≡ d ∷ x ∷ xs
  unfolding placed
  placed-hit x xs e = rw e

  pub placed-miss :
      (x : ℕ) (xs : List ℕ)
      → ltb sem (k.sem_add x) ≡ false
      → placed k.sem_add sem d (x ∷ xs) ≡ x ∷ placed k.sem_add sem d xs
  unfolding placed
  placed-miss x xs e = rw e

  body-hit : (x : ℕ) → ltb sem (k.sem_add x) ≡ true → place_body sem k (s_link x) ≡ some (ok tt)
  unfolding place_body
  body-hit x e = rw e

  body-miss : (x : ℕ) → ltb sem (k.sem_add x) ≡ false → place_body sem k (s_link x) ≡ none
  unfolding place_body
  body-miss x e = rw e

  place-placed :
      (ds : List ℕ)
      → place (place_body sem k) (s_link d) (map s_link ds) ≡ map s_link (placed k.sem_add sem d ds)
  unfolding placed place
  place-placed [] = refl
  place-placed (x ∷ xs) = elim (Bool-cases (ltb sem (k.sem_add x))) [
    | inl e ↦
        place-hit (place_body sem k) (s_link d) (s_link x) (map s_link xs) (ok tt) (body-hit x e)
        ∙ ap (map s_link) (sym (placed-hit x xs e))
    | inr e ↦
        place-miss (place_body sem k) (s_link d) (s_link x) (map s_link xs) (body-miss x e)
        ∙ ap (λ l. s_link x ∷ l) (place-placed xs)
        ∙ ap (map s_link) (sym (placed-miss x xs e))
  ]

  -- A break is no fault.
  broke_ok :
      (a : Loc) (ds : List ℕ) (b : Result (Unit {0}))
      → In a (map s_link ds)
      → place_body sem k a ≡ some b
      → b ≡ ok tt
  broke_ok a ds b i h =
      let (x, e) = In-unmap a ds i in
      let h' : place_body sem k (s_link x) ≡ some b = rw e at h in
      elim (Bool-cases (ltb sem (k.sem_add x))) [
        | inl t ↦ let z : some (ok tt) ≡ some b = sym (body-hit x t) ∙ h' in cc
        | inr t ↦ let z : none ≡ some b = sym (body-miss x t) ∙ h' in cc
      ]

  -- The links after it.
  pub record Placed (ds : List ℕ) (σ : Links) : Type 0 where
    pub run : place_semd sem d k ≡ done tt (record k { links = σ })
    pub active : IsClist σ aslh (map s_link (placed k.sem_add sem d ds))
    pub same : (b : Loc) → Fresh b (aslh ∷ s_link d ∷ map s_link ds) → σ b ≡ k.links b

  pub place_semd-Placed :
      (ds : List ℕ)
      → length ds ≤ max_proc
      → IsActive k ds
      → Fresh (s_link d) (map s_link ds)
      → (σ : Links) × Placed ds σ
  unfolding place_semd
  place_semd-Placed ds l c f =
      let r =
        insert-place (place_body sem k) (s_link d) k.links aslh (λ e. cc) 22 (map s_link ds)
          (omega (arith, length-map s_link ds)) c f in
      elim r.2 [
        | inl a ↦ (
          enqueue (s_link d) aslh k.links,
          record {
            run = rw (r.1, a.broke, a.ended);
            active = rw (← place-placed ds) a.clist;
            same = a.same;
          },
        )
        | inr (b, at, σ', a) ↦ (
          σ',
          record {
            run = rw (r.1, a.broke, broke_ok at ds b a.member a.hits, a.scan) (rw (a.run, a.inner));
            active = rw (← place-placed ds) a.clist;
            same = a.same;
          },
        )
      ]
