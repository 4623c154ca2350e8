-- ===== src/Asl/Release.antt =====
-- The end of removeBlocked and outBlocked: a descriptor with no process left is freed.
use mathlib.Core.List.{map-append}
use jae_so.Common.Without.{without, without-hit, without-miss}
use jae_so.Common.{
  ℕ, ◌≤◌, ◌≡◌, ◌≢◌, sym, ap, ◌∙◌, inl, inr, none, List, [], ◌∷◌, ◌++◌, map, arith, length,
  length-map, Distinct, In, ℕ_discrete, false,
}
use jae_so.Memory.{Loc, s_link, s_procq, aslh, semd_free, Links}
use jae_so.Clist.{ok, enqueue, delete}
use jae_so.Clist.Ring.{IsClist, IsClist-agree, All-map, Fresh-map, ne_of_Fresh}
use jae_so.Clist.Queue.{enqueue-append, enqueue-frame, is_empty-nil, is_empty-cons}
use jae_so.Clist.Map.{In-map, erase-map}
use jae_so.Clist.Remove.{delete-In, Removed}
use jae_so.Kernel.Machine.{Kernel, max_proc}
use jae_so.Kernel.Cmd.{done}
use jae_so.Asl.{release_semd}
use jae_so.Asl.Find.{IsActive}

pub Distinct-In :
    (d x : ℕ) (ds : List ℕ) → Distinct (map s_link ds) → In x (without d ds) → In x ds × (x ≢ d)
unfolding without
Distinct-In d x [] u i = elim i [ ]
Distinct-In d x (y ∷ ys) u i = elim (ℕ_discrete d y) [
  | yes e ↦
      let j : In x ys = rw (without-hit d y ys e) at i in
      (inr j, λ q. ne_of_Fresh (s_link y) s_link x ys u.0 j (ap s_link (q ∙ e)))
  | no n ↦
      let j : In x (y ∷ without d ys) = rw (without-miss d y ys n) at i in
      elim j [
        | inl e ↦ (inl e, λ q. n (sym q ∙ e))
        | inr l ↦ let r = Distinct-In d x ys u.1 l in (inr r.0, r.1)
      ]
]

pub Distinct-of-IsClist : (σ : Links) (h : Loc) (xs : List Loc) → IsClist σ h xs → Distinct xs
Distinct-of-IsClist σ h [] c = tt
Distinct-of-IsClist σ h (x ∷ xs) c = c.4

-- The descriptor `d` is one of the active ones, `ds`, and no process is in its queue.
pub record Idle (k : Kernel) (d : ℕ) (ds fs : List ℕ) : Type 0 where
  pub few : length ds ≤ max_proc
  pub active : IsActive k ds
  pub member : In d ds
  pub empty : k.links (s_procq d) ≡ none
  pub free : IsClist k.links semd_free (map s_link fs)
  pub apart : (x y : ℕ) → In x ds → In y fs → x ≢ y

-- The descriptor `d` is free again; no link but those of the two lists has changed.
pub record Released (k : Kernel) (d : ℕ) (ds fs : List ℕ) (σ : Links) : Type 0 where
  pub run : release_semd d k ≡ done tt (record k { links = σ })
  pub active : IsClist σ aslh (map s_link (without d ds))
  pub free : IsClist σ semd_free (map s_link (fs ++ d ∷ []))
  pub same : (b : Loc) → b ≢ aslh → b ≢ semd_free → ((x : ℕ) → b ≢ s_link x) → σ b ≡ k.links b

-- A descriptor with a process stays where it is.
pub release_semd-busy :
    (k : Kernel) (d : ℕ) (x : Loc) (xs : List Loc)
    → IsClist k.links (s_procq d) (x ∷ xs)
    → release_semd d k ≡ done tt k
unfolding release_semd
release_semd-busy k d x xs c = rw (is_empty-cons k.links (s_procq d) x xs c)

module _ {k : Kernel} {d : ℕ} {ds fs : List ℕ} (c : Idle k d ds fs) where
  deleted :
      (σ : Links) × (delete 22 (s_link d) aslh k.links ≡ ok (σ, false))
      × Removed k.links aslh (s_link d) (map s_link ds) σ
  deleted =
      delete-In k.links aslh (s_link d) 22 (map s_link ds)
        (omega (arith, length-map s_link ds, c.few)) c.active (In-map s_link d ds c.member)

  deleted_same : (b : Loc) → b ≢ aslh → ((x : ℕ) → In x ds → b ≢ s_link x) → deleted.0 b ≡ k.links b
  deleted_same b n s = deleted.2.same b (n, Fresh-map b s_link ds s)

  deleted-free : IsClist deleted.0 semd_free (map s_link fs)
  deleted-free =
      IsClist-agree k.links deleted.0 semd_free (map s_link fs)
        (deleted_same semd_free (λ e. cc) (λ x i e. cc))
        (All-map (λ b. deleted.0 b ≡ k.links b) s_link fs
          λ y j. deleted_same (s_link y) (λ e. cc) (λ x i e. c.apart x y i j (ground arith)))
        c.free

  abbrev released : Links
  released = enqueue (s_link d) semd_free deleted.0

  released_same :
      (b : Loc)
      → b ≢ semd_free
      → b ≢ s_link d
      → ((y : ℕ) → In y fs → b ≢ s_link y)
      → released b ≡ deleted.0 b
  released_same b n s f =
      enqueue-frame deleted.0 semd_free (s_link d) b (map s_link fs) deleted-free
        (n, (s, Fresh-map b s_link fs f))

  released-active : IsClist released aslh (map s_link (without d ds))
  released-active =
      IsClist-agree deleted.0 released aslh (map s_link (without d ds))
        (released_same aslh (λ e. cc) (λ e. cc) (λ y i e. cc))
        (All-map (λ b. released b ≡ deleted.0 b) s_link (without d ds)
          λ x i.
            let r =
              Distinct-In d x ds (Distinct-of-IsClist k.links aslh (map s_link ds) c.active) i in
            released_same (s_link x) (λ e. cc) (λ e. r.1 (ground arith))
              (λ y j e. c.apart x y r.0 j (ground arith)))
        (rw (← erase-map s_link (λ x y e. cc) d ds) deleted.2.clist)

  released-free : IsClist released semd_free (map s_link (fs ++ d ∷ []))
  released-free = rw (map-append s_link fs (d ∷ [])) (
      enqueue-append deleted.0 semd_free (s_link d) (map s_link fs) deleted-free (λ e. cc)
        (Fresh-map (s_link d) s_link fs λ y j e. c.apart d y c.member j (ground arith)))

  -- A descriptor with no process goes from the active list to the end of the free one.
  pub release_semd-Idle : (σ : Links) × Released k d ds fs σ
  unfolding release_semd
  release_semd-Idle = (
    released,
    record {
      run = rw (is_empty-nil k.links (s_procq d) c.empty, deleted.1);
      active = released-active;
      free = released-free;
      same = λ b m n s. released_same b n (s d) (λ y i. s y) ∙ deleted_same b m (λ x i. s x);
    },
  )
