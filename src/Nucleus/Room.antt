-- ===== src/Nucleus/Room.antt =====
-- While a process runs, there is a free descriptor.
use jae_so.Common.{
  ℕ, ◌≤◌, ◌<◌, ◌≡◌, ◌≢◌, refl, sym, ap, ◌∙◌, inl, inr, some, List, [], ◌∷◌, map, arith, length, In,
  All, Fresh, Distinct,
}
use jae_so.Common.Without.{Distinct-length}
use jae_so.Memory.{p_list, s_link, s_procq, aslh, ready_queue}
use jae_so.Clist.Map.{Distinct-of_map}
use jae_so.Kernel.Machine.{Kernel, max_proc}
use jae_so.Asl.Order.{All-of}
use jae_so.Asl.Release.{Distinct-of-IsClist}
use jae_so.Nucleus.{View, IsNucleus, blocked, running, nowhere}

-- The first element of a list, or 0.
abbrev first : List ℕ → ℕ
first [] = 0
first (x ∷ xs) = x

first-In : (xs : List ℕ) → xs ≢ [] → In (first xs) xs
first-In [] n = absurd (n refl)
first-In (x ∷ xs) n = inl refl

ne_In : (d e : ℕ) (ds : List ℕ) → Fresh d ds → In e ds → d ≢ e
ne_In d e [] f i = elim i [ ]
ne_In d e (x ∷ xs) f (inl q) = λ r. f.0 (r ∙ q)
ne_In d e (x ∷ xs) f (inr i) = ne_In d e xs f.1 i

module _ {v : View} {k : Kernel} (n : IsNucleus v k) where
  -- One process that waits, for each of some active descriptors.
  abbrev heads : List ℕ → List ℕ
  heads ds = map (λ d. first (v.queue d)) ds

  head_place : (d : ℕ) → In d v.active → v.place (first (v.queue d)) ≡ blocked d
  head_place d i = n.at_queue d (first (v.queue d)) i (first-In (v.queue d) (n.busy d i))

  Fresh-heads :
      (x : ℕ) (ds : List ℕ)
      → ((d : ℕ) → In d ds → In d v.active)
      → ((d : ℕ) → In d ds → v.place x ≢ blocked d)
      → Fresh x (heads ds)
  Fresh-heads x [] s f = tt
  Fresh-heads x (d ∷ ds) s f = (
    λ e. f d (inl refl) (ap v.place e ∙ head_place d (s d (inl refl))),
    Fresh-heads x ds (λ e i. s e (inr i)) (λ e i. f e (inr i)),
  )

  Distinct-heads :
      (ds : List ℕ) → ((d : ℕ) → In d ds → In d v.active) → Distinct ds → Distinct (heads ds)
  Distinct-heads [] s u = tt
  Distinct-heads (d ∷ ds) s u = (
    Fresh-heads (first (v.queue d)) ds (λ e i. s e (inr i))
        (λ e i q.
          let z : blocked d ≡ blocked e = sym (head_place d (s d (inl refl))) ∙ q in
          ne_In d e ds u.0 i (cc)),
    Distinct-heads ds (λ e i. s e (inr i)) u.1,
  )

  small_heads :
      (ds : List ℕ) → ((d : ℕ) → In d ds → In d v.active) → All (λ x. x < max_proc) (heads ds)
  small_heads [] s = tt
  small_heads (d ∷ ds) s = (
    n.bound (first (v.queue d))
        (λ e. let z : blocked d ≡ nowhere = sym (head_place d (s d (inl refl))) ∙ e in cc),
    small_heads ds (λ e i. s e (inr i)),
  )

  length-heads : (ds : List ℕ) → length (heads ds) ≡ length ds
  length-heads [] = refl
  length-heads (d ∷ ds) = omega (arith, length-heads ds)

  active-lt : (p : ℕ) → k.current_process ≡ some p → length v.active < max_proc
  active-lt p c =
      let u : Distinct v.active =
        Distinct-of_map s_link v.active
          (Distinct-of-IsClist k.links aslh (map s_link v.active) n.active) in
      let here : v.place p ≡ running = n.at_current p c in
      omega (
        arith,
        length-heads v.active,
        Distinct-length max_proc (p ∷ heads v.active)
            (
              Fresh-heads p v.active (λ d i. i)
                  (λ d i q. let z : running ≡ blocked d = sym here ∙ q in cc),
              Distinct-heads v.active (λ d i. i) u,
            )
            (
              n.bound p (λ q. let z : running ≡ nowhere = sym here ∙ q in cc),
              small_heads v.active (λ d i. i),
            ),
      )

  -- The ready queue holds no more than MAXPROC processes.
  pub ready_le : length v.ready_list ≤ max_proc
  ready_le =
      Distinct-length max_proc v.ready_list
        (Distinct-of_map p_list v.ready_list
          (Distinct-of-IsClist k.links ready_queue (map p_list v.ready_list) n.ready))
        (All-of (λ x. x < max_proc) v.ready_list
          λ x j. n.bound x (λ e. let z = n.at_ready x j in cc))

  -- No more than MAXPROC processes wait at a descriptor.
  pub queue_le : (d : ℕ) → In d v.active → length (v.queue d) ≤ max_proc
  queue_le d i =
      Distinct-length max_proc (v.queue d)
        (Distinct-of_map p_list (v.queue d)
          (Distinct-of-IsClist k.links (s_procq d) (map p_list (v.queue d)) (n.queue d i)))
        (All-of (λ x. x < max_proc) (v.queue d)
          λ x j. n.bound x (λ e. let z : blocked d ≡ nowhere = sym (n.at_queue d x i j) ∙ e in cc))

nonempty : (l : List ℕ) → 0 < length l → (d : ℕ) × (fs : List ℕ) × (l ≡ d ∷ fs)
nonempty [] h = absurd (omega arith)
nonempty (d ∷ fs) h = (d, fs, refl)

pub semds_left :
    (v : View) (k : Kernel) (p : ℕ)
    → IsNucleus v k
    → k.current_process ≡ some p
    → (d : ℕ) × (fs : List ℕ) × (v.semds ≡ d ∷ fs)
semds_left v k p n c = nonempty v.semds (omega (arith, active-lt n p c, n.total))
