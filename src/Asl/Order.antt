-- ===== src/Asl/Order.antt =====
-- The active semaphore list stays in ascending order.
use jae_so.Common.{
  ℕ, ◌<◌, ◌≡◌, ◌≢◌, refl, sym, ◌∙◌, inl, inr, none, some, List, [], ◌∷◌, arith, All, All-In, In,
  ltb, Bool-cases, ne→==, ==_refl, length, suc, ◌⊎◌,
}
use jae_so.Kernel.Machine.{Kernel, update}
use jae_so.Asl.Find.{seek, seek_complete, Ascending}
use jae_so.Asl.Place.{placed}

pub All-of : (P : ℕ → Type 0) (xs : List ℕ) → ((x : ℕ) → In x xs → P x) → All P xs
All-of P [] h = tt
All-of P (x ∷ xs) h = (h x (inl refl), All-of P xs λ y i. h y (inr i))

-- The elements of the list with `d` in its place.
pub In-placed :
    (f : ℕ → ℕ) (sem d x : ℕ) (ds : List ℕ) → In x (placed f sem d ds) → (x ≡ d) ⊎ In x ds
unfolding placed
In-placed f sem d x [] (inl e) = inl e
In-placed f sem d x [] (inr i) = elim i [ ]
In-placed f sem d x (y ∷ ys) i = elim (Bool-cases (ltb sem (f y))) [
  | inl e ↦ rw e at i
  | inr e ↦
      let j : (x ≡ y) ⊎ In x (placed f sem d ys) = rw e at i in
      elim j [
        | inl q ↦ inr (inl q)
        | inr l ↦ elim (In-placed f sem d x ys l) [ inl q ↦ inl q | inr m ↦ inr (inr m) ]
      ]
]

pub placed-In : (f : ℕ → ℕ) (sem d x : ℕ) (ds : List ℕ) → In x ds → In x (placed f sem d ds)
unfolding placed
placed-In f sem d x [] i = elim i [ ]
placed-In f sem d x (y ∷ ys) i = elim (Bool-cases (ltb sem (f y))) [
  | inl e ↦ rw e (inr i)
  | inr e ↦ rw e (elim i [ inl q ↦ inl q | inr l ↦ inr (placed-In f sem d x ys l) ])
]

pub placed-member : (f : ℕ → ℕ) (sem d : ℕ) (ds : List ℕ) → In d (placed f sem d ds)
unfolding placed
placed-member f sem d [] = inl refl
placed-member f sem d (y ∷ ys) = elim (Bool-cases (ltb sem (f y))) [
  | inl e ↦ rw e (inl refl)
  | inr e ↦ rw e (inr (placed-member f sem d ys))
]

pub length-placed :
    (f : ℕ → ℕ) (sem d : ℕ) (ds : List ℕ) → length (placed f sem d ds) ≡ suc (length ds)
unfolding placed
length-placed f sem d [] = refl
length-placed f sem d (y ∷ ys) = ground (arith, length-placed f sem d ys)

-- What is not found is not there.
pub seek-absent :
    (k : Kernel) (sem : ℕ) (ds : List ℕ)
    → Ascending k ds
    → seek k sem ds ≡ none
    → (x : ℕ) → In x ds
    → k.sem_add x ≢ sem
seek-absent k sem ds a s x i e =
    let z : seek k sem ds ≡ some x = seek_complete k sem x ds a i e in
    let w : none ≡ some x = sym s ∙ z in cc

Ascending-update :
    (k : Kernel) (sem d : ℕ) (ds : List ℕ)
    → ((x : ℕ) → In x ds → x ≢ d)
    → Ascending k ds
    → Ascending (record k { sem_add = update k.sem_add d sem }) ds
Ascending-update k sem d [] n a = tt
Ascending-update k sem d (x ∷ xs) n a = (
  All-of (λ e. update k.sem_add d sem x < update k.sem_add d sem e) xs
      λ y i.
        rw (ne→== x d (n x (inl refl)), ne→== y d (n y (inr i)))
          (All-In (λ e. k.sem_add x < k.sem_add e) y xs a.0 i),
  Ascending-update k sem d xs (λ y i. n y (inr i)) a.1,
)

-- With a new descriptor for a semaphore that had none, the list ascends.
pub Ascending-placed :
    (k : Kernel) (sem d : ℕ) (ds : List ℕ)
    → ((x : ℕ) → In x ds → x ≢ d)
    → ((x : ℕ) → In x ds → k.sem_add x ≢ sem)
    → Ascending k ds
    → Ascending (record k { sem_add = update k.sem_add d sem }) (placed k.sem_add sem d ds)
unfolding placed
Ascending-placed k sem d [] n m a = (tt, tt)
Ascending-placed k sem d (x ∷ xs) n m a = elim (Bool-cases (ltb sem (k.sem_add x))) [
  | inl e ↦ rw e (
    All-of (λ y. update k.sem_add d sem d < update k.sem_add d sem y) (x ∷ xs)
        (λ y i.
          rw (==_refl d, ne→== y d (n y i))
            (elim i [
              | inl q ↦ rw q (ground arith)
              | inr j ↦
                  let z : k.sem_add x < k.sem_add y =
                    All-In (λ e. k.sem_add x < k.sem_add e) y xs a.0 j in
                  ground arith
            ])),
    Ascending-update k sem d (x ∷ xs) n a,
  )
  | inr e ↦ rw e (
    All-of (λ y. update k.sem_add d sem x < update k.sem_add d sem y) (placed k.sem_add sem d xs)
        (λ y i. elim (In-placed k.sem_add sem d y xs i) [
          | inl q ↦
              rw (q, ==_refl d, ne→== x d (n x (inl refl))) (let w = m x (inl refl) in ground arith)
          | inr j ↦
              rw (ne→== x d (n x (inl refl)), ne→== y d (n y (inr j)))
                (All-In (λ e. k.sem_add x < k.sem_add e) y xs a.0 j)
        ]),
    Ascending-placed k sem d xs (λ y i. n y (inr i)) (λ y i. m y (inr i)) a.1,
  )
]
