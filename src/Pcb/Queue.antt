-- ===== src/Pcb/Queue.antt =====
-- insertProcQ, removeProcQ, outProcQ and headProcQ: a process queue is first in, first out.
use mathlib.Core.List.{map-append}
use jae_so.Common.{
  ℕ, ◌≤◌, ◌≡◌, refl, sym, ◌≢◌, none, some, List, [], ◌∷◌, ◌++◌, map, arith, length, length-map,
  Fresh, In,
}
use jae_so.Memory.{Loc, p_list, Links}
use jae_so.Clist.{enqueue}
use jae_so.Clist.Ring.{IsClist}
use jae_so.Clist.Queue.{
  enqueue-append, enqueue-frame, head-cons, is_empty-cons, is_empty-nil, dequeue-cons,
}
use jae_so.Clist.Remove.{remove-In, remove-Fresh, Removed}
use jae_so.Kernel.Machine.{Kernel, max_proc}
use jae_so.Kernel.Cmd.{done}
use jae_so.Pcb.{insert_proc_q, remove_proc_q, head_proc_q, out_proc_q}

-- The queue with tail pointer `q` holds the processes, in this order.
abbrev pub IsQueue : Kernel → Loc → List ℕ → Type 0
IsQueue k q xs = IsClist k.links q (map p_list xs)

-- A tail pointer is no p_list field.
abbrev pub IsTail : Loc → Type 0
IsTail q = (p : ℕ) → q ≢ p_list p

-- What a queue operation leaves when it returns `r`: the queue, and all links but those of the
-- queue before it and of `touched`.
pub record Left (k : Kernel) (q : Loc) (touched : List Loc) (xs : List ℕ) (σ : Links) : Type 0 where
  pub queue : IsClist σ q (map p_list xs)
  pub same : (b : Loc) → Fresh b (q ∷ touched) → σ b ≡ k.links b

-- insertProcQ of a process that is not in the well-formed queue puts it at the end; every link but
-- those of the queue and the process is as it was.
pub insert_proc_q-append :
    (k : Kernel) (q : Loc) (p : ℕ) (xs : List ℕ)
    → IsTail q
    → IsQueue k q xs
    → Fresh (p_list p) (map p_list xs)
    → (σ : Links) × (insert_proc_q q p k ≡ done tt (record k { links = σ }))
      × Left k q (p_list p ∷ map p_list xs) (xs ++ p ∷ []) σ
unfolding insert_proc_q
insert_proc_q-append k q p xs t c f = (
  enqueue (p_list p) q k.links,
  refl,
  record {
    queue =
        rw (map-append p_list xs (p ∷ []))
          (enqueue-append k.links q (p_list p) (map p_list xs) c (λ e. t p (sym e)) f);
    same = λ b g. enqueue-frame k.links q (p_list p) b (map p_list xs) c g;
  },
)

-- removeProcQ on a well-formed queue that is not empty returns its first process and leaves the
-- rest as the queue; every link but those of the queue is as it was.
pub remove_proc_q-cons :
    (k : Kernel) (q : Loc) (p : ℕ) (xs : List ℕ)
    → IsQueue k q (p ∷ xs)
    → (σ : Links) × (remove_proc_q q k ≡ done (some p) (record k { links = σ }))
      × Left k q (map p_list (p ∷ xs)) xs σ
unfolding remove_proc_q
remove_proc_q-cons k q p xs c =
    let d = dequeue-cons k.links q (p_list p) (map p_list xs) c in
    (
      d.0,
      rw (
        is_empty-cons k.links q (p_list p) (map p_list xs) c,
        head-cons k.links q (p_list p) (map p_list xs) c,
        d.1,
      ),
      record { queue = d.2; same = d.3 },
    )

-- On an empty queue it returns NULL and changes nothing.
pub remove_proc_q-nil : (k : Kernel) (q : Loc) → IsQueue k q [] → remove_proc_q q k ≡ done none k
unfolding remove_proc_q
remove_proc_q-nil k q c = rw (is_empty-nil k.links q c)

-- headProcQ reads the first process.
pub head_proc_q-cons :
    (k : Kernel) (q : Loc) (p : ℕ) (xs : List ℕ)
    → IsQueue k q (p ∷ xs)
    → head_proc_q q k ≡ done (some p) k
unfolding head_proc_q
head_proc_q-cons k q p xs c = rw (
  is_empty-cons k.links q (p_list p) (map p_list xs) c,
  head-cons k.links q (p_list p) (map p_list xs) c,
)

pub head_proc_q-nil : (k : Kernel) (q : Loc) → IsQueue k q [] → head_proc_q q k ≡ done none k
unfolding head_proc_q
head_proc_q-nil k q c = rw (is_empty-nil k.links q c)

-- outProcQ of a process of a well-formed queue of at most MAXPROC returns the process; the queue
-- is then the old one without it, and every link but those of the queue is as it was.
pub out_proc_q-In :
    (k : Kernel) (q : Loc) (p : ℕ) (xs : List ℕ)
    → length xs ≤ max_proc
    → IsQueue k q xs
    → In (p_list p) (map p_list xs)
    → (σ : Links) × (out_proc_q q p k ≡ done (some p) (record k { links = σ }))
      × Removed k.links q (p_list p) (map p_list xs) σ
unfolding out_proc_q
out_proc_q-In k q p xs l c i =
    let r =
      remove-In k.links q (p_list p) 22 (map p_list xs) (omega (arith, length-map p_list xs)) c i in
    (r.0, rw r.1, r.2)

-- For a process that is not in the queue it returns NULL and changes nothing.
pub out_proc_q-Fresh :
    (k : Kernel) (q : Loc) (p : ℕ) (xs : List ℕ)
    → length xs ≤ max_proc
    → IsQueue k q xs
    → Fresh (p_list p) (map p_list xs)
    → out_proc_q q p k ≡ done none k
unfolding out_proc_q
out_proc_q-Fresh k q p xs l c f =
    rw (
      remove-Fresh k.links q (p_list p) 22 (map p_list xs) (omega (arith, length-map p_list xs)) c
        f)
