-- ===== src/Clist.antt =====
-- The macros of incl/clist.h: circular lists with a tail pointer, over a store of `next` fields.
-- An element is named by the address of its link; `container_of` with a fixed member is then the
-- identity. Reading through NULL is `fault`; a loop takes its bound on the rounds as an argument.
pub mod Ring
pub mod Queue
pub mod Fill
pub mod Search
pub mod Unlink
pub mod Remove
pub mod Map
pub mod Unique
pub mod Place
pub mod Insert
use jae_so.Common.{ℕ, zero, suc, Bool, true, false, ite, if◌then◌else◌, Option, none, some}
use jae_so.Memory.{Loc, Ptr, Links, set_next, Loc-discrete, Ptr-discrete}

pub data Result (A : Type 0) : Type 0 where
  ok : A → Result A
  fault : Result A
  out_of_fuel : Result A

infixl 5 ◌>>=◌
abbrev pub ◌>>=◌ : {A B : Type 0} → Result A → (A → Result B) → Result B
ok a >>= f = f a
fault >>= f = fault
out_of_fuel >>= f = out_of_fuel

-- The address behind a pointer that is dereferenced.
abbrev pub deref : Ptr → Result Loc
deref none = fault
deref (some a) = ok a

-- clist_enqueue(elem, clistp, member)
unfoldable pub enqueue : Loc → Loc → Links → Links
enqueue e h σ = elim (σ h) [
  | none ↦ set_next (set_next σ e (some e)) h (some e)
  | some t ↦ set_next (set_next (set_next σ e (σ t)) t (some e)) h (some e)
]

-- clist_push(elem, clistp, member). The `else` guards one statement only: the last write is made
-- in both cases, through the tail pointer as it then is.
unfoldable pub push : Loc → Loc → Links → Result Links
push e h σ =
    let σ' : Links = elim (σ h) [
      | none ↦ set_next (set_next σ e (some e)) h (some e)
      | some t ↦ set_next σ e (σ t)
    ] in
    do t ← deref (σ' h); ok (set_next σ' t (some e))

-- clist_empty(clistx)
unfoldable pub is_empty : Loc → Links → Bool
is_empty h σ = elim (σ h) [ none ↦ true | some t ↦ false ]

-- clist_head(elem, clistx, member)
unfoldable pub head : Loc → Links → Ptr
head h σ = elim (σ h) [ none ↦ none | some t ↦ σ t ]

-- clist_tail(elem, clistx, member)
unfoldable pub tail : Loc → Links → Ptr
tail h σ = σ h

-- clist_dequeue(clistp), of which clist_pop is a synonym
unfoldable pub dequeue : Loc → Links → Result Links
dequeue h σ = elim (σ h) [
  | none ↦ ok σ
  | some t ↦
      ite (Ptr-discrete (some t) (σ t)) (ok (set_next σ h none))
        (do first ← deref (σ t); ok (set_next σ t (σ first)))
]

-- The state in which a clist_foreach loop is left: what the body broke with, if it did, and the
-- variables `scan` and `tmp`.
pub record Scan (B : Type 0) : Type 0 where
  pub broke : Option B
  pub scan : Ptr
  pub tmp : Ptr

abbrev pub scanned : {B : Type 0} → Option B → Ptr → Ptr → Scan B
scanned b s t = record { broke = b; scan = s; tmp = t }

module _ {B : Type 0} (body : Loc → Option B) (h : Loc) (σ : Links) where
  -- The rounds of clist_foreach(scan, clistp, member, tmp), at `tmp` and `scan`.
  unfoldable pub foreach_loop : ℕ → Ptr → Ptr → Result (Scan B)
  foreach_loop zero tmp scan = out_of_fuel
  foreach_loop (suc fuel) tmp scan =
      let rest : Loc → Result (Scan B) = λ e. foreach_loop fuel (some e) (σ e) in
      ite (Ptr-discrete tmp (σ h)) (ok (scanned none scan tmp)) (do
        e ← deref scan
        elim (body e) [ some b ↦ ok (scanned (some b) scan tmp) | none ↦ rest e ])

  -- clist_foreach(scan, clistp, member, tmp) with a body that may break and writes nothing
  unfoldable pub foreach : ℕ → Result (Scan B)
  unfolding foreach_loop
  foreach fuel = elim (σ h) [
    | none ↦ ok (scanned none none none)
    | some t ↦ foreach_loop fuel none (σ t)
  ]

-- clist_foreach_all(scan, clistp, member, tmp)
unfoldable pub foreach_all : Ptr → Loc → Links → Bool
foreach_all tmp h σ = ite (Ptr-discrete tmp (σ h)) true false

-- clist_foreach_delete(scan, clistp, member, tmp)
unfoldable pub foreach_delete : Loc → Ptr → Loc → Links → Result Links
foreach_delete e none h σ =
    ite (Ptr-discrete (σ h) (some e)) (ok (set_next σ h none))
      (do t ← deref (σ h); ok (set_next σ t (σ e)))
foreach_delete e (some p) h σ =
    let σ' : Links = ite (Ptr-discrete (σ h) (some e)) (set_next σ h (some p)) σ in
    ok (set_next σ' p (σ' e))

-- clist_foreach_add(elem, scan, clistp, member, tmp), before the current element `s`
unfoldable pub foreach_add : Loc → Loc → Ptr → Loc → Links → Result Links
foreach_add e s none h σ = do
  t ← deref (set_next σ e (some s) h)
  ok (set_next (set_next σ e (some s)) t (some e))
foreach_add e s (some p) h σ = ok (set_next (set_next σ e (some s)) p (some e))

-- The while loop of clist_delete, at `_tmp` and `_scan`; true is the return value 1, "not found".
unfoldable pub delete_loop : Loc → Loc → Links → ℕ → Ptr → Loc → Result (Links × Bool)
delete_loop e h σ zero tmp scan = out_of_fuel
delete_loop e h σ (suc fuel) tmp scan =
    let rest : Loc → Result (Links × Bool) = λ s. delete_loop e h σ fuel (some scan) s in
    ite (Ptr-discrete tmp (σ h)) (ok (σ, true)) (do
      next ← deref (σ scan)
      ite (Loc-discrete next e)
          (let σ' : Links = ite (Ptr-discrete (σ h) (some next)) (set_next σ h (some scan)) σ in
            ok (set_next σ' scan (σ' next), false))
          (rest next))

-- clist_delete(elem, clistp, member)
unfoldable pub delete : ℕ → Loc → Loc → Links → Result (Links × Bool)
unfolding delete_loop
delete fuel e h σ = elim (σ h) [
  | none ↦ ok (σ, true)
  | some t ↦ do
    first ← deref (σ t)
    let other : Result (Links × Bool) =
        ite (Loc-discrete e first) (ok (set_next σ t (σ first), false))
          (delete_loop e h σ fuel none first)
    ite (Loc-discrete t first) (ite (Loc-discrete t e) (ok (set_next σ h none, false)) other) other
]
