-- ===== src/Memory.antt =====
-- The addresses of the `struct clist` objects (incl/clist.h), and a store of their `next` fields.
use jae_so.Common.{ℕ, ℕ_discrete, ite, Option}

-- `&(p->p_list)` and so on, for the control block or descriptor with the given number, and the tail
-- pointers that are variables of their own.
pub data Loc : Type 0 where
  p_list p_children p_siblings : ℕ → Loc
  s_link s_procq : ℕ → Loc
  pcb_free aslh semd_free ready_queue : Loc

unfoldable pub Loc-discrete : Discrete Loc
unfolding ℕ_discrete
Loc-discrete = hlevel ℕ_discrete

-- `struct clist *`: `none` is NULL.
abbrev pub Ptr : Type 0
Ptr = Option Loc

unfoldable pub Ptr-discrete : Discrete Ptr
unfolding Loc-discrete
Ptr-discrete = hlevel Loc-discrete

-- The `next` field of every `struct clist`.
abbrev pub Links : Type 0
Links = Loc → Ptr

-- `a->next = v`
unfoldable pub set_next : Links → Loc → Ptr → Links
set_next σ a v b = ite (Loc-discrete b a) v (σ b)
