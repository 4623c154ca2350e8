-- ===== src/Kernel/Machine.antt =====
-- state_t, pcb_t and the variables of incl/init.h. A pcb or semd is named by its number in the
-- static array that holds it, and its `struct clist` fields are the links of Memory.
use jae_so.Common.{
  ℕ_discrete, ==_refl, ne→==, ℕ, ◌+◌, ◌-◌, ◌%◌, ◌^◌, ◌≡◌, ◌≢◌, arith, ◌==◌, if◌then◌else◌, Option,
  none, some,
}
use mathlib.Core.Path.{fun_ext}
use jae_so.Common.Int.{ℤ}
use jae_so.Memory.{Loc, p_list, p_siblings, s_link, Links}

-- MAXPROC
abbrev pub max_proc : ℕ
max_proc = 20

-- SCHED_TIME_SLICE, in microseconds
abbrev pub time_slice : ℕ
time_slice = 5000

-- SCHED_PSEUDO_CLOCK
abbrev pub pseudo_clock : ℕ
pseudo_clock = 100000

-- Subtraction of `unsigned int` values.
abbrev pub sub32 : ℕ → ℕ → ℕ
sub32 a b = (a + 2 ^ 32 - b) % 2 ^ 32

-- Addition of `unsigned int` values.
abbrev pub add32 : ℕ → ℕ → ℕ
add32 a b = (a + b) % 2 ^ 32

-- The registers that copyState copies.
pub record State : Type 0 where
  pub a1 : ℕ
  pub a2 : ℕ
  pub a3 : ℕ
  pub a4 : ℕ
  pub v1 : ℕ
  pub v2 : ℕ
  pub v3 : ℕ
  pub v4 : ℕ
  pub v5 : ℕ
  pub v6 : ℕ
  pub sl : ℕ
  pub fp : ℕ
  pub ip : ℕ
  pub sp : ℕ
  pub lr : ℕ
  pub pc : ℕ
  pub cpsr : ℕ
  pub cp15_control : ℕ
  pub cp15_entry_hi : ℕ
  pub cp15_cause : ℕ
  pub tod_hi : ℕ
  pub tod_low : ℕ

abbrev pub zero_state : State
zero_state = record {
  a1 = 0;
  a2 = 0;
  a3 = 0;
  a4 = 0;
  v1 = 0;
  v2 = 0;
  v3 = 0;
  v4 = 0;
  v5 = 0;
  v6 = 0;
  sl = 0;
  fp = 0;
  ip = 0;
  sp = 0;
  lr = 0;
  pc = 0;
  cpsr = 0;
  cp15_control = 0;
  cp15_entry_hi = 0;
  cp15_cause = 0;
  tod_hi = 0;
  tod_low = 0;
}

-- pcb_area_t
pub record Area : Type 0 where
  pub old_area : State
  pub new_area : State

abbrev pub zero_area : Area
zero_area = record { old_area = zero_state; new_area = zero_state }

-- pcb_t, without its links; p_excpvec is used nowhere.
pub record Pcb : Type 0 where
  pub p_parent : Option ℕ
  pub p_cursem : Option ℕ
  pub res_requested : ℕ
  pub p_pid : ℕ
  pub p_s : State
  pub p_global_time : ℕ
  pub p_user_time : ℕ
  pub p_time_slice : ℕ
  pub sysbp : Area
  pub pgmtr : Area
  pub tlb : Area

abbrev pub zero_pcb : Pcb
zero_pcb = record {
  p_parent = none;
  p_cursem = none;
  res_requested = 0;
  p_pid = 0;
  p_s = zero_state;
  p_global_time = 0;
  p_user_time = 0;
  p_time_slice = 0;
  sysbp = zero_area;
  pgmtr = zero_area;
  tlb = zero_area;
}

-- What a `state_t *` of the handlers can point to: the reserved frames in ROM, and the areas of a
-- control block.
pub data StateRef : Type 0 where
  int_old_area sysbp_old_area pgm_old_area tlb_old_area : StateRef
  pcb_state sysbp_old tlb_old pgm_old sysbp_new tlb_new pgm_new : ℕ → StateRef

-- The registers of a device: those of a terminal, or `status` and `command`.
pub record DevReg : Type 0 where
  pub status : ℕ
  pub command : ℕ
  pub recv_status : ℕ
  pub recv_command : ℕ
  pub transm_status : ℕ
  pub transm_command : ℕ

pub record Kernel : Type 0 where
  pub links : Links
  pub pcb : ℕ → Pcb
  -- s_semAdd of each descriptor
  pub sem_add : ℕ → ℕ
  -- the `int` at each address: the semaphores, and what system calls write for their caller
  pub word : ℕ → ℤ
  -- the state_t at an address that a process passes
  pub state_at : ℕ → State
  pub process_count : ℕ
  pub soft_block_count : ℕ
  pub current_process : Option ℕ
  pub pseudo_clock_blk : ℤ
  pub last_update : ℕ
  pub left_to_100 : ℕ
  pub abs_process_count : ℕ
  pub by_sys_hdl : ℕ
  pub int_old : State
  pub sysbp_old : State
  pub pgm_old : State
  pub tlb_old : State
  pub int_new : State
  pub sysbp_new : State
  pub pgm_new : State
  pub tlb_new : State
  -- m_state_loaded
  pub state_loaded : StateRef
  -- the value last given to setTIMER
  pub timer : ℕ
  -- what the n-th call of getTODLO returns, and how many were made
  pub clock : ℕ → ℕ
  pub clock_reads : ℕ
  pub cause : ℕ
  pub status : ℕ
  -- the device registers by line and device, and the pending interrupts of each line
  pub dev : ℕ → ℕ → DevReg
  pub bitmap : ℕ → ℕ

abbrev pub update {ℓ} : {A : Type ℓ} → (ℕ → A) → ℕ → A → ℕ → A
update f i a j = if j == i then a else f j

pub update_self {ℓ} : {A : Type ℓ} (f : ℕ → A) (i : ℕ) (a : A) → update f i a i ≡ a
update_self f i a = ground arith

pub update_other {ℓ} : {A : Type ℓ} (f : ℕ → A) (i j : ℕ) (a : A) → j ≢ i → update f i a j ≡ f j
update_other f i j a n = ground arith

pub update-update {ℓ} :
    {A : Type ℓ} (f : ℕ → A) (i : ℕ) (a b : A) → update (update f i a) i b ≡ update f i b
update-update f i a b = fun_ext λ j. ground arith

abbrev pub set_pcb : ℕ → Pcb → Kernel → Kernel
set_pcb p b k = record k { pcb = update k.pcb p b }

abbrev pub set_word : ℕ → ℤ → Kernel → Kernel
set_word a v k = record k { word = update k.word a v }

abbrev pub set_dev : ℕ → ℕ → DevReg → Kernel → Kernel
set_dev l d r k = record k { dev = update k.dev l (update (k.dev l) d r) }

-- container_of(ptr, struct pcb_t, p_list); on any other pointer it has no meaning.
abbrev pub pcb_of : Loc → Option ℕ
pcb_of (p_list p) = some p
pcb_of _ = none

-- container_of(ptr, struct pcb_t, p_siblings)
abbrev pub sibling_of : Loc → Option ℕ
sibling_of (p_siblings p) = some p
sibling_of _ = none

-- container_of(ptr, struct semd_t, s_link)
abbrev pub semd_of : Loc → Option ℕ
semd_of (s_link s) = some s
semd_of _ = none

-- An update that keeps what `g` reads.
pub update_field {ℓ κ} :
    {A : Type ℓ} {B : Type κ} (g : A → B) (f : ℕ → A) (i : ℕ) (a : A) (j : ℕ)
    → g a ≡ g (f i)
    → g (update f i a j) ≡ g (f j)
update_field g f i a j e = elim (ℕ_discrete j i) [
  | yes q ↦ rw (q, ==_refl i) e
  | no n ↦ rw (ne→== j i n)
]
