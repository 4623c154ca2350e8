-- ===== src/Accounting.antt =====
-- The accounting of time in lib/aux.c, and its copies of memory. Times are `unsigned int` values.
pub mod Time
use jae_so.Common.{ℕ, ◌+◌, ◌-◌, ◌%◌, ◌^◌, Option, none, some, if◌then◌else◌, ◌==◌, ltb}
use jae_so.Kernel.Machine.{State, StateRef, Pcb, Kernel, set_pcb, sub32, add32, pseudo_clock}
use jae_so.Kernel.Cmd.{Cmd, pure, ask, modify, modify_pcb, when, ◌>>=◌, ◌>>◌, done}

-- getTODLO: each call reads the clock once more.
unfoldable pub get_todlo : Cmd ℕ
get_todlo k = done (k.clock k.clock_reads) (record k { clock_reads = k.clock_reads + 1 })

-- `g_leftTo100 - elapsed`, and 0 where that has wrapped round
unfoldable pub count_down : ℕ → ℕ → ℕ
count_down left elapsed =
    let rest : ℕ = sub32 left elapsed in if ltb pseudo_clock rest then 0 else rest

-- The end of both functions: setTIMER with what comes first, the tick or the end of the slice.
unfoldable pub set_timer : Cmd (Unit {0})
set_timer = modify λ k. record k {
  timer = elim k.current_process [
    | some p ↦
        if ltb k.left_to_100 (k.pcb p).p_time_slice then k.left_to_100 else (k.pcb p).p_time_slice
    | none ↦ k.left_to_100
  ];
}

-- The time that a handler found the running process to have used.
abbrev pub charge : ℕ → Pcb → Pcb
charge elapsed b = record b {
  p_global_time = add32 b.p_global_time elapsed;
  p_user_time = add32 b.p_user_time elapsed;
  p_time_slice = sub32 b.p_time_slice elapsed;
}

-- onHandlerEnter
unfoldable pub on_handler_enter : ℕ → Cmd (Unit {0})
unfolding count_down set_timer
on_handler_enter now = do
  elapsed ← ask λ k. sub32 now k.last_update
  modify λ k. record k { left_to_100 = count_down k.left_to_100 elapsed; last_update = now }
  current ← ask λ k. k.current_process
  elim current [ none ↦ pure tt | some p ↦ modify_pcb p (charge elapsed) ]
  set_timer

-- onHandlerExit
unfoldable pub on_handler_exit : ℕ → ℕ → Cmd (Unit {0})
unfolding count_down set_timer
on_handler_exit now flag = do
  elapsed ← ask λ k. sub32 now k.last_update
  current ← ask λ k. k.current_process
  when (flag == 1) (elim current [
    | none ↦ pure tt
    | some p ↦ modify_pcb p (λ b. record b { p_global_time = add32 b.p_global_time elapsed })
  ])
  modify λ k. record k { left_to_100 = count_down k.left_to_100 elapsed; last_update = now }
  set_timer

-- copyState, as the value that it leaves in `*dst`
unfoldable pub copy_state : State → State
copy_state src = record {
  a1 = src.a1;
  a2 = src.a2;
  a3 = src.a3;
  a4 = src.a4;
  v1 = src.v1;
  v2 = src.v2;
  v3 = src.v3;
  v4 = src.v4;
  v5 = src.v5;
  v6 = src.v6;
  sl = src.sl;
  fp = src.fp;
  ip = src.ip;
  sp = src.sp;
  lr = src.lr;
  pc = src.pc;
  cpsr = src.cpsr;
  cp15_control = src.cp15_control;
  cp15_entry_hi = src.cp15_entry_hi;
  cp15_cause = src.cp15_cause;
  tod_hi = src.tod_hi;
  tod_low = src.tod_low;
}
