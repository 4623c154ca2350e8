-- ===== src/Syscalls/Semop.antt =====
-- SYS3 of src/exceptions.c: the operations on semaphores.
use jae_so.Common.{ℕ, zero, suc, ◌-◌, ◌%◌, ◌^◌, Bool, true, none, some, if◌then◌else◌, ◌==◌, ltb}
use jae_so.Common.Int.{ℤ, pos, negsuc, ◌+ℤ◌, ◌-ℤ◌, ltb_ℤ}
use jae_so.Memory.{ready_queue}
use jae_so.Kernel.Arch.{Arch, is_dev}
use jae_so.Kernel.Machine.{add32, sub32, set_word}
use jae_so.Kernel.Cmd.{
  Cmd, pure, exit, panic, diverge, ask, need, modify, modify_pcb, when, ◌>>=◌, ◌>>◌,
}
use jae_so.Pcb.{rounds, insert_proc_q}
use jae_so.Asl.{insert_blocked, remove_blocked, head_blocked}
use jae_so.Accounting.{get_todlo, on_handler_exit}
use jae_so.Syscalls.Process.{running}

-- An `unsigned int` as an `int`.
abbrev pub signed32 : ℕ → ℤ
signed32 w = if ltb w (2 ^ 31) then pos w else negsuc (2 ^ 32 - w - 1)

-- An `int` as an `unsigned int`, as in a comparison or a difference with one.
abbrev pub unsigned32 : ℤ → ℕ
unsigned32 (pos n) = n % 2 ^ 32
unsigned32 (negsuc n) = 2 ^ 32 - 1 - n % 2 ^ 32

-- The sum and the difference of two `int` values, with their wrap-around.
unfoldable pub add_int : ℤ → ℤ → ℤ
add_int a b = signed32 (unsigned32 (a +ℤ b))

unfoldable pub sub_int : ℤ → ℤ → ℤ
sub_int a b = signed32 (unsigned32 (a -ℤ b))

module _ (arch : Arch) where
  -- The end of a round of the loop of semop: `p` is awake.
  unfoldable pub settle : ℕ → ℕ → Cmd (Unit {0})
  settle sem p = do
    cursem ← ask λ k. (k.pcb p).p_cursem
    d ← need cursem
    dev ← ask λ k. is_dev arch (k.sem_add d)
    when dev (modify λ k. record k { soft_block_count = sub32 k.soft_block_count 1 })
    head_blocked sem
    pure tt

  -- The while loop of semop with a positive weight; the result is freeResources.
  unfoldable pub wake_loop : ℕ → ℕ → ℤ → Cmd ℤ
  unfolding settle
  wake_loop zero sem free = λ k. diverge
  wake_loop (suc fuel) sem free =
      let rest : ℤ → Cmd ℤ = wake_loop fuel sem in
      do
        head ← head_blocked sem
        elim head [
          | none ↦ pure free
          | some p ↦ do
            need_of ← ask λ k. (k.pcb p).res_requested
            if ltb (unsigned32 free) need_of then (do head_blocked sem; pure free) else do
              modify_pcb p (λ b. record b { res_requested = 0 })
              remove_blocked sem
              insert_proc_q ready_queue p
              settle sem p
              rest (signed32 (sub32 (unsigned32 free) need_of))
        ]

  -- The caller `p` is blocked, and waits for `amount`.
  unfoldable pub park : ℕ → ℕ → ℕ → Cmd (Unit {0})
  park sem amount p = do
    modify_pcb p (λ b. record b { res_requested = amount })
    tod ← get_todlo
    on_handler_exit tod 1
    modify λ k. record k { current_process = none }
    when (is_dev arch sem) (modify λ k. record k { soft_block_count = add32 k.soft_block_count 1 })

  -- The branch of semop with a negative weight, here `amount` with its sign changed.
  unfoldable pub take_resources : ℕ → ℕ → Cmd (Unit {0})
  unfolding park
  take_resources sem amount = do
    head ← head_blocked sem
    value ← ask λ k. k.word sem
    let waits : Bool = elim head [
      | some _ ↦ true
      | none ↦ ltb_ℤ (sub_int value (pos amount)) (pos 0)
    ]
    if waits
        then (do
          current ← running
          full ← insert_blocked sem current
          if full == 0 then park sem amount current else exit panic)
        else modify (λ k. set_word sem (sub_int (k.word sem) (pos amount)) k)

  -- semop
  unfoldable pub semop : ℕ → ℤ → Cmd (Unit {0})
  unfolding wake_loop take_resources
  semop sem (pos zero) = exit panic
  semop sem (pos (suc n)) = do
    value ← ask λ k. k.word sem
    free ← wake_loop rounds sem (add_int (pos (suc n)) value)
    modify (set_word sem free)
  semop sem (negsuc n) = take_resources sem (suc n)
