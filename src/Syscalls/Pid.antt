-- ===== src/Syscalls/Pid.antt =====
-- The process identifiers that pid_selector gives out.
use jae_so.Common.{ℕ, ◌+◌, ◌*◌, ◌/◌, ◌%◌, ◌^◌, ◌≤◌, ◌<◌, ◌≡◌, ◌≢◌, arith, bit_or}
use jae_so.Common.Bits.{or_fields}
use jae_so.Kernel.Machine.{Kernel, max_proc, add32}
use jae_so.Kernel.Cmd.{Returns}
use jae_so.Syscalls.Process.{pid_selector}

-- The identifier made of the two counts.
abbrev pub pid_of : ℕ → ℕ → ℕ
pid_of made live = bit_or (made * 2 ^ 5 % 2 ^ 32) live

pub pid_of_fields :
    (made live : ℕ) → made < 2 ^ 27 → live < 32 → pid_of made live ≡ made * 32 + live
pid_of_fields made live m l =
    let e : made * 2 ^ 5 % 2 ^ 32 ≡ made * 32 = omega arith in rw e (or_fields made live l)

-- While fewer than 2^27 processes have been made, this one included, and at most MAXPROC live, the
-- identifier is the number of processes made above five bits that hold the count of live ones; the
-- former is one more than before, and the identifier is not 0.
pub pid_selector_lem :
    (k : Kernel)
    → k.abs_process_count + 1 < 2 ^ 27
    → k.process_count ≤ max_proc
    → Returns
        (λ pid k'.
          (pid / 32 ≡ k.abs_process_count + 1)
          × (pid % 32 ≡ k.process_count)
          × (k'.abs_process_count ≡ k.abs_process_count + 1)
          × (pid ≢ 0))
        (pid_selector k)
unfolding pid_selector
pid_selector_lem k a l =
    let made : ℕ = add32 k.abs_process_count 1 in
    let e : made ≡ k.abs_process_count + 1 = omega arith in
    let f : pid_of made k.process_count ≡ made * 32 + k.process_count =
      pid_of_fields made k.process_count (omega arith) (omega arith) in
    (omega arith, omega arith, e, omega arith)
