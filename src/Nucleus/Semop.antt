-- ===== src/Nucleus/Semop.antt =====
-- semop on a nucleus in order, whatever its arguments but for a weight of 0.
use jae_so.Common.{ℕ, zero, suc, ◌≡◌, ◌≢◌, refl, some}
use jae_so.Common.Int.{ℤ, pos, negsuc}
use jae_so.Kernel.Arch.{Arch}
use jae_so.Kernel.Machine.{Kernel}
use jae_so.Kernel.Cmd.{Returns}
use jae_so.Kernel.Rules.{Returns-weaken}
use jae_so.Syscalls.Semop.{semop}
use jae_so.Nucleus.{IsOrdered}
use jae_so.Nucleus.Signal.{Ordered, semop_v-IsNucleus}
use jae_so.Nucleus.Wait.{semop_p-IsNucleus}

-- On a nucleus in order with a process running, semop of any semaphore with a weight that is not 0
-- returns, with no panic, and leaves the nucleus in order.
pub semop-IsOrdered :
    (arch : Arch) (sem p : ℕ) (w : ℤ) (k : Kernel)
    → IsOrdered k
    → k.current_process ≡ some p
    → w ≢ pos 0
    → Returns (λ _ k'. IsOrdered k') (semop arch sem w k)
semop-IsOrdered arch sem p (pos zero) k o c n = absurd (n refl)
semop-IsOrdered arch sem p (pos (suc m)) k (v, i) c n =
    Returns-weaken (λ _ k'. Ordered k k') (λ _ k'. IsOrdered k') (semop arch sem (pos (suc m)) k)
      (semop_v-IsNucleus arch sem m v k i) (λ _ k' s. (s.0, s.1))
semop-IsOrdered arch sem p (negsuc m) k (v, i) c n = semop_p-IsNucleus arch sem p v k i c m
