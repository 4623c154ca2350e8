-- ===== src/Interrupts/Terminal.antt =====
-- The semaphore that handleDevices signals when a terminal has received a character.
use jae_so.Common.{ℕ, ◌%◌, ◌^◌, ◌≤◌, ◌<◌, ◌≡◌, ◌≢◌, arith, ◌==◌, ◌||◌, true, ==_refl}
use jae_so.Kernel.Arch.{Arch, dev_sem, n_dev_types}
use jae_so.Kernel.Machine.{DevReg}
use jae_so.Interrupts.{acknowledge}

-- The terminal says that a character has come in, or that reading one has failed.
abbrev pub HasReceived : Arch → DevReg → Type 0
HasReceived arch r =
    (r.recv_status % 2 ^ 8 == arch.dev_trcv_s_charrecv
      || r.recv_status % 2 ^ 8 == arch.dev_trcv_s_recverr)
    ≡ true

module _ (arch : Arch) (dev : ℕ) (r : DevReg) where
  abbrev pub signalled : ℕ
  signalled = dev_sem arch (acknowledge arch arch.il_terminal dev r).0.0 dev

  received_row :
      HasReceived arch r → (acknowledge arch arch.il_terminal dev r).0.0 ≡ n_dev_types arch
  unfolding acknowledge
  received_row h = rw (==_refl arch.il_terminal, h)

  -- With N_EXT_IL at 5 and at least one device for each line, the semaphore that handleDevices
  -- signals when a terminal has received a character lies past the end of the array of the
  -- devices' semaphores, and is not that of row 5.
  pub acknowledge-HasReceived :
      arch.n_ext_il ≡ 5
      → 0 < arch.n_dev_per_il
      → HasReceived arch r
      → (dev_sem arch (n_dev_types arch) 0 ≤ signalled) × (signalled ≢ dev_sem arch 5 dev)
  acknowledge-HasReceived e n h = rw (received_row h) (rw e (omega arith, omega arith))
