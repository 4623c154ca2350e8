-- ===== src/Nucleus/Devices.antt =====
-- A device interrupt keeps the nucleus in order.
use jae_so.Common.{
  ℕ, ◌<◌, ◌≡◌, refl, ◌∙◌, inl, inr, none, some, Option, List, [], ◌∷◌, Bool-cases, not,
}
use jae_so.Common.Int.{pos, ltb_ℤ}
use jae_so.Kernel.Arch.{Arch, n_dev_types}
use jae_so.Kernel.Machine.{Kernel, set_word}
use jae_so.Kernel.Cmd.{Returns, done, and_then, when, modify_pcb}
use jae_so.Kernel.Rules.{Returns-and_then, Returns-done}
use jae_so.Asl.{head_blocked}
use jae_so.Asl.Find.{seek}
use jae_so.Asl.Head.{head_blocked-none, head_blocked-cons, seek-agree}
use jae_so.Asl.Remove.{seek-In}
use jae_so.Syscalls.Free.{semop-stored}
use jae_so.Syscalls.Semop.{semop, add_int}
use jae_so.Interrupts.{find_device, acknowledge, same, signal_device, handle_devices}
use jae_so.Nucleus.{View, IsNucleus, IsOrdered}
use jae_so.Nucleus.Frame.{Frame-of, IsOrdered-Frame, set_pcb-Frame}
use jae_so.Nucleus.Signal.{BlockedAt, Ordered, who, few, semop_v-IsNucleus}

-- headBlocked on a nucleus in order.
head_of : (sem : ℕ) (k : Kernel) → IsOrdered k → (o : Option ℕ) × (head_blocked sem k ≡ done o k)
head_of sem k (v, n) = go (who v k sem n)
  where
    go :
        ((d : ℕ) × (ps : List ℕ) × BlockedAt v k sem d ps)
        → (o : Option ℕ) × (head_blocked sem k ≡ done o k)
    go (d, [], e) = (none, head_blocked-none k sem v.active (few v k n) n.active e)
    go (d, p ∷ ps, b) = (
      some p,
      head_blocked-cons k sem d p ps v.active (few v k n) n.active b.0
          (rw b.1 at (n.queue d (seek-In k sem d v.active b.0))),
    )

module _ (arch : Arch) (sem s : ℕ) where
  -- No process waits for the device.
  signal_none :
      (v : View) (k : Kernel)
      → IsNucleus v k
      → seek k sem v.active ≡ none
      → Returns (λ _ k'. IsOrdered k') (signal_device arch sem (some s) k)
  unfolding signal_device
  signal_none v k n absent = elim (Bool-cases (ltb_ℤ (k.word sem) (pos 1))) [
    | inr e ↦
        let h = head_blocked-none k sem v.active (few v k n) n.active absent in rw (h, e, h) (v, n)
    | inl e ↦
        let h = head_blocked-none k sem v.active (few v k n) n.active absent in
        let f =
          semop-stored arch k sem v.active
            (record { few = few v k n; active = n.active; absent = absent }) (pos 1) tt in
        let k1 : Kernel = set_word sem (add_int (pos 1) (k.word sem)) k in
        let h1 =
          head_blocked-none k1 sem v.active (few v k n) n.active
            (seek-agree k k1 sem v.active refl ∙ absent) in
        rw (h, e, f, h1) (IsOrdered-Frame k k1 (Frame-of k k1 refl refl refl refl refl refl) (v, n))
  ]

  -- The first that waits is given the status if it was woken.
  given :
      (p : ℕ) (o : Option ℕ) (k : Kernel)
      → IsOrdered k
      → head_blocked sem k ≡ done o k
      → Returns
          (λ _ k'. IsOrdered k')
          (and_then (head_blocked sem k) λ after.
            when
              (not (same (some p) after))
              (modify_pcb p (λ b. record b { p_s = record b.p_s { a1 = s } })))
  given p o k n h = elim (Bool-cases (same (some p) o)) [
    | inl e ↦ rw (h, e) n
    | inr e ↦ rw (h, e) (IsOrdered-Frame k _ (set_pcb-Frame k p _ refl refl) n)
  ]

  signal_some :
      (v : View) (k : Kernel) (p : ℕ)
      → IsNucleus v k
      → head_blocked sem k ≡ done (some p) k
      → Returns (λ _ k'. IsOrdered k') (signal_device arch sem (some s) k)
  unfolding signal_device
  signal_some v k p n h =
      Returns-done (λ _ k'. IsOrdered k') (head_blocked sem k) _ (some p) k h
        (elim (Bool-cases (ltb_ℤ (k.word sem) (pos 1))) [
          | inr e ↦ rw e (given p (some p) k (v, n) h)
          | inl e ↦ rw e (
              Returns-and_then (λ _ k'. Ordered k k') (λ _ k'. IsOrdered k')
                (semop arch sem (pos 1) k) _ (semop_v-IsNucleus arch sem 0 v k n)
                λ _ k' (w, n', c, b). let o = head_of sem k' (w, n') in given p o.0 k' (w, n') o.1)
        ])

  pub signal_device-IsOrdered :
      (k : Kernel)
      → IsOrdered k
      → Returns (λ _ k'. IsOrdered k') (signal_device arch sem (some s) k)
  signal_device-IsOrdered k (v, n) = go (who v k sem n)
    where
      go :
          ((d : ℕ) × (ps : List ℕ) × BlockedAt v k sem d ps)
          → Returns (λ _ k'. IsOrdered k') (signal_device arch sem (some s) k)
      go (d, [], e) = signal_none v k n e
      go (d, p ∷ ps, b) = signal_some v k p n (
          head_blocked-cons k sem d p ps v.active (few v k n) n.active b.0
            (rw b.1 at (n.queue d (seek-In k sem d v.active b.0))))

-- A device of the line has interrupted, and has a status to give and a semaphore in the array of the
-- devices' semaphores. A terminal that has received a character has none there.
pub record HasRequest (arch : Arch) (line : ℕ) (k : Kernel) : Type 0 where
  pub dev : ℕ
  pub result : ℕ
  pub pending : (find_device arch.n_dev_per_il 0 (k.bitmap line)).0 ≡ some dev
  pub known : (acknowledge arch line dev (k.dev line dev)).0.1 ≡ some result
  pub inside : (acknowledge arch line dev (k.dev line dev)).0.0 < n_dev_types arch

pub handle_devices-IsOrdered :
    (arch : Arch) (line : ℕ) (k : Kernel)
    → IsOrdered k
    → HasRequest arch line k
    → Returns (λ _ k'. IsOrdered k') (handle_devices arch line k)
unfolding handle_devices
handle_devices-IsOrdered arch line k o r =
    rw (r.pending, r.known)
      (signal_device-IsOrdered arch _ r.result _
        (IsOrdered-Frame k _ (Frame-of k _ refl refl refl refl refl refl) o))
