-- ===== src/Interrupts/Device.antt =====
-- Which device of a line handleDevices serves.
use jae_so.Common.{
  ℕ, zero, suc, ◌+◌, ◌/◌, ◌%◌, ◌<◌, ◌≡◌, refl, ◌∙◌, ap, ◌⊎◌, inl, inr, none, some, arith, ◌==◌,
  Bool-cases,
}
use jae_so.Interrupts.{find_device}

-- The bit map after `j` shifts by one: its lowest bit is the bit `j`.
unfoldable pub shifted : ℕ → ℕ → ℕ
shifted zero map = map
shifted (suc j) map = shifted j (map / 2)

-- No interrupt is pending on the first `n` devices.
abbrev pub NonePending : ℕ → ℕ → Type 0
NonePending n map = (j : ℕ) → j < n → shifted j map % 2 ≡ 0

more_pending : (n map : ℕ) → map % 2 ≡ 0 → NonePending n (map / 2) → NonePending (suc n) map
unfolding shifted
more_pending n map e z zero l = e
more_pending n map e z (suc j) l = z j (omega arith)

-- The loop of handleDevices over the bit map of a line finds the first device whose bit is set,
-- and leaves the bit map shifted down to that bit; with no bit set it finds none.
pub find_device_lem :
    (n i map : ℕ)
    → ((j : ℕ) × (j < n)
        × (find_device n i map ≡ (some (i + j), shifted j map))
        × (shifted j map % 2 ≡ 1)
        × NonePending j map)
      ⊎ ((find_device n i map ≡ (none, shifted n map)) × NonePending n map)
unfolding find_device shifted
find_device_lem zero i map = inr (refl, λ j l. absurd (omega arith))
find_device_lem (suc n) i map = elim (Bool-cases (map % 2 == 1)) [
  | inl t ↦ inl (
    0,
    omega arith,
    rw t (ap (λ x. (some x, map)) (omega arith)),
    ground arith,
    λ j l. absurd (omega arith),
  )
  | inr t ↦ elim (find_device_lem n (i + 1) (map / 2)) [
    | inl (j, l, e, b, z) ↦ inl (
      suc j,
      omega arith,
      rw t (e ∙ ap (λ x. (some x, shifted j (map / 2))) (omega arith)),
      b,
      more_pending j map (ground arith) z,
    )
    | inr (e, z) ↦ inr (rw t e, more_pending n map (ground arith) z)
  ]
]
