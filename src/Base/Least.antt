-- ===== src/Base/Least.antt =====
-- The least index below a bound that passes a test.
use Prim.Native.Nat.{ℕ, zero, suc, ◌≤◌, ◌<◌}
use mathlib.Core.Path.{◌≡◌}
use mathlib.Core.Logic.{◌⊎◌, inl, inr}
use mathlib.Core.Bool.{Bool, true, false}
use native.Mathlib.Omega.{arith}
use nginx_lws.Base.Tests.{Bool-cases}

module _ (t : ℕ → Bool) where
  abbrev pub IsLeast : ℕ → Type 0
  IsLeast m = (t m ≡ true) × ((k : ℕ) → k < m → t k ≡ false)

  -- Either an index below the bound is the least that passes, or none below it passes.
  pub IsLeast-or_none : (n : ℕ) → ((m : ℕ) × (m < n) × IsLeast m) ⊎ ((k : ℕ) → k < n → t k ≡ false)
  IsLeast-or_none zero = inr (λ k h. absurd (omega arith))
  IsLeast-or_none (suc n) = elim (IsLeast-or_none n) [
    | inl (m, h, l) ↦ inl (m, omega arith, l)
    | inr nope ↦ elim (Bool-cases (t n)) [
      | inl e ↦ inl (n, omega arith, (e, nope))
      | inr e ↦ inr (λ k h. grind (arith, nope))
    ]
  ]

  pub least : (n : ℕ) → t n ≡ true → (m : ℕ) × (m ≤ n) × IsLeast m
  least n e = elim (IsLeast-or_none (suc n)) [
    | inl (m, h, l) ↦ (m, omega arith, l)
    | inr nope ↦ cc (nope n (omega arith))
  ]
