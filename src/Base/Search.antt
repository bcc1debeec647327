-- ===== src/Base/Search.antt =====
-- The bisection loop that lws_table_size (src/lws_table.c) and lws_find_http_status
-- (src/lws_http.c) both spell out.
use nginx_lws.Base.Tests.{ltb, ltb→lt, Bool-cases}
use Prim.Native.Nat.{ℕ, zero, suc, ◌+◌, ◌-◌, ◌/◌, ◌≤◌, ◌<◌}
use mathlib.Core.Path.{◌≡◌, ap, ◌∙◌}
use mathlib.Core.Logic.{inl, inr}
use mathlib.Core.Bool.{Bool, true, false}
use mathlib.Core.Option.{Option, none, some}
use native.Mathlib.Omega.{arith}

-- `while (lower <= upper)`; `stop` is `upper + 1`, since `upper` may be -1. `less mid` is the test
-- `a[mid] < x`, and none where `mid` is out of bounds. The result is `lower` at the end, and none
-- after a read out of bounds or where the fuel runs out.
unfoldable pub bisect : (ℕ → Option Bool) → ℕ → ℕ → ℕ → Option ℕ
bisect less zero lower stop = none
bisect less (suc fuel) lower stop = elim (ltb lower stop) [
  | false ↦ some lower
  | true ↦ elim (less ((lower + (stop - 1)) / 2)) [
    | none ↦ none
    | some below ↦ elim below [
      | true ↦ bisect less fuel ((lower + (stop - 1)) / 2 + 1) stop
      | false ↦ bisect less fuel lower ((lower + (stop - 1)) / 2)
    ]
  ]
]

-- `r` splits the indices below `n` into those that pass the test and those that do not.
abbrev pub SplitsAt : (ℕ → Bool) → ℕ → ℕ → Type 0
SplitsAt t n r = (r ≤ n) × ((i : ℕ) → i < r → t i ≡ true) × ((i : ℕ) → r ≤ i → i < n → t i ≡ false)

abbrev middle : ℕ → ℕ → ℕ
middle lower stop = (lower + (stop - 1)) / 2

module _ (less : ℕ → Option Bool) (fuel lower stop : ℕ) where
  bisect_done : ltb lower stop ≡ false → bisect less (suc fuel) lower stop ≡ some lower
  unfolding bisect
  bisect_done h = ground arith

  bisect_below :
      ltb lower stop ≡ true
      → less (middle lower stop) ≡ some true
      → bisect less (suc fuel) lower stop ≡ bisect less fuel (middle lower stop + 1) stop
  unfolding bisect
  bisect_below h e = ground arith

  bisect_above :
      ltb lower stop ≡ true
      → less (middle lower stop) ≡ some false
      → bisect less (suc fuel) lower stop ≡ bisect less fuel lower (middle lower stop)
  unfolding bisect
  bisect_above h e = ground arith

module _ (less : ℕ → Option Bool) (t : ℕ → Bool) (n : ℕ)
    (reads : (i : ℕ) → i < n → less i ≡ some (t i))
    (down : (i j : ℕ) → i ≤ j → j < n → t j ≡ true → t i ≡ true) where
  mid_ok :
      (lower stop : ℕ)
      → lower < stop
      → (lower ≤ (lower + (stop - 1)) / 2) × ((lower + (stop - 1)) / 2 < stop)
  mid_ok lower stop h = omega arith

  -- Enough fuel for the width of the range: the loop ends, reads in bounds, and finds the split.
  pub bisect-SplitsAt :
      (fuel lower stop : ℕ)
      → stop < fuel + lower
      → lower ≤ stop
      → stop ≤ n
      → ((i : ℕ) → i < lower → t i ≡ true)
      → ((i : ℕ) → stop ≤ i → i < n → t i ≡ false)
      → (r : ℕ) × (bisect less fuel lower stop ≡ some r) × SplitsAt t n r
  bisect-SplitsAt zero lower stop f a b p q = absurd (omega arith)
  bisect-SplitsAt (suc fuel) lower stop f a b p q = elim (Bool-cases (ltb lower stop)) [
    | inr done ↦
        (lower, bisect_done less fuel lower stop done, (omega arith, p, λ i h. q i (ground arith)))
    | inl more ↦
        let m = mid_ok lower stop (ltb→lt lower stop more) in
        elim (Bool-cases (t (middle lower stop))) [
          | inl low ↦
              let e = reads (middle lower stop) (omega arith) ∙ ap some low in
              rw (bisect_below less fuel lower stop more e) (
                bisect-SplitsAt fuel (middle lower stop + 1) stop (omega arith) (omega arith) b
                  (λ i h. down i (middle lower stop) (omega arith) (omega arith) low) q)
          | inr high ↦
              let e = reads (middle lower stop) (omega arith) ∙ ap some high in
              rw (bisect_above less fuel lower stop more e) (
                bisect-SplitsAt fuel lower (middle lower stop) (omega arith) m.0 (omega arith) p
                  (λ i h k. elim (Bool-cases (t i)) [
                    | inl low ↦ cc (down (middle lower stop) i h k low)
                    | inr fine ↦ fine
                  ]))
        ]
  ]

  -- The loop over the whole table.
  pub bisect_whole : (r : ℕ) × (bisect less (suc n) 0 n ≡ some r) × SplitsAt t n r
  bisect_whole =
      bisect-SplitsAt (suc n) 0 n (omega arith) (omega arith) (omega arith)
        (λ i h. absurd (omega arith)) (λ i h k. absurd (omega arith))
