-- ===== src/Table/Cycle.antt =====
-- The slots that `lws_table_find` and `lws_table_insert` of src/lws_table.c probe for a hash.
use native.Mathlib.Nat.{mod-add-mod, mod-mod, add-mul-mod_self_left}
use nginx_lws.Base.{ℕ, ◌+◌, ◌-◌, ◌*◌, ◌%◌, ◌<◌, ◌≤◌, ◌≡◌, ap, sym, ◌∙◌, arith}
use nginx_lws.Table.Defs.{home, stride}

-- The slot after `n` steps.
unfoldable pub probe : ℕ → ℕ → ℕ → ℕ
probe alloc hash n = (home alloc hash + n * stride alloc hash) % alloc

module _ (alloc hash : ℕ) (big : 3 ≤ alloc) where
  pub probe-lt : (n : ℕ) → probe alloc hash n < alloc
  unfolding probe
  probe-lt n = grind arith

  pub probe-zero : probe alloc hash 0 ≡ home alloc hash
  unfolding probe
  probe-zero = grind arith

  pub probe-add :
      (m n : ℕ) → (probe alloc hash m + n * stride alloc hash) % alloc ≡ probe alloc hash (m + n)
  unfolding probe
  probe-add m n =
      mod-add-mod (home alloc hash + m * stride alloc hash) alloc (n * stride alloc hash)
      ∙ ap (λ x. x % alloc) (omega arith)

  pub probe-suc :
      (n : ℕ) → (probe alloc hash n + stride alloc hash) % alloc ≡ probe alloc hash (n + 1)
  probe-suc n = ap (λ x. (probe alloc hash n + x) % alloc) (omega arith) ∙ probe-add n 1

  pub probe-alloc : probe alloc hash alloc ≡ home alloc hash
  unfolding probe
  probe-alloc =
      add-mul-mod_self_left (home alloc hash) alloc (stride alloc hash) ∙ mod-mod hash alloc

  -- A slot that comes up again starts the cycle anew.
  pub probe-period :
      (m n : ℕ)
      → probe alloc hash m ≡ home alloc hash
      → m ≤ n
      → probe alloc hash n ≡ probe alloc hash (n - m)
  probe-period m n e h =
      let a = probe-add m (n - m) in
      let b = probe-add 0 (n - m) in
      ap (probe alloc hash) (omega arith)
      ∙ (sym a
          ∙ (ap (λ x. (x + (n - m) * stride alloc hash) % alloc) (e ∙ sym probe-zero)
              ∙ (b ∙ ap (probe alloc hash) (omega arith))))
