-- ===== src/Table/Prime.antt =====
-- Why the loops of `lws_table_insert` of src/lws_table.c meet a free slot: the number of slots is
-- prime, so a cycle of probes visits every slot, and the load limit leaves one free.
use native.Mathlib.Nat.{add-mul, add-mod-mod, mod-add-mod, mod-lt, mod-eq_of_lt, mod-eq-sub-mod}
use nginx_lws.Base.{
  ℕ, ◌+◌, ◌-◌, ◌*◌, ◌%◌, ◌<◌, ◌≤◌, ◌≡◌, ◌≢◌, sym, ap, ◌∙◌, ◌⊎◌, inl, inr, false, not, List, length,
  arith,
}
use nginx_lws.Base.Least.{IsLeast-or_none}
use nginx_lws.Table.Cycle.{probe}
use nginx_lws.Table.Defs.{Entry, home, stride}
use nginx_lws.Table.Brent.{used}
use nginx_lws.Table.Queue.{distinct-le-length}
use nginx_lws.Table.Store.{IsStore}

-- A product is a multiple of a prime only if a factor is.
abbrev pub IsPrime : ℕ → Type 0
IsPrime p = (2 ≤ p) × ((a b : ℕ) → a * b % p ≡ 0 → (a % p ≡ 0) ⊎ (b % p ≡ 0))

mod_cancel_lt : (r e p : ℕ) → r < p → e < p → (r + e) % p ≡ r → e ≡ 0
mod_cancel_lt r e p h k m = grind (arith, mod-eq_of_lt, mod-eq-sub-mod)

-- What is added without a change of the remainder is a multiple.
mod_cancel : (a d p : ℕ) → 0 < p → (a + d) % p ≡ a % p → d % p ≡ 0
mod_cancel a d p h e =
    mod_cancel_lt (a % p) (d % p) p (mod-lt a h) (mod-lt d h)
      (add-mod-mod (a % p) d p ∙ (mod-add-mod a p d ∙ e))

module _ (alloc hash : ℕ) (big : 3 ≤ alloc) (prime : IsPrime alloc) where
  stride-lt : stride alloc hash < alloc
  stride-lt = omega (arith, mod-lt hash {m = alloc - 2} (omega arith))

  gap-lt : (i j : ℕ) → i < j → j < alloc → j - i < alloc
  gap-lt i j h k = omega arith

  regroup : (i j s : ℕ) → i < j → home alloc hash + i * s + (j - i) * s ≡ home alloc hash + j * s
  regroup i j s h =
      let e : i + (j - i) ≡ j = omega arith in
      omega (arith, sym (add-mul i (j - i) s) ∙ ap (λ (t : ℕ). t * s) e)

  pub probe-injective : (i j : ℕ) → i < j → j < alloc → probe alloc hash i ≢ probe alloc hash j
  unfolding probe
  probe-injective i j h k e =
      let s : ℕ = stride alloc hash in
      let short : s < alloc = stride-lt in
      let split : home alloc hash + i * s + (j - i) * s ≡ home alloc hash + j * s =
        regroup i j s h in
      let zero' =
        mod_cancel (home alloc hash + i * s) ((j - i) * s) alloc (omega arith)
          (ap (λ x. x % alloc) split ∙ sym e) in
      elim (prime.1 (j - i) s zero') [
        | inl a ↦ absurd (omega (arith, sym (mod-eq_of_lt (gap-lt i j h k)) ∙ a))
        | inr b ↦ absurd (omega (arith, sym (mod-eq_of_lt short) ∙ b))
      ]

  module _ (es : List Entry) (order : List ℕ) (store : IsStore es order alloc)
      (room : length order < alloc) where
    -- So some slot of the cycle is free.
    pub free_slot : (f : ℕ) × (f < alloc) × (used es (probe alloc hash f) ≡ false)
    free_slot = elim (IsLeast-or_none (λ k. not (used es (probe alloc hash k))) alloc) [
      | inl (f, h, (e, _)) ↦ (f, h, ground arith)
      | inr full ↦ absurd (
          omega (
            arith,
            distinct-le-length alloc (probe alloc hash) order probe-injective
                (λ i h. ground (arith, full i h, store.queued (probe alloc hash i))),
          ))
    ]
