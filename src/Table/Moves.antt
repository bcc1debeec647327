-- ===== src/Table/Moves.antt =====
-- The outer loop of `lws_table_insert` of src/lws_table.c, and the whole function.
use nginx_lws.Base.{
  ℕ, zero, suc, ◌+◌, ◌-◌, ◌%◌, ◌<◌, ◌≤◌, ◌≡◌, refl, subst, sym, ap, ◌∙◌, ltb, Bool, true, false,
  ◌&&◌, Bool-cases, inl, inr, dec_lt, Option, none, some, List, arith,
}
use nginx_lws.Table.Brent.{used-not-unused, used, IsPlaced, IsMovable, move_loop-Seeks}
use nginx_lws.Table.Cycle.{probe, probe-lt, probe-suc}
use nginx_lws.Table.Defs.{Entry, at, is_unused, stride}
use nginx_lws.Table.Insert.{Move, consider, outer_loop, shorter}
use nginx_lws.Table.Lookup.{OnChain}

module _ (es : List Entry) (alloc : ℕ) (big : 3 ≤ alloc) (placed : IsPlaced es alloc) where
  -- The best move so far is a move that can be made.
  abbrev pub Sound : ℕ → Option Move → Type 0
  Sound hash none = Unit {0}
  Sound hash (some m) = IsMovable es alloc big placed hash m.old m.new

  onward_chain :
      (hash n len : ℕ)
      → 0 < len
      → ((m : ℕ) → m < n → is_unused (at es (probe alloc hash m)).state ≡ false)
      → used es (probe alloc hash n) ≡ true
      → ((j : ℕ) → 0 < j → j < len → used es (probe alloc hash (n + j)) ≡ true)
      → OnChain es alloc hash (probe alloc hash (n + len))
  onward_chain hash n len p before here between = (
    n + len,
    refl,
    λ m h. elim (dec_lt m n) [
      | yes k ↦ before m k
      | no k ↦ elim (dec_lt n m) [
        | yes l ↦
            let e : m ≡ n + (m - n) = omega arith in
            rw e (
              used-not-unused es (probe alloc hash (n + (m - n)))
                (between (m - n) (omega arith) (omega arith)))
        | no l ↦ let e : m ≡ n = omega arith in rw e (used-not-unused es (probe alloc hash n) here)
      ]
    ],
  )

  module _ (hash len_worst len h : ℕ) (taken : used es h ≡ true) (chain : OnChain es alloc hash h)
      (long : 3 ≤ len_worst) where
    consider-Sound :
        (best : Option Move)
        → Sound hash best
        → (best' : Option Move) × (consider es alloc len_worst h len best ≡ some best')
          × Sound hash best'
    unfolding consider
    consider-Sound best s =
        let (n, e, before) = placed h taken in
        let start =
          ap (λ x. (x + stride alloc (at es h).hash) % alloc) (sym e)
          ∙ probe-suc alloc (at es h).hash big n in
        let seeks =
          move_loop-Seeks es alloc big placed (at es h).hash n len len_worst len_worst 1
            (omega arith) (omega arith) (omega arith) (λ j p q. absurd (omega arith)) in
        elim (rw (← start) at seeks) [
          | inl r ↦ (best, rw (r, consider), s)
          | inr (k, r, p, vacant, between) ↦ (
            some (record { old = h; new = probe alloc (at es h).hash (n + k); len = k }),
            rw (r, consider),
            record {
              taken = taken;
              vacant = vacant;
              inside = probe-lt alloc (at es h).hash big (n + k);
              onward =
                  onward_chain (at es h).hash n k p before
                    (subst (λ x. used es x ≡ true) (sym e) taken) between;
              reached = chain;
            },
          )
        ]

  module _ (hash w : ℕ) (first : (k : ℕ) → k < w → used es (probe alloc hash k) ≡ true)
      (deep : 2 ≤ w) where
    -- What the loop leaves: a move, or the slot before the free one.
    abbrev pub Leaves : Option Move × ℕ → Type 0
    Leaves (some m, h) = IsMovable es alloc big placed hash m.old m.new
    Leaves (none, h) = h ≡ probe alloc hash (w - 1)

    reached_at : (k : ℕ) → k < w → OnChain es alloc hash (probe alloc hash k)
    reached_at k h =
        (k, refl, λ m l. used-not-unused es (probe alloc hash m) (first m (omega arith)))

    abbrev pub run : ℕ → ℕ → Option Move → Option (Option Move × ℕ)
    run fuel k best =
        outer_loop es alloc (stride alloc hash) (w + 1) fuel (probe alloc hash k) (k + 1) best

    -- The test of `do … while`.
    abbrev more : ℕ → Option Move → Bool
    more k best = ltb (k + 1 + 1) (w + 1 - 1) && shorter (k + 1 + 1) best

    module _ (fuel k : ℕ) (best best' : Option Move)
        (e : consider es alloc (w + 1) (probe alloc hash k) (k + 1) best ≡ some best') where
      run_stop :
          more k best' ≡ false → run (suc fuel) k best ≡ some (best', probe alloc hash (k + 1))
      unfolding outer_loop
      run_stop h = ground (arith, probe-suc alloc hash big k)

      run_on : more k best' ≡ true → run (suc fuel) k best ≡ run fuel (k + 1) best'
      unfolding outer_loop
      run_on h = ground (arith, probe-suc alloc hash big k)

    stop_lem :
        (best : Option Move) (k : ℕ)
        → k < w - 1
        → Sound hash best
        → more k best ≡ false
        → Leaves (best, probe alloc hash (k + 1))
    stop_lem none k h s e = ap (probe alloc hash) (ground arith)
    stop_lem (some m) k h s e = s

    more-lt : (k : ℕ) (best : Option Move) → more k best ≡ true → k + 1 < w - 1
    more-lt k best h = ground arith

    pub outer_loop-Leaves :
        (fuel k : ℕ) (best : Option Move)
        → w < k + 1 + fuel
        → k < w - 1
        → Sound hash best
        → (r : Option Move × ℕ) × (run fuel k best ≡ some r) × Leaves r
    unfolding outer_loop
    outer_loop-Leaves zero k best f h s = absurd (omega arith)
    outer_loop-Leaves (suc fuel) k best f h s =
        let (best', e, s') =
          consider-Sound hash (w + 1) (k + 1) (probe alloc hash k) (first k (omega arith))
            (reached_at k (omega arith)) (omega arith) best s in
        elim (Bool-cases (more k best')) [
          | inr stop ↦ (
            (best', probe alloc hash (k + 1)),
            run_stop fuel k best best' e stop,
            stop_lem best' k h s' stop,
          )
          | inl go ↦
              rw (run_on fuel k best best' e go)
                (outer_loop-Leaves fuel (k + 1) best' (omega arith) (more-lt k best' go) s')
        ]
