-- ===== src/Table/Placing.antt =====
-- The result of `lws_table_insert` of src/lws_table.c.
use nginx_lws.Base.{
  ℕ, ◌+◌, ◌-◌, ◌%◌, ◌<◌, ◌≤◌, ◌≡◌, refl, ap, ◌∙◌, leb, true, false, not, Bool-cases, inl, inr,
  Option, none, some, List, set, arith,
}
use nginx_lws.Base.Least.{IsLeast-or_none}
use nginx_lws.Table.Cycle.{probe, probe-lt, probe-zero, probe-suc}
use nginx_lws.Table.Defs.{Entry, at, home, stride}
use nginx_lws.Table.Insert.{
  Spot, Move, Inserted, worst_loop, outer_loop, relink, place, lws_table_insert,
}
use nginx_lws.Table.Lookup.{OnChain}
use nginx_lws.Table.Brent.{used, IsPlaced, used-not-unused, IsMovable, worst_loop_lem}
use nginx_lws.Table.Moves.{Leaves, outer_loop-Leaves}

module _ (es : List Entry) (order : List ℕ) (alloc hash : ℕ) where
  insert_short :
      (worst : Spot)
      → worst_loop es alloc (stride alloc hash) alloc (home alloc hash) 1 ≡ some worst
      → leb worst.len 2 ≡ true
      → lws_table_insert es order alloc hash
        ≡ some (record { entries = es; order = order; slot = worst.slot })
  unfolding lws_table_insert
  insert_short worst e h = ground arith

  insert_long :
      (worst : Spot) (end : Option Move × ℕ)
      → worst_loop es alloc (stride alloc hash) alloc (home alloc hash) 1 ≡ some worst
      → leb worst.len 2 ≡ false
      → outer_loop es alloc (stride alloc hash) worst.len worst.len (home alloc hash) 1 none
        ≡ some end
      → lws_table_insert es order alloc hash ≡ some (place es order alloc (stride alloc hash) end)
  unfolding lws_table_insert
  insert_long worst end e h o = ground arith

module _ (es : List Entry) (order : List ℕ) (alloc hash : ℕ) (big : 3 ≤ alloc)
    (placed : IsPlaced es alloc) where
  -- The slot of the result is free and on the chain of the hash; or it was freed by moving its
  -- entry to a free slot on that entry's chain, with its node in the queue.
  pub data Outcome (ins : Inserted) : Type 0 where
    kept :
        ins.entries ≡ es
        → ins.order ≡ order
        → used es ins.slot ≡ false
        → ins.slot < alloc
        → OnChain es alloc hash ins.slot
        → Outcome ins
    moved :
        (new : ℕ)
        → IsMovable es alloc big placed hash ins.slot new
        → ins.entries ≡ set es new (at es ins.slot)
        → ins.order ≡ relink ins.slot new order
        → Outcome ins

  chain_at :
      (w : ℕ)
      → ((k : ℕ) → k < w → used es (probe alloc hash k) ≡ true)
      → OnChain es alloc hash (probe alloc hash w)
  chain_at w first = (w, refl, λ m l. used-not-unused es (probe alloc hash m) (first m l))

  place-Outcome :
      (w : ℕ) (first : (k : ℕ) → k < w → used es (probe alloc hash k) ≡ true) (deep : 2 ≤ w)
      → used es (probe alloc hash w) ≡ false
      → (end : Option Move × ℕ) → Leaves es alloc big placed hash w first deep end
      → Outcome (place es order alloc (stride alloc hash) end)
  unfolding place
  place-Outcome w first deep free (some m, h) l = moved m.new l refl refl
  place-Outcome w first deep free (none, h) l =
      let e =
        ap (λ x. (x + stride alloc hash) % alloc) l
        ∙ (probe-suc alloc hash big (w - 1) ∙ ap (probe alloc hash) (omega arith)) in
      kept refl refl (rw e free) (rw e (probe-lt alloc hash big w)) (rw e (chain_at w first))

  at_first :
      (w : ℕ)
      → w < alloc
      → used es (probe alloc hash w) ≡ false
      → ((k : ℕ) → k < w → used es (probe alloc hash k) ≡ true)
      → (ins : Inserted) × (lws_table_insert es order alloc hash ≡ some ins) × Outcome ins
  at_first w lt free first =
      let worst = rw (probe-zero alloc hash big) at (
        worst_loop_lem es alloc big placed hash w first free alloc 0 (omega arith) (omega arith)) in
      elim (Bool-cases (leb (w + 1) 2)) [
        | inl short ↦ (
          _,
          insert_short es order alloc hash _ worst short,
          kept refl refl free (probe-lt alloc hash big w) (chain_at w first),
        )
        | inr long ↦
            let deep : 2 ≤ w = ground arith in
            let (end, run, l) =
              outer_loop-Leaves es alloc big placed hash w first deep (w + 1) 0 none (omega arith)
                (omega arith) tt in
            (
              place es order alloc (stride alloc hash) end,
              insert_long es order alloc hash _ end worst long
                  (rw (probe-zero alloc hash big) at run),
              place-Outcome w first deep free end l,
            )
      ]

  -- With a free slot on the chain of the hash, the function ends with such an outcome.
  pub lws_table_insert-Outcome :
      (f : ℕ)
      → f < alloc
      → used es (probe alloc hash f) ≡ false
      → (ins : Inserted) × (lws_table_insert es order alloc hash ≡ some ins) × Outcome ins
  lws_table_insert-Outcome f h free =
      elim (IsLeast-or_none (λ k. not (used es (probe alloc hash k))) alloc) [
        | inr nope ↦ absurd (ground (arith, nope f h))
        | inl (w, lt, (here, before)) ↦
            at_first w lt (ground arith) (λ k l. ground (arith, before k l))
      ]
