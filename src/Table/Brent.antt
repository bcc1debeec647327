-- ===== src/Table/Brent.antt =====
-- What `lws_table_insert` of src/lws_table.c does: it ends, and gives a free slot on the chain of
-- the hash, perhaps after moving one entry further along its own chain.
use nginx_lws.Base.{
  ℕ, zero, suc, ◌+◌, ◌-◌, ◌<◌, ◌≤◌, ◌≡◌, ap, leb, Bool, true, false, Bool-cases, ◌⊎◌, inl, inr,
  dec_lt, Option, none, some, List, arith,
}
use nginx_lws.Table.Cycle.{probe, probe-suc}
use nginx_lws.Table.Defs.{Entry, at, is_set, is_unused, stride}
use nginx_lws.Table.Insert.{Spot, worst_loop, move_loop}
use nginx_lws.Table.Lookup.{OnChain}

abbrev pub used : List Entry → ℕ → Bool
used es i = is_set (at es i).state

-- Each set entry is on the chain of its hash.
abbrev pub IsPlaced : List Entry → ℕ → Type 0
IsPlaced es alloc = (i : ℕ) → used es i ≡ true → OnChain es alloc (at es i).hash i

pub used-not-unused :
    (es : List Entry) (i : ℕ) → used es i ≡ true → is_unused (at es i).state ≡ false
used-not-unused es i h = ground arith

module _ (es : List Entry) (alloc : ℕ) (big : 3 ≤ alloc) (placed : IsPlaced es alloc) where
  -- The entry in slot `old` can go to the free slot `new`, which is on its chain, and `old` is on
  -- the chain of the hash.
  pub record IsMovable (hash old new : ℕ) : Type 0 where
    pub taken : used es old ≡ true
    pub vacant : used es new ≡ false
    pub inside : new < alloc
    pub onward : OnChain es alloc (at es old).hash new
    pub reached : OnChain es alloc hash old

  module _ (hash w : ℕ) (first : (k : ℕ) → k < w → used es (probe alloc hash k) ≡ true)
      (free : used es (probe alloc hash w) ≡ false) where
    pub worst_loop_lem :
        (fuel m : ℕ)
        → w < m + fuel
        → m ≤ w
        → worst_loop es alloc (stride alloc hash) fuel (probe alloc hash m) (m + 1)
          ≡ some (record { slot = probe alloc hash w; len = w + 1 })
    unfolding worst_loop
    worst_loop_lem zero m f h = absurd (omega arith)
    worst_loop_lem (suc fuel) m f h = elim (dec_lt m w) [
      | yes p ↦ ground (
        arith,
        first m p,
        probe-suc alloc hash big m,
        worst_loop_lem fuel (m + 1) (omega arith) (omega arith),
      )
      | no p ↦ let e : m ≡ w = omega arith in rw e (ground (arith, free))
    ]

  -- The outcomes of the inner loop.
  abbrev pub Seeks : ℕ → ℕ → Option (Option Spot) → Type 0
  Seeks hash n r =
      (r ≡ some none)
      ⊎ ((len : ℕ) × (r ≡ some (some (record { slot = probe alloc hash (n + len); len = len })))
          × (0 < len)
          × (used es (probe alloc hash (n + len)) ≡ false)
          × ((j : ℕ) → 0 < j → j < len → used es (probe alloc hash (n + j)) ≡ true))

  module _ (hash n len len_worst : ℕ) where
    abbrev pub seek : ℕ → ℕ → Option (Option Spot)
    seek fuel len_move =
        move_loop es alloc (stride alloc hash) len len_worst fuel (probe alloc hash (n + len_move))
          len_move

    seek_free :
        (fuel len_move : ℕ)
        → used es (probe alloc hash (n + len_move)) ≡ false
        → seek (suc fuel) len_move
          ≡ some (some (record { slot = probe alloc hash (n + len_move); len = len_move }))
    unfolding move_loop
    seek_free fuel len_move e = ground arith

    seek_break :
        (fuel len_move : ℕ)
        → used es (probe alloc hash (n + len_move)) ≡ true
        → leb (len_worst - 1) (len + len_move) ≡ true
        → seek (suc fuel) len_move ≡ some none
    unfolding move_loop
    seek_break fuel len_move e b = ground arith

    seek_on :
        (fuel len_move : ℕ)
        → used es (probe alloc hash (n + len_move)) ≡ true
        → leb (len_worst - 1) (len + len_move) ≡ false
        → seek (suc fuel) len_move ≡ seek fuel (len_move + 1)
    unfolding move_loop
    seek_on fuel len_move e b = ground (
      arith,
      probe-suc alloc hash big (n + len_move),
      ap (probe alloc hash) {x = n + len_move + 1} {y = n + (len_move + 1)},
    )

    pub move_loop-Seeks :
        (fuel len_move : ℕ)
        → 0 < fuel
        → 0 < len_move
        → len_worst ≤ len + len_move + fuel
        → ((j : ℕ) → 0 < j → j < len_move → used es (probe alloc hash (n + j)) ≡ true)
        → Seeks hash n (seek fuel len_move)
    move_loop-Seeks zero len_move f p b h = absurd (omega arith)
    move_loop-Seeks (suc fuel) len_move f p b h =
        elim (Bool-cases (used es (probe alloc hash (n + len_move)))) [
          | inr e ↦ inr (len_move, seek_free fuel len_move e, p, e, h)
          | inl e ↦ elim (Bool-cases (leb (len_worst - 1) (len + len_move))) [
            | inl done ↦ inl (seek_break fuel len_move e done)
            | inr more ↦ rw (seek_on fuel len_move e more) (
                move_loop-Seeks fuel (len_move + 1) (ground arith) (omega arith) (omega arith)
                  (λ j q l. elim (dec_lt j len_move) [
                    | yes k ↦ h j q k
                    | no k ↦ let same : j ≡ len_move = omega arith in rw same e
                  ]))
          ]
        ]
