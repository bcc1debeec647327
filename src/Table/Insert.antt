-- ===== src/Table/Insert.antt =====
-- `lws_table_insert` of src/lws_table.c: Brent's method.
use nginx_lws.Base.{
  ℕ, zero, suc, ◌+◌, ◌-◌, ◌%◌, ◌==◌, ltb, leb, if◌then◌else◌, Bool, true, false, ◌&&◌, Option, none,
  some, List, [], ◌∷◌, set,
}
use nginx_lws.Table.Defs.{Entry, at, is_set, home, stride}

-- Where the conflicting entry would go: its new slot, and how far along its chain.
pub record Spot : Type 0 where
  pub slot : ℕ
  pub len : ℕ

-- The best move so far: `entry_move_old`, `entry_move_new` and `len_entry_move`.
pub record Move : Type 0 where
  pub old : ℕ
  pub new : ℕ
  pub len : ℕ

-- `len < len_entry_move`, which is `(size_t)-1` before the first move
abbrev pub shorter : ℕ → Option Move → Bool
shorter len none = true
shorter len (some m) = ltb len m.len

module _ (es : List Entry) (alloc : ℕ) where
  -- `while (entry->state == LWS_TES_SET)`, with fuel: the slot at the end, and `len_worst`.
  unfoldable pub worst_loop : ℕ → ℕ → ℕ → ℕ → Option Spot
  worst_loop q zero h len = none
  worst_loop q (suc fuel) h len = elim (is_set (at es h).state) [
    | true ↦ worst_loop q fuel ((h + q) % alloc) (len + 1)
    | false ↦ some (record { slot = h; len = len })
  ]

  -- `while (1)`, with fuel: `some none` where it breaks with no better outcome.
  unfoldable pub move_loop : ℕ → ℕ → ℕ → ℕ → ℕ → ℕ → Option (Option Spot)
  move_loop q_move len len_worst zero h_move len_move = none
  move_loop q_move len len_worst (suc fuel) h_move len_move = elim (is_set (at es h_move).state) [
    | false ↦ some (some (record { slot = h_move; len = len_move }))
    | true ↦ elim (leb (len_worst - 1) (len + len_move)) [
      | true ↦ some none
      | false ↦ move_loop q_move len len_worst fuel ((h_move + q_move) % alloc) (len_move + 1)
    ]
  ]

  -- The best move after a look at the entry in slot `h`.
  unfoldable pub consider : ℕ → ℕ → ℕ → Option Move → Option (Option Move)
  unfolding move_loop
  consider len_worst h len best =
      let q_move = stride alloc (at es h).hash in
      elim (move_loop q_move len len_worst len_worst ((h + q_move) % alloc) 1) [
        | none ↦ none
        | some found ↦ elim found [
          | none ↦ some best
          | some spot ↦ some (some (record { old = h; new = spot.slot; len = spot.len }))
        ]
      ]

  -- `do … while`, with fuel: the best move, and the slot at the end.
  unfoldable pub outer_loop : ℕ → ℕ → ℕ → ℕ → ℕ → Option Move → Option (Option Move × ℕ)
  unfolding consider
  outer_loop q len_worst zero h len best = none
  outer_loop q len_worst (suc fuel) h len best = elim (consider len_worst h len best) [
    | none ↦ none
    | some best' ↦ elim (ltb (len + 1) (len_worst - 1) && shorter (len + 1) best') [
      | true ↦ outer_loop q len_worst fuel ((h + q) % alloc) (len + 1) best'
      | false ↦ some (best', (h + q) % alloc)
    ]
  ]

-- The queue after its node in slot `old` has moved to slot `new`.
unfoldable pub relink : ℕ → ℕ → List ℕ → List ℕ
relink old new [] = []
relink old new (i ∷ is) = (if i == old then new else i) ∷ relink old new is

pub record Inserted : Type 0 where
  pub entries : List Entry
  pub order : List ℕ
  pub slot : ℕ

-- The end of the function: move an entry if a better outcome was found, or go one slot further.
unfoldable pub place : List Entry → List ℕ → ℕ → ℕ → Option Move × ℕ → Inserted
unfolding relink
place es order alloc q (some m, h) = record {
  entries = set es m.new (at es m.old);
  order = relink m.old m.new order;
  slot = m.old;
}
place es order alloc q (none, h) = record { entries = es; order = order; slot = (h + q) % alloc }

-- The slot for a new entry. `none` is a loop that does not end.
unfoldable pub lws_table_insert : List Entry → List ℕ → ℕ → ℕ → Option Inserted
unfolding worst_loop outer_loop place
lws_table_insert es order alloc hash =
    let h = home alloc hash in
    let q = stride alloc hash in
    elim (worst_loop es alloc q alloc h 1) [
      | none ↦ none
      | some worst ↦ elim (leb worst.len 2) [
        | true ↦ some (record { entries = es; order = order; slot = worst.slot })
        | false ↦ elim (outer_loop es alloc q worst.len worst.len h 1 none) [
          | none ↦ none
          | some end ↦ some (place es order alloc q end)
        ]
      ]
    ]
