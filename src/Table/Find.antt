-- ===== src/Table/Find.antt =====
-- `lws_table_find` of src/lws_table.c.
use nginx_lws.Base.{ℕ, zero, suc, ◌+◌, ◌%◌, ◌==◌, Bool, true, false, Option, none, some, List}
use nginx_lws.Table.Defs.{Entry, Table, Strings, at, is_unused, matches, home, stride}

module _ (str : Strings) (ci : Bool) (es : List Entry) (alloc r q : ℕ) (key : List ℕ)
    (hash : ℕ) where
  -- The loop at slot `h`, with fuel; `none` is a loop that does not end, `some none` the null
  -- pointer.
  unfoldable pub find_loop : ℕ → ℕ → Option (Option ℕ)
  find_loop zero h = none
  find_loop (suc fuel) h = elim (is_unused (at es h).state) [
    | true ↦ some none
    | false ↦ elim (matches str ci (at es h) key hash) [
      | true ↦ some (some h)
      | false ↦ elim ((h + q) % alloc == r) [
        | true ↦ some none
        | false ↦ find_loop fuel ((h + q) % alloc)
      ]
    ]
  ]

-- A cycle of slots has at most `alloc` of them.
unfoldable pub lws_table_find : Strings → Table → List ℕ → ℕ → Option (Option ℕ)
unfolding find_loop
lws_table_find str t key hash =
    find_loop str t.ci t.entries t.alloc (home t.alloc hash) (stride t.alloc hash) key hash t.alloc
      (home t.alloc hash)
