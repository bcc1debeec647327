-- ===== src/Table/Ops.antt =====
-- The operations of src/lws_table.c. What the environment decides is an argument: the time that
-- `time` returns, and whether each allocation succeeds. The outer `none` of a result is a loop that
-- does not end, or the head of an empty queue taken for an entry.
use mathlib.Core.List.{reverse}
use nginx_lws.Base.{
  ℕ, ◌+◌, ◌-◌, ◌/◌, ◌==◌, ltb, leb, if◌then◌else◌, Bool, true, false, ◌&&◌, ◌||◌, not, Option, none,
  some, List, [], ◌∷◌, ◌++◌, set, replicate,
}
use nginx_lws.Table.Defs.{
  Entry, Table, Freed, key_data, value_at, Strings, tes_set, tes_deleted, at, zeroed,
  lws_table_hash,
}
use nginx_lws.Table.Find.{lws_table_find}
use nginx_lws.Table.Insert.{lws_table_insert}
use nginx_lws.Table.Size.{lws_table_size, lws_table_load, lws_table_sizes_n, size_at}

-- `ngx_queue_remove`
unfoldable pub unlink : ℕ → List ℕ → List ℕ
unlink i [] = []
unlink i (j ∷ js) = if j == i then js else j ∷ unlink i js

-- `ngx_queue_remove` and `ngx_queue_insert_tail`: now the most recently used
unfoldable pub touch : ℕ → List ℕ → List ℕ
unfolding unlink
touch i js = unlink i js ++ i ∷ []

-- `ngx_queue_next`, or none at the sentinel
unfoldable pub successor : ℕ → List ℕ → Option ℕ
successor i [] = none
successor i (j ∷ []) = none
successor i (j ∷ (k ∷ ks)) = if j == i then some k else successor i (k ∷ ks)

abbrev pub head_slot : List ℕ → Option ℕ
head_slot [] = none
head_slot (i ∷ is) = some i

unfoldable pub lws_table_remove : Table → ℕ → Table
unfolding unlink
lws_table_remove t i =
    let e = at t.entries i in
    let keys = if t.dup then key_data e.key ∷ t.freed else t.freed in
    record t {
      order = unlink i t.order;
      freed = if t.free then value_at e.value ∷ keys else keys;
      entries = set t.entries i (record e { state = tes_deleted });
      count = t.count - 1;
    }

-- The loop of `lws_table_rehash`: the slots from the last to the first.
unfoldable pub reinsert :
    List Entry → ℕ → List ℕ → List Entry → List ℕ → Option (List Entry × List ℕ)
reinsert old alloc [] es order = some (es, order)
reinsert old alloc (i ∷ is) es order = elim (lws_table_insert es order alloc (at old i).hash) [
  | none ↦ none
  | some ins ↦ reinsert old alloc is (set ins.entries ins.slot (at old i)) (ins.slot ∷ ins.order)
]

-- `calloc` is whether the new array is allocated; the result has true for 0, false for -1.
unfoldable pub lws_table_rehash : Bool → Table → ℕ → Option (Table × Bool)
unfolding reinsert lws_table_load
lws_table_rehash calloc t alloc = elim (lws_table_size alloc) [
  | none ↦ none
  | some size ↦ elim size [
    | none ↦ some (t, false)
    | some alloc_new ↦
        if not calloc
        then some (t, false)
        else (elim (reinsert t.entries alloc_new (reverse t.order) (replicate alloc_new zeroed)
            []) [
              | none ↦ none
              | some r ↦ some (
                record t {
                  alloc = alloc_new;
                  load = lws_table_load alloc_new;
                  entries = r.0;
                  order = r.1;
                },
                true,
              )
            ])
  ]
]

-- Whether the allocations in `lws_table_set` succeed: `ngx_calloc` of the array, `ngx_alloc` of the
-- key.
pub record Alloc : Type 0 where
  pub array : Bool
  pub key : Bool

module _ (str : Strings) (seed now : ℕ) where
  -- The entry's value, or 0 for none.
  unfoldable pub lws_table_get : Table → List ℕ → Option (Table × ℕ)
  unfolding lws_table_find lws_table_hash touch
  lws_table_get t key = elim (lws_table_find str t key (lws_table_hash str seed t.ci key)) [
    | none ↦ none
    | some found ↦ elim found [
      | none ↦ some (t, 0)
      | some i ↦
          let e = at t.entries i in
          if t.timed && leb (e.time + t.timeout) now
          then some (t, 0)
          else if t.capped
          then some (record t { order = touch i t.order }, e.value)
          else some (t, e.value)
    ]
  ]

  -- `update existing`, and the time
  unfoldable pub update_existing : Table → ℕ → ℕ → Table
  unfolding touch
  update_existing t i value =
      let e = at t.entries i in
      record t {
        order = if t.capped then touch i t.order else t.order;
        freed = if t.free && not (value == e.value) then value_at e.value ∷ t.freed else t.freed;
        entries =
            set t.entries i (record e { value = value; time = if t.timed then now else e.time });
      }

  -- `evict as needed`
  unfoldable pub evict_as_needed : Table → Option Table
  unfolding lws_table_remove
  evict_as_needed t =
      if t.capped && t.count == t.cap
      then elim (head_slot t.order) [ none ↦ none | some i ↦ some (lws_table_remove t i) ]
      else some t

  -- `rehash as needed`
  unfoldable pub rehash_as_needed : Bool → Table → Option (Table × Bool)
  unfolding lws_table_rehash
  rehash_as_needed calloc t =
      if t.count == t.load then lws_table_rehash calloc t (t.alloc + 1) else some (t, true)

  -- `new entry`, and the time. The slot may keep the time of the entry that it held before.
  unfoldable pub new_entry : Table → List ℕ → ℕ → ℕ → Option Table
  new_entry t key value hash = elim (lws_table_insert t.entries t.order t.alloc hash) [
    | none ↦ none
    | some ins ↦
        let old = at ins.entries ins.slot in
        some (record t {
          entries = set ins.entries ins.slot (record {
            key = key;
            value = value;
            hash = hash;
            time = if t.timed then now else old.time;
            state = tes_set;
          });
          order = ins.order ++ ins.slot ∷ [];
          count = t.count + 1;
        })
  ]

  -- The branch for a key that the table does not have.
  unfoldable pub add_entry : Alloc → Table → List ℕ → ℕ → ℕ → Option (Table × Bool)
  unfolding evict_as_needed rehash_as_needed new_entry
  add_entry ok t key value hash = elim (evict_as_needed t) [
    | none ↦ none
    | some t₁ ↦ elim (rehash_as_needed ok.array t₁) [
      | none ↦ none
      | some r ↦
          if not r.1
          then some (r.0, false)
          else (if r.0.dup && not ok.key
              then some (r.0, false)
              else elim (new_entry r.0 key value hash) [ none ↦ none | some t₃ ↦ some (t₃, true) ])
    ]
  ]

  -- The result has true for 0, and false for -1.
  unfoldable pub lws_table_set : Alloc → Table → List ℕ → ℕ → Option (Table × Bool)
  unfolding lws_table_find lws_table_hash update_existing add_entry lws_table_remove
  lws_table_set ok t key value =
      let hash = lws_table_hash str seed t.ci key in
      elim (lws_table_find str t key hash) [
        | none ↦ none
        | some found ↦ elim (value == 0) [
          | false ↦ elim found [
            | some i ↦ some (update_existing t i value, true)
            | none ↦ add_entry ok t key value hash
          ]
          | true ↦ elim found [ some i ↦ some (lws_table_remove t i, true) | none ↦ some (t, true) ]
        ]
      ]

  -- The entry in a slot, or -1 at the sentinel.
  abbrev pub entry_of : Table → Option ℕ → Option (List ℕ × ℕ)
  entry_of t none = none
  entry_of t (some i) = some ((at t.entries i).key, (at t.entries i).value)

  -- The next key and value, or none for -1. A key of `none` is the null pointer.
  unfoldable pub lws_table_next : Table → Option (List ℕ) → Option (Option (List ℕ × ℕ))
  unfolding lws_table_find lws_table_hash successor
  lws_table_next t none = some (entry_of t (head_slot t.order))
  lws_table_next t (some key) = elim (lws_table_find str t key (lws_table_hash str seed t.ci key)) [
    | none ↦ none
    | some found ↦ elim found [
      | none ↦ some none
      | some i ↦ some (entry_of t (successor i t.order))
    ]
  ]

-- `load / 7 + 3` slots more than asked for, where that is not more than the largest size.
abbrev pub create_alloc : ℕ → ℕ
create_alloc load = load + (if ltb load (size_at (lws_table_sizes_n - 1)) then load / 7 + 3 else 0)

-- `calloc` and `calloc_entries` are whether the two allocations succeed; the inner `none` is the
-- null pointer.
unfoldable pub lws_table_create : Bool → Bool → ℕ → Option (Option Table)
unfolding lws_table_load
lws_table_create calloc calloc_entries load =
    if not calloc then some none else (elim (lws_table_size (create_alloc load)) [
      | none ↦ none
      | some size ↦ elim size [
        | none ↦ some none
        | some alloc ↦
            if not calloc_entries
            then some none
            else some (
                some (record {
                  alloc = alloc;
                  load = lws_table_load alloc;
                  count = 0;
                  entries = replicate alloc zeroed;
                  order = [];
                  timeout = 0;
                  cap = 0;
                  dup = false;
                  free = false;
                  ci = false;
                  timed = false;
                  capped = false;
                  freed = [];
                }))
      ]
    ])

-- `while (!ngx_queue_empty(&t->order))`: the slots from the last to the first.
unfoldable pub remove_all : List ℕ → Table → Table
unfolding lws_table_remove
remove_all [] t = t
remove_all (i ∷ is) t = remove_all is (lws_table_remove t i)

-- What has been freed once the table is.
unfoldable pub lws_table_free : Table → List Freed
unfolding remove_all
lws_table_free t = if t.dup || t.free then (remove_all (reverse t.order) t).freed else t.freed

unfoldable pub lws_table_clear : Table → Table
unfolding remove_all
lws_table_clear t =
    let t' =
      if t.dup || t.free
      then remove_all (reverse t.order) t
      else record t { order = []; count = 0 } in
    record t' { entries = replicate t.alloc zeroed }

-- The setters; true for 0, false for -1.
unfoldable pub lws_table_set_dup : Table → Bool → Table × Bool
lws_table_set_dup t dup = if not (t.count == 0) then (t, false) else (record t { dup = dup }, true)

unfoldable pub lws_table_set_free : Table → Bool → Table × Bool
lws_table_set_free t free =
    if not (t.count == 0) then (t, false) else (record t { free = free }, true)

unfoldable pub lws_table_set_ci : Table → Bool → Table × Bool
lws_table_set_ci t ci = if not (t.count == 0) then (t, false) else (record t { ci = ci }, true)

unfoldable pub lws_table_set_timeout : Table → ℕ → Table × Bool
lws_table_set_timeout t timeout =
    if not (t.count == 0) then (t, false) else (record t { timeout = timeout; timed = true }, true)

unfoldable pub lws_table_set_cap : Table → ℕ → Table × Bool
lws_table_set_cap t cap =
    if not (t.count == 0) || ltb cap 1
    then (t, false)
    else (record t { cap = cap; capped = true }, true)
