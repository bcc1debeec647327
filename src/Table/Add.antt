-- ===== src/Table/Add.antt =====
-- The branch `new entry` of `lws_table_set` in src/lws_table.c, after the eviction.
use nginx_lws.Base.{
  ◌⊎◌, inl, inr, ℕ, ◌+◌, ◌<◌, ◌≡◌, refl, ap₂, ◌∙◌, if◌then◌else◌, Bool, true, false, Bool-cases,
  inl, inr, some, List, [], ◌∷◌, ◌++◌, length-append, set, arith,
}
use nginx_lws.Table.Defs.{Entry, Table, Strings, tes_set, at, matches, lws_table_hash}
use nginx_lws.Table.Insert.{Inserted, lws_table_insert}
use nginx_lws.Table.Ops.{new_entry}
use nginx_lws.Table.Placing.{lws_table_insert-Outcome}
use nginx_lws.Table.Prime.{IsPrime, free_slot}
use nginx_lws.Table.Queue.{occ-snoc}
use nginx_lws.Table.Store.{IsStore, items, Outcome-Stored}
use nginx_lws.Table.Spec.{items-append}
use nginx_lws.Table.Valid.{IsValid, is_for, view}
use nginx_lws.Table.Content.{
  tally, tally-append, AllItems, AllItems-append, IsContent, IsContent-of, hashed_of, distinct_of,
}

module _ (str : Strings) (seed : ℕ) where
  -- No item is for the key.
  abbrev pub IsMissing : Bool → List ℕ → List Entry → Type 0
  IsMissing ci key = AllItems (λ e. is_for str seed ci key e ≡ false)

  -- Entries for a key that a new entry is for, too, are for the new entry's key.
  is_for_trans :
      (ci : Bool) (e x : Entry) (key' : List ℕ)
      → e.hash ≡ lws_table_hash str seed ci e.key
      → is_for str seed ci key' e ≡ true
      → is_for str seed ci key' x ≡ true
      → is_for str seed ci e.key x ≡ true
  unfolding matches
  is_for_trans ci e x key' h a b = ground (
    arith,
    str.strncmp_symm e.key key',
    str.strncmp_trans x.key key' e.key,
    str.strncasecmp_symm e.key key',
    str.strncasecmp_trans x.key key' e.key,
  )

  missing-tally :
      (ci : Bool) (e : Entry) (key' : List ℕ) (xs : List Entry)
      → e.hash ≡ lws_table_hash str seed ci e.key
      → is_for str seed ci key' e ≡ true
      → IsMissing ci e.key xs
      → tally (is_for str seed ci key') xs ≡ 0
  unfolding tally
  missing-tally ci e key' [] h a m = refl
  missing-tally ci e key' (x ∷ xs) h a m = elim (Bool-cases (is_for str seed ci key' x)) [
    | inl b ↦ cc (is_for_trans ci e x key' h a b, m.0)
    | inr b ↦ rw b (omega (arith, missing-tally ci e key' xs h a m.1))
  ]

  snoc-IsContent :
      (ci : Bool) (e : Entry) (xs : List Entry)
      → e.hash ≡ lws_table_hash str seed ci e.key
      → IsMissing ci e.key xs
      → IsContent str seed ci xs
      → IsContent str seed ci (xs ++ e ∷ [])
  unfolding tally
  snoc-IsContent ci e xs h m c = record {
    hashed =
        AllItems-append (λ x. x.hash ≡ lws_table_hash str seed ci x.key) xs (e ∷ []) c.hashed
          (h, tt);
    distinct = λ key'. elim (Bool-cases (is_for str seed ci key' e)) [
      | inl a ↦ rw (tally-append, missing-tally ci e key' xs h a m, a) (omega arith)
      | inr a ↦ rw (tally-append, a) (omega (arith, c.distinct key'))
    ];
  }

  time_or : (timed : Bool) (now old : ℕ) → (timed ≡ false) ⊎ ((if timed then now else old) ≡ now)
  time_or true now old = inr refl
  time_or false now old = inl refl

  -- An entry as `lws_table_set` makes it.
  pub record IsNew (t : Table) (now : ℕ) (key : List ℕ) (value : ℕ) (e : Entry) : Type 0 where
    pub key_lem : e.key ≡ key
    pub value_lem : e.value ≡ value
    pub hash_lem : e.hash ≡ lws_table_hash str seed t.ci key
    pub state_lem : e.state ≡ tes_set
    pub time_lem : (t.timed ≡ false) ⊎ (e.time ≡ now)

  module _ {t : Table} (v : IsValid str seed t) (prime : IsPrime t.alloc) (now : ℕ) (key : List ℕ)
      (value : ℕ) where
    abbrev hash : ℕ
    hash = lws_table_hash str seed t.ci key

    abbrev fresh : Inserted → Entry
    fresh ins = record {
      key = key;
      value = value;
      hash = hash;
      time = if t.timed then now else (at ins.entries ins.slot).time;
      state = tes_set;
    }

    new_entry_run :
        (ins : Inserted)
        → lws_table_insert t.entries t.order t.alloc hash ≡ some ins
        → new_entry str seed now t key value hash
          ≡ some (record t {
            entries = set ins.entries ins.slot (fresh ins);
            order = ins.order ++ ins.slot ∷ [];
            count = t.count + 1;
          })
    unfolding new_entry
    new_entry_run ins e = rw (e, new_entry)

    -- With room for it, a new entry for a key that is missing becomes the last item.
    pub new_entry-added :
        t.count < t.load
        → IsMissing t.ci key (view t)
        → (t' : Table) × (e : Entry) × (new_entry str seed now t key value hash ≡ some t')
          × IsNew t now key value e
          × (view t' ≡ view t ++ e ∷ [])
          × IsValid str seed t'
    new_entry-added room missing =
        let (f, h, free) =
          free_slot t.alloc hash v.big prime t.entries t.order v.store
            (omega (arith, v.counted, v.spare)) in
        let (ins, run, out) =
          lws_table_insert-Outcome t.entries t.order t.alloc hash v.big v.store.placed f h free in
        let e : Entry = fresh ins in
        let kept =
          Outcome-Stored t.entries t.order t.alloc hash v.big v.store e refl refl ins out in
        let es' : List Entry = set ins.entries ins.slot e in
        let store : IsStore es' (ins.order ++ ins.slot ∷ []) t.alloc = record {
          width = kept.width;
          placed = kept.placed;
          queued = λ j. omega (arith, occ-snoc j ins.slot ins.order, kept.queued j);
        } in
        let content : items es' (ins.order ++ ins.slot ∷ []) ≡ view t ++ e ∷ [] =
          items-append es' ins.order (ins.slot ∷ [])
          ∙ ap₂ (λ xs x. xs ++ x ∷ []) kept.kept_items kept.new_item in
        let c =
          snoc-IsContent t.ci e (view t) refl missing
            (IsContent-of str seed t.ci t.entries t.order v.store v.hashed v.distinct) in
        let c' = rw (← content) at c in
        (
          record t { entries = es'; order = ins.order ++ ins.slot ∷ []; count = t.count + 1 },
          e,
          new_entry_run ins run,
          record {
            key_lem = refl;
            value_lem = refl;
            hash_lem = refl;
            state_lem = refl;
            time_lem = time_or t.timed now (at ins.entries ins.slot).time;
          },
          content,
          record {
            big = v.big;
            store = store;
            counted = omega (arith, v.counted, kept.size, length-append ins.order (ins.slot ∷ []));
            loaded = omega (arith, room);
            spare = v.spare;
            sized = v.sized;
            limit = v.limit;
            cap_pos = v.cap_pos;
            hashed = hashed_of str seed t.ci es' (ins.order ++ ins.slot ∷ []) store c';
            distinct = distinct_of str seed t.ci es' (ins.order ++ ins.slot ∷ []) store c';
          },
        )
