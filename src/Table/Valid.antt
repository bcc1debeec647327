-- ===== src/Table/Valid.antt =====
-- The well-formed tables of src/lws_table.c, and the lookup in them.
use nginx_lws.Base.{
  ℕ, ◌<◌, ◌≤◌, ◌≡◌, Bool, true, false, Bool-cases, ◌⊎◌, inl, inr, Option, none, some, List, length,
  arith,
}
use nginx_lws.Table.Defs.{Entry, Table, Strings, at, matches, lws_table_hash}
use nginx_lws.Table.Find.{lws_table_find}
use nginx_lws.Table.Lookup.{lws_table_find-ends, lws_table_find_complete}
use nginx_lws.Table.Brent.{used}
use nginx_lws.Table.Size.{lws_table_sizes_n, size_at, lws_table_load}
use nginx_lws.Table.Store.{IsStore, items}

-- The entry is for the key, as the table compares keys.
abbrev pub is_for : Strings → ℕ → Bool → List ℕ → Entry → Bool
is_for str seed ci key e = matches str ci e key (lws_table_hash str seed ci key)

-- The entries of a table from the head of its queue to the tail: the abstract content.
abbrev pub view : Table → List Entry
view t = items t.entries t.order

module _ (str : Strings) (seed : ℕ) where
  pub record IsValid (t : Table) : Type 0 where
    pub big : 3 ≤ t.alloc
    pub store : IsStore t.entries t.order t.alloc
    pub counted : t.count ≡ length t.order
    pub loaded : t.count ≤ t.load
    pub spare : t.load < t.alloc
    pub sized : (k : ℕ) × (k < lws_table_sizes_n) × (t.alloc ≡ size_at k)
    pub limit : t.load ≡ lws_table_load t.alloc
    pub cap_pos : t.capped ≡ true → 1 ≤ t.cap
    pub hashed :
        (i : ℕ)
        → used t.entries i ≡ true
        → (at t.entries i).hash ≡ lws_table_hash str seed t.ci (at t.entries i).key
    pub distinct :
        (i j : ℕ) (key : List ℕ)
        → is_for str seed t.ci key (at t.entries i) ≡ true
        → is_for str seed t.ci key (at t.entries j) ≡ true
        → i ≡ j

  abbrev pub found : Table → List ℕ → Option (Option ℕ)
  found t key = lws_table_find str t key (lws_table_hash str seed t.ci key)

  pub matches-used :
      (ci : Bool) (key : List ℕ) (es : List Entry) (i : ℕ)
      → is_for str seed ci key (at es i) ≡ true
      → used es i ≡ true
  unfolding matches
  matches-used ci key es i h = ground arith

  pub matches-hash :
      (ci : Bool) (key : List ℕ) (es : List Entry) (i : ℕ)
      → is_for str seed ci key (at es i) ≡ true
      → (at es i).hash ≡ lws_table_hash str seed ci key
  unfolding matches
  matches-hash ci key es i h = ground arith

  module _ {t : Table} (v : IsValid t) (key : List ℕ) where
    missed :
        (i : ℕ) → is_for str seed t.ci key (at t.entries i) ≡ true → found t key ≡ some none → ⊥
    missed i e miss =
        let chain = v.store.placed i (matches-used t.ci key t.entries i e) in
        let (j, run, _) =
          lws_table_find_complete str t key (lws_table_hash str seed t.ci key) v.big i e
            (rw (matches-hash t.ci key t.entries i e) at chain) in
        cc (miss, run)

    -- The lookup gives the null pointer exactly where no slot has an entry for the key, and
    -- otherwise the one slot that has.
    pub found_cases :
        ((found t key ≡ some none) × ((i : ℕ) → is_for str seed t.ci key (at t.entries i) ≡ false))
        ⊎ ((i : ℕ) × (found t key ≡ some (some i))
            × (is_for str seed t.ci key (at t.entries i) ≡ true))
    found_cases = elim (lws_table_find-ends str t key (lws_table_hash str seed t.ci key) v.big) [
      | inr hit ↦ inr hit
      | inl miss ↦ inl (
        miss,
        λ i. elim (Bool-cases (is_for str seed t.ci key (at t.entries i))) [
          | inr e ↦ e
          | inl e ↦ absurd (missed i e miss)
        ],
      )
    ]
