-- ===== src/Table/Create.antt =====
-- `lws_table_create` of src/lws_table.c and the table that it makes.
use nginx_lws.Base.{
  ℕ, ◌+◌, ◌-◌, ◌/◌, ◌<◌, ◌≤◌, ◌≡◌, refl, ltb, Bool, true, false, Bool-cases, ◌⊎◌, inl, inr, dec_lt,
  Option, none, some, [], replicate, get_or-replicate, arith,
}
use nginx_lws.Table.Defs.{Table, Strings, zeroed}
use nginx_lws.Table.Size.{lws_table_size, lws_table_sizes_n, size_at, lws_table_load}
use nginx_lws.Table.Sizes.{lws_table_size-Splits, load-lt, size_at-ge}
use nginx_lws.Table.Ops.{create_alloc, lws_table_create}
use nginx_lws.Table.Rehash.{empty-IsStore}
use nginx_lws.Table.Valid.{IsValid, view, matches-used}

-- The new table.
abbrev pub created : ℕ → Table
created alloc = record {
  alloc = alloc;
  load = lws_table_load alloc;
  count = 0;
  entries = replicate alloc zeroed;
  order = [];
  timeout = 0;
  cap = 0;
  dup = false;
  free = false;
  ci = false;
  timed = false;
  capped = false;
  freed = [];
}

module _ (str : Strings) (seed : ℕ) where
  pub created-IsValid : (k : ℕ) → k < lws_table_sizes_n → IsValid str seed (created (size_at k))
  created-IsValid k h =
      let big = size_at-ge k h in
      record {
        big = big;
        store = empty-IsStore (size_at k);
        counted = refl;
        loaded = omega arith;
        spare = load-lt (size_at k) (omega arith);
        sized = (k, h, refl);
        limit = refl;
        cap_pos = λ e. absurd (ground arith);
        hashed = λ i u. absurd (ground (arith, get_or-replicate (size_at k) i zeroed));
        distinct = λ i j key a b. absurd (
            ground (
              arith,
              matches-used str seed false key (replicate (size_at k) zeroed) i a,
              get_or-replicate (size_at k) i zeroed,
            ));
      }

  room : (load alloc : ℕ) → load + (load / 7 + 3) ≤ alloc → load ≤ lws_table_load alloc
  unfolding lws_table_load
  room load alloc h = omega arith

  roomy :
      (load alloc : ℕ)
      → create_alloc load ≤ alloc
      → (size_at (lws_table_sizes_n - 1) ≤ load) ⊎ (load ≤ lws_table_load alloc)
  roomy load alloc h = elim (Bool-cases (ltb load (size_at (lws_table_sizes_n - 1)))) [
    | inl e ↦ inr (room load alloc (rw e at h))
    | inr e ↦ inl (ground arith)
  ]

  -- A result of `lws_table_create`: the null pointer for want of memory or of a size, or an empty
  -- table.
  abbrev pub Created : Bool → Bool → ℕ → Option Table → Type 0
  Created calloc calloc_entries load none =
      (calloc ≡ false)
      ⊎ ((calloc_entries ≡ false) ⊎ (lws_table_size (create_alloc load) ≡ some none))
  Created calloc calloc_entries load (some t) =
      IsValid str seed t
      × (view t ≡ [])
      × ((size_at (lws_table_sizes_n - 1) ≤ load) ⊎ (load ≤ t.load))

  -- The creation ends. It gives the null pointer only for want of memory or of a size, else an
  -- empty well-formed table, whose load limit is not below the load asked for unless that is as
  -- large as the largest size.
  pub lws_table_create-Created :
      (calloc calloc_entries : Bool) (load : ℕ)
      → (r : Option Table) × (lws_table_create calloc calloc_entries load ≡ some r)
        × Created calloc calloc_entries load r
  unfolding lws_table_create
  lws_table_create-Created false calloc_entries load = (none, refl, inl refl)
  lws_table_create-Created true calloc_entries load =
      let (k, s, run) = lws_table_size-Splits (create_alloc load) in
      elim (dec_lt k lws_table_sizes_n) [
        | no p ↦
            let e : lws_table_size (create_alloc load) ≡ some none = ground (arith, run, p) in
            (none, rw e, inr (inr e))
        | yes p ↦
            let e : lws_table_size (create_alloc load) ≡ some (some (size_at k)) =
              ground (arith, run, p) in
            elim (Bool-cases calloc_entries) [
              | inr f ↦ (none, rw e (rw f), inr (inl f))
              | inl f ↦ (
                some (created (size_at k)),
                rw e (rw f),
                (
                  created-IsValid k p,
                  refl,
                  roomy load (size_at k) (ground (arith, s.2 k (omega arith) p)),
                ),
              )
            ]
      ]
