-- ===== src/Table/Lookup.antt =====
-- What `lws_table_find` of src/lws_table.c finds.
use nginx_lws.Base.{
  ℕ, zero, suc, ◌+◌, ◌-◌, ◌%◌, ◌<◌, ◌≤◌, ◌≡◌, ap, ◌==◌, ==_iff, Bool, true, false, Bool-cases, ◌⊎◌,
  inl, inr, dec_lt, Option, none, some, List, arith,
}
use nginx_lws.Base.Least.{IsLeast, least}
use nginx_lws.Table.Cycle.{probe, probe-zero, probe-suc, probe-alloc, probe-period}
use nginx_lws.Table.Defs.{Entry, Table, Strings, at, is_unused, matches, home, stride}
use nginx_lws.Table.Find.{find_loop, lws_table_find}

-- The slot `i` is on the chain of the hash: a walk gets there before it meets an unused slot.
abbrev pub OnChain : List Entry → ℕ → ℕ → ℕ → Type 0
OnChain es alloc hash i =
    (n : ℕ) × (probe alloc hash n ≡ i)
    × ((m : ℕ) → m < n → is_unused (at es (probe alloc hash m)).state ≡ false)

module _ (str : Strings) (ci : Bool) (es : List Entry) (alloc : ℕ) (key : List ℕ) (hash : ℕ)
    (big : 3 ≤ alloc) where
  abbrev loop : ℕ → ℕ → Option (Option ℕ)
  loop = find_loop str ci es alloc (home alloc hash) (stride alloc hash) key hash

  module _ (fuel m : ℕ) (used : is_unused (at es (probe alloc hash m)).state ≡ false) where
    step_hit :
        matches str ci (at es (probe alloc hash m)) key hash ≡ true
        → loop (suc fuel) (probe alloc hash m) ≡ some (some (probe alloc hash m))
    unfolding find_loop
    step_hit e = ground arith

    module _ (miss : matches str ci (at es (probe alloc hash m)) key hash ≡ false) where
      step_back :
          (probe alloc hash (m + 1) == home alloc hash) ≡ true
          → loop (suc fuel) (probe alloc hash m) ≡ some none
      unfolding find_loop
      step_back e = ground (arith, probe-suc alloc hash big m)

      step_on :
          (probe alloc hash (m + 1) == home alloc hash) ≡ false
          → loop (suc fuel) (probe alloc hash m) ≡ loop fuel (probe alloc hash (m + 1))
      unfolding find_loop
      step_on e = ground (arith, probe-suc alloc hash big m)

  -- With fuel for the slots that are left of a cycle, the loop ends.
  loop-ends :
      (fuel m : ℕ)
      → alloc ≤ m + fuel
      → m < alloc
      → (o : Option ℕ) × (loop fuel (probe alloc hash m) ≡ some o)
  unfolding find_loop
  loop-ends zero m f h = absurd (omega arith)
  loop-ends (suc fuel) m f h = elim (Bool-cases (is_unused (at es (probe alloc hash m)).state)) [
    | inl e ↦ (none, ground arith)
    | inr used ↦ elim (Bool-cases (matches str ci (at es (probe alloc hash m)) key hash)) [
      | inl e ↦ (some (probe alloc hash m), step_hit fuel m used e)
      | inr miss ↦ elim (Bool-cases (probe alloc hash (m + 1) == home alloc hash)) [
        | inl e ↦ (none, step_back fuel m used miss e)
        | inr e ↦ rw (step_on fuel m used miss e) (
            loop-ends fuel (m + 1) (omega arith) (
              ground
                (arith, probe-alloc alloc hash big, ap (probe alloc hash) {x = m + 1} {y = alloc})))
      ]
    ]
  ]

  -- A slot that the loop returns holds an entry that matches.
  loop_sound :
      (fuel h i : ℕ) → loop fuel h ≡ some (some i) → matches str ci (at es i) key hash ≡ true
  unfolding find_loop
  loop_sound zero h i e = cc
  loop_sound (suc fuel) h i e = ground (arith, loop_sound fuel ((h + stride alloc hash) % alloc) i)

  matches-used :
      (m : ℕ)
      → matches str ci (at es (probe alloc hash m)) key hash ≡ true
      → is_unused (at es (probe alloc hash m)).state ≡ false
  unfolding matches
  matches-used m e = ground arith

  module _ (i n : ℕ) (hit : matches str ci (at es i) key hash ≡ true)
      (reached : (m : ℕ) → m < n → is_unused (at es (probe alloc hash m)).state ≡ false)
      (first : IsLeast (λ m. probe alloc hash m == i) n) where
    here : probe alloc hash n ≡ i
    here = (==_iff (probe alloc hash n) i).0 first.0

    earlier : (m : ℕ) → m ≤ n → matches str ci (at es (probe alloc hash m)) key hash ≡ false → m < n
    earlier m h miss = elim (dec_lt m n) [
      | yes p ↦ p
      | no p ↦
          let e : m ≡ n = omega arith in
          cc (
            ap (λ k. matches str ci (at es (probe alloc hash k)) key hash) e,
            ap (λ k. matches str ci (at es k) key hash) here,
          )
    ]

    no_return : (m : ℕ) → m < n → (probe alloc hash (m + 1) == home alloc hash) ≡ false
    no_return m h = elim (Bool-cases (probe alloc hash (m + 1) == home alloc hash)) [
      | inr e ↦ e
      | inl e ↦
          let back = (==_iff (probe alloc hash (m + 1)) (home alloc hash)).0 e in
          let again = probe-period alloc hash big (m + 1) n back (omega arith) in
          ground (arith, here, again, first.1 (n - (m + 1)))
    ]

    loop_complete :
        (fuel m : ℕ)
        → n < m + fuel
        → m ≤ n
        → (j : ℕ) × (loop fuel (probe alloc hash m) ≡ some (some j))
    unfolding find_loop
    loop_complete zero m f h = absurd (omega arith)
    loop_complete (suc fuel) m f h =
        elim (Bool-cases (matches str ci (at es (probe alloc hash m)) key hash)) [
          | inl e ↦ (probe alloc hash m, step_hit fuel m (matches-used m e) e)
          | inr miss ↦
              let more = earlier m h miss in
              rw (step_on fuel m (reached m more) miss (no_return m more))
                (loop_complete fuel (m + 1) (omega arith) (omega arith))
        ]

least-lt-alloc :
    (alloc hash : ℕ) (big : 3 ≤ alloc) (i k : ℕ)
    → IsLeast (λ m. probe alloc hash m == i) k
    → k < alloc
least-lt-alloc alloc hash big i k l = elim (dec_lt k alloc) [
  | yes h ↦ h
  | no h ↦
      let e = probe-period alloc hash big alloc k (probe-alloc alloc hash big) (omega arith) in
      absurd (ground (arith, e, l.1 (k - alloc), l.0))
]

module _ (str : Strings) (t : Table) (key : List ℕ) (hash : ℕ) (big : 3 ≤ t.alloc) where
  -- With at least three slots the loop always ends: with the null pointer, or with the slot of an
  -- entry that matches.
  pub lws_table_find-ends :
      (lws_table_find str t key hash ≡ some none)
      ⊎ ((i : ℕ) × (lws_table_find str t key hash ≡ some (some i))
          × (matches str t.ci (at t.entries i) key hash ≡ true))
  unfolding lws_table_find
  lws_table_find-ends =
      let (o, e) =
        loop-ends str t.ci t.entries t.alloc key hash big t.alloc 0 (omega arith) (omega arith) in
      go o (rw (probe-zero t.alloc hash big) at e)
    where
      go :
          (o : Option ℕ)
          → loop str t.ci t.entries t.alloc key hash big t.alloc (home t.alloc hash) ≡ some o
          → (lws_table_find str t key hash ≡ some none)
            ⊎ ((i : ℕ) × (lws_table_find str t key hash ≡ some (some i))
                × (matches str t.ci (at t.entries i) key hash ≡ true))
      go none e = inl e
      go (some i) e = inr (i, e, loop_sound str t.ci t.entries t.alloc key hash big t.alloc _ i e)

  -- An entry that matches and is on the chain of the hash is not overlooked.
  pub lws_table_find_complete :
      (i : ℕ)
      → matches str t.ci (at t.entries i) key hash ≡ true
      → OnChain t.entries t.alloc hash i
      → (j : ℕ) × (lws_table_find str t key hash ≡ some (some j))
        × (matches str t.ci (at t.entries j) key hash ≡ true)
  unfolding lws_table_find
  lws_table_find_complete i hit (n, e, used) =
      let (k, le, l) = least (λ m. probe t.alloc hash m == i) n ((==_iff _ i).1 e) in
      let short : k < t.alloc = least-lt-alloc t.alloc hash big i k l in
      let (j, run) =
        loop_complete str t.ci t.entries t.alloc key hash big i k hit (λ m h. used m (omega arith))
          l t.alloc 0 (omega arith) (omega arith) in
      let run' = rw (probe-zero t.alloc hash big) at run in
      (j, run', loop_sound str t.ci t.entries t.alloc key hash big t.alloc _ j run')
