-- ===== src/Table/Sizes.antt =====
-- The sizes and load limits of src/lws_table.c.

use nginx_lws.Base.{
  ℕ, zero, suc, ◌+◌, ◌%◌, ◌<◌, ◌≤◌, ◌≡◌, ap, ◌∙◌, ◌⊎◌, inl, inr, dec_lt, ltb, if◌then◌else◌, false,
  Option, none, some, List, [], ◌∷◌, length, arith,
}
use nginx_lws.Base.Search.{SplitsAt}
use nginx_lws.Base.Sorted.{key_at, key_at_mono, bisect-sorted}
use nginx_lws.Table.Size.{
  lws_table_sizes, lws_table_sizes_n, size_at, lws_table_size, lws_table_load,
  lws_table_sizes-sorted,
}

-- The first size of the table that is not below the request.
pub first_size : ℕ → List ℕ → Option ℕ
first_size size [] = none
first_size size (n ∷ ns) = if ltb n size then first_size size ns else some n

-- `r` splits the table at the request.
abbrev pub Splits : ℕ → ℕ → Type 0
Splits size r = SplitsAt (λ i. ltb (size_at i) size) lws_table_sizes_n r

split-first_size :
    (size : ℕ) (xs : List ℕ) (r : ℕ)
    → SplitsAt (λ i. ltb (key_at (λ n. n) xs i) size) (length xs) r
    → (if ltb r (length xs) then some (key_at (λ n. n) xs r) else none) ≡ first_size size xs
unfolding first_size
split-first_size size [] r s = ground arith
split-first_size size (x ∷ xs) zero s = ground (arith, s.2 0)
split-first_size size (x ∷ xs) (suc r) s = ground (
  arith,
  s.1 0,
  split-first_size size xs r (
    omega arith,
    λ i h. s.1 (suc i) (omega arith),
    λ i h k. s.2 (suc i) (omega arith) (omega arith),
  ),
)

-- The search ends within the table at the split, and gives its size if there is one.
pub lws_table_size-Splits :
    (size : ℕ)
    → (r : ℕ) × Splits size r
      × (lws_table_size size ≡ some (if ltb r lws_table_sizes_n then some (size_at r) else none))
unfolding lws_table_size size_at
lws_table_size-Splits size =
    let (r, run, s) = bisect-sorted (λ n. n) 3 lws_table_sizes size lws_table_sizes-sorted in
    (r, s, rw run)

-- The binary search gives the least size of the table that is not below the request, and the error
-- where every size is below it.
pub lws_table_size-first_size :
    (size : ℕ) → lws_table_size size ≡ some (first_size size lws_table_sizes)
unfolding size_at
lws_table_size-first_size size =
    let (r, s, run) = lws_table_size-Splits size in
    run ∙ ap some (split-first_size size lws_table_sizes r s)

-- All sizes are odd.
abbrev AllOdd : List ℕ → Type 0
AllOdd [] = Unit {0}
AllOdd (x ∷ xs) = (x % 2 ≡ 1) × AllOdd xs

AllOdd-key_at : (xs : List ℕ) (i : ℕ) → AllOdd xs → i < length xs → key_at (λ n. n) xs i % 2 ≡ 1
AllOdd-key_at [] i a h = absurd (omega arith)
AllOdd-key_at (x ∷ xs) zero a h = a.0
AllOdd-key_at (x ∷ xs) (suc i) a h = AllOdd-key_at xs i a.1 (omega arith)

sizes_odd : AllOdd lws_table_sizes
sizes_odd = omega arith

pub size_at_odd : (i : ℕ) → i < lws_table_sizes_n → size_at i % 2 ≡ 1
unfolding size_at
size_at_odd i h = AllOdd-key_at lws_table_sizes i sizes_odd h

pub size_at-ge : (i : ℕ) → i < lws_table_sizes_n → 3 ≤ size_at i
unfolding size_at
size_at-ge i h = key_at_mono (λ n. n) 3 lws_table_sizes 0 i lws_table_sizes-sorted (omega arith) h

-- The load limit leaves a slot free.
pub load-lt : (alloc : ℕ) → 1 ≤ alloc → lws_table_load alloc < alloc
unfolding lws_table_load
load-lt alloc h = omega arith

-- Two more slots raise the limit.
pub load-lt-load : (a b : ℕ) → a + 2 ≤ b → lws_table_load a < lws_table_load b
unfolding lws_table_load
load-lt-load a b h = omega arith

-- What a request for more slots than a size of the table gives.
pub record Larger (alloc : ℕ) : Type 0 where
  pub index : ℕ
  pub within : index < lws_table_sizes_n
  pub found : lws_table_size (alloc + 1) ≡ some (some (size_at index))
  pub larger : alloc < size_at index
  pub roomier : lws_table_load alloc < lws_table_load (size_at index)

beyond :
    (r n : ℕ)
    → ¬ (r < lws_table_sizes_n)
    → (if ltb r lws_table_sizes_n then some n else none) ≡ none
beyond r n h = ground arith

inside :
    (r n : ℕ) → r < lws_table_sizes_n → (if ltb r lws_table_sizes_n then some n else none) ≡ some n
inside r n h = ground arith

above : {a b : ℕ} → ltb b (a + 1) ≡ false → a < b
above h = ground arith

-- A request for one more slot than a size of the table is refused or gives a larger size.
pub lws_table_size-Larger :
    (k : ℕ)
    → k < lws_table_sizes_n
    → (lws_table_size (size_at k + 1) ≡ some none) ⊎ Larger (size_at k)
lws_table_size-Larger k h =
    let (r, s, run) = lws_table_size-Splits (size_at k + 1) in
    elim (dec_lt r lws_table_sizes_n) [
      | no p ↦ inl (run ∙ ap some (beyond r (size_at r) p))
      | yes p ↦
          let more : size_at k < size_at r = above (s.2 r (omega arith) p) in
          inr (record {
            index = r;
            within = p;
            found = run ∙ ap some (inside r (size_at r) p);
            larger = more;
            roomier =
                load-lt-load (size_at k) (size_at r)
                  (omega (arith, size_at_odd k h, size_at_odd r p));
          })
    ]
