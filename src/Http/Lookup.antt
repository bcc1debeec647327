-- ===== src/Http/Lookup.antt =====
-- `lws_find_http_status` of src/lws_http.c, with the reads of the table by index.
use mathlib.Core.Option
use nginx_lws.Base.{
  ℕ, zero, suc, ◌≡◌, refl, ap, ◌==◌, ltb, if◌then◌else◌, ◌<◌, Option, none, some, List, [], ◌∷◌,
  length, get_elem?, arith,
}
use nginx_lws.Base.Search.{bisect, SplitsAt}
use nginx_lws.Base.Sorted.{IsSortedFrom, key_at, key_below, bisect-sorted}
use nginx_lws.Http.Status.{HttpStatus, lws_http_status}

abbrev pub lws_http_status_n : ℕ
lws_http_status_n = length lws_http_status

-- `lower < n && table[lower].code == code ? &table[lower] : NULL`
abbrev pub matching : ℕ → List HttpStatus → ℕ → Option HttpStatus
matching code table lower = elim (get_elem? table lower) [
  | none ↦ none
  | some s ↦ if s.code == code then some s else none
]

-- `none` is a loop that does not end or a read out of bounds, `some none` the null pointer.
pub lws_find_http_status : ℕ → Option (Option HttpStatus)
lws_find_http_status code = Option.map (matching code lws_http_status) (
    bisect (key_below (λ (s : HttpStatus). s.code) lws_http_status code) (suc lws_http_status_n) 0
      lws_http_status_n)

-- A scan of the table from its start.
pub first_with : ℕ → List HttpStatus → Option HttpStatus
first_with code [] = none
first_with code (s ∷ rest) = if s.code == code then some s else first_with code rest

first_with_above :
    (code b : ℕ) (xs : List HttpStatus)
    → IsSortedFrom (λ (s : HttpStatus). s.code) b xs
    → code < b
    → first_with code xs ≡ none
unfolding first_with
first_with_above code b [] s h = refl
first_with_above code b (x ∷ xs) s h = ground (arith, first_with_above code x.code xs s.1)

matching-first_with :
    (code b : ℕ) (xs : List HttpStatus) (r : ℕ)
    → IsSortedFrom (λ (s : HttpStatus). s.code) b xs
    → SplitsAt (λ i. ltb (key_at (λ (s : HttpStatus). s.code) xs i) code) (length xs) r
    → matching code xs r ≡ first_with code xs
unfolding first_with
matching-first_with code b [] r s p = refl
matching-first_with code b (x ∷ xs) zero s p =
    ground (arith, first_with_above code x.code xs s.1, p.2 0)
matching-first_with code b (x ∷ xs) (suc r) s p = ground (
  arith,
  p.1 0,
  matching-first_with code x.code xs r s.1 (
    omega arith,
    λ i h. p.1 (suc i) (omega arith),
    λ i h k. p.2 (suc i) (omega arith) (omega arith),
  ),
)

lws_http_status-sorted : IsSortedFrom (λ (s : HttpStatus). s.code) 100 lws_http_status
lws_http_status-sorted = omega arith

-- The lookup ends, reads within the table, and gives for every code the first entry of the table
-- that has it, and the null pointer for a code that no entry has.
pub lws_find_http_status-first_with :
    (code : ℕ) → lws_find_http_status code ≡ some (first_with code lws_http_status)
unfolding lws_find_http_status
lws_find_http_status-first_with code =
    let (r, run, p) =
      bisect-sorted (λ (s : HttpStatus). s.code) 100 lws_http_status code lws_http_status-sorted in
    rw run (ap some (matching-first_with code 100 lws_http_status r lws_http_status-sorted p))
