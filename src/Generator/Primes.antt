-- ===== src/Generator/Primes.antt =====
-- The functions of gen/table.c, with sums that wrap as those of a `size_t` of 64 bits. The loops run on
-- fuel; none is a loop that does not end.
use nginx_lws.State.Defs.{add_word}
use nginx_lws.Base.{
  ◌≤◌, ◌-◌, subst, ◌<◌, Bool-cases, inl, inr, arith, ℕ, zero, suc, ◌+◌, ◌*◌, ◌/◌, ◌%◌, ◌≡◌, refl,
  ◌==◌, ltb, leb, if◌then◌else◌, Bool, true, false, ◌||◌, Option, none, some, List, [], ◌∷◌,
}

-- `while (a <= n)`
unfoldable pub isqrt_loop : ℕ → ℕ → ℕ → ℕ → ℕ → Option ℕ
isqrt_loop n zero l a d = none
isqrt_loop n (suc fuel) l a d = elim (leb a n) [
  | true ↦ isqrt_loop n fuel (add_word l 1) (add_word a d) (add_word d 2)
  | false ↦ some l
]

unfoldable pub isqrt : ℕ → Option ℕ
unfolding isqrt_loop
isqrt n = isqrt_loop n (suc n) 0 1 3

-- `for (i = 5; i <= sqrt; i += 6)`
unfoldable pub divide_loop : ℕ → ℕ → ℕ → ℕ → Option Bool
divide_loop n root zero i = none
divide_loop n root (suc fuel) i = elim (leb i root) [
  | false ↦ some true
  | true ↦ elim (n % i == 0 || n % add_word i 2 == 0) [
    | true ↦ some false
    | false ↦ divide_loop n root fuel (add_word i 6)
  ]
]

unfoldable pub is_prime : ℕ → Option Bool
unfolding isqrt divide_loop
is_prime n =
    if leb n 3
    then some (ltb 1 n)
    else if n % 2 == 0 || n % 3 == 0
    then some false
    else (elim (isqrt n) [ none ↦ none | some root ↦ divide_loop n root (suc root) 5 ])

-- `while (!is_prime(p))`
unfoldable pub next_loop : ℕ → ℕ → Option ℕ
unfolding is_prime
next_loop zero p = none
next_loop (suc fuel) p = elim (is_prime p) [
  | none ↦ none
  | some answer ↦ elim answer [ true ↦ some p | false ↦ next_loop fuel (add_word p 1) ]
]

-- The fuel reaches to twice the number.
unfoldable pub next_prime : ℕ → Option ℕ
unfolding next_loop
next_prime n = next_loop (suc n) n

-- `for (size = 3; size < limit; size += size / 3)`: the sizes printed, of which `prime_prev` is
-- the last.
unfoldable pub primes_loop : ℕ → ℕ → ℕ → ℕ → Option (List ℕ)
unfolding next_prime
primes_loop limit zero size prime_prev = none
primes_loop limit (suc fuel) size prime_prev = elim (ltb size limit) [
  | false ↦ some []
  | true ↦ elim (next_prime size) [
    | none ↦ none
    | some prime ↦
        let rest = primes_loop limit fuel (add_word size (size / 3)) prime in
        if prime == prime_prev
        then rest
        else (elim rest [ none ↦ none | some ps ↦ some (prime ∷ ps) ])
  ]
]

-- The list that is printed; the layout of the lines is not modelled. The fuel is
-- more than twice the number of the sizes that src/lws_table.c has.
unfoldable pub primes : ℕ → Option (List ℕ)
unfolding primes_loop
primes limit = primes_loop limit 256 3 0

square-ge : (l : ℕ) → l ≤ l * l
square-ge zero = omega arith
square-ge (suc l) = omega (arith, square-ge l)

-- The root of a number below (2 ^ 32 - 1) ^ 2 is far enough from the largest word.
root_below : (l n : ℕ) → (l + 1) * (l + 1) ≤ n → n < 18446744065119617025 → l + 1 < 4294967295
root_below l n h k = elim (Bool-cases (leb 4294967295 (l + 1))) [
  | inr small ↦ ground arith
  | inl large ↦
      let m : ℕ = l + 1 - 4294967295 in
      let e : l + 1 ≡ 4294967295 + m = ground arith in
      let g : (4294967295 + m) * (4294967295 + m) ≤ n = subst (λ x. x * x ≤ n) e h in
      absurd (grind (arith, g, k))
]

isqrt_loop-root :
    (n fuel l a d : ℕ)
    → n < 18446744065119617025
    → a ≡ (l + 1) * (l + 1)
    → d ≡ 2 * l + 3
    → l * l ≤ n
    → n < fuel + l
    → (r : ℕ) × (isqrt_loop n fuel l a d ≡ some r) × (r * r ≤ n) × (n < (r + 1) * (r + 1))
unfolding isqrt_loop
isqrt_loop-root n zero l a d b p q h k = absurd (omega (arith, h, k, square-ge l))
isqrt_loop-root n (suc fuel) l a d b p q h k = elim (Bool-cases (leb a n)) [
  | inr done ↦ (l, rw (done, isqrt_loop) refl, h, ground (arith, p))
  | inl more ↦
      let s = root_below l n (ground (arith, p)) b in
      let (r, run, low, high) =
        isqrt_loop-root n fuel (l + 1) (a + d) (d + 2) b (omega (arith, p, q)) (omega (arith, q))
          (ground (arith, p)) (omega (arith, k)) in
      let e : add_word l 1 ≡ l + 1 = omega (arith, s) in
      let f : add_word a d ≡ a + d = ground (arith, s, q, b, more) in
      let g : add_word d 2 ≡ d + 2 = omega (arith, s, q) in
      (r, rw (more, isqrt_loop, e, f, g) run, low, high)
]

-- `isqrt` ends and gives the integer square root, for every number below (2 ^ 32 - 1) ^ 2, from which
-- on the square in the loop may wrap.
pub isqrt-root :
    (n : ℕ)
    → n < 18446744065119617025
    → (r : ℕ) × (isqrt n ≡ some r) × (r * r ≤ n) × (n < (r + 1) * (r + 1))
unfolding isqrt
isqrt-root n b = isqrt_loop-root n (suc n) 0 1 3 b refl refl (omega arith) (omega arith)
