-- ===== src/Table/Queue.antt =====
-- The queue of src/lws_table.c as a list of slots: how often a slot stands in it.
use nginx_lws.Base.{
  ℕ, zero, suc, ◌+◌, ◌-◌, ◌<◌, ◌≤◌, ◌≡◌, ◌≢◌, refl, ap, ◌==◌, if◌then◌else◌, List, [], ◌∷◌, ◌++◌,
  length, length-append, arith,
}
use nginx_lws.Table.Insert.{relink}
use nginx_lws.Table.Ops.{unlink, touch}

-- 1 where the two are equal.
abbrev pub one_if : ℕ → ℕ → ℕ
one_if i j = if i == j then 1 else 0

unfoldable pub occ : ℕ → List ℕ → ℕ
occ i [] = 0
occ i (j ∷ js) = one_if j i + occ i js

pub occ-append : (i : ℕ) (xs ys : List ℕ) → occ i (xs ++ ys) ≡ occ i xs + occ i ys
unfolding occ
occ-append i [] ys = omega arith
occ-append i (x ∷ xs) ys = omega (arith, occ-append i xs ys)

pub occ-snoc : (i j : ℕ) (xs : List ℕ) → occ i (xs ++ j ∷ []) ≡ occ i xs + one_if j i
unfolding occ
occ-snoc i j xs = omega (arith, occ-append i xs (j ∷ []))

pub occ-cons : (i j : ℕ) (xs : List ℕ) → occ i (j ∷ xs) ≡ one_if j i + occ i xs
unfolding occ
occ-cons i j xs = refl

pub occ-nil : (i : ℕ) → occ i [] ≡ 0
unfolding occ
occ-nil i = refl

pub occ-unlink : (i j : ℕ) (xs : List ℕ) → occ i (unlink j xs) ≡ occ i xs - one_if j i
unfolding occ unlink
occ-unlink i j [] = omega arith
occ-unlink i j (x ∷ xs) = ground (arith, occ-unlink i j xs)

pub length-unlink : (i : ℕ) (xs : List ℕ) → 0 < occ i xs → length (unlink i xs) + 1 ≡ length xs
unfolding occ unlink
length-unlink i [] h = absurd (omega arith)
length-unlink i (x ∷ xs) h = ground (arith, length-unlink i xs)

pub occ-touch : (i j : ℕ) (xs : List ℕ) → 0 < occ j xs → occ i (touch j xs) ≡ occ i xs
unfolding touch
occ-touch i j xs h = ground (arith, occ-snoc i j (unlink j xs), occ-unlink i j xs)

pub length-touch : (i : ℕ) (xs : List ℕ) → 0 < occ i xs → length (touch i xs) ≡ length xs
unfolding touch
length-touch i xs h = omega (arith, length-append (unlink i xs) (i ∷ []), length-unlink i xs h)

pub occ-relink :
    (i old new : ℕ) (xs : List ℕ)
    → old ≢ new
    → occ i (relink old new xs)
      ≡ (if old == i then 0 else if new == i then occ new xs + occ old xs else occ i xs)
unfolding occ relink
occ-relink i old new [] h = ground arith
occ-relink i old new (x ∷ xs) h = ground (arith, occ-relink i old new xs h)

pub length-relink : (old new : ℕ) (xs : List ℕ) → length (relink old new xs) ≡ length xs
unfolding relink
length-relink old new [] = refl
length-relink old new (x ∷ xs) = ap suc (length-relink old new xs)

-- Slots that differ and all stand in the queue are not more than it has nodes.
pub distinct-le-length :
    (n : ℕ) (f : ℕ → ℕ) (xs : List ℕ)
    → ((i j : ℕ) → i < j → j < n → f i ≢ f j)
    → ((i : ℕ) → i < n → 0 < occ (f i) xs)
    → n ≤ length xs
distinct-le-length zero f xs inj all = omega arith
distinct-le-length (suc n) f xs inj all =
    let rest =
      distinct-le-length n f (unlink (f n) xs) (λ i j p q. inj i j p (omega arith))
        (λ i h.
          ground
            (arith, occ-unlink (f i) (f n) xs, all i (omega arith), inj i n h (omega arith))) in
    omega (arith, rest, length-unlink (f n) xs (all n (omega arith)))
