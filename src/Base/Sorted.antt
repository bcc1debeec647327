-- ===== src/Base/Sorted.antt =====
-- Tables in ascending order of a key, and bisection over them.
use Prim.Native.Nat.{ℕ, zero, suc, ◌≤◌, ◌<◌}
use mathlib.Core.Path.{◌≡◌, refl}
use mathlib.Core.Bool.{Bool}
use mathlib.Core.List.{List, [], ◌∷◌}
use mathlib.Core.Option
use mathlib.Core.Option.{Option, none, some}
use native.Mathlib.Omega.{arith}
use nginx_lws.Base.Tests.{ltb, ltb→lt, lt→ltb}
use nginx_lws.Base.Lists.{length, get_elem?}
use nginx_lws.Base.Search.{bisect, SplitsAt, bisect_whole}

module _ {ℓ} {A : Type ℓ} (key : A → ℕ) where
  -- The keys do not fall along the list, and none is below the bound.
  abbrev pub IsSortedFrom : ℕ → List A → Type 0
  IsSortedFrom b [] = Unit {0}
  IsSortedFrom b (x ∷ xs) = (b ≤ key x) × IsSortedFrom (key x) xs

  -- The key at an index, 0 out of bounds.
  abbrev pub key_at : List A → ℕ → ℕ
  key_at [] i = 0
  key_at (x ∷ xs) zero = key x
  key_at (x ∷ xs) (suc i) = key_at xs i

  -- The test `table[mid].key < k`, none out of bounds.
  abbrev pub key_below : List A → ℕ → ℕ → Option Bool
  key_below xs k i = Option.map (λ x. ltb (key x) k) (get_elem? xs i)

  pub key_below-key_at :
      (xs : List A) (k i : ℕ) → i < length xs → key_below xs k i ≡ some (ltb (key_at xs i) k)
  key_below-key_at [] k i h = elim h [ ]
  key_below-key_at (x ∷ xs) k zero h = refl
  key_below-key_at (x ∷ xs) k (suc i) h = key_below-key_at xs k i (omega arith)

  key_at-ge : (b : ℕ) (xs : List A) (i : ℕ) → IsSortedFrom b xs → i < length xs → b ≤ key_at xs i
  key_at-ge b [] i s h = absurd (omega arith)
  key_at-ge b (x ∷ xs) zero s h = s.0
  key_at-ge b (x ∷ xs) (suc i) s h = omega (arith, key_at-ge (key x) xs i s.1 (omega arith))

  pub key_at_mono :
      (b : ℕ) (xs : List A) (i j : ℕ)
      → IsSortedFrom b xs
      → i ≤ j
      → j < length xs
      → key_at xs i ≤ key_at xs j
  key_at_mono b [] i j s h k = absurd (omega arith)
  key_at_mono b (x ∷ xs) zero zero s h k = omega arith
  key_at_mono b (x ∷ xs) zero (suc j) s h k = key_at-ge (key x) xs j s.1 (omega arith)
  key_at_mono b (x ∷ xs) (suc i) zero s h k = absurd (omega arith)
  key_at_mono b (x ∷ xs) (suc i) (suc j) s h k =
      key_at_mono (key x) xs i j s.1 (omega arith) (omega arith)

  -- Bisection of a sorted table ends without a read out of bounds, and splits it at the key.
  pub bisect-sorted :
      (b : ℕ) (xs : List A) (k : ℕ)
      → IsSortedFrom b xs
      → (r : ℕ) × (bisect (key_below xs k) (suc (length xs)) 0 (length xs) ≡ some r)
        × SplitsAt (λ i. ltb (key_at xs i) k) (length xs) r
  bisect-sorted b xs k s =
      bisect_whole (key_below xs k) (λ i. ltb (key_at xs i) k) (length xs) (key_below-key_at xs k)
        (λ i j h l e.
          lt→ltb (key_at xs i) k
            (omega (arith, key_at_mono b xs i j s h l, ltb→lt (key_at xs j) k e)))
