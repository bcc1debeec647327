-- ===== src/Table/Small.antt =====
-- The first sizes of src/lws_table.c, and the table of the first size.
use nginx_lws.Base.{ℕ, zero, suc, ◌+◌, ◌*◌, ◌%◌, ◌≡◌, refl, ◌⊎◌, inl, inr, some, arith}
use nginx_lws.Base.Search.{bisect}
use nginx_lws.Table.Defs.{Table}
use nginx_lws.Table.Size.{lws_table_size, size_at}
use nginx_lws.Table.Prime.{IsPrime}
use nginx_lws.Table.Rehash.{NextIsPrime}
use nginx_lws.Table.Create.{created, created-IsValid}
use nginx_lws.Table.Valid.{IsValid}
use nginx_lws.Table.Ascii.{ascii}

euclid₃ : (a b : ℕ) → a * b % 3 ≡ 0 → (a % 3 ≡ 0) ⊎ (b % 3 ≡ 0)
euclid₃ zero b h = inl refl
euclid₃ (suc zero) b h = inr (omega arith)
euclid₃ (suc (suc zero)) b h = inr (omega arith)
euclid₃ (suc (suc (suc a))) b h = elim (euclid₃ a b (omega arith)) [
  | inl e ↦ inl (omega arith)
  | inr e ↦ inr e
]

euclid₅ : (a b : ℕ) → a * b % 5 ≡ 0 → (a % 5 ≡ 0) ⊎ (b % 5 ≡ 0)
euclid₅ zero b h = inl refl
euclid₅ (suc zero) b h = inr (omega arith)
euclid₅ (suc (suc zero)) b h = inr (omega arith)
euclid₅ (suc (suc (suc zero))) b h = inr (omega arith)
euclid₅ (suc (suc (suc (suc zero)))) b h = inr (omega arith)
euclid₅ (suc (suc (suc (suc (suc a))))) b h = elim (euclid₅ a b (omega arith)) [
  | inl e ↦ inl (omega arith)
  | inr e ↦ inr e
]

first_size_lem : size_at 0 ≡ 3
unfolding size_at
first_size_lem = refl

next_size_lem : lws_table_size (size_at 0 + 1) ≡ some (some 5)
unfolding size_at lws_table_size bisect
next_size_lem = refl

-- A table as `lws_table_create` gives for the load 0.
abbrev pub smallest : Table
smallest = created (size_at 0)

pub smallest-IsPrime : IsPrime smallest.alloc
smallest-IsPrime = rw first_size_lem (omega arith, euclid₃)

pub smallest-NextIsPrime : NextIsPrime smallest
smallest-NextIsPrime n e =
    let same : 5 ≡ n = cc (next_size_lem, e) in rw (← same) (omega arith, euclid₅)

pub smallest-IsValid : IsValid ascii 0 smallest
smallest-IsValid = created-IsValid ascii 0 0 (omega arith)
