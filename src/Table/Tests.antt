-- ===== src/Table/Tests.antt =====
-- The theorems on src/lws_table.c at concrete inputs.
use nginx_lws.Base.{ℕ, ◌+◌, ◌≡◌, Bool, true, false, ◌⊎◌, Option, none, some, List, [], ◌∷◌}
use nginx_lws.Table.Defs.{Entry, Table, at, matches}
use nginx_lws.Table.Size.{lws_table_sizes, lws_table_size}
use nginx_lws.Table.Sizes.{first_size, lws_table_size-first_size}
use nginx_lws.Table.Ops.{Alloc, lws_table_get, lws_table_set, lws_table_rehash, lws_table_create}
use nginx_lws.Table.Find.{lws_table_find}
use nginx_lws.Table.Lookup.{lws_table_find-ends}
use nginx_lws.Table.Valid.{IsValid, view}
use nginx_lws.Table.Get.{read_item, lws_table_get-read_item}
use nginx_lws.Table.Rehash.{Grown, lws_table_rehash-Grown}
use nginx_lws.Table.Set.{Writes, lws_table_set-Writes}
use nginx_lws.Table.Create.{Created, lws_table_create-Created}
use nginx_lws.Table.Ascii.{ascii}
use nginx_lws.Table.Small.{smallest, smallest-IsValid, smallest-IsPrime, smallest-NextIsPrime}

abbrev plenty : Alloc
plenty = record { array = true; key = true }

-- The table with the value 7 for the key "a".
abbrev with_a : Table
with_a =
    (lws_table_set-Writes ascii 0 5 plenty smallest-IsValid smallest-IsPrime smallest-NextIsPrime
      (97 ∷ []) 7).0.0

with_a-IsValid : IsValid ascii 0 with_a
with_a-IsValid =
    (lws_table_set-Writes ascii 0 5 plenty smallest-IsValid smallest-IsPrime smallest-NextIsPrime
      (97 ∷ []) 7).2

lws_table_set-Writes_example :
    (r : Table × Bool) × (lws_table_set ascii 0 5 plenty smallest (97 ∷ []) 7 ≡ some r)
    × IsValid ascii 0 r.0
    × Writes ascii 0 5 plenty smallest (97 ∷ []) 7 r
lws_table_set-Writes_example =
    lws_table_set-Writes ascii 0 5 plenty smallest-IsValid smallest-IsPrime smallest-NextIsPrime
      (97 ∷ []) 7

lws_table_get-read_item_example :
    (t' : Table) × (value : ℕ) × (lws_table_get ascii 0 9 with_a (97 ∷ []) ≡ some (t', value))
    × (◌≡◌ {A = List Entry × ℕ} (view t', value) (read_item ascii 0 9 with_a (97 ∷ [])))
    × IsValid ascii 0 t'
lws_table_get-read_item_example = lws_table_get-read_item ascii 0 with_a-IsValid 9 (97 ∷ [])

lws_table_rehash-Grown_example :
    ((lws_table_rehash true smallest (smallest.alloc + 1) ≡ some (smallest, false))
      × ((true ≡ false) ⊎ (lws_table_size (smallest.alloc + 1) ≡ some none)))
    ⊎ ((t' : Table) × (lws_table_rehash true smallest (smallest.alloc + 1) ≡ some (t', true))
        × Grown ascii 0 smallest-IsValid t')
lws_table_rehash-Grown_example =
    lws_table_rehash-Grown ascii 0 smallest-IsValid smallest-NextIsPrime true

lws_table_create-Created_example :
    (r : Option Table) × (lws_table_create true true 32 ≡ some r) × Created ascii 0 true true 32 r
lws_table_create-Created_example = lws_table_create-Created ascii 0 true true 32

lws_table_find-ends_example :
    (lws_table_find ascii with_a (98 ∷ []) 4 ≡ some none)
    ⊎ ((i : ℕ) × (lws_table_find ascii with_a (98 ∷ []) 4 ≡ some (some i))
        × (matches ascii with_a.ci (at with_a.entries i) (98 ∷ []) 4 ≡ true))
lws_table_find-ends_example = lws_table_find-ends ascii with_a (98 ∷ []) 4 with_a-IsValid.big

lws_table_size-first_size_example : lws_table_size 100 ≡ some (first_size 100 lws_table_sizes)
lws_table_size-first_size_example = lws_table_size-first_size 100
