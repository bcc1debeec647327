-- ===== src/Table/Size.antt =====
-- `lws_table_size` and `lws_table_load` of src/lws_table.c, where size_t has 64 bits.
use nginx_lws.Base.{ℕ, suc, ◌+◌, ◌/◌, ltb, if◌then◌else◌, Option, none, some, List, [], ◌∷◌, arith}
use mathlib.Core.Option
use nginx_lws.Base.Search.{bisect}
use nginx_lws.Base.Sorted.{IsSortedFrom, key_at, key_below}

-- The first branch of the `#if`.
abbrev pub lws_table_sizes : List ℕ
lws_table_sizes =
    3 ∷ 5 ∷ 7 ∷ 11 ∷ 13 ∷ 17 ∷ 23 ∷ 29 ∷ 41 ∷ 53 ∷ 67 ∷ 89 ∷ 127 ∷ 157 ∷ 211 ∷ 277 ∷ 373 ∷ 499 ∷ 659
    ∷ 877 ∷ 1171 ∷ 1553 ∷ 2081 ∷ 2767 ∷ 3691 ∷ 4909 ∷ 6547 ∷ 8731 ∷ 11633 ∷ 15511 ∷ 20681 ∷ 27581
    ∷ 36749 ∷ 49003 ∷ 65353 ∷ 87107 ∷ 116141 ∷ 154871 ∷ 206477 ∷ 275299 ∷ 367069 ∷ 489427 ∷ 652559
    ∷ 870083 ∷ 1160111 ∷ 1546799 ∷ 2062391 ∷ 2749847 ∷ 3666461 ∷ 4888619 ∷ 6518173 ∷ 8690917
    ∷ 11587841 ∷ 15450437 ∷ 20600597 ∷ 27467443 ∷ 36623261 ∷ 48831017 ∷ 65107997 ∷ 86810681
    ∷ 115747549 ∷ 154330079 ∷ 205773427 ∷ 274364561 ∷ 365819417 ∷ 487759219 ∷ 650345651 ∷ 867127501
    ∷ 1156170011 ∷ 1541560037 ∷ 2055413317 ∷ 2740551103 ∷ 3654068141 ∷ 4872090871 ∷ 6496121063
    ∷ 8661494753 ∷ 11548659701 ∷ 15398212901 ∷ 20530950533 ∷ 27374600677 ∷ 36499467569 ∷ 48665956771
    ∷ 64887942367 ∷ 86517256433 ∷ 115356341911 ∷ 153808455923 ∷ 205077941191 ∷ 273437254897
    ∷ 364583006561 ∷ 486110675443 ∷ 648147567293 ∷ 864196756231 ∷ 1152262341641 ∷ 1536349788871
    ∷ 2048466385123 ∷ 2731288513529 ∷ 3641718017983 ∷ 4855624023953 ∷ 6474165365293 ∷ 8632220487029
    ∷ 11509627316059 ∷ 15346169754719 ∷ 20461559672951 ∷ 27282079563967 ∷ 36376106085223
    ∷ 48501474780299 ∷ 64668633040457 ∷ 86224844053847 ∷ 114966458738489 ∷ 153288611651291
    ∷ 204384815535079 ∷ 272513087380099 ∷ []

abbrev pub lws_table_sizes_n : ℕ
lws_table_sizes_n = 112

-- `lws_table_sizes[i]`
unfoldable pub size_at : ℕ → ℕ
size_at = key_at (λ n. n) lws_table_sizes

-- The first `none` is a loop that does not end or reads out of bounds; `some none` is the error
-- `(size_t)-1`.
unfoldable pub lws_table_size : ℕ → Option (Option ℕ)
lws_table_size size =
    Option.map (λ lower. if ltb lower lws_table_sizes_n then some (size_at lower) else none)
      (bisect (key_below (λ n. n) lws_table_sizes size) (suc lws_table_sizes_n) 0 lws_table_sizes_n)

-- About 87.5 percent.
unfoldable pub lws_table_load : ℕ → ℕ
lws_table_load alloc = alloc / 2 + alloc / 4 + alloc / 8

pub lws_table_sizes-sorted : IsSortedFrom (λ n. n) 3 lws_table_sizes
lws_table_sizes-sorted = omega arith
