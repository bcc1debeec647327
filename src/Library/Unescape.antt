-- ===== src/Library/Unescape.antt =====
-- `lws_unescape_url` of src/lws_lib.c. The bytes that the function reads are a list; the result is
-- the bytes that it writes.
use nginx_lws.Base.{
  ℕ, zero, suc, ◌+◌, ◌-◌, ◌*◌, ◌==◌, leb, if◌then◌else◌, ◌&&◌, Option, none, some, List, [], ◌∷◌,
}

-- The variable `state`: 0, 1 or 2. In state 2 the variable `c` and the byte before `s` matter.
pub data Mode : Type 0 where
  plain : Mode
  first : Mode
  second : ℕ → ℕ → Mode

-- The value of a hexadecimal digit.
unfoldable pub hex_digit : ℕ → Option ℕ
hex_digit c =
    if leb 48 c && leb c 57
    then some (c - 48)
    else if leb 97 c && leb c 102
    then some (c - 97 + 10)
    else if leb 65 c && leb c 70
    then some (c - 65 + 10)
    else none

-- `*d++ = c` before the rest
unfoldable pub emit : ℕ → Option (List ℕ) → Option (List ℕ)
emit c none = none
emit c (some out) = some (c ∷ out)

-- `while (s < last)`, with fuel, and what follows it. `s--` puts the byte before `s` back.
unfoldable pub unescape_loop : ℕ → Mode → List ℕ → Option (List ℕ)
unfolding hex_digit emit
unescape_loop zero m s = none
unescape_loop (suc fuel) plain [] = some []
unescape_loop (suc fuel) first [] = some (37 ∷ [])
unescape_loop (suc fuel) (second c before) [] = some (37 ∷ before ∷ [])
unescape_loop (suc fuel) plain (x ∷ s) =
    if x == 43
    then emit 32 (unescape_loop fuel plain s)
    else if x == 37
    then unescape_loop fuel first s
    else emit x (unescape_loop fuel plain s)
unescape_loop (suc fuel) first (x ∷ s) = elim (hex_digit x) [
  | some d ↦ unescape_loop fuel (second (d * 16) x) s
  | none ↦ emit 37 (unescape_loop fuel plain (x ∷ s))
]
unescape_loop (suc fuel) (second c before) (x ∷ s) = elim (hex_digit x) [
  | some d ↦ emit (c + d) (unescape_loop fuel plain s)
  | none ↦ emit 37 (unescape_loop fuel plain (before ∷ x ∷ s))
]

abbrev pub bytes : List ℕ → ℕ
bytes [] = 0
bytes (x ∷ xs) = suc (bytes xs)

-- None is a loop that does not end.
unfoldable pub lws_unescape_url : List ℕ → Option (List ℕ)
unfolding unescape_loop
lws_unescape_url src = unescape_loop (4 * bytes src + 1) plain src
