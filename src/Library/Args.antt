-- ===== src/Library/Args.antt =====
-- `lws_parseargs` of src/lws_lib.c. The result is the assignments to the table in their order.
use nginx_lws.Base.{
  ℕ, zero, suc, ◌==◌, ltb, leb, if◌then◌else◌, Bool, true, false, ◌&&◌, ◌||◌, not, Option, none,
  some, List, [], ◌∷◌, ◌++◌, length, ℤ, pos, negsuc, Bytes,
}
use nginx_lws.Library.Unescape.{lws_unescape_url}

abbrev pub Pairs : Type 0
Pairs = List (Bytes × Bytes)

-- A table, or an error of Lua.
pub data Parsed : Type 0 where
  parsed : Pairs → Parsed
  out_of_range too_many : Parsed

abbrev pub int_max : ℕ
int_max = 2147483647

-- `limit > 0 && limit <= INT_MAX`
abbrev pub in_range : ℤ → Bool
in_range (pos n) = ltb 0 n && leb n int_max
in_range (negsuc n) = false

-- The loop that counts the fields: whether a field is one too many.
unfoldable pub exceeds : ℕ → ℕ → Bytes → Bool
exceeds max_fields nrec [] = false
exceeds max_fields nrec (c ∷ cs) =
    let rest = exceeds max_fields (if c == b'&' then suc nrec else nrec) cs in
    if c == b'&' && nrec == max_fields then true else rest

-- The bytes up to one that stops, and from it
unfoldable pub until : (ℕ → Bool) → Bytes → Bytes × Bytes
until stops [] = ([], [])
until stops (c ∷ cs) =
    let rest = until stops cs in if stops c then ([], c ∷ cs) else (c ∷ rest.0, rest.1)

-- `pos < last && *pos != '&' && (state != 0 || *pos != '=')`, negated, for a byte in both states
abbrev pub ends_key : ℕ → Bool
ends_key c = c == b'&' || c == b'='

abbrev pub ends_value : ℕ → Bool
ends_value c = c == b'&'

-- `n > 0`
abbrev pub is_given : Bytes → Bool
is_given [] = false
is_given (c ∷ cs) = true

-- Assignments before the rest
abbrev pub assign : Pairs → Option Pairs → Option Pairs
assign ps none = none
assign ps (some qs) = some (ps ++ qs)

-- The assignment of a key without a value
abbrev pub key_only : Bytes → Bytes → Pairs
key_only raw text = if is_given raw then (text, []) ∷ [] else []

-- What follows a key, from the byte that ends it; `value` and `next` go on with the bytes behind.
abbrev pub after_key :
    (Bytes → Bytes → Option Pairs) → (Bytes → Option Pairs) → Bytes → Bytes → Bytes → Option Pairs
after_key value next raw text [] = some (key_only raw text)
after_key value next raw text (c ∷ rest) =
    if c == b'=' then value text rest else assign (key_only raw text) (next rest)

-- What follows a value
abbrev pub after_value : (Bytes → Option Pairs) → Bytes → Bytes → Bytes → Option Pairs
after_value next key text [] = some ((key, text) ∷ [])
after_value next key text (c ∷ rest) = assign ((key, text) ∷ []) (next rest)

-- The text of a part, or none where the decoding does not end.
abbrev pub unescaped : Bytes → (Bytes → Option Pairs) → Option Pairs
unescaped raw use_text = elim (lws_unescape_url raw) [ none ↦ none | some text ↦ use_text text ]

-- `while (1)`, with fuel, in the state 1 with a key; in the state 0 the loop reads a key.
unfoldable pub parse_loop : ℕ → Option Bytes → Bytes → Option Pairs
unfolding until
parse_loop zero state args = none
parse_loop (suc fuel) none args =
    let t = until ends_key args in
    unescaped t.0 (λ text.
      after_key (λ key rest. parse_loop fuel (some key) rest) (λ rest. parse_loop fuel none rest)
        t.0 text t.1)
parse_loop (suc fuel) (some key) args =
    let t = until ends_value args in
    unescaped t.0 (λ text. after_value (λ rest. parse_loop fuel none rest) key text t.1)

abbrev pub parsed_of : Option Pairs → Option Parsed
parsed_of none = none
parsed_of (some ps) = some (parsed ps)

-- None is a loop that does not end.
unfoldable pub lws_parseargs : Bytes → ℤ → Option Parsed
unfolding exceeds parse_loop
lws_parseargs args (negsuc n) = some out_of_range
lws_parseargs args (pos limit) =
    if not (in_range (pos limit))
    then some out_of_range
    else if not (is_given args)
    then some (parsed [])
    else if exceeds limit 1 args
    then some too_many
    else parsed_of (parse_loop (suc (length args)) none args)
