-- ===== src/Library/Fields.antt =====
-- `lws_parseargs` of src/lws_lib.c against the fields of its argument.
use mathlib.Core.List.{append-nil}
use nginx_lws.Base.{
  ℕ, zero, suc, ◌+◌, ◌≤◌, ◌<◌, ◌≡◌, refl, sym, ap, ◌∙◌, ◌==◌, ltb, if◌then◌else◌, if-all, Bool,
  true, false, Bool-cases, inl, inr, not, Option, none, some, List, [], ◌∷◌, ◌++◌, length, ℤ, pos,
  negsuc, Bytes, arith,
}
use nginx_lws.Library.Decode.{decode, lws_unescape_url-decode}
use nginx_lws.Library.Args.{
  Pairs, Parsed, parsed, out_of_range, too_many, in_range, exceeds, until, ends_key, ends_value,
  is_given, key_only, after_key, after_value, unescaped, parse_loop, parsed_of, lws_parseargs,
}

abbrev pub add_head : ℕ → List Bytes → List Bytes
add_head c [] = (c ∷ []) ∷ []
add_head c (f ∷ fs) = (c ∷ f) ∷ fs

-- The parts between ampersands
unfoldable pub fields : Bytes → List Bytes
fields [] = [] ∷ []
fields (c ∷ cs) = let rest = fields cs in if c == b'&' then [] ∷ rest else add_head c rest

abbrev is_equals : ℕ → Bool
is_equals c = c == b'='

-- A field is a key, or a key and a value behind the first equals sign; an empty field is nothing.
abbrev pub pair_of : Bytes → Bytes → Bytes → Pairs
pair_of field key [] = if is_given field then (decode field, []) ∷ [] else []
pair_of field key (c ∷ value) = (decode key, decode value) ∷ []

abbrev pub field_pair : Bytes → Pairs
field_pair field = pair_of field ((until is_equals field).0) ((until is_equals field).1)

-- The pairs of all fields, decoded
abbrev pub pairs_of : List Bytes → Pairs
pairs_of [] = []
pairs_of (f ∷ fs) = field_pair f ++ pairs_of fs

-- The fields behind a byte that ends one
abbrev more : Bytes → List Bytes
more [] = []
more (c ∷ cs) = fields cs

fields-until : (cs : Bytes) → fields cs ≡ (until ends_value cs).0 ∷ more ((until ends_value cs).1)
unfolding fields until
fields-until [] = refl
fields-until (c ∷ cs) = elim (Bool-cases (c == b'&')) [
  | inl h ↦ rw (fields, until, h) refl
  | inr h ↦ rw (fields, until, h, fields-until cs) refl
]

-- The rest of a field behind its key
abbrev value_part : Bytes → Bytes
value_part [] = []
value_part (c ∷ cs) = if c == b'=' then c ∷ (until ends_value cs).0 else []

abbrev rest_part : Bytes → Bytes
rest_part [] = []
rest_part (c ∷ cs) = if c == b'=' then (until ends_value cs).1 else c ∷ cs

-- A key that ends at a byte, within its field
until-key :
    (cs : Bytes)
    → (until ends_value cs ≡ (
      (until ends_key cs).0 ++ value_part ((until ends_key cs).1),
      rest_part ((until ends_key cs).1),
    ))
      × (until is_equals ((until ends_value cs).0)
          ≡ ((until ends_key cs).0, value_part ((until ends_key cs).1)))
unfolding until
until-key [] = (refl, refl)
until-key (c ∷ cs) = elim (Bool-cases (c == b'&')) [
  | inl h ↦ let e : c ≡ 38 = ground arith in rw e (refl, refl)
  | inr h ↦ elim (Bool-cases (c == b'=')) [
    | inl k ↦ let e : c ≡ 61 = ground arith in rw e (refl, refl)
    | inr k ↦
        let i = until-key cs in
        (
          rw (until, h, k) (ap (λ t. (c ∷ t.0, t.1)) i.0),
          rw (until, h, k) (ap (λ t. (c ∷ t.0, t.1)) i.1),
        )
  ]
]

until_shorter : (stops : ℕ → Bool) (cs : Bytes) → length ((until stops cs).1) ≤ length cs
unfolding until
until_shorter stops [] = omega arith
until_shorter stops (c ∷ cs) =
    if-all (λ (t : Bytes × Bytes). length (t.1) ≤ suc (length cs)) (stops c) (omega arith)
      (omega (arith, until_shorter stops cs))

unescaped_lem :
    (raw : Bytes) (use_text : Bytes → Option Pairs) → unescaped raw use_text ≡ use_text (decode raw)
unescaped_lem raw use_text = rw (unescaped, lws_unescape_url-decode raw) refl

-- What the loop gives in both states
abbrev from_value : Bytes → Bytes → Pairs
from_value key cs =
    (key, decode ((until ends_value cs).0)) ∷ pairs_of (more ((until ends_value cs).1))

after_value_lem :
    (next : Bytes → Option Pairs) (key text rest : Bytes)
    → ((r : Bytes) → length r < length rest → next r ≡ some (pairs_of (fields r)))
    → after_value next key text rest ≡ some ((key, text) ∷ pairs_of (more rest))
after_value_lem next key text [] h = refl
after_value_lem next key text (c ∷ r) h = rw (h r (omega arith)) refl

after_key_lem :
    (value : Bytes → Bytes → Option Pairs) (next : Bytes → Option Pairs) (raw rest : Bytes)
    → ((r : Bytes)
        → length r < length rest
        → value (decode raw) r ≡ some (from_value (decode raw) r))
    → ((r : Bytes) → length r < length rest → next r ≡ some (pairs_of (fields r)))
    → after_key value next raw (decode raw) rest
      ≡ some (
          pair_of (raw ++ value_part rest) raw (value_part rest)
          ++ pairs_of (more (rest_part rest)))
after_key_lem value next raw [] v h =
    rw (append-nil raw, append-nil (key_only raw (decode raw))) refl
after_key_lem value next raw (c ∷ r) v h = elim (Bool-cases (c == b'=')) [
  | inl k ↦ rw (k, v r (omega arith)) refl
  | inr k ↦ rw (k, h r (omega arith), append-nil raw) refl
]

fields_pairs :
    (cs : Bytes)
    → pairs_of (fields cs)
      ≡ pair_of
          ((until ends_key cs).0 ++ value_part ((until ends_key cs).1))
          ((until ends_key cs).0)
          (value_part ((until ends_key cs).1))
        ++ pairs_of (more (rest_part ((until ends_key cs).1)))
fields_pairs cs =
    let t = until ends_key cs in
    let f = (until ends_value cs).0 in
    let i = until-key cs in
    ap pairs_of (fields-until cs)
    ∙ ap (λ u. pair_of f u.0 u.1 ++ pairs_of (more ((until ends_value cs).1))) i.1
    ∙ ap (λ u. pair_of u.0 t.0 (value_part t.1) ++ pairs_of (more u.1)) i.0

-- What the loop gives, by its state
abbrev result : Option Bytes → Bytes → Pairs
result none cs = pairs_of (fields cs)
result (some key) cs = from_value key cs

parse_loop-result :
    (fuel : ℕ) (state : Option Bytes) (cs : Bytes)
    → length cs < fuel
    → parse_loop fuel state cs ≡ some (result state cs)
unfolding parse_loop
parse_loop-result zero state cs h = absurd (ground arith)
parse_loop-result (suc fuel) none cs h =
    let t = until ends_key cs in
    let b = until_shorter ends_key cs in
    unescaped_lem t.0 _
    ∙ after_key_lem (λ key r. parse_loop fuel (some key) r) (λ r. parse_loop fuel none r) t.0 t.1
        (λ r l. parse_loop-result fuel (some (decode t.0)) r (omega (arith, b)))
        (λ r l. parse_loop-result fuel none r (omega (arith, b)))
    ∙ ap some (sym (fields_pairs cs))
parse_loop-result (suc fuel) (some key) cs h =
    let t = until ends_value cs in
    let b = until_shorter ends_value cs in
    unescaped_lem t.0 _
    ∙ after_value_lem _ key (decode t.0) t.1
        (λ r l. parse_loop-result fuel none r (omega (arith, b)))

-- The ampersands
unfoldable separators : Bytes → ℕ
separators [] = 0
separators (c ∷ cs) = let rest = separators cs in if c == b'&' then suc rest else rest

length-add_head :
    (c : ℕ) (fs : List Bytes) (n : ℕ) → length fs ≡ suc n → length (add_head c fs) ≡ suc n
length-add_head c [] n h = absurd (ground arith)
length-add_head c (f ∷ fs) n h = h

length-fields : (cs : Bytes) → length (fields cs) ≡ suc (separators cs)
unfolding fields separators
length-fields [] = refl
length-fields (c ∷ cs) = elim (Bool-cases (c == b'&')) [
  | inl h ↦ rw (fields, separators, h) (ap suc (length-fields cs))
  | inr h ↦ rw (fields, separators, h) (length-add_head c (fields cs) _ (length-fields cs))
]

exceeds-separators :
    (limit n : ℕ) (cs : Bytes) → n ≤ limit → exceeds limit n cs ≡ ltb limit (n + separators cs)
unfolding exceeds separators
exceeds-separators limit n [] h = ground arith
exceeds-separators limit n (c ∷ cs) h = elim (Bool-cases (c == b'&')) [
  | inl k ↦ elim (Bool-cases (n == limit)) [
    | inl e ↦ ground arith
    | inr e ↦ let i = exceeds-separators limit (suc n) cs (ground arith) in ground (arith, i)
  ]
  | inr k ↦ let i = exceeds-separators limit n cs h in ground (arith, i)
]

-- The answer by the fields: an error for a limit out of range or for more fields than the limit
abbrev pub by_fields : Bytes → ℤ → Parsed
by_fields args (negsuc n) = out_of_range
by_fields args (pos limit) =
    if not (in_range (pos limit))
    then out_of_range
    else if ltb limit (length (fields args))
    then too_many
    else parsed (pairs_of (fields args))

choose_lem :
    {b b' : Bool} {o : Option Parsed} {x : Parsed}
    → b ≡ b'
    → o ≡ some x
    → (if b then some too_many else o) ≡ some (if b' then too_many else x)
choose_lem {b = true} {b' = true} e f = refl
choose_lem {b = true} {b' = false} e f = absurd (ground (arith, e))
choose_lem {b = false} {b' = true} e f = absurd (ground (arith, e))
choose_lem {b = false} {b' = false} e f = f

-- For every argument and limit, lws_parseargs ends with what the fields of the argument say: an error
-- for a limit out of range or for more fields between ampersands than the limit, and otherwise the
-- decoded keys and values of the fields that are not empty, in their order.
pub lws_parseargs-by_fields :
    (args : Bytes) (limit : ℤ) → lws_parseargs args limit ≡ some (by_fields args limit)
unfolding lws_parseargs fields
lws_parseargs-by_fields args (negsuc n) = refl
lws_parseargs-by_fields [] (pos limit) = ground arith
lws_parseargs-by_fields (c ∷ cs) (pos limit) = elim (Bool-cases (in_range (pos limit))) [
  | inr k ↦ rw k refl
  | inl k ↦
      let e = exceeds-separators limit 1 (c ∷ cs) (ground arith) in
      let p = parse_loop-result (suc (length (c ∷ cs))) none (c ∷ cs) (omega arith) in
      let n : 1 + separators (c ∷ cs) ≡ length (fields (c ∷ cs)) =
        omega (arith, length-fields (c ∷ cs)) in
      let l : exceeds limit 1 (c ∷ cs) ≡ ltb limit (length (fields (c ∷ cs))) =
        e ∙ ap (ltb limit) n in
      rw k (choose_lem l (ap parsed_of p))
]
