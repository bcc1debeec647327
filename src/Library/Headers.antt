-- ===== src/Library/Headers.antt =====
-- `lws_lua_table_newindex` of src/lws_lib.c, which a script calls to set a response header. The
-- value is kept as an object at the address `dup`, none where it cannot be allocated; an error of
-- Lua is a value.
use nginx_lws.Base.{
  ℕ, ◌≤◌, ◌<◌, ◌≡◌, ◌≢◌, refl, ◌==◌, ltb, leb, if◌then◌else◌, Bool, true, false, ◌&&◌, ◌||◌, not,
  Bool-cases, inl, inr, Option, none, some, List, [], ◌∷◌, arith,
}
use nginx_lws.Table.Defs.{Table, Strings}
use nginx_lws.Table.Ops.{Alloc, lws_table_get, lws_table_next, lws_table_set}
use nginx_lws.Table.Prime.{IsPrime}
use nginx_lws.Table.Rehash.{NextIsPrime}
use nginx_lws.Table.Valid.{IsValid}
use nginx_lws.Table.Set.{lws_table_set-Writes}

-- The messages of `luaL_error`
pub data Refusal : Type 0 where
  read_only bad_name bad_value no_memory not_set : Refusal

pub data Outcome : Type 0 where
  stored : Table → Outcome
  refused : Refusal → Table → Outcome

-- A byte of a name that the loop passes over.
unfoldable pub is_token : ℕ → Bool
is_token ch =
    (leb 48 ch && leb ch 57)
    || (leb 65 ch && leb ch 90)
    || (leb 97 ch && leb ch 122)
    || ch == 33
    || (leb 35 ch && leb ch 39)
    || ch == 42
    || ch == 43
    || ch == 45
    || ch == 46
    || (leb 94 ch && leb ch 96)
    || ch == 124
    || ch == 126

-- A byte of a value that the loop passes over.
unfoldable pub is_text : ℕ → Bool
is_text ch = not ((ltb ch 32 && not (ch == 9)) || ch == 127)

-- A loop over the bytes, up to the first that fails.
unfoldable pub all_bytes : (ℕ → Bool) → List ℕ → Bool
all_bytes t [] = true
all_bytes t (c ∷ cs) = if t c then all_bytes t cs else false

abbrev pub is_empty : List ℕ → Bool
is_empty [] = true
is_empty (c ∷ cs) = false

unfoldable pub is_name : List ℕ → Bool
unfolding all_bytes is_token
is_name key = not (is_empty key) && all_bytes is_token key

-- What `lws_table_set` has returned
abbrev pub outcome_of : Table × Bool → Outcome
outcome_of (t, true) = stored t
outcome_of (t, false) = refused not_set t

module _ (str : Strings) (seed now : ℕ) (ok : Alloc) where
  unfoldable pub store : Option ℕ → Table → List ℕ → Option Outcome
  unfolding lws_table_set
  store none t key = some (refused no_memory t)
  store (some dup) t key = elim (lws_table_set str seed now ok t key dup) [
    | none ↦ none
    | some r ↦ some (outcome_of r)
  ]

  unfoldable pub lws_lua_table_newindex : Option ℕ → Bool → Table → List ℕ → List ℕ → Option Outcome
  unfolding store is_name all_bytes is_text
  lws_lua_table_newindex dup readonly t key value =
      if readonly
      then some (refused read_only t)
      else if not (is_name key)
      then some (refused bad_name t)
      else if not (all_bytes is_text value)
      then some (refused bad_value t)
      else store dup t key

-- The read of a table by a script, and a step of its iteration; none is the value nil.
module _ (str : Strings) (seed now : ℕ) where
  abbrev pub value_or_nil : ℕ → Option ℕ
  value_or_nil value = if value == 0 then none else some value

  unfoldable pub lws_lua_table_index : Table → List ℕ → Option (Table × Option ℕ)
  unfolding lws_table_get
  lws_lua_table_index t key = elim (lws_table_get str seed now t key) [
    | none ↦ none
    | some r ↦ some (r.0, value_or_nil (r.1))
  ]

  unfoldable pub lws_lua_table_next : Table → Option (List ℕ) → Option (Option (List ℕ × ℕ))
  unfolding lws_table_next
  lws_lua_table_next t key = lws_table_next str seed now t key

abbrev pub Each : (ℕ → Type 0) → List ℕ → Type 0
Each P [] = Unit {0}
Each P (c ∷ cs) = P c × Each P cs

-- A name without a colon, a space or a control character
abbrev pub IsName : List ℕ → Type 0
IsName key = (key ≢ []) × Each (λ c. (33 ≤ c) × (c < 127) × (c ≢ 58)) key

-- A value without a line break or a null byte
abbrev pub IsValue : List ℕ → Type 0
IsValue value = Each (λ c. (c ≢ 10) × (c ≢ 13) × (c ≢ 0)) value

Each-of :
    (t : ℕ → Bool) (P : ℕ → Type 0) (cs : List ℕ)
    → ((c : ℕ) → t c ≡ true → P c)
    → all_bytes t cs ≡ true
    → Each P cs
unfolding all_bytes
Each-of t P [] h e = tt
Each-of t P (c ∷ cs) h e = (h c (ground arith), Each-of t P cs h (ground arith))

token_lem : (c : ℕ) → is_token c ≡ true → (33 ≤ c) × (c < 127) × (c ≢ 58)
unfolding is_token
token_lem c h = (ground arith, ground arith, λ e. ground arith)

text_lem : (c : ℕ) → is_text c ≡ true → (c ≢ 10) × (c ≢ 13) × (c ≢ 0)
unfolding is_text
text_lem c h = (λ e. ground arith, λ e. ground arith, λ e. ground arith)

name_lem : (key : List ℕ) → is_name key ≡ true → IsName key
unfolding is_name
name_lem [] h = absurd (ground arith)
name_lem (c ∷ cs) h = (λ e. ground arith, Each-of is_token _ (c ∷ cs) token_lem (ground arith))

-- What an outcome tells of the header, and of the table.
abbrev pub Answer : Strings → ℕ → List ℕ → List ℕ → Outcome → Type 0
Answer str seed key value (stored t) = IsValid str seed t × IsName key × IsValue value
Answer str seed key value (refused why t) = IsValid str seed t

module _ (str : Strings) (seed now : ℕ) (ok : Alloc) {t : Table} (v : IsValid str seed t)
    (prime : IsPrime t.alloc) (next : NextIsPrime t) (key value : List ℕ) where
  Answer-of :
      (r : Table × Bool)
      → IsValid str seed r.0
      → IsName key
      → IsValue value
      → Answer str seed key value (outcome_of r)
  Answer-of (t', true) w n s = (w, n, s)
  Answer-of (t', false) w n s = w

  store-Answer :
      (dup : Option ℕ)
      → IsName key
      → IsValue value
      → (o : Outcome) × (store str seed now ok dup t key ≡ some o) × Answer str seed key value o
  unfolding store
  store-Answer none n s = (refused no_memory t, refl, v)
  store-Answer (some dup) n s =
      let (r, run, w, _) = lws_table_set-Writes str seed now ok v prime next key dup in
      (outcome_of r, rw (run, store) refl, Answer-of r w n s)

  -- Where the numbers of slots now and after a rehash are prime, the setting of a header in a
  -- well-formed table ends and leaves a well-formed table. Where it succeeds, the name is not
  -- empty and has neither a colon, a space nor a control character, and the value has neither a
  -- line break nor a null byte.
  pub lws_lua_table_newindex-Answer :
      (dup : Option ℕ) (readonly : Bool)
      → (o : Outcome) × (lws_lua_table_newindex str seed now ok dup readonly t key value ≡ some o)
        × Answer str seed key value o
  unfolding lws_lua_table_newindex
  lws_lua_table_newindex-Answer dup true = (refused read_only t, refl, v)
  lws_lua_table_newindex-Answer dup false = elim (Bool-cases (is_name key)) [
    | inr bad ↦ (refused bad_name t, rw (bad, lws_lua_table_newindex) refl, v)
    | inl named ↦ elim (Bool-cases (all_bytes is_text value)) [
      | inr bad ↦ (refused bad_value t, rw (named, bad, lws_lua_table_newindex) refl, v)
      | inl texts ↦
          let (o, run, a) =
            store-Answer dup (name_lem key named) (Each-of is_text _ value text_lem texts) in
          (o, rw (named, texts, lws_lua_table_newindex) run, a)
    ]
  ]
