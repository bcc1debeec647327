-- ===== src/Response/Cookies.antt =====
-- The unfolding of a Set-Cookie value into one header for each cookie, in `lws_set_response_header` of
-- src/lws_module.c.
use nginx_lws.Base.{
  ℕ, zero, suc, ◌==◌, leb, if◌then◌else◌, Bool, false, ◌&&◌, ◌||◌, Option, none, some, List, [],
  ◌∷◌, length, Bytes, bytes_of,
}

-- `ngx_strncasecmp(text, literal, sizeof(literal) - 1) == 0`
abbrev pub Compare : Type 0
Compare = Bytes → Bytes → Bool

-- `while (vattr < vend && (*vattr == ' ' || *vattr == '\t'))`
unfoldable pub skip_blanks : Bytes → Bytes
skip_blanks [] = []
skip_blanks (c ∷ cs) = let rest = skip_blanks cs in if c == b' ' || c == b'\t' then rest else c ∷ cs

-- `while (vstart < vend && *vstart == ' ')`
unfoldable pub skip_spaces : Bytes → Bytes
skip_spaces [] = []
skip_spaces (c ∷ cs) = let rest = skip_spaces cs in if c == b' ' then rest else c ∷ cs

-- The move of `vstart` behind the comma at `vpos` and the spaces that follow. At the end of the value
-- both breaks of the loop give no bytes.
unfoldable pub after_comma : Bytes → Bytes
unfolding skip_spaces
after_comma [] = []
after_comma (comma ∷ cs) = skip_spaces cs

-- A cookie, and those of the rest of the value unless that is empty.
abbrev pub add_cookie : Bytes → Bytes → Option (List Bytes) → Option (List Bytes)
add_cookie cookie [] rest = some (cookie ∷ [])
add_cookie cookie (c ∷ cs) none = none
add_cookie cookie (c ∷ cs) (some cookies) = some (cookie ∷ cookies)

module _ (starts_with : Compare) where
  -- Whether the attribute after a semicolon is Expires.
  unfoldable pub is_expires : Bytes → Bool
  unfolding skip_blanks
  is_expires cs =
      let attr = skip_blanks cs in leb 8 (length attr) && starts_with attr (bytes_of "Expires=")

  -- The variable `expires` after the byte `c`, with the bytes behind it; none where the loop breaks.
  unfoldable pub next_expires : Bool → ℕ → Bytes → Option Bool
  unfolding is_expires
  next_expires expires c cs =
      if c == b';'
      then some (is_expires cs)
      else if c == b','
      then (if expires then some false else none)
      else some expires

  -- `while (vpos < vend)`: the bytes from `vstart` to `vpos`, and those from `vpos`.
  unfoldable pub scan : Bool → Bytes → Bytes × Bytes
  unfolding next_expires
  scan expires [] = ([], [])
  scan expires (c ∷ cs) = elim (next_expires expires c cs) [
    | none ↦ ([], c ∷ cs)
    | some e ↦ (let rest = scan e cs in (c ∷ rest.0, rest.1))
  ]

  -- The values of the headers that `while (1)` sets, with fuel; none is a loop that does not end.
  unfoldable pub unfold_value : ℕ → Bytes → Option (List Bytes)
  unfolding scan after_comma
  unfold_value zero value = none
  unfold_value (suc fuel) value =
      let vpos = scan false value in
      let vstart = after_comma vpos.1 in add_cookie vpos.0 vstart (unfold_value fuel vstart)
