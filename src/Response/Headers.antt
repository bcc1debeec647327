-- ===== src/Response/Headers.antt =====
-- `lws_set_response_header` of src/lws_module.c. The fields are the entries of the table
-- `response_headers` in the order of `lws_table_next`.
use nginx_lws.Base.{
  ℕ, zero, suc, ◌==◌, if◌then◌else◌, Bool, true, false, ◌&&◌, Option, none, some, List, [], ◌∷◌,
  ◌++◌, length, ℤ, Bytes, bytes_of,
}
use nginx_lws.Response.Defs.{
  Header, Request, Slot, date, etag, server, refresh, expires, location, last_modified,
  content_range, accept_ranges, content_encoding, www_authenticate,
}
use nginx_lws.Response.Cookies.{Compare, unfold_value}

-- The request, and how many pushes of headers succeed before one fails, or that one has failed.
pub data Pushed : Type 0 where
  pushed : Request → ℕ → Pushed
  push_failed : Request → Pushed

abbrev pub push : Header → Request → Request
push h r = record r { headers = r.headers ++ h ∷ [] }

abbrev is_last_modified : Slot → Bool
is_last_modified last_modified = true
is_last_modified _ = false

-- The header of each cookie, after `ngx_list_push`.
unfoldable pub push_cookies : Bytes → List Bytes → Pushed → Pushed
push_cookies key [] p = p
push_cookies key (c ∷ cs) (push_failed r) = push_failed r
push_cookies key (c ∷ cs) (pushed r zero) = push_failed r
push_cookies key (c ∷ cs) (pushed r (suc n)) =
    push_cookies key cs (pushed (push (record { key = key; value = c }) r) n)

module _ (starts_with : Compare) where
  -- `key->len == sizeof(literal) - 1 && lws_is_header(literal)`
  abbrev pub is_header : Bytes → Bytes → Bool
  is_header literal key = length key == length literal && starts_with key literal

  -- The switch on the length of the key; Set-Cookie is tested apart.
  unfoldable pub slot_of : Bytes → Option Slot
  slot_of key =
      if is_header (bytes_of "Date") key
      then some date
      else if is_header (bytes_of "ETag") key
      then some etag
      else if is_header (bytes_of "Server") key
      then some server
      else if is_header (bytes_of "Refresh") key
      then some refresh
      else if is_header (bytes_of "Expires") key
      then some expires
      else if is_header (bytes_of "Location") key
      then some location
      else if is_header (bytes_of "Last-Modified") key
      then some last_modified
      else if is_header (bytes_of "Content-Range") key
      then some content_range
      else if is_header (bytes_of "Accept-Ranges") key
      then some accept_ranges
      else if is_header (bytes_of "Content-Encoding") key
      then some content_encoding
      else if is_header (bytes_of "WWW-Authenticate") key
      then some www_authenticate
      else none

module _ (starts_with : Compare) (ngx_parse_http_time : Bytes → ℤ) where
  -- The pointers that a header is given, with the time of Last-Modified
  unfoldable pub set_slot : Option Slot → Bytes → Request → Request
  set_slot none value r = r
  set_slot (some s) value r = record r {
    slots = (s, length r.headers) ∷ r.slots;
    last_modified_time =
        if is_last_modified s then ngx_parse_http_time value else r.last_modified_time;
  }

  -- A header that is not unfolded
  unfoldable pub push_header : Header → Request → ℕ → Pushed
  unfolding slot_of set_slot
  push_header h r zero = push_failed r
  push_header h r (suc n) = pushed (push h (set_slot (slot_of starts_with h.key) h.value r)) n

  -- One turn of the loop; none is an unfolding that does not end.
  unfoldable pub set_field : Header → Request → ℕ → Option Pushed
  unfolding push_header push_cookies unfold_value
  set_field h r n =
      if is_header starts_with (bytes_of "Content-Type") h.key
      then some (pushed (record r { content_type = h.value }) n)
      else if is_header starts_with (bytes_of "Content-Length") h.key
      then some (pushed r n)
      else if is_header starts_with (bytes_of "Transfer-Encoding") h.key
      then some (pushed r n)
      else if is_header starts_with (bytes_of "Set-Cookie") h.key
      then (elim (unfold_value starts_with (suc (length h.value)) h.value) [
        | none ↦ none
        | some cookies ↦ some (push_cookies h.key cookies (pushed r n))
      ])
      else some (push_header h r n)

  -- `while (lws_table_next(...) == 0)`; after a failing push nothing more is set.
  unfoldable pub lws_set_response_header : List Header → Request → ℕ → Option Pushed
  unfolding set_field
  lws_set_response_header [] r n = some (pushed r n)
  lws_set_response_header (h ∷ hs) r n = elim (set_field h r n) [
    | none ↦ none
    | some (push_failed q) ↦ some (push_failed q)
    | some (pushed q m) ↦ lws_set_response_header hs q m
  ]
