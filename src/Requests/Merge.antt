-- ===== src/Requests/Merge.antt =====
-- The request headers in `lws_handler` of src/lws_module.c: the values of headers with one key are
-- joined into one value. The table of the headers is a list by key, with the comparison of keys as a
-- parameter; the allocations succeed.
use nginx_lws.Base.{
  ℕ, ◌+◌, ◌==◌, if◌then◌else◌, Bool, Option, none, some, List, [], ◌∷◌, ◌++◌, length, Bytes,
  bytes_of,
}

-- `lws_request_header_t`: the value of the first header, the length of the joined value, how many
-- headers there are, and the bytes written behind `value.data`, none where `last` is not set.
pub record RequestHeader : Type 0 where
  pub first : Bytes
  pub len : ℕ
  pub count : ℕ
  pub written : Option Bytes

abbrev pub Entries : Type 0
Entries = List (Bytes × RequestHeader)

-- The separator
abbrev pub comma : Bytes
comma = bytes_of ", "

-- The record of the first header, and the record with one header more
abbrev pub count_header : Option RequestHeader → Bytes → RequestHeader
count_header none value = record { first = value; len = length value; count = 1; written = none }
count_header (some e) value = record e { len = e.len + (2 + length value); count = e.count + 1 }

abbrev pub written_after : Option Bytes → Bytes → Bytes
written_after none value = value
written_after (some w) value = w ++ (comma ++ value)

-- The copy of a value, where the key has more than one header
unfoldable pub write_header : RequestHeader → Bytes → RequestHeader
write_header e value =
    if e.count == 1 then e else record e { written = some (written_after e.written value) }

module _ (same : Bytes → Bytes → Bool) where
  -- `lws_table_get`
  unfoldable pub find_entry : Entries → Bytes → Option RequestHeader
  find_entry [] key = none
  find_entry (r ∷ rs) key = let rest = find_entry rs key in if same r.0 key then some r.1 else rest

  -- `lws_table_set`, or a change of the record that the table holds
  unfoldable pub put_entry : Bytes → RequestHeader → Entries → Entries
  put_entry key e [] = (key, e) ∷ []
  put_entry key e (r ∷ rs) =
      let rest = put_entry key e rs in if same r.0 key then (r.0, e) ∷ rs else r ∷ rest

  -- The first loop over the headers
  unfoldable pub count_headers : List (Bytes × Bytes) → Entries → Entries
  unfolding find_entry put_entry
  count_headers [] t = t
  count_headers (h ∷ hs) t =
      count_headers hs (put_entry h.0 (count_header (find_entry t h.0) h.1) t)

  -- The copy of a header to its record
  abbrev pub write_to : Option RequestHeader → Bytes × Bytes → Entries → Entries
  write_to none h t = t
  write_to (some e) h t = put_entry h.0 (write_header e h.1) t

  -- The last loop over the headers
  unfoldable pub write_headers : List (Bytes × Bytes) → Entries → Entries
  unfolding find_entry put_entry write_header
  write_headers [] t = t
  write_headers (h ∷ hs) t = write_headers hs (write_to (find_entry t h.0) h t)

  unfoldable pub request_headers : List (Bytes × Bytes) → Entries
  unfolding count_headers write_headers
  request_headers hs = write_headers hs (count_headers hs [])
