-- ===== src/Monitor/Body.antt =====
-- `lws_monitor_body_handler` of src/lws_monitor.c: the modifications in the body of a request. The byte
-- that is read behind the body is the parameter `beyond`.
use nginx_lws.Base.{
  ℕ, zero, suc, ◌+◌, ◌==◌, if◌then◌else◌, Bool, ◌||◌, not, Option, none, some, List, [], ◌∷◌, ◌++◌,
  length, Bytes,
}
use nginx_lws.Monitor.Defs.{
  Shared, Modification, modified, bad_request, conflict, lws_monitor_modification_handler,
}

abbrev pub is_separator : ℕ → Bool
is_separator c = c == b'=' || c == b'&'

-- `while (pos < last && *pos != '=' && *pos != '&')`: the bytes from `start` to `pos`, and from `pos`.
unfoldable pub token : Bytes → Bytes × Bytes
token [] = ([], [])
token (c ∷ cs) =
    let rest = token cs in if is_separator c then ([], c ∷ cs) else (c ∷ rest.0, rest.1)

-- The variable `state`: 0, or 1 with the key.
pub data Field : Type 0 where
  at_key : Field
  at_value : Bytes → Field

-- A buffer: what `ngx_buf_size` gives, and the bytes from `pos` to `last`, none for a buffer in a file.
pub record Buffer : Type 0 where
  pub size : ℕ
  pub held : Bytes

-- `body.len`
abbrev pub sizes : List Buffer → ℕ
sizes [] = 0
sizes (b ∷ bs) = b.size + sizes bs

-- The bytes that are copied
abbrev pub copied : List Buffer → Bytes
copied [] = []
copied (b ∷ bs) = b.held ++ copied bs

-- The `n` bytes of the allocated block from the offset `i` with the copied ones at their start; the
-- others are those that the block had. NGINX has no buffer with more bytes in memory than its size.
abbrev pub block : (ℕ → ℕ) → ℕ → ℕ → Bytes → Bytes
block fresh zero i cs = []
block fresh (suc n) i [] = fresh i ∷ block fresh n (i + 1) []
block fresh (suc n) i (c ∷ cs) = c ∷ block fresh n (i + 1) cs

-- `body`
unfoldable pub flatten : (ℕ → ℕ) → List Buffer → Bytes
flatten fresh bs = block fresh (sizes bs) 0 (copied bs)

-- `*pos`
abbrev pub byte_at : ℕ → Bytes → ℕ
byte_at beyond [] = beyond
byte_at beyond (c ∷ cs) = c

-- The state behind a token and the byte `c` at `pos`.
unfoldable pub next_field : Field → Bytes → ℕ → Field
next_field at_key start c = if c == b'=' then at_value start else at_key
next_field (at_value key) start c = at_key

-- The modification at the end of a token, where `value.data` is set.
unfoldable pub end_token : Field → Bytes → ℕ → Shared → Shared × Modification
unfolding lws_monitor_modification_handler
end_token at_key start c m =
    if c == b'=' then (m, modified) else lws_monitor_modification_handler start [] m
end_token (at_value key) start c m = lws_monitor_modification_handler key start m

-- Behind a modification: the end at a failure or at the end of the body, or the rest of the loop.
abbrev pub go_on :
    Bytes → Shared × Modification → Option (Shared × Modification) → Option (Shared × Modification)
go_on rest (m, bad_request) next = some (m, bad_request)
go_on rest (m, conflict) next = some (m, conflict)
go_on [] (m, modified) next = some (m, modified)
go_on (c ∷ rest) (m, modified) next = next

abbrev pub tail : Bytes → Bytes
tail [] = []
tail (c ∷ cs) = cs

-- `while (1)`, with fuel; none is a loop that does not end.
unfoldable pub body_loop : ℕ → ℕ → Field → Bytes → Shared → Option (Shared × Modification)
unfolding token next_field end_token
body_loop zero beyond f body m = none
body_loop (suc fuel) beyond f body m =
    let t = token body in
    let c = byte_at beyond t.1 in
    let e = end_token f t.0 c m in
    go_on t.1 e (body_loop fuel beyond (next_field f t.0 c) (tail t.1) e.0)

-- What the handler gives to `ngx_http_finalize_request`: the status of an error, or the result of the
-- content handler.
pub data Reply : Type 0 where
  status_500 status_400 status_409 content : Reply

abbrev pub reply_of : Modification → Reply
reply_of modified = content
reply_of bad_request = status_400
reply_of conflict = status_409

abbrev pub answer_of : Option (Shared × Modification) → Option (Shared × Reply)
answer_of none = none
answer_of (some (m, result)) = some (m, reply_of result)

-- The buffers of the body, where none is no body; whether the block for them is allocated, and the
-- bytes in it before the copy.
unfoldable pub lws_monitor_body_handler :
    Bool → (ℕ → ℕ) → ℕ → Option (List Buffer) → Shared → Option (Shared × Reply)
unfolding body_loop flatten
lws_monitor_body_handler data_ok fresh beyond none m = some (m, status_500)
lws_monitor_body_handler data_ok fresh beyond (some []) m = some (m, status_400)
lws_monitor_body_handler data_ok fresh beyond (some (b ∷ bs)) m =
    if not data_ok
    then some (m, status_500)
    else (let body = flatten fresh (b ∷ bs) in
        answer_of (body_loop (suc (length body)) beyond at_key body m))

-- The method of a request, and the handler that it selects.
pub data Method : Type 0 where
  get post other : Method

pub data Handler : Type 0 where
  content_handler action_handler not_allowed : Handler

unfoldable pub lws_monitor_handler : Method → Handler
lws_monitor_handler get = content_handler
lws_monitor_handler post = action_handler
lws_monitor_handler other = not_allowed
