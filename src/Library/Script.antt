-- ===== src/Library/Script.antt =====
-- The functions of src/lws_lib.c that change the request from a script: the status, the redirect, the
-- completion, the closing of the state, and the flush of the response body into the pipe.
use nginx_lws.Base.{
  ℕ, ◌==◌, ltb, if◌then◌else◌, Bool, true, false, ◌||◌, not, Option, none, some, List, [], ◌∷◌,
  ◌++◌, length, take, drop, ℤ, pos, negsuc, ◌-◌, ◌%◌, Bytes,
}

-- `lws_lua_chunk_e`
pub data Chunk : Type 0 where
  lc_init lc_pre lc_main lc_post : Chunk

-- `lws_lua_request_ctx_t` with the parts of `lws_request_ctx_t` that the functions use: the body is
-- what stands in the stream of the response, and the pipe the bytes written to it, none where the
-- location has no streaming.
pub record Script : Type 0 where
  pub chunk : Chunk
  pub complete : Bool
  pub sealed : Bool
  pub readonly : Bool
  pub status : ℤ
  pub redirect : Bytes
  pub redirect_args : Bytes
  pub close : Bool
  pub body : Bytes
  pub pipe : Option Bytes

-- The errors of Lua
pub data Failure : Type 0 where
  not_allowed header_sealed empty_redirect no_string redirected no_streaming : Failure
  no_size too_large not_flushed not_written : Failure

-- A return to the script, or an error with what is changed until then.
pub data Return : Type 0 where
  returned : Script → Return
  raised : Failure → Script → Return

-- The conversion of an integer to an `int`, which keeps its lower 32 bits
unfoldable pub int_of : ℤ → ℤ
int_of (pos n) =
    let m = n % 4294967296 in if ltb m 2147483648 then pos m else negsuc (4294967295 - m)
int_of (negsuc n) =
    let m = n % 4294967296 in if ltb m 2147483648 then negsuc m else pos (4294967295 - m)

-- The branch of `lws_lua_response_newindex` for the key `status`
unfoldable pub set_status : ℤ → Script → Return
unfolding int_of
set_status status s =
    if s.sealed then raised header_sealed s else returned (record s { status = int_of status })

-- `lctx->chunk == LWS_LC_PRE`
abbrev pub is_pre : Chunk → Bool
is_pre lc_pre = true
is_pre _ = false

abbrev pub may_redirect : Chunk → Bool
may_redirect lc_pre = true
may_redirect lc_main = true
may_redirect _ = false

-- `redirect.data[0] != '@'`
abbrev pub is_path : Bytes → Bool
is_path [] = true
is_path (c ∷ cs) = not (c == b'@')

-- `redirect.len > (redirect.data[0] != '@' ? 0 : 1)`
abbrev pub is_target : Bytes → Bool
is_target redirect = ltb (if is_path redirect then 0 else 1) (length redirect)

abbrev pub complete_pre : Script → Script
complete_pre s = record s { complete = is_pre s.chunk || s.complete }

abbrev pub with_args : Bytes → Option Bytes → Script → Script
with_args redirect none s = s
with_args redirect (some args) s = if is_path redirect then record s { redirect_args = args } else s

-- `lws_redirect`, with the arguments if they are given, and the copies of both strings.
unfoldable pub lws_redirect : Bool → Bool → Bytes → Option Bytes → Script → Return
lws_redirect args_ok redirect_ok redirect args s =
    if not (may_redirect s.chunk)
    then raised not_allowed s
    else if s.sealed
    then raised header_sealed s
    else if not (is_target redirect)
    then raised empty_redirect s
    else if not args_ok
    then raised no_string s
    else if not redirect_ok
    then raised no_string (with_args redirect args s)
    else returned (complete_pre (record (with_args redirect args s) { redirect = redirect }))

unfoldable pub lws_setcomplete : Script → Return
lws_setcomplete s =
    if not (is_pre s.chunk) then raised not_allowed s else returned (record s { complete = true })

unfoldable pub lws_setclose : Script → Return
lws_setclose s = returned (record s { close = true })

-- What `write` gives: a number of bytes, an interruption, or another failure.
pub data Write : Type 0 where
  wrote : ℕ → Write
  interrupted : Write
  write_failed : Write

-- A write loop that is done, that has failed, or that goes on beyond the given results, with the bytes
-- that the pipe has got.
pub data Flushed : Type 0 where
  all_written not_all_written still_writing : Bytes → Flushed

-- `for (written = 0; written < size; )`, with the bytes that are left. A write of a number that is not
-- positive fails, and one of more than are left writes these.
unfoldable pub write_loop : List Write → Bytes → Bytes → Flushed
write_loop ws [] pipe = all_written pipe
write_loop [] (c ∷ cs) pipe = still_writing pipe
write_loop (write_failed ∷ ws) (c ∷ cs) pipe = not_all_written pipe
write_loop (interrupted ∷ ws) (c ∷ cs) pipe = write_loop ws (c ∷ cs) pipe
write_loop (wrote n ∷ ws) (c ∷ cs) pipe =
    let rest = write_loop ws (drop n (c ∷ cs)) (pipe ++ take n (c ∷ cs)) in
    if n == 0 then not_all_written pipe else rest

-- The end of the flush; none is a loop that goes on beyond the given results.
abbrev pub after_writes : Script → Flushed → Option Return
after_writes s (all_written pipe) = some (returned (record s { body = []; pipe = some pipe }))
after_writes s (not_all_written pipe) = some (raised not_written (record s { pipe = some pipe }))
after_writes s (still_writing pipe) = none

abbrev pub has_body : Bytes → Bool
has_body [] = false
has_body (c ∷ cs) = true

-- What the environment decides in a flush: whether the size is found and small enough, whether the
-- stream is flushed, and the results of the writes.
pub record Flushing : Type 0 where
  pub size_ok : Bool
  pub small : Bool
  pub flush_ok : Bool
  pub writes : List Write

unfoldable pub flush_pipe : Flushing → Bytes → Script → Option Return
unfolding write_loop
flush_pipe e pipe s =
    if not e.size_ok
    then some (raised no_size s)
    else if not e.small
    then some (raised too_large s)
    else (let q = record s { sealed = true; readonly = true } in
        if not (has_body s.body)
        then some (returned q)
        else if not e.flush_ok
        then some (raised not_flushed q)
        else after_writes q (write_loop e.writes s.body pipe))

-- The flush where the location has streaming, or the error where it has not
unfoldable pub flush_to : Flushing → Option Bytes → Script → Option Return
unfolding flush_pipe
flush_to e none s = some (raised no_streaming s)
flush_to e (some pipe) s = flush_pipe e pipe s

-- `lws_file_flush_hook` on the stream of the response
unfoldable pub lws_file_flush_hook : Flushing → Script → Option Return
unfolding flush_to
lws_file_flush_hook e s =
    if has_body s.redirect then some (raised redirected s) else flush_to e s.pipe s
