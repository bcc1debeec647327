-- ===== src/Library/Run.antt =====
-- `lws_run` and `lws_call` of src/lws_lib.c: the chunks of a request in their order. What a chunk does
-- to the request, and whether it can be loaded, is a parameter.
use nginx_lws.Base.{if◌then◌else◌, Bool, true, ◌&&◌, ◌||◌, not, List, [], ◌∷◌, ◌++◌, ℤ, pos, negsuc}
use nginx_lws.Response.Defs.{is_negative}
use nginx_lws.Response.Finish.{is_positive}
use nginx_lws.Library.Script.{Chunk, lc_init, lc_pre, lc_main, lc_post, Script, is_pre, int_of}

-- The value that a chunk gives.
pub data Value : Type 0 where
  nil : Value
  integer : ℤ → Value
  other : Value

-- A chunk gives a value, or raises an error, with what it has done to the request.
pub data ChunkEnd : Type 0 where
  gives : Value → Script → ChunkEnd
  raises : Script → ChunkEnd

-- The chunks that the location has besides the main chunk, which of them can be loaded, and what they do.
pub record Chunks : Type 0 where
  pub has_init : Bool
  pub has_pre : Bool
  pub has_post : Bool
  pub load_ok : Chunk → Bool
  pub code : Chunk → Script → ChunkEnd

-- The request, `init` of the Lua state, and the chunks that are called, in their order.
pub record Run : Type 0 where
  pub script : Script
  pub init : Bool
  pub called : List Chunk

-- The end of a part of the run with its result, or the error that ends it.
pub data Ran : Type 0 where
  finished : ℤ → Run → Ran
  broken : Run → Ran

-- `result`
unfoldable pub result_of : Value → ℤ
unfolding int_of
result_of nil = pos 0
result_of (integer n) = int_of n
result_of other = negsuc 0

-- `result > 0 && chunk == LWS_LC_PRE`
abbrev pub completed : Chunk → ℤ → Script → Script
completed c n s = record s { complete = is_positive n && is_pre c || s.complete }

-- `check result`
unfoldable pub check_result : Chunk → Run → ChunkEnd → Ran
unfolding result_of
check_result c r (raises s) = broken (record r { script = s })
check_result c r (gives v s) =
    if is_negative (result_of v)
    then broken (record r { script = s })
    else finished (result_of v) (record r { script = completed c (result_of v) s })

module _ (k : Chunks) where
  unfoldable pub lws_call : Chunk → Run → Ran
  unfolding check_result
  lws_call c r =
      let s = record r.script { chunk = c } in
      if not (k.load_ok c)
      then broken (record r { script = s })
      else check_result c (record r { script = s; called = r.called ++ c ∷ [] }) (k.code c s)

  -- What follows a part without an error
  abbrev pub and_then : Ran → (ℤ → Run → Ran) → Ran
  and_then (finished n r) next = next n r
  and_then (broken r) next = broken r

  -- `init`
  unfoldable pub run_init : Run → Ran
  unfolding lws_call
  run_init r =
      if r.init
      then finished (pos 0) r
      else if k.has_init
      then and_then (lws_call lc_init r) (λ n q. finished (pos 0) (record q { init = true }))
      else finished (pos 0) (record r { init = true })

  -- `post chunk`, with the result of the run
  unfoldable pub run_post : ℤ → Run → Ran
  unfolding lws_call
  run_post n r =
      if k.has_post then and_then (lws_call lc_post r) (λ m q. finished n q) else finished n r

  -- `main chunk` and what follows
  unfoldable pub run_main : Run → Ran
  unfolding lws_call run_post
  run_main r = and_then (lws_call lc_main r) run_post

  -- `pre chunk` and what follows
  unfoldable pub run_pre : Run → Ran
  unfolding run_main run_post
  run_pre r =
      if k.has_pre
      then and_then (lws_call lc_pre r)
          (λ n q. if q.script.complete then run_post n q else run_main q)
      else run_main r

  unfoldable pub lws_run : Run → Ran
  unfolding run_init run_pre
  lws_run r = and_then (run_init r) (λ n q. run_pre q)
