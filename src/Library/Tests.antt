-- ===== src/Library/Tests.antt =====
-- The theorems on src/lws_lib.c at concrete inputs.
use nginx_lws.Base.{ℕ, ◌≡◌, refl, true, false, none, some, List, [], ◌∷◌, pos, bytes_of}
use nginx_lws.Library.Args.{lws_parseargs}
use nginx_lws.Library.Fields.{by_fields, lws_parseargs-by_fields}
use nginx_lws.Library.Run.{Chunks, gives, integer, Run, lws_run}
use nginx_lws.Library.Parts.{Keeps, order}
use nginx_lws.Library.Order.{at_pre, skips, lws_run-order}
use nginx_lws.Library.Script.{
  int_of, Script, lc_main, Flushing, wrote, interrupted, lws_file_flush_hook,
}
use nginx_lws.Library.Flush.{Flushes, lws_file_flush_hook-Flushes}
use nginx_lws.Library.Sealed.{call_status, call_redirect, call_flush, calls, IsFixed, calls-IsFixed}
use nginx_lws.Table.Ops.{Alloc}
use nginx_lws.Table.Ascii.{ascii}
use nginx_lws.Table.Small.{smallest, smallest-IsValid, smallest-IsPrime, smallest-NextIsPrime}
use nginx_lws.Library.Unescape.{lws_unescape_url}
use nginx_lws.Library.Decode.{decode, lws_unescape_url-decode}
use nginx_lws.Library.Headers.{
  Outcome, Answer, lws_lua_table_newindex, lws_lua_table_newindex-Answer,
}

-- "a+%41%4"
abbrev escaped : List ℕ
escaped = 97 ∷ 43 ∷ 37 ∷ 52 ∷ 49 ∷ 37 ∷ 52 ∷ []

lws_unescape_url-decode_example : lws_unescape_url escaped ≡ some (decode escaped)
lws_unescape_url-decode_example = lws_unescape_url-decode escaped

abbrev plenty : Alloc
plenty = record { array = true; key = true }

lws_lua_table_newindex-Answer_example :
    (o : Outcome) × (lws_lua_table_newindex ascii 0 5 plenty
        (some 9)
        false
        smallest
        (88 ∷ [])
        (49 ∷ [])
      ≡ some o)
    × Answer ascii 0 (88 ∷ []) (49 ∷ []) o
lws_lua_table_newindex-Answer_example =
    lws_lua_table_newindex-Answer ascii 0 5 plenty smallest-IsValid smallest-IsPrime
      smallest-NextIsPrime (88 ∷ []) (49 ∷ []) (some 9) false

-- A main chunk that has written two bytes, with a pipe
abbrev script : Script
script = record {
  chunk = lc_main;
  complete = false;
  sealed = false;
  readonly = false;
  status = pos 200;
  redirect = [];
  redirect_args = [];
  close = false;
  body = 72 ∷ 105 ∷ [];
  pipe = some [];
}

abbrev flushing : Flushing
flushing = record {
  size_ok = true;
  small = true;
  flush_ok = true;
  writes = wrote 1 ∷ interrupted ∷ wrote 5 ∷ [];
}

lws_file_flush_hook-Flushes_example :
    Flushes (72 ∷ 105 ∷ []) [] (lws_file_flush_hook flushing script)
lws_file_flush_hook-Flushes_example = lws_file_flush_hook-Flushes flushing [] script refl

abbrev sealed_script : Script
sealed_script = record script { sealed = true; readonly = true }

calls-IsFixed_example :
    IsFixed sealed_script (record sealed_script { body = []; pipe = some (72 ∷ 105 ∷ []) })
unfolding calls
calls-IsFixed_example =
    calls-IsFixed
      (call_status (pos 404) ∷ call_redirect true true (47 ∷ []) none ∷ call_flush flushing ∷ [])
      sealed_script _ refl refl

-- "a=1&&b&=2"
lws_parseargs-by_fields_example :
    lws_parseargs (bytes_of "a=1&&b&=2") (pos 4) ≡ some (by_fields (bytes_of "a=1&&b&=2") (pos 4))
lws_parseargs-by_fields_example = lws_parseargs-by_fields (bytes_of "a=1&&b&=2") (pos 4)

-- Chunks of all kinds, of which the pre chunk completes the request.
abbrev chunks : Chunks
chunks = record {
  has_init = true;
  has_pre = true;
  has_post = true;
  load_ok = λ c. true;
  code = λ c s. gives (integer (pos 1)) s;
}

abbrev run : Run
run = record { script = script; init = false; called = [] }

lws_run-order_example : Keeps true (order chunks false (skips chunks run)) (lws_run chunks run)
lws_run-order_example = lws_run-order chunks run refl

-- The pre chunk skips the main chunk with the result 1, but not with 2 ^ 32, which is 0 as an `int`.
skips-completed : skips chunks run ≡ true
unfolding skips at_pre int_of
skips-completed = refl

skips-wrapped :
    skips (record chunks { code = λ c s. gives (integer (pos 4294967296)) s }) run ≡ false
unfolding skips at_pre int_of
skips-wrapped = refl
