-- ===== src/Library/Success.antt =====
-- The errors of `lws_run` of src/lws_lib.c: those of its chunks.
use nginx_lws.Base.{◌≡◌, Bool, true, false, not}
use nginx_lws.Response.Defs.{is_negative}
use nginx_lws.Library.Script.{Chunk, Script, int_of}
use nginx_lws.Library.Run.{
  nil, integer, other, ChunkEnd, gives, raises, Chunks, Run, Ran, finished, broken,
}

abbrev pub is_finished : Ran → Bool
is_finished (finished n q) = true
is_finished (broken q) = false

-- A chunk raises no error, and gives nothing or an integer that is not negative as an `int`.
unfoldable pub succeeds : ChunkEnd → Bool
unfolding int_of
succeeds (raises s) = false
succeeds (gives nil s) = true
succeeds (gives (integer n) s) = not (is_negative (int_of n))
succeeds (gives other s) = false

-- All chunks can be loaded, and succeed whatever the request is.
pub record AllSucceed (k : Chunks) : Type 0 where
  pub load_ok : (c : Chunk) → k.load_ok c ≡ true
  pub code : (c : Chunk) (s : Script) → succeeds (k.code c s) ≡ true

module _ (k : Chunks) (a : AllSucceed k) where
  abbrev Ends : Ran → Type 0
  Ends x = is_finished x ≡ true
