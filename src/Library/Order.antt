-- ===== src/Library/Order.antt =====
-- The order of the chunks in `lws_run` of src/lws_lib.c, and when the main chunk is skipped.
use mathlib.Core.List.{append-nil}
use nginx_lws.Base.{
  ◌≡◌, refl, sym, ap, ◌∙◌, subst, if◌then◌else◌, if-all, if-both, if-test, Bool, true, false,
  Bool-cases, inl, inr, not, ◌||◌, ◌&&◌, List, [], ◌∷◌, ◌++◌, ℤ, pos, arith,
}
use nginx_lws.Response.Defs.{is_negative}
use nginx_lws.Library.Script.{Chunk, lc_init, lc_pre, Script, int_of}
use nginx_lws.Response.Finish.{is_positive}
use nginx_lws.Library.Run.{
  nil, integer, other, ChunkEnd, gives, raises, Chunks, Run, Ran, finished, broken, result_of,
  check_result, lws_call, and_then, run_init, run_post, run_main, run_pre, lws_run,
}
use nginx_lws.Library.Parts.{
  Keeps, and_then-Keeps, post_part, main_part, pre_part, init_part, order, lws_call-Keeps,
  run_post-Keeps, run_main-Keeps,
}

or_false : (b c : Bool) → (b && false || c) ≡ c
or_false b c = ground arith

or_true : (b c : Bool) → (b && true || c) ≡ (b || c)
or_true b c = ground arith

-- A part of the run that ends well ends with this script.
abbrev Leaves : Script → Ran → Type 0
Leaves s (finished n q) = q.script ≡ s
Leaves s (broken q) = Unit {0}

-- What a chunk has done to the request
abbrev script_of : ChunkEnd → Script
script_of (gives v s) = s
script_of (raises s) = s

-- The request with a chunk set
abbrev chunk_set : Chunk → Script → Script
chunk_set c s = record s { chunk = c }

-- The request at the pre chunk: as it was, or as the chunk for the initialization leaves it.
unfoldable pub at_pre : Chunks → Run → Script
at_pre k r =
    if r.init
    then r.script
    else if k.has_init
    then script_of (k.code lc_init (chunk_set lc_init r.script))
    else r.script

-- Whether a pre chunk completes the request: it has set that, or gives a positive `int`.
abbrev completes : ChunkEnd → Bool
completes (gives (integer n) s) = is_positive (int_of n) || s.complete
completes (gives nil s) = s.complete
completes (gives other s) = false
completes (raises s) = false

-- Whether the main chunk is skipped
unfoldable pub skips : Chunks → Run → Bool
unfolding at_pre int_of
skips k r = if k.has_pre then completes (k.code lc_pre (chunk_set lc_pre (at_pre k r))) else false

module _ (k : Chunks) where
  -- The chunks behind those in `cs`, without the main chunk where it is skipped
  abbrev tail_of : List Chunk → Bool → List Chunk
  tail_of cs skip = (cs ++ main_part skip) ++ post_part k

  after_pre : ℤ → Run → Ran
  after_pre n q = if q.script.complete then run_post k n q else run_main k q

  -- A pre chunk that ends well has completed the request or not.
  abbrev Decides : Bool → Ran → Type 0
  Decides skip (finished n q) = q.script.complete ≡ skip
  Decides skip (broken q) = Unit {0}

  check_result-Decides : (r : Run) (o : ChunkEnd) → Decides (completes o) (check_result lc_pre r o)
  unfolding check_result result_of
  check_result-Decides r (raises s) = tt
  check_result-Decides r (gives nil s) = refl
  check_result-Decides r (gives other s) = tt
  check_result-Decides r (gives (integer n) s) =
      if-all (Decides (is_positive (int_of n) || s.complete)) (is_negative (int_of n)) tt
        (or_true (is_positive (int_of n)) s.complete)

  lws_call-Decides :
      (r : Run)
      → Decides (completes (k.code lc_pre (chunk_set lc_pre r.script))) (lws_call k lc_pre r)
  unfolding lws_call
  lws_call-Decides r =
      let s = chunk_set lc_pre r.script in
      if-all (Decides (completes (k.code lc_pre s))) (not (k.load_ok lc_pre)) tt (
        check_result-Decides (record r { script = s; called = r.called ++ lc_pre ∷ [] })
          (k.code lc_pre s))

  after_pre-Keeps :
      (i skip : Bool) (cs : List Chunk) (x : Ran)
      → Keeps i cs x
      → Decides skip x
      → Keeps i (tail_of cs skip) (and_then k x after_pre)
  unfolding after_pre
  after_pre-Keeps i skip cs (broken q) h d = tt
  after_pre-Keeps i skip cs (finished n q) (a, b, c) d =
      subst (λ b. Keeps i (tail_of cs b) (after_pre n q)) d
        (if-test (λ b x. Keeps i (tail_of cs b) x) q.script.complete
          (subst (λ j. Keeps j ((cs ++ []) ++ post_part k) (run_post k n q)) c
            (subst (λ ds. Keeps q.init (ds ++ post_part k) (run_post k n q))
              (a ∙ sym (append-nil cs)) (run_post-Keeps k n q b)))
          (subst (λ j. Keeps j (tail_of cs false) (run_main k q)) c
            (subst (λ ds. Keeps q.init (tail_of ds false) (run_main k q)) a (run_main-Keeps k q))))

  -- Whether the main chunk is skipped, from the request at the pre chunk
  skips_at : Script → Bool
  skips_at s = if k.has_pre then completes (k.code lc_pre (chunk_set lc_pre s)) else false

  run_pre-Keeps :
      (r : Run) → Keeps r.init (tail_of (r.called ++ pre_part k) (skips_at r.script)) (run_pre k r)
  unfolding run_pre after_pre skips_at
  run_pre-Keeps r = elim (Bool-cases (k.has_pre)) [
    | inl e ↦
        rw (run_pre, e)
          (after_pre-Keeps r.init _ (r.called ++ lc_pre ∷ []) (lws_call k lc_pre r)
            (lws_call-Keeps k lc_pre r) (lws_call-Decides r))
    | inr e ↦ rw (run_pre, e, append-nil r.called) (run_main-Keeps k r)
  ]

  -- The initialization, where the state is not initialized
  first_init : Run → Ran
  first_init r =
      if k.has_init
      then and_then k (lws_call k lc_init r) (λ n q. finished (pos 0) (record q { init = true }))
      else finished (pos 0) (record r { init = true })

  init-Keeps :
      (r : Run) (init : Bool)
      → r.init ≡ init
      → Keeps true
          (r.called ++ init_part k init)
          (if init then finished (pos 0) r else first_init r)
  unfolding first_init lws_call
  init-Keeps r true e = (sym (append-nil r.called), refl, e)
  init-Keeps r false e = elim (Bool-cases (k.has_init)) [
    | inl h ↦
        rw (h, first_init)
          (and_then-Keeps k r.init true (r.called ++ lc_init ∷ []) (r.called ++ lc_init ∷ [])
            (lws_call k lc_init r) (λ n q. finished (pos 0) (record q { init = true }))
            (lws_call-Keeps k lc_init r) (λ n q a b c. (a, refl, refl)))
    | inr h ↦ rw (h, first_init) (sym (append-nil r.called), refl, refl)
  ]

  run_init-Keeps : (r : Run) → Keeps true (r.called ++ init_part k r.init) (run_init k r)
  unfolding run_init first_init
  run_init-Keeps r = init-Keeps r r.init refl

  init_call-Leaves : (r : Run) (o : ChunkEnd) → Leaves (script_of o) (check_result lc_init r o)
  unfolding check_result result_of
  init_call-Leaves r (raises s) = tt
  init_call-Leaves r (gives v s) =
      if-all (Leaves s) (is_negative (result_of v)) tt
        (ap (λ b. record s { complete = b }) (or_false (is_positive (result_of v)) s.complete))

  initialized-Leaves :
      (s : Script) (x : Ran)
      → Leaves s x
      → Leaves s (and_then k x (λ n q. finished (pos 0) (record q { init = true })))
  initialized-Leaves s (finished n q) h = h
  initialized-Leaves s (broken q) h = tt

  run_init-Leaves : (r : Run) → Leaves (at_pre k r) (run_init k r)
  unfolding run_init at_pre lws_call
  run_init-Leaves r =
      let s = chunk_set lc_init r.script in
      if-both Leaves r.init refl (
        if-both Leaves k.has_init
          (if-all
            (λ x.
              Leaves (script_of (k.code lc_init s))
                (and_then k x (λ n q. finished (pos 0) (record q { init = true }))))
            (not (k.load_ok lc_init)) tt
            (initialized-Leaves (script_of (k.code lc_init s)) _ (
              init_call-Leaves (record r { script = s; called = r.called ++ lc_init ∷ [] })
                (k.code lc_init s))))
          refl)

  then_pre-Keeps :
      (cs : List Chunk) (s : Script) (x : Ran)
      → Keeps true cs x
      → Leaves s x
      → Keeps true (tail_of (cs ++ pre_part k) (skips_at s)) (and_then k x (λ n q. run_pre k q))
  then_pre-Keeps cs s (broken q) h l = tt
  then_pre-Keeps cs s (finished n q) (a, b, c) l =
      subst (λ t. Keeps true (tail_of (cs ++ pre_part k) (skips_at t)) (run_pre k q)) l
        (subst (λ j. Keeps j (tail_of (cs ++ pre_part k) (skips_at q.script)) (run_pre k q)) c
          (subst (λ ds. Keeps q.init (tail_of (ds ++ pre_part k) (skips_at q.script)) (run_pre k q))
            a (run_pre-Keeps q)))

-- A run with no error, from a request that has called nothing, initializes the Lua state, and calls the
-- chunk for that where there is one and the state was not initialized, then the pre chunk, the main
-- chunk, and the post chunk, where the location has them. The main chunk is skipped exactly where the
-- pre chunk completes the request, by a call or by a result that is a positive `int`. The result is
-- not negative.
pub lws_run-order :
    (k : Chunks) (r : Run) → r.called ≡ [] → Keeps true (order k r.init (skips k r)) (lws_run k r)
unfolding lws_run skips skips_at
lws_run-order k r h =
    then_pre-Keeps k (init_part k r.init) (at_pre k r) (run_init k r)
      (subst (λ cs. Keeps true (cs ++ init_part k r.init) (run_init k r)) h (run_init-Keeps k r))
      (run_init-Leaves k r)
