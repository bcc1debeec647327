-- ===== src/Library/Parts.antt =====
-- The parts of `lws_run` of src/lws_lib.c, with the chunks that they call.
use mathlib.Core.List.{append-nil}
use nginx_lws.Base.{
  ◌≡◌, refl, sym, subst, if◌then◌else◌, if-all, if-split, Bool, false, Bool-cases, inl, inr, not,
  List, [], ◌∷◌, ◌++◌, ℤ,
}
use nginx_lws.Response.Defs.{is_negative}
use nginx_lws.Library.Script.{Chunk, lc_init, lc_pre, lc_main, lc_post}
use nginx_lws.Library.Run.{
  ChunkEnd, gives, raises, Chunks, Run, Ran, finished, broken, result_of, check_result, lws_call,
  and_then, run_post, run_main,
}

-- A run that ends well has called these chunks, with a result that is not negative, and the Lua state
-- is initialized or not.
abbrev pub Keeps : Bool → List Chunk → Ran → Type 0
Keeps init cs (finished n q) = (q.called ≡ cs) × (is_negative n ≡ false) × (q.init ≡ init)
Keeps init cs (broken q) = Unit {0}

pub check_result-Keeps :
    (c : Chunk) (r : Run) (o : ChunkEnd) → Keeps r.init r.called (check_result c r o)
unfolding check_result
check_result-Keeps c r (raises s) = tt
check_result-Keeps c r (gives v s) =
    if-split (Keeps r.init r.called) (is_negative (result_of v)) (λ _. tt) (λ h. (refl, h, refl))

-- A part of the run, and what follows it
pub and_then-Keeps :
    (k : Chunks) (i i' : Bool) (cs ds : List Chunk) (x : Ran) (next : ℤ → Run → Ran)
    → Keeps i cs x
    → ((n : ℤ) (q : Run)
        → q.called ≡ cs
        → is_negative n ≡ false
        → q.init ≡ i
        → Keeps i' ds (next n q))
    → Keeps i' ds (and_then k x next)
and_then-Keeps k i i' cs ds (finished n q) next (a, b, c) h = h n q a b c
and_then-Keeps k i i' cs ds (broken q) next a h = tt

-- The chunks behind the pre chunk
abbrev pub post_part : Chunks → List Chunk
post_part k = if k.has_post then lc_post ∷ [] else []

abbrev pub main_part : Bool → List Chunk
main_part skip = if skip then [] else lc_main ∷ []

abbrev pub pre_part : Chunks → List Chunk
pre_part k = if k.has_pre then lc_pre ∷ [] else []

abbrev pub init_part : Chunks → Bool → List Chunk
init_part k init = if init then [] else if k.has_init then lc_init ∷ [] else []

-- The order of all chunks
abbrev pub order : Chunks → Bool → Bool → List Chunk
order k init skip = ((init_part k init ++ pre_part k) ++ main_part skip) ++ post_part k

module _ (k : Chunks) where
  pub lws_call-Keeps : (c : Chunk) (r : Run) → Keeps r.init (r.called ++ c ∷ []) (lws_call k c r)
  unfolding lws_call
  lws_call-Keeps c r =
      let s = record r.script { chunk = c } in
      let q = record r { script = s; called = r.called ++ c ∷ [] } in
      if-all (Keeps r.init (r.called ++ c ∷ [])) (not (k.load_ok c)) tt
        (check_result-Keeps c q (k.code c s))

  pub run_post-Keeps :
      (n : ℤ) (r : Run)
      → is_negative n ≡ false
      → Keeps r.init (r.called ++ post_part k) (run_post k n r)
  unfolding run_post
  run_post-Keeps n r h = elim (Bool-cases (k.has_post)) [
    | inl e ↦
        rw (run_post, e)
          (and_then-Keeps k r.init r.init (r.called ++ lc_post ∷ []) (r.called ++ lc_post ∷ [])
            (lws_call k lc_post r) (λ m q. finished n q) (lws_call-Keeps lc_post r)
            (λ m q a b c. (a, h, c)))
    | inr e ↦ rw (run_post, e) (sym (append-nil r.called), h, refl)
  ]

  pub run_main-Keeps :
      (r : Run) → Keeps r.init ((r.called ++ lc_main ∷ []) ++ post_part k) (run_main k r)
  unfolding run_main
  run_main-Keeps r =
      and_then-Keeps k r.init r.init (r.called ++ lc_main ∷ []) _ (lws_call k lc_main r)
        (run_post k) (lws_call-Keeps lc_main r)
        (λ n q a b c.
          subst (λ i. Keeps i ((r.called ++ lc_main ∷ []) ++ post_part k) (run_post k n q)) c
            (subst (λ cs. Keeps q.init (cs ++ post_part k) (run_post k n q)) a
              (run_post-Keeps n q b)))
