-- ===== src/Library/Flush.antt =====
-- The flush of the response body of src/lws_lib.c: the bytes in the pipe.
use mathlib.Core.List.{append-nil, append_assoc}
use nginx_lws.Base.{
  ℕ, zero, suc, ◌≡◌, refl, sym, ap, ◌∙◌, subst, ◌==◌, if-all, if-split, true, not, Option, none,
  some, List, [], ◌∷◌, ◌++◌, take, drop, Bytes, arith,
}
use nginx_lws.Library.Script.{
  Script, Return, returned, raised, Write, wrote, interrupted, write_failed, Flushed, all_written,
  not_all_written, still_writing, write_loop, after_writes, has_body, Flushing, flush_pipe,
  flush_to, lws_file_flush_hook,
}

take-drop : (n : ℕ) (cs : Bytes) → take n cs ++ drop n cs ≡ cs
take-drop zero cs = refl
take-drop (suc n) [] = refl
take-drop (suc n) (c ∷ cs) = ap (λ t. c ∷ t) (take-drop n cs)

-- Behind what it had, the pipe has got all bytes, or a part of them from the start.
Writes : Bytes → Bytes → Flushed → Type 0
Writes cs pipe (all_written q) = q ≡ pipe ++ cs
Writes cs pipe (not_all_written q) =
    (sent : Bytes) × (left : Bytes) × (q ≡ pipe ++ sent) × (cs ≡ sent ++ left)
Writes cs pipe (still_writing q) =
    (sent : Bytes) × (left : Bytes) × (q ≡ pipe ++ sent) × (cs ≡ sent ++ left)

-- The writes behind a first one of `a`
Writes-behind :
    (a ds pipe : Bytes) (f : Flushed) → Writes ds (pipe ++ a) f → Writes (a ++ ds) pipe f
unfolding Writes
Writes-behind a ds pipe (all_written t) w = w ∙ append_assoc pipe a ds
Writes-behind a ds pipe (not_all_written t) w = (
  a ++ w.0,
  w.1,
  w.2 ∙ append_assoc pipe a w.0,
  ap (λ t. a ++ t) w.3 ∙ sym (append_assoc a w.0 w.1),
)
Writes-behind a ds pipe (still_writing t) w = (
  a ++ w.0,
  w.1,
  w.2 ∙ append_assoc pipe a w.0,
  ap (λ t. a ++ t) w.3 ∙ sym (append_assoc a w.0 w.1),
)

write_loop-Writes : (ws : List Write) (cs pipe : Bytes) → Writes cs pipe (write_loop ws cs pipe)
unfolding write_loop Writes
write_loop-Writes [] [] pipe = sym (append-nil pipe)
write_loop-Writes (w ∷ ws) [] pipe = sym (append-nil pipe)
write_loop-Writes [] (c ∷ cs) pipe = ([], c ∷ cs, sym (append-nil pipe), refl)
write_loop-Writes (write_failed ∷ ws) (c ∷ cs) pipe = ([], c ∷ cs, sym (append-nil pipe), refl)
write_loop-Writes (interrupted ∷ ws) (c ∷ cs) pipe = write_loop-Writes ws (c ∷ cs) pipe
write_loop-Writes (wrote n ∷ ws) (c ∷ cs) pipe =
    if-all (Writes (c ∷ cs) pipe) (n == 0) ([], c ∷ cs, sym (append-nil pipe), refl)
      (subst (λ t. Writes t pipe (write_loop ws (drop n (c ∷ cs)) (pipe ++ take n (c ∷ cs))))
        (take-drop n (c ∷ cs))
        (Writes-behind (take n (c ∷ cs)) (drop n (c ∷ cs)) pipe _ (write_loop-Writes ws _ _)))

-- What a flush does: behind what it had, the pipe has got the whole body, which is empty now, and the
-- header is sealed; or it has got a part of the body from the start, and the body is as it was.
abbrev pub Flushes : Bytes → Bytes → Option Return → Type 0
Flushes body pipe none = Unit {0}
Flushes body pipe (some (returned q)) =
    (q.pipe ≡ some (pipe ++ body)) × (q.body ≡ []) × (q.sealed ≡ true) × (q.readonly ≡ true)
Flushes body pipe (some (raised f q)) =
    (sent : Bytes) × (left : Bytes) × (q.pipe ≡ some (pipe ++ sent))
    × (body ≡ sent ++ left)
    × (q.body ≡ body)

after_writes-Flushes :
    (body pipe : Bytes) (s : Script) (f : Flushed)
    → s.sealed ≡ true
    → s.readonly ≡ true
    → s.body ≡ body
    → Writes body pipe f
    → Flushes body pipe (after_writes s f)
unfolding Writes
after_writes-Flushes body pipe s (all_written t) a b c w = (ap some w, refl, a, b)
after_writes-Flushes body pipe s (not_all_written t) a b c w = (w.0, w.1, ap some w.2, w.3, c)
after_writes-Flushes body pipe s (still_writing t) a b c w = tt

no_body : (body : Bytes) → not (has_body body) ≡ true → body ≡ []
no_body [] h = refl
no_body (c ∷ cs) h = absurd (ground arith)

nothing_sent :
    (body pipe : Bytes) (o : Option Bytes)
    → o ≡ some pipe
    → (sent : Bytes) × (left : Bytes) × (o ≡ some (pipe ++ sent))
      × (body ≡ sent ++ left)
      × (body ≡ body)
nothing_sent body pipe o h = ([], body, h ∙ ap some (sym (append-nil pipe)), refl, refl)

flush_pipe-Flushes :
    (e : Flushing) (pipe : Bytes) (s : Script)
    → s.pipe ≡ some pipe
    → Flushes s.body pipe (flush_pipe e pipe s)
unfolding flush_pipe
flush_pipe-Flushes e pipe s h =
    let P = Flushes s.body pipe in
    let unsent = nothing_sent s.body pipe s.pipe h in
    if-all P (not e.size_ok) unsent (
      if-all P (not e.small) unsent (
        if-split P (not (has_body s.body))
          (λ k.
            let b = no_body s.body k in
            (h ∙ ap some (sym (ap (λ t. pipe ++ t) b ∙ append-nil pipe)), b, refl, refl))
          (λ _. if-all P (not e.flush_ok) unsent (
            after_writes-Flushes s.body pipe (record s { sealed = true; readonly = true }) _ refl
              refl refl (write_loop-Writes e.writes s.body pipe)))))

-- A flush of a response with a pipe, whatever the writes give: where it returns, the pipe has got the
-- whole body behind what it had, the body is empty and the header is sealed; where it raises an
-- error, the pipe has got a part of the body from its start behind what it had, and the body is kept.
pub lws_file_flush_hook-Flushes :
    (e : Flushing) (pipe : Bytes) (s : Script)
    → s.pipe ≡ some pipe
    → Flushes s.body pipe (lws_file_flush_hook e s)
unfolding lws_file_flush_hook flush_to
lws_file_flush_hook-Flushes e pipe s h =
    if-all (Flushes s.body pipe) (has_body s.redirect) (nothing_sent s.body pipe s.pipe h)
      (subst (λ o. Flushes s.body pipe (flush_to e o s)) (sym h) (flush_pipe-Flushes e pipe s h))
