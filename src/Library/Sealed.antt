-- ===== src/Library/Sealed.antt =====
-- The header of a response in src/lws_lib.c after a flush.

use nginx_lws.Base.{
  ◌≡◌, refl, sym, ◌∙◌, subst, if-all, if-split, Bool, true, Option-cases, some_injective, inl, inr,
  not, Option, none, some, List, [], ◌∷◌, ℤ, Bytes, arith,
}
use nginx_lws.Library.Script.{
  Script, Return, returned, raised, set_status, lws_redirect, lws_setcomplete, lws_setclose,
  may_redirect, is_pre, Flushed, all_written, not_all_written, still_writing, write_loop,
  after_writes, has_body, Flushing, flush_pipe, flush_to, lws_file_flush_hook,
}

-- The calls of a script
pub data Call : Type 0 where
  call_status : ℤ → Call
  call_redirect : Bool → Bool → Bytes → Option Bytes → Call
  call_setcomplete : Call
  call_setclose : Call
  call_flush : Flushing → Call

unfoldable pub call : Call → Script → Option Return
unfolding set_status lws_redirect lws_setcomplete lws_setclose lws_file_flush_hook
call (call_status status) s = some (set_status status s)
call (call_redirect a b redirect args) s = some (lws_redirect a b redirect args s)
call call_setcomplete s = some (lws_setcomplete s)
call call_setclose s = some (lws_setclose s)
call (call_flush e) s = lws_file_flush_hook e s

abbrev pub script_of : Return → Script
script_of (returned s) = s
script_of (raised f s) = s

-- What is sent of the response stays as it is.
pub record IsFixed (s q : Script) : Type 0 where
  pub sealed : q.sealed ≡ true
  pub status : q.status ≡ s.status
  pub redirect : q.redirect ≡ s.redirect
  pub redirect_args : q.redirect_args ≡ s.redirect_args

abbrev pub Fixes : Script → Option Return → Type 0
Fixes s none = Unit {0}
Fixes s (some r) = IsFixed s (script_of r)

IsFixed-self : (s : Script) → s.sealed ≡ true → IsFixed s s
IsFixed-self s h = record { sealed = h; status = refl; redirect = refl; redirect_args = refl }

-- The writes of a flush, behind the sealing
Fixes-after_writes :
    (s : Script) (f : Flushed)
    → Fixes s (after_writes (record s { sealed = true; readonly = true }) f)
Fixes-after_writes s (all_written t) = record {
  sealed = refl;
  status = refl;
  redirect = refl;
  redirect_args = refl;
}
Fixes-after_writes s (not_all_written t) = record {
  sealed = refl;
  status = refl;
  redirect = refl;
  redirect_args = refl;
}
Fixes-after_writes s (still_writing t) = tt

flush_pipe-Fixes :
    (e : Flushing) (pipe : Bytes) (s : Script) → s.sealed ≡ true → Fixes s (flush_pipe e pipe s)
unfolding flush_pipe
flush_pipe-Fixes e pipe s h =
    let q = record s { sealed = true; readonly = true } in
    let i : IsFixed s q = record {
      sealed = refl;
      status = refl;
      redirect = refl;
      redirect_args = refl;
    } in
    if-all (Fixes s) (not e.size_ok) (IsFixed-self s h) (
      if-all (Fixes s) (not e.small) (IsFixed-self s h) (
        if-all (Fixes s) (not (has_body s.body)) i (
          if-all (Fixes s) (not e.flush_ok) i
            (Fixes-after_writes s (write_loop e.writes s.body pipe)))))

flush_to-Fixes :
    (e : Flushing) (pipe : Option Bytes) (s : Script)
    → s.sealed ≡ true
    → Fixes s (flush_to e pipe s)
unfolding flush_to
flush_to-Fixes e none s h = IsFixed-self s h
flush_to-Fixes e (some pipe) s h = flush_pipe-Fixes e pipe s h

call-Fixes : (c : Call) (s : Script) → s.sealed ≡ true → Fixes s (call c s)
unfolding call set_status lws_redirect lws_setcomplete lws_setclose lws_file_flush_hook
call-Fixes (call_status status) s h =
    if-split (λ r. Fixes s (some r)) s.sealed (λ _. IsFixed-self s h)
      (λ k. absurd (ground (arith, h, k)))
call-Fixes (call_redirect a b redirect args) s h =
    if-all (λ r. Fixes s (some r)) (not (may_redirect s.chunk)) (IsFixed-self s h)
      (if-split (λ r. Fixes s (some r)) s.sealed (λ _. IsFixed-self s h)
        (λ k. absurd (ground (arith, h, k))))
call-Fixes call_setcomplete s h =
    if-all (λ r. Fixes s (some r)) (not (is_pre s.chunk)) (IsFixed-self s h)
      (record { sealed = h; status = refl; redirect = refl; redirect_args = refl })
call-Fixes call_setclose s h = record {
  sealed = h;
  status = refl;
  redirect = refl;
  redirect_args = refl;
}
call-Fixes (call_flush e) s h =
    if-all (Fixes s) (has_body s.redirect) (IsFixed-self s h) (flush_to-Fixes e s.pipe s h)

-- The calls in their order, with errors caught by the script; none is a flush that still writes.
unfoldable pub calls : List Call → Script → Option Script
unfolding call
calls [] s = some s
calls (c ∷ cs) s = elim (call c s) [ none ↦ none | some r ↦ calls cs (script_of r) ]

calls_step :
    (c : Call) (cs : List Call) (s : Script) (r : Return)
    → call c s ≡ some r
    → calls (c ∷ cs) s ≡ calls cs (script_of r)
unfolding calls
calls_step c cs s r k = rw (calls, k) refl

IsFixed-trans : {s q t : Script} → IsFixed s q → IsFixed q t → IsFixed s t
IsFixed-trans a b = record {
  sealed = b.sealed;
  status = b.status ∙ a.status;
  redirect = b.redirect ∙ a.redirect;
  redirect_args = b.redirect_args ∙ a.redirect_args;
}

-- After a sealing flush no call of the script, with errors caught or not, changes the status or the
-- redirect of the response.
pub calls-IsFixed :
    (cs : List Call) (s q : Script) → s.sealed ≡ true → calls cs s ≡ some q → IsFixed s q
unfolding calls
calls-IsFixed [] s q h e = subst (IsFixed s) (some_injective e) (IsFixed-self s h)
calls-IsFixed (c ∷ cs) s q h e = elim (Option-cases (call c s)) [
  | inl k ↦ absurd (ground (arith, e, k))
  | inr (r, k) ↦
      let f : IsFixed s (script_of r) = subst (Fixes s) k (call-Fixes c s h) in
      IsFixed-trans f (calls-IsFixed cs (script_of r) q f.sealed (sym (calls_step c cs s r k) ∙ e))
]
