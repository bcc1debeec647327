-- ===== src/Response/Answer.antt =====
-- The answer where no streaming took place, at the end of `lws_finalization_handler` of
-- src/lws_module.c.
use mathlib.Core.List.{append-nil}
use nginx_lws.Base.{
  ℕ, ◌≤◌, ◌<◌, ◌≡◌, refl, ap, ap₂, ◌∙◌, ◌==◌, ltb, leb, if-all, if-split, true, false, ◌&&◌, ◌||◌,
  not, ◌⊎◌, inl, inr, Option, some, [], ◌∷◌, ◌++◌, length, ℤ, pos, negsuc, Bytes, arith,
}
use nginx_lws.Response.Defs.{
  ngx_http_ok, ngx_http_no_content, ngx_http_not_modified, is_negative, is_final, Request,
  send_header, send_bytes, finalize, is_bodiless,
}
use nginx_lws.Response.Headers.{Pushed, pushed, push_failed}
use nginx_lws.Response.Framing.{request_of, lws_set_response_header-Extends}
use nginx_lws.Response.Errors.{has_bytes, lws_send_error_response}
use nginx_lws.Response.Announced.{
  IsExact, Announced, FinalizedOnce, lws_send_error_response-Announced,
}
use nginx_lws.Response.Stream.{Stream}
use nginx_lws.Response.Finish.{
  Site, Result, Ending, error_code, is_positive, redirect_to, announce_body, send_response,
  after_set, answer,
}

-- A request is finalized once, and what is written has the announced length.
abbrev pub Answered : Request → Option Request → Type 0
Answered r o = (q : Request) × (o ≡ some q) × Announced r q × FinalizedOnce r q

Answered-from :
    (r q : Request) {o : Option Request}
    → q.output ≡ r.output
    → q.finalized ≡ r.finalized
    → Answered q o
    → Answered r o
Answered-from r q a b (z, e, s, f) = (
  z,
  e,
  (elim s [ inl h ↦ inl (h ∙ a) | inr (body, h, k) ↦ inr (body, h ∙ ap (λ t. t ++ body) a, k) ]),
  (f.0, f.1 ∙ ap (λ l. f.0 ∷ l) b),
)

error_code_between : (rc : ℤ) → (100 ≤ error_code rc) × (error_code rc < 1000)
error_code_between (pos n) =
    if-split (λ c. (100 ≤ c) × (c < 1000)) (leb 100 n && ltb n 600)
      (λ h. (ground arith, ground arith)) (λ h. (omega arith, omega arith))
error_code_between (negsuc n) = (omega arith, omega arith)

redirect_to-Answered :
    (e : Ending) (b args : Bytes) (r : Request)
    → has_bytes b ≡ true
    → Answered r (some (redirect_to e b args r))
redirect_to-Answered e [] args r h = absurd (ground arith)
redirect_to-Answered e (c ∷ cs) args r h =
    if-all (λ q. Answered r (some q)) (not (c == b'@')) (_, refl, inl refl, (e.internal_rc, refl))
      (_, refl, inl refl, (e.named_rc, refl))

-- What the announcement leaves as it is, and that a body is only sent with its length.
Announces : Bytes → Request → Request → Type 0
Announces body r q =
    (q.output ≡ r.output)
    × (q.finalized ≡ r.finalized)
    × ((q.header_only ≡ true) ⊎ (body ≡ []) ⊎ (q.content_length ≡ some (length body)))

announce_body-Announces : (body : Bytes) (r : Request) → Announces body r (announce_body body r)
unfolding announce_body Announces
announce_body-Announces [] r =
    if-all (Announces [] r)
      (r.main
        && (not r.head
            && not (r.status == ngx_http_no_content)
            && not (r.status == ngx_http_not_modified)
            && leb ngx_http_ok r.status))
      (refl, refl, inr (inl refl)) (refl, refl, inr (inl refl))
announce_body-Announces (c ∷ cs) r =
    if-all (Announces (c ∷ cs) r) (is_bodiless r r.status) (refl, refl, inl refl)
      (refl, refl, inr (inr refl))

send_body-Answered :
    (e : Ending) (body : Bytes) (r q : Request)
    → Announces body r q
    → q.header_only ≡ false
    → Answered r (some (finalize e.filter_rc (send_bytes body (send_header e.sending q))))
unfolding Announces
send_body-Answered e body r q (o, f, a) h = (
  _,
  refl,
  (elim a [
    | inl k ↦ absurd (ground (arith, h, k))
    | inr (inl k) ↦ inl (ap₂ ◌++◌ o k ∙ append-nil r.output)
    | inr (inr k) ↦ inr (body, ap (λ t. t ++ body) o, k)
  ]),
  (e.filter_rc, ap (λ l. e.filter_rc ∷ l) f),
)

send_response-Answered :
    (e : Ending) (body : Bytes) (r : Request) → Answered r (some (send_response e body r))
unfolding send_response Announces
send_response-Answered e body r =
    let q = announce_body body r in
    let a = announce_body-Announces body r in
    let stop : Answered r (some (finalize e.sending.rc (send_header e.sending q))) =
      (_, refl, inl a.0, (e.sending.rc, ap (λ l. e.sending.rc ∷ l) a.1)) in
    if-split (λ z. Answered r (some z)) (is_final e.sending.rc || (e.sending.only || q.header_only))
      (λ _. stop)
      (λ k.
        if-all (λ z. Answered r (some z)) (not e.buffer_ok) stop
          (send_body-Answered e body r q a (ground (arith, k))))

module _ (n : Site) (exact : IsExact n.formats) where
  error-Answered :
      (e : Ending) (dia : Bytes) (rc : ℕ) (r : Request)
      → 100 ≤ rc
      → rc < 1000
      → Answered r (lws_send_error_response n.formats n.version e.error n.error_response dia rc r)
  error-Answered e dia rc r l h =
      lws_send_error_response-Announced n.formats n.version e.error dia rc r exact n.error_response
        l h

  after_set-Answered :
      (e : Ending) (x : Result) (s : Stream) (p : Pushed)
      → Answered (request_of p) (after_set n e x s p)
  unfolding after_set
  after_set-Answered e x s (push_failed q) = (_, refl, inl refl, (pos 500, refl))
  after_set-Answered e x s (pushed q room) =
      let c = error_code_between x.rc in
      if-all (Answered q) (is_positive x.rc)
        (error-Answered e x.diagnostic (error_code x.rc) q c.0 c.1)
        (if-all (Answered q) (not e.flush_ok) (_, refl, inl refl, (pos 500, refl))
          (send_response-Answered e x.body (record q { status = s.ctx_status })))

  -- Where the escapes write as many bytes as they count, the answer to a request that was not streamed
  -- ends, finalizes the request once, and its output is empty or has the number of bytes that the
  -- header announces.
  pub answer-Answered : (e : Ending) (x : Result) (s : Stream) → Answered s.request (answer n e x s)
  unfolding answer
  answer-Answered e x s =
      let h =
        lws_set_response_header-Extends n.starts_with n.ngx_parse_http_time s.fields s.request
          e.room in
      if-all (Answered s.request) (is_negative x.rc)
        (error-Answered e x.diagnostic 500 s.request (omega arith) (omega arith))
        (if-split (Answered s.request) (has_bytes x.redirect)
          (λ b. redirect_to-Answered e x.redirect x.redirect_args s.request b)
          (λ _. rw (h.1) (
            Answered-from s.request (request_of (h.0)) h.2.output h.2.finalized
              (after_set-Answered e x s (h.0)))))
