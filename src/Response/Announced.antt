-- ===== src/Response/Announced.antt =====
-- The error responses of src/lws_module.c: the length in the header, and the calls of
-- `ngx_http_finalize_request`.
use nginx_lws.Base.{
  ℕ, ◌+◌, ◌≤◌, ◌<◌, ◌≡◌, refl, sym, ap, if-all, Bool, true, ◌||◌, ◌&&◌, not, ◌⊎◌, inl, inr, Option,
  none, some, [], ◌∷◌, ◌++◌, length, length-append, ℤ, pos, Bytes, bytes_of, arith,
}
use nginx_lws.Http.Status.{HttpStatus, lws_http_status}
use nginx_lws.Http.Lookup.{first_with, lws_find_http_status-first_with}
use nginx_lws.Response.Defs.{is_final, Request, is_bodiless}
use nginx_lws.Response.Errors.{
  Formats, Environment, ErrorResponse, er_json, er_html, has_bytes, message_text, message_len,
  diagnostic_text, diagnostic_len, json_len, json_body, error_header, send_error,
  lws_send_json_error_response, lws_send_html_error_response, page_start, page_end,
  send_error_response, lws_send_error_response,
}

-- The escapes write as many bytes as they count, and `%ui` writes three digits for such numbers.
pub record IsExact (f : Formats) : Type 0 where
  pub json : (d : Bytes) → length (f.escape_json d) ≡ length d + f.escape_json_n d
  pub html : (d : Bytes) → length (f.escape_html d) ≡ length d + f.escape_html_n d
  pub digits : (n : ℕ) → 100 ≤ n → n < 1000 → length (f.decimal n) ≡ 3

-- Nothing is written, or the announced number of bytes.
abbrev pub Announced : Request → Request → Type 0
Announced r q =
    (q.output ≡ r.output)
    ⊎ ((body : Bytes) × (q.output ≡ r.output ++ body) × (q.content_length ≡ some (length body)))

-- One call of `ngx_http_finalize_request`
abbrev pub FinalizedOnce : Request → Request → Type 0
FinalizedOnce r q = (rc : ℤ) × (q.finalized ≡ rc ∷ r.finalized)

module _ (f : Formats) where
  length-message_text : (s : Option HttpStatus) → length (message_text s) ≡ message_len s
  length-message_text none = refl
  length-message_text (some s) = omega (arith, length-append (bytes_of s.message) (bytes_of "\""))

  length-diagnostic_text :
      (x : IsExact f) (d : Bytes) → length (diagnostic_text f d) ≡ diagnostic_len f d
  length-diagnostic_text x [] = refl
  length-diagnostic_text x (c ∷ d) =
      omega (arith, length-append (f.escape_json (c ∷ d)) (bytes_of "\""), x.json (c ∷ d))

  length-json_body :
      (x : IsExact f) (rc : ℕ) (s : Option HttpStatus) (d : Bytes)
      → length (f.decimal rc) ≡ 3
      → length (json_body f rc s d) ≡ json_len f s d
  unfolding json_body json_len
  length-json_body x rc s d h = omega (
    arith,
    h,
    length-message_text s,
    length-diagnostic_text x d,
    length-append (f.decimal rc ++ message_text s ++ diagnostic_text f d) (bytes_of "\n\t}\n}"),
    length-append (f.decimal rc ++ message_text s) (diagnostic_text f d),
    length-append (f.decimal rc) (message_text s),
  )

  length-html_body :
      (x : IsExact f) (a b d : Bytes)
      → length (a ++ f.escape_html d ++ b) ≡ length a + (length d + f.escape_html_n d) + length b
  length-html_body x a b d =
      omega
        (arith, x.html d, length-append (a ++ f.escape_html d) b, length-append a (f.escape_html d))

module _ (e : Environment) where
  send_error-Announced :
      (ready : Bool) (body : Bytes) (r q : Request)
      → q.output ≡ r.output
      → q.content_length ≡ some (length body)
      → Announced r (send_error e ready body q)
  unfolding send_error
  send_error-Announced ready body r q o h =
      if-all (Announced r) (is_final e.sending.rc || (e.sending.only || q.header_only)) (inl o)
        (if-all (Announced r) (not ready) (inl o) (inr (body, ap (λ t. t ++ body) o, h)))

  send_error-FinalizedOnce :
      (ready : Bool) (body : Bytes) (q : Request) → FinalizedOnce q (send_error e ready body q)
  unfolding send_error
  send_error-FinalizedOnce ready body q =
      if-all (FinalizedOnce q) (is_final e.sending.rc || (e.sending.only || q.header_only))
        (e.sending.rc, refl)
        (if-all (FinalizedOnce q) (not ready) (e.sending.rc, refl) (e.filter_rc, refl))

module _ (f : Formats) (version : Bytes) (e : Environment) (dia : Bytes) (rc : ℕ)
    (r : Request) where
  send_error_response-Announced :
      (x : IsExact f) (kind : ErrorResponse) (s : Option HttpStatus)
      → length (f.decimal rc) ≡ 3
      → Announced r (send_error_response f version e kind s dia rc r)
  unfolding send_error_response lws_send_json_error_response lws_send_html_error_response
      error_header
  send_error_response-Announced x er_json s h =
      if-all (Announced r) (has_bytes dia && not e.diagnostic_ok) (inl refl) (
        if-all (Announced r) (not e.buffer_ok) (inl refl) (
          if-all (Announced r) (not e.body_ok) (inl refl) (
            if-all (Announced r) (not e.push_ok) (inl refl) (
              send_error-Announced e true (json_body f rc s dia) r _ refl
                (ap some (sym (length-json_body f x rc s dia h)))))))
  send_error_response-Announced x er_html s h =
      if-all (Announced r) (not (has_bytes dia)) (inl refl) (
        if-all (Announced r) (not e.diagnostic_ok) (inl refl) (
          if-all (Announced r) (not e.push_ok) (inl refl) (
            send_error-Announced e e.buffer_ok (page_start version ++ f.escape_html dia ++ page_end)
              r _ refl (ap some (sym (length-html_body f x (page_start version) page_end dia))))))

  send_error_response-FinalizedOnce :
      (kind : ErrorResponse) (s : Option HttpStatus)
      → FinalizedOnce r (send_error_response f version e kind s dia rc r)
  unfolding send_error_response lws_send_json_error_response lws_send_html_error_response
      error_header
  send_error_response-FinalizedOnce er_json s =
      if-all (FinalizedOnce r) (has_bytes dia && not e.diagnostic_ok) (pos rc, refl)
        (if-all (FinalizedOnce r) (not e.buffer_ok) (pos rc, refl)
          (if-all (FinalizedOnce r) (not e.body_ok) (pos rc, refl)
            (if-all (FinalizedOnce r) (not e.push_ok) (pos rc, refl)
              (send_error-FinalizedOnce e true (json_body f rc s dia) _))))
  send_error_response-FinalizedOnce er_html s =
      if-all (FinalizedOnce r) (not (has_bytes dia)) (pos rc, refl)
        (if-all (FinalizedOnce r) (not e.diagnostic_ok) (pos rc, refl)
          (if-all (FinalizedOnce r) (not e.push_ok) (pos rc, refl)
            (send_error-FinalizedOnce e e.buffer_ok
              (page_start version ++ f.escape_html dia ++ page_end) _)))

  -- Where the escapes write as many bytes as they count and the code is between 100 and 999, an error
  -- response ends, finalizes the request once, and its output is empty or has the number of bytes
  -- that the header announces.
  pub lws_send_error_response-Announced :
      (x : IsExact f) (kind : ErrorResponse)
      → 100 ≤ rc
      → rc < 1000
      → (q : Request) × (lws_send_error_response f version e kind dia rc r ≡ some q)
        × Announced r q
        × FinalizedOnce r q
  unfolding lws_send_error_response
  lws_send_error_response-Announced x kind l h =
      if-all (λ o. (q : Request) × (o ≡ some q) × Announced r q × FinalizedOnce r q)
        (is_bodiless r rc) (_, refl, inl refl, (e.sending.rc, refl))
        (rw (lws_find_http_status-first_with rc) (
          send_error_response f version e kind (first_with rc lws_http_status) dia rc r,
          refl,
          send_error_response-Announced x kind _ (x.digits rc l h),
          send_error_response-FinalizedOnce kind _,
        ))
