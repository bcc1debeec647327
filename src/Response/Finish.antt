-- ===== src/Response/Finish.antt =====
-- The end of `lws_finalization_handler` of src/lws_module.c, behind the release of the state and the
-- look at the queue: the choice of the answer and its sending.
use nginx_lws.Base.{
  ℕ, zero, suc, ◌==◌, ltb, leb, if◌then◌else◌, Bool, true, false, ◌&&◌, ◌||◌, not, Option, none,
  some, [], ◌∷◌, length, ℤ, pos, negsuc, Bytes,
}
use nginx_lws.Response.Defs.{
  ngx_error, ngx_http_ok, ngx_http_no_content, ngx_http_not_modified, is_ok, is_negative, is_final,
  to_path, to_name, Request, Sending, send_header, send_bytes, finalize, is_bodiless,
}
use nginx_lws.Response.Cookies.{Compare}
use nginx_lws.Response.Headers.{Pushed, pushed, push_failed, lws_set_response_header}
use nginx_lws.Response.Errors.{
  Formats, Environment, ErrorResponse, has_bytes, lws_send_error_response,
}
use nginx_lws.Response.Stream.{Stream, fail_with, on_request}

-- What the code takes from NGINX and from the configuration of the location.
pub record Site : Type 0 where
  pub formats : Formats
  pub version : Bytes
  pub starts_with : Compare
  pub ngx_parse_http_time : Bytes → ℤ
  pub error_response : ErrorResponse

-- What the script leaves in `lws_request_ctx_t`
pub record Result : Type 0 where
  pub rc : ℤ
  pub redirect : Bytes
  pub redirect_args : Bytes
  pub diagnostic : Bytes
  pub body : Bytes

-- What the environment decides: the bytes in the pipe, none where they cannot be counted, what the
-- calls of NGINX return, and the pushes of headers that succeed.
pub record Ending : Type 0 where
  pub available : Option ℕ
  pub special_rc : ℤ
  pub internal_rc : ℤ
  pub named_rc : ℤ
  pub room : ℕ
  pub flush_ok : Bool
  pub sending : Sending
  pub buffer_ok : Bool
  pub filter_rc : ℤ
  pub error : Environment

-- `ctx->rc >= 100 && ctx->rc < 600 ? ctx->rc : NGX_HTTP_INTERNAL_SERVER_ERROR`
abbrev pub error_code : ℤ → ℕ
error_code (pos n) = if leb 100 n && ltb n 600 then n else 500
error_code (negsuc n) = 500

-- `ctx->rc > 0`
abbrev pub is_positive : ℤ → Bool
is_positive (pos zero) = false
is_positive (pos (suc n)) = true
is_positive (negsuc n) = false

-- The internal redirect to a path, or to a named location
abbrev pub redirect_to : Ending → Bytes → Bytes → Request → Request
redirect_to e [] args r = r
redirect_to e (c ∷ cs) args r =
    if not (c == b'@')
    then finalize e.internal_rc (record r { redirects = to_path (c ∷ cs) args ∷ r.redirects })
    else finalize e.named_rc (record r { redirects = to_name cs ∷ r.redirects })

-- The length of the body in the header, or the mark of a header-only response
unfoldable pub announce_body : Bytes → Request → Request
announce_body body r =
    if has_bytes body
    then (if is_bodiless r r.status
        then record r { header_only = true }
        else record r { content_length = some (length body) })
    else if r.main
        && (not r.head
            && not (r.status == ngx_http_no_content)
            && not (r.status == ngx_http_not_modified)
            && leb ngx_http_ok r.status)
    then record r { content_length = some 0; header_only = true }
    else r

-- From the header to the end
unfoldable pub send_response : Ending → Bytes → Request → Request
unfolding announce_body
send_response e body r =
    let q = send_header e.sending (announce_body body r) in
    if is_final e.sending.rc || q.header_only
    then finalize e.sending.rc q
    else if not e.buffer_ok
    then finalize e.sending.rc q
    else finalize e.filter_rc (send_bytes body q)

module _ (n : Site) where
  -- The part behind `lws_set_response_header`
  unfoldable pub after_set : Ending → Result → Stream → Pushed → Option Request
  unfolding lws_send_error_response send_response
  after_set e x s (push_failed q) = some (finalize (pos 500) q)
  after_set e x s (pushed q room) =
      if is_positive x.rc
      then lws_send_error_response n.formats n.version e.error n.error_response x.diagnostic
          (error_code x.rc) q
      else if not e.flush_ok
      then some (finalize (pos 500) (record q { status = s.ctx_status }))
      else some (send_response e x.body (record q { status = s.ctx_status }))

  -- The answer where no streaming took place; none is a loop that does not end.
  unfoldable pub answer : Ending → Result → Stream → Option Request
  unfolding after_set lws_send_error_response lws_set_response_header
  answer e x s =
      if is_negative x.rc
      then lws_send_error_response n.formats n.version e.error n.error_response x.diagnostic 500
          s.request
      else if has_bytes x.redirect
      then some (redirect_to e x.redirect x.redirect_args s.request)
      else (elim (lws_set_response_header n.starts_with n.ngx_parse_http_time s.fields s.request
          e.room) [ none ↦ none | some p ↦ after_set e x s p ])

-- The end of the streaming from the side of the script: the pipe is closed, and its event too where
-- nothing can come from it any more.
abbrev pub close_conn : Stream → Stream
close_conn s = record s { conn = false; reader = false }

abbrev pub inspect : Option ℕ → Stream → Stream
inspect none s = close_conn (fail_with ngx_error s)
inspect (some available) s = if available == 0 then close_conn s else s

unfoldable pub close_pipe : Option ℕ → Stream → Stream
close_pipe available s =
    let q = record s { writer = false } in
    if s.conn && (not s.request.header_sent && is_ok s.streaming_rc) then inspect available q else q

-- The result of a streamed response
unfoldable pub finish_streaming : ℤ → Stream → Stream
finish_streaming special_rc s =
    if s.conn && (is_ok s.streaming_rc && not s.request.header_only)
    then s
    else if not (is_final s.streaming_rc || s.request.header_only) && s.request.main
    then on_request (finalize special_rc) s
    else on_request (finalize s.streaming_rc) s

module _ (n : Site) where
  unfoldable pub finish : Ending → Result → Stream → Option Stream
  unfolding finish_streaming answer
  finish e x s =
      if s.request.header_sent || s.conn || not (is_ok s.streaming_rc)
      then some (finish_streaming e.special_rc s)
      else (elim (answer n e x s) [ none ↦ none | some q ↦ some (record s { request = q }) ])

  unfoldable pub finalize_response : Ending → Result → Stream → Option Stream
  unfolding close_pipe finish
  finalize_response e x s = finish e x (close_pipe e.available s)
