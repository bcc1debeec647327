-- ===== src/Response/Defs.antt =====
-- What the handlers of src/lws_module.c do to a request of NGINX. The calls of NGINX return what the
-- environment decides.
use nginx_lws.Base.{
  ℕ, zero, suc, ◌==◌, Bool, true, false, ◌&&◌, ◌||◌, Option, List, ◌∷◌, ◌++◌, ℤ, pos, negsuc, Bytes,
}

abbrev pub ngx_ok : ℤ
ngx_ok = pos 0

abbrev pub ngx_error : ℤ
ngx_error = negsuc 0

abbrev pub ngx_again : ℤ
ngx_again = negsuc 1

abbrev pub ngx_http_ok : ℕ
ngx_http_ok = 200

abbrev pub ngx_http_no_content : ℕ
ngx_http_no_content = 204

abbrev pub ngx_http_not_modified : ℕ
ngx_http_not_modified = 304

-- `rc == NGX_OK`
abbrev pub is_ok : ℤ → Bool
is_ok (pos zero) = true
is_ok (pos (suc n)) = false
is_ok (negsuc n) = false

-- `rc == NGX_ERROR`
abbrev pub is_error : ℤ → Bool
is_error (pos n) = false
is_error (negsuc zero) = true
is_error (negsuc (suc n)) = false

-- `rc == NGX_AGAIN`
abbrev pub is_again : ℤ → Bool
is_again (pos n) = false
is_again (negsuc (suc zero)) = true
is_again (negsuc _) = false

-- `rc < 0`
abbrev pub is_negative : ℤ → Bool
is_negative (pos n) = false
is_negative (negsuc n) = true

-- `rc == NGX_ERROR || rc > NGX_OK`
abbrev pub is_final : ℤ → Bool
is_final (pos zero) = false
is_final (pos (suc n)) = true
is_final (negsuc zero) = true
is_final (negsuc (suc n)) = false

-- A header of the list `headers_out.headers`
pub record Header : Type 0 where
  pub key : Bytes
  pub value : Bytes

-- The members of `headers_out` that point to a header
pub data Slot : Type 0 where
  date etag server refresh expires location : Slot
  last_modified content_range accept_ranges content_encoding www_authenticate : Slot

-- The calls of `ngx_http_internal_redirect`, with the arguments, and of `ngx_http_named_location`
pub data Redirect : Type 0 where
  to_path : Bytes → Bytes → Redirect
  to_name : Bytes → Redirect

-- The parts of `ngx_http_request_t` that the handlers use: whether it is the main request and its
-- method is HEAD, `header_sent`, `header_only`, the members of `headers_out`, with the pointers into its
-- headers by position and newest first, the bytes given to `ngx_http_output_filter`, and the codes given
-- to `ngx_http_finalize_request`, newest first, with the redirects.
pub record Request : Type 0 where
  pub main : Bool
  pub head : Bool
  pub header_sent : Bool
  pub header_only : Bool
  pub status : ℕ
  pub content_type : Bytes
  pub charset : Bytes
  pub content_length : Option ℕ
  pub headers : List Header
  pub slots : List (Slot × ℕ)
  pub last_modified_time : ℤ
  pub output : Bytes
  pub redirects : List Redirect
  pub finalized : List ℤ

-- What `ngx_http_send_header` returns, and whether the header is sent and the filters have set
-- `header_only`.
pub record Sending : Type 0 where
  pub rc : ℤ
  pub sent : Bool
  pub only : Bool

abbrev pub send_header : Sending → Request → Request
send_header e r = record r {
  header_sent = e.sent || r.header_sent;
  header_only = e.only || r.header_only;
}

abbrev pub send_bytes : Bytes → Request → Request
send_bytes bytes r = record r { output = r.output ++ bytes }

abbrev pub finalize : ℤ → Request → Request
finalize rc r = record r { finalized = rc ∷ r.finalized }

-- `r == r->main && (r->method == NGX_HTTP_HEAD || status == NGX_HTTP_NO_CONTENT
-- || status == NGX_HTTP_NOT_MODIFIED)`
abbrev pub is_bodiless : Request → ℕ → Bool
is_bodiless r status =
    r.main && (r.head || status == ngx_http_no_content || status == ngx_http_not_modified)
