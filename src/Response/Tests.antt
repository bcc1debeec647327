-- ===== src/Response/Tests.antt =====
-- The theorems on the answers of src/lws_module.c at concrete inputs.
use nginx_lws.Base.{
  ℕ, suc, ◌+◌, ◌/◌, ◌%◌, subst, ◌≡◌, refl, ◌==◌, if◌then◌else◌, true, false, none, some, List, [],
  ◌∷◌, length, take, ℤ, negsuc, Bytes, bytes_of, arith,
}
use nginx_lws.Table.Ascii.{same, same_refl, same_eq, lower, lowers}
use nginx_lws.Response.Defs.{ngx_ok, Header, Request, Sending}
use nginx_lws.Response.Cookies.{Compare, unfold_value}
use nginx_lws.Response.Folding.{IsCompare}
use nginx_lws.Response.Attributes.{
  Attribute, Cookie, IsAttribute, cookie_text, is_named, is_plain, starts_unblank,
}
use nginx_lws.Response.Unfolding.{IsCookie, join, unfold_value-join}
use nginx_lws.Response.Headers.{Pushed, lws_set_response_header}
use nginx_lws.Response.Framing.{Extends, request_of, lws_set_response_header-Extends}
use nginx_lws.Response.Errors.{Formats, Environment, er_json, lws_send_error_response}
use nginx_lws.Response.Announced.{
  IsExact, Announced, FinalizedOnce, lws_send_error_response-Announced,
}
use nginx_lws.Response.Stream.{Stream}
use nginx_lws.Response.Finish.{Site, Result, Ending, answer, finalize_response}
use nginx_lws.Response.Answer.{Answered, answer-Answered}
use nginx_lws.Response.Once.{Streamed, accepted, script_end, Lives, Streamed-Lives}

-- The comparison of the first bytes in lower case
abbrev compare : Compare
compare a b = same (lowers (take (length b) a)) (lowers b)

compare-IsCompare : IsCompare compare
compare-IsCompare = record {
  lowers_iff = λ a b.
      (same_eq _ _, λ e. subst (λ x. same (lowers (take (length b) a)) x ≡ true) e (same_refl _));
}

-- Digits of three, and an escape of both kinds that writes a backslash before a double quote
abbrev digits_of : ℕ → Bytes
digits_of n = (48 + n / 100) ∷ (48 + n / 10 % 10) ∷ (48 + n % 10) ∷ []

abbrev escape : Bytes → Bytes
escape [] = []
escape (c ∷ cs) = let rest = escape cs in if c == b'"' then b'\\' ∷ c ∷ rest else c ∷ rest

abbrev escape_n : Bytes → ℕ
escape_n [] = 0
escape_n (c ∷ cs) = let rest = escape_n cs in if c == b'"' then 1 + rest else rest

escape_exact : (d : Bytes) → length (escape d) ≡ length d + escape_n d
escape_exact [] = refl
escape_exact (c ∷ cs) = ground (arith, escape_exact cs)

abbrev formats : Formats
formats = record {
  decimal = digits_of;
  escape_json = escape;
  escape_json_n = escape_n;
  escape_html = escape;
  escape_html_n = escape_n;
}

formats-IsExact : IsExact formats
formats-IsExact = record { json = escape_exact; html = escape_exact; digits = λ n l h. refl }

abbrev attribute : Bytes → Attribute
attribute text = record { blanks = bytes_of " "; text = text; date = none }

attribute-IsAttribute :
    (text : Bytes)
    → starts_unblank text ≡ true
    → is_plain text ≡ true
    → IsAttribute (attribute text)
attribute-IsAttribute text h p = record { blanks = refl; start = h; text = p; date = tt }

-- An attribute Expires with its comma
abbrev expires : Attribute
expires = record {
  blanks = bytes_of " ";
  text = bytes_of "expires=Wed";
  date = some (bytes_of " 21 Oct 2015 07:28:00 GMT");
}

expires-IsAttribute : IsAttribute expires
unfolding is_named same lowers lower
expires-IsAttribute = record { blanks = refl; start = refl; text = refl; date = (refl, refl) }

-- An attribute Expires without a comma, and another behind it
abbrev first_cookie : Cookie
first_cookie = record {
  head = bytes_of "a=1";
  attributes = attribute (bytes_of "Expires=0") ∷ attribute (bytes_of "Path=/") ∷ [];
}

abbrev second_cookie : Cookie
second_cookie = record { head = bytes_of "b=2"; attributes = expires ∷ [] }

first_cookie-IsCookie : IsCookie first_cookie
unfolding is_named same lowers lower
first_cookie-IsCookie = record {
  head = refl;
  attributes = (
    attribute-IsAttribute (bytes_of "Expires=0") refl refl,
    (attribute-IsAttribute (bytes_of "Path=/") refl refl, refl),
  );
  start = refl;
}

second_cookie-IsCookie : IsCookie second_cookie
second_cookie-IsCookie = record {
  head = refl;
  attributes = (expires-IsAttribute, tt);
  start = refl;
}

abbrev folded : Bytes
folded = join (cookie_text first_cookie) (cookie_text second_cookie ∷ [])

unfold_value-join_example :
    unfold_value compare (suc (length folded)) folded
    ≡ some (cookie_text first_cookie ∷ cookie_text second_cookie ∷ [])
unfold_value-join_example =
    unfold_value-join compare compare-IsCompare first_cookie (second_cookie ∷ [])
      (first_cookie-IsCookie, (second_cookie-IsCookie, tt))

abbrev request : Request
request = record {
  main = true;
  head = false;
  header_sent = false;
  header_only = false;
  status = 0;
  content_type = [];
  charset = [];
  content_length = none;
  headers = [];
  slots = [];
  last_modified_time = negsuc 0;
  output = [];
  redirects = [];
  finalized = [];
}

abbrev no_time : Bytes → ℤ
no_time value = negsuc 0

abbrev fields : List Header
fields =
    record { key = bytes_of "content-length"; value = bytes_of "5" }
    ∷ record { key = bytes_of "Set-Cookie"; value = folded }
    ∷ []

lws_set_response_header-Extends_example :
    (p : Pushed) × (lws_set_response_header compare no_time fields request 2 ≡ some p)
    × Extends compare request (request_of p)
lws_set_response_header-Extends_example =
    lws_set_response_header-Extends compare no_time fields request 2

abbrev sending : Sending
sending = record { rc = ngx_ok; sent = true; only = false }

abbrev environment : Environment
environment = record {
  diagnostic_ok = true;
  buffer_ok = true;
  body_ok = true;
  push_ok = true;
  sending = sending;
  filter_rc = ngx_ok;
}

lws_send_error_response-Announced_example :
    (q : Request) × (lws_send_error_response formats
        (bytes_of "5.4")
        environment
        er_json
        (bytes_of "an \"x\"")
        404
        request
      ≡ some q)
    × Announced request q
    × FinalizedOnce request q
lws_send_error_response-Announced_example =
    lws_send_error_response-Announced formats (bytes_of "5.4") environment (bytes_of "an \"x\"") 404
      request formats-IsExact er_json (omega arith) (omega arith)

abbrev site : Site
site = record {
  formats = formats;
  version = bytes_of "5.4";
  starts_with = compare;
  ngx_parse_http_time = no_time;
  error_response = er_json;
}

abbrev result : Result
result = record {
  rc = ngx_ok;
  redirect = [];
  redirect_args = [];
  diagnostic = [];
  body = bytes_of "hello";
}

abbrev ending : Ending
ending = record {
  available = some 3;
  special_rc = ngx_ok;
  internal_rc = ngx_ok;
  named_rc = ngx_ok;
  room = 2;
  flush_ok = true;
  sending = sending;
  buffer_ok = true;
  filter_rc = ngx_ok;
  error = environment;
}

-- A request whose location has streaming
abbrev stream : Stream
stream = record {
  request = request;
  ctx_status = 200;
  fields = fields;
  conn = true;
  reader = true;
  writer = true;
  streaming_rc = ngx_ok;
  blocked = false;
  timer = false;
  timedout = false;
  ready = true;
  eof = false;
}

answer-Answered_example : Answered request (answer site ending result stream)
answer-Answered_example = answer-Answered site formats-IsExact ending result stream

-- The script ends with three bytes in the pipe, which the next event reads.
abbrev ended : Stream
ended = record stream { writer = false }

ended-Streamed : Streamed site false ended
unfolding finalize_response
ended-Streamed =
    script_end ending result stream ended
      (accepted stream (record {
        writer = refl;
        reader = refl;
        streaming_rc = refl;
        header_only = refl;
        finalized = refl;
      }))
      refl

Streamed-Lives_example : Lives false ended
Streamed-Lives_example = Streamed-Lives site formats-IsExact false ended ended-Streamed
