-- ===== src/Response/Errors.antt =====
-- The error responses of src/lws_module.c. `escape` is `ngx_escape_json` or `ngx_escape_html`, which
-- returns the number of bytes that it would add where it is given no destination.
use nginx_lws.Base.{
  ℕ, ◌+◌, if◌then◌else◌, Bool, true, false, ◌&&◌, ◌||◌, not, Option, none, some, [], ◌∷◌, ◌++◌,
  length, ℤ, pos, Bytes, bytes_of,
}
use nginx_lws.Http.Status.{HttpStatus}
use nginx_lws.Http.Lookup.{lws_find_http_status}
use nginx_lws.Response.Defs.{
  is_final, Header, Request, Sending, send_header, send_bytes, finalize, is_bodiless,
}

-- What the errors take from NGINX: the decimal digits of `%ui`, and the two escapes with the number of
-- bytes that they add.
pub record Formats : Type 0 where
  pub decimal : ℕ → Bytes
  pub escape_json : Bytes → Bytes
  pub escape_json_n : Bytes → ℕ
  pub escape_html : Bytes → Bytes
  pub escape_html_n : Bytes → ℕ

-- What the environment decides: the allocations in their order, the push of a header, the sending of
-- the header, and the result of the output filter.
pub record Environment : Type 0 where
  pub diagnostic_ok : Bool
  pub buffer_ok : Bool
  pub body_ok : Bool
  pub push_ok : Bool
  pub sending : Sending
  pub filter_rc : ℤ

abbrev pub no_store : Header
no_store = record { key = bytes_of "Cache-Control"; value = bytes_of "private, no-store" }

-- `dia.len`
abbrev pub has_bytes : Bytes → Bool
has_bytes [] = false
has_bytes (c ∷ cs) = true

abbrev pub message_len : Option HttpStatus → ℕ
message_len none = 0
message_len (some s) = length (bytes_of ",\n\t\t\"message\": \"\"") + length (bytes_of s.message)

abbrev pub message_text : Option HttpStatus → Bytes
message_text none = []
message_text (some s) = bytes_of ",\n\t\t\"message\": \"" ++ bytes_of s.message ++ bytes_of "\""

-- The members of `headers_out`, and the cache header
unfoldable pub error_header : ℕ → Bytes → Bytes → ℕ → Request → Request
error_header rc content_type charset len r = record r {
  status = rc;
  content_type = content_type;
  charset = charset;
  content_length = some len;
  headers = r.headers ++ no_store ∷ [];
}

-- The end of both error responses, from the sending of the header; `ready` tells whether the buffers
-- of the body can be had then.
unfoldable pub send_error : Environment → Bool → Bytes → Request → Request
send_error e ready body r =
    let q = send_header e.sending r in
    if is_final e.sending.rc || q.header_only
    then finalize e.sending.rc q
    else if not ready
    then finalize e.sending.rc q
    else finalize e.filter_rc (send_bytes body q)

module _ (f : Formats) where
  abbrev pub diagnostic_len : Bytes → ℕ
  diagnostic_len dia =
      if has_bytes dia
      then length (bytes_of ",\n\t\t\"diagnostic\": \"\"") + (length dia + f.escape_json_n dia)
      else 0

  abbrev pub diagnostic_text : Bytes → Bytes
  diagnostic_text dia =
      if has_bytes dia
      then bytes_of ",\n\t\t\"diagnostic\": \"" ++ f.escape_json dia ++ bytes_of "\""
      else []

  -- `len` of the JSON body
  unfoldable pub json_len : Option HttpStatus → Bytes → ℕ
  json_len status dia =
      length (bytes_of "{\n\t\"error\": {\n\t\t\"code\": 100\n\t}\n}")
      + message_len status
      + diagnostic_len dia

  -- The bytes written to the buffer
  unfoldable pub json_body : ℕ → Option HttpStatus → Bytes → Bytes
  json_body rc status dia =
      bytes_of "{\n\t\"error\": {"
      ++ (bytes_of "\n\t\t\"code\": " ++ f.decimal rc)
      ++ message_text status
      ++ diagnostic_text dia
      ++ bytes_of "\n\t}\n}"

  unfoldable pub lws_send_json_error_response :
      Environment → Option HttpStatus → Bytes → ℕ → Request → Request
  unfolding json_len json_body send_error error_header
  lws_send_json_error_response e status dia rc r =
      if has_bytes dia && not e.diagnostic_ok
      then finalize (pos rc) r
      else if not e.buffer_ok
      then finalize (pos rc) r
      else if not e.body_ok
      then finalize (pos rc) r
      else if not e.push_ok
      then finalize (pos rc) (record r { status = rc; content_type = bytes_of "application/json" })
      else send_error e true (json_body rc status dia)
          (error_header rc (bytes_of "application/json") r.charset (json_len status dia) r)

  -- `pre` and `epi` are the literals around the diagnostic.
  unfoldable pub lws_send_html_error_response :
      Environment → Bytes → Bytes → Bytes → ℕ → Request → Request
  unfolding send_error error_header
  lws_send_html_error_response e pre epi dia rc r =
      if not (has_bytes dia)
      then finalize (pos rc) r
      else if not e.diagnostic_ok
      then finalize (pos rc) r
      else if not e.push_ok
      then finalize (pos rc) (record r {
        status = rc;
        content_type = bytes_of "text/html";
        charset = bytes_of "UTF-8";
      })
      else send_error e e.buffer_ok (pre ++ f.escape_html dia ++ epi) (
          error_header rc (bytes_of "text/html") (bytes_of "UTF-8")
            (length pre + (length dia + f.escape_html_n dia) + length epi) r)

-- `error_response` of the location; any other value takes the default branch, JSON.
pub data ErrorResponse : Type 0 where
  er_json er_html : ErrorResponse

-- The start of the page, with the version of Lua, and its end
abbrev pub page_start : Bytes → Bytes
page_start version =
    bytes_of "<!DOCTYPE HTML>\n<html>\n\t<head>\n\t\t<title>LWS "
    ++ version
    ++ bytes_of " Error</title>\n\t\t<style>\n\t\t\thtml {\n\t\t\t\tfont-family: system-ui, "
    ++ bytes_of "\"Segoe UI\", -apple-system, \"Liberation Sans\", Roboto, \"Helvetica Neue\", "
    ++ bytes_of "Arial, sans-serif;\n\t\t\t}\n\t\t\tbody {\n\t\t\t\tmax-width: 600px;\n"
    ++ bytes_of "\t\t\t\tmargin: 0 auto;\n\t\t\t}\n\t\t</style>\n\t</head>\n\t<body>\n\t\t<h2>LWS "
    ++ version
    ++ bytes_of " Error</h2>\n\t\t<pre>"

abbrev pub page_end : Bytes
page_end = bytes_of "</pre>\n\t</body>\n</html>"

module _ (f : Formats) (version : Bytes) where
  -- The two branches of `lws_send_error_response`, with the status found for the code.
  unfoldable pub send_error_response :
      Environment → ErrorResponse → Option HttpStatus → Bytes → ℕ → Request → Request
  unfolding lws_send_json_error_response lws_send_html_error_response
  send_error_response e er_json status dia rc r = lws_send_json_error_response f e status dia rc r
  send_error_response e er_html status dia rc r =
      lws_send_html_error_response f e (page_start version) page_end dia rc r

  -- `none` is a search of the status that does not end.
  unfoldable pub lws_send_error_response :
      Environment → ErrorResponse → Bytes → ℕ → Request → Option Request
  unfolding send_error_response
  lws_send_error_response e kind dia rc r =
      if is_bodiless r rc
      then some (
          finalize e.sending.rc
            (send_header e.sending (record r { header_only = true; status = rc })))
      else (elim (lws_find_http_status rc) [
        | none ↦ none
        | some status ↦ some (send_error_response e kind status dia rc r)
      ])
