-- ===== src/Http/Status.antt =====
-- The table of HTTP statuses, `lws_http_status` in src/lws_http.c, in its order, in the groups of
-- its comments. The macros NGX_HTTP_* of NGINX stand for the codes that RFC 9110 and its registry
-- give to the names, and are written as these numbers.
use Prim.Native.String.{String}
use nginx_lws.Base.{ℕ, List, [], ◌∷◌, ◌++◌}

-- `lws_http_status_t`
pub record HttpStatus : Type 0 where
  pub code : ℕ
  pub key : String
  pub message : String

abbrev status : ℕ → String → String → HttpStatus
status c k m = record { code = c; key = k; message = m }

abbrev pub informational : List HttpStatus
informational =
    status 100 "CONTINUE" "Continue"
    ∷ status 101 "SWITCHING_PROTOCOLS" "Switching Protocols"
    ∷ status 102 "PROCESSING" "Processing"
    ∷ []

abbrev pub successful : List HttpStatus
successful =
    status 200 "OK" "OK"
    ∷ status 201 "CREATED" "Created"
    ∷ status 202 "ACCEPTED" "Accepted"
    ∷ status 203 "NON_AUTHORITATIVE_INFORMATION" "Non-Authoritative Information"
    ∷ status 204 "NO_CONTENT" "No Content"
    ∷ status 205 "RESET_CONTENT" "Reset Content"
    ∷ status 206 "PARTIAL_CONTENT" "Partial Content"
    ∷ []

abbrev pub redirection : List HttpStatus
redirection =
    status 300 "MULTIPLE_CHOICES" "Multiple Choices"
    ∷ status 301 "MOVED_PERMANENTLY" "Moved Permanently"
    ∷ status 302 "FOUND" "Found"
    ∷ status 303 "SEE_OTHER" "See Other"
    ∷ status 304 "NOT_MODIFIED" "Not Modified"
    ∷ status 305 "USE_PROXY" "Use Proxy"
    ∷ status 307 "TEMPORARY_REDIRECT" "Temporary Redirect"
    ∷ status 308 "PERMANENT_REDIRECT" "Permanent Redirect"
    ∷ []

abbrev pub client_error : List HttpStatus
client_error =
    status 400 "BAD_REQUEST" "Bad Request"
    ∷ status 401 "UNAUTHORIZED" "Unauthorized"
    ∷ status 402 "PAYMENT_REQUIRED" "Payment Required"
    ∷ status 403 "FORBIDDEN" "Forbidden"
    ∷ status 404 "NOT_FOUND" "Not Found"
    ∷ status 405 "METHOD_NOT_ALLOWED" "Method Not Allowed"
    ∷ status 406 "NOT_ACCEPTABLE" "Not Acceptable"
    ∷ status 407 "PROXY_AUTHENTICATION_REQUIRED" "Proxy Authentication Required"
    ∷ status 408 "REQUEST_TIMEOUT" "Request Timeout"
    ∷ status 409 "CONFLICT" "Conflict"
    ∷ status 410 "GONE" "Gone"
    ∷ status 411 "LENGTH_REQUIRED" "Length Required"
    ∷ status 412 "PRECONDITION_FAILED" "Precondition Failed"
    ∷ status 413 "CONTENT_TOO_LARGE" "Content Too Large"
    ∷ status 413 "REQUEST_ENTITY_TOO_LARGE" "Request Entity Too Large"
    ∷ status 414 "URI_TOO_LONG" "URI Too Long"
    ∷ status 414 "REQUEST_URI_TOO_LARGE" "Request URI Too Large"
    ∷ status 415 "UNSUPPORTED_MEDIA_TYPE" "Unsupported Media Type"
    ∷ status 416 "RANGE_NOT_SATISFIABLE" "Range Not Satisfiable"
    ∷ status 417 "EXPECTATION_FAILED" "Expectation Failed"
    ∷ status 421 "MISDIRECTED_REQUEST" "Misdirected Request"
    ∷ status 422 "UNPROCESSABLE_CONTENT" "Unprocessable Content"
    ∷ status 426 "UPGRADE_REQUIRED" "Upgrade Required"
    ∷ status 429 "TOO_MANY_REQUESTS" "Too Many Requests"
    ∷ []

abbrev pub server_error : List HttpStatus
server_error =
    status 500 "INTERNAL_SERVER_ERROR" "Internal Server Error"
    ∷ status 501 "NOT_IMPLEMENTED" "Not Implemented"
    ∷ status 502 "BAD_GATEWAY" "Bad Gateway"
    ∷ status 503 "SERVICE_UNAVAILABLE" "Service Unavailable"
    ∷ status 504 "GATEWAY_TIMEOUT" "Gateway Timeout"
    ∷ status 505 "HTTP_VERSION_NOT_SUPPORTED" "HTTP Version Not Supported"
    ∷ status 507 "INSUFFICIENT_STORAGE" "Insufficient Storage"
    ∷ []

abbrev pub lws_http_status : List HttpStatus
lws_http_status = informational ++ (successful ++ (redirection ++ (client_error ++ server_error)))
