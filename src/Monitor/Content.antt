-- ===== src/Monitor/Content.antt =====
-- `lws_monitor_content_handler` of src/lws_monitor.c: the state of the monitor as JSON. `integer` is
-- `%i` of a word cast to `ngx_int_t`.
use nginx_lws.Base.{
  ℕ, ◌+◌, ◌*◌, if◌then◌else◌, Bool, true, false, ◌||◌, not, some, List, [], ◌∷◌, ◌++◌, length, ℤ,
  pos, Bytes, bytes_of,
}
use nginx_lws.Response.Defs.{is_final, Request, send_header, send_bytes}
use nginx_lws.Response.Errors.{Environment, no_store}
use nginx_lws.Monitor.Defs.{Shared, Function}

-- The conversions of `ngx_sprintf` and `ngx_escape_json`, with the number of bytes that it adds.
pub record Printer : Type 0 where
  pub integer : ℕ → Bytes
  pub escape_json : Bytes → Bytes
  pub escape_json_n : Bytes → ℕ

-- `(ngx_int_t)lmcf->monitor->out_of_memory`
abbrev pub flag : Bool → ℕ
flag true = 1
flag false = 0

module _ (f : Printer) where
  -- `len` of a function
  abbrev pub function_len : Function → ℕ
  function_len fn =
      length (bytes_of "\t\t[\"\", , , , , , ],\n")
      + 6 * 20
      + (length fn.key + f.escape_json_n fn.key)

  abbrev pub functions_len : List Function → ℕ
  functions_len [] = 0
  functions_len (fn ∷ fns) = function_len fn + functions_len fns

  -- `len`
  unfoldable pub content_len : Shared → ℕ
  content_len m =
      length (bytes_of "{\n")
      + (length (bytes_of "\t\"states_n\": ,\n") + 20)
      + (length (bytes_of "\t\"requests_n\": ,\n") + 20)
      + (length (bytes_of "\t\"memory_used\": ,\n") + 20)
      + (length (bytes_of "\t\"request_count\": ,\n") + 20)
      + (length (bytes_of "\t\"profiler\": ,\n") + 1)
      + (length (bytes_of "\t\"out_of_memory\": ,\n") + 1)
      + length (bytes_of "\t\"functions\": [\n")
      + functions_len m.functions
      + length (bytes_of "\t]\n}")

  -- A line of the counters
  abbrev pub line : Bytes → ℕ → Bytes
  line label x = label ++ (f.integer x ++ bytes_of ",\n")

  -- `, %i` for each number
  abbrev pub numbers : List ℕ → Bytes
  numbers [] = []
  numbers (x ∷ xs) = bytes_of ", " ++ (f.integer x ++ numbers xs)

  -- The counters of a function, in the order of the text
  abbrev pub members : Function → List ℕ
  members fn =
      fn.calls ∷ fn.time_self.tv_sec ∷ fn.time_self.tv_nsec ∷ fn.time_total.tv_sec
      ∷ fn.time_total.tv_nsec ∷ fn.memory ∷ []

  abbrev pub function_text : Function → Bytes
  function_text fn =
      bytes_of "\t\t[\""
      ++ (f.escape_json fn.key ++ (bytes_of "\"" ++ (numbers (members fn) ++ bytes_of "]")))

  -- `for (i = 0; i < functions_n; i++)`
  abbrev pub functions_text : List Function → Bytes
  functions_text [] = []
  functions_text (fn ∷ []) = function_text fn ++ bytes_of "\n"
  functions_text (fn ∷ g ∷ fns) = function_text fn ++ (bytes_of ",\n" ++ functions_text (g ∷ fns))

  abbrev pub array_text : List Function → Bytes
  array_text [] = bytes_of "\t\"functions\": []\n"
  array_text (fn ∷ fns) =
      bytes_of "\t\"functions\": [\n" ++ (functions_text (fn ∷ fns) ++ bytes_of "\t]\n")

  -- The bytes that are written to the buffer
  unfoldable pub content_text : Shared → Bytes
  content_text m =
      bytes_of "{\n"
      ++ (line (bytes_of "\t\"states_n\": ") m.counters.states_n
          ++ (line (bytes_of "\t\"requests_n\": ") m.counters.requests_n
              ++ (line (bytes_of "\t\"memory_used\": ") m.counters.memory_used
                  ++ (line (bytes_of "\t\"request_count\": ") m.counters.request_count
                      ++ (line (bytes_of "\t\"profiler\": ") m.counters.profiler
                          ++ (line (bytes_of "\t\"out_of_memory\": ") (flag m.out_of_memory)
                              ++ (array_text m.functions ++ bytes_of "}")))))))

  -- The members of `headers_out`, and the cache header
  abbrev pub content_header : ℕ → Request → Request
  content_header len r = record r {
    status = 200;
    content_type = bytes_of "application/json";
    content_length = some len;
    headers = r.headers ++ no_store ∷ [];
  }

  -- The request, and the result.
  unfoldable pub lws_monitor_content_handler : Environment → Shared → Request → Request × ℤ
  unfolding content_text
  lws_monitor_content_handler e m r =
      if not e.buffer_ok
      then (r, pos 500)
      else if not e.body_ok
      then (r, pos 500)
      else if not e.push_ok
      then (record r { status = 200; content_type = bytes_of "application/json" }, pos 500)
      else (let text = content_text m in
          let q = send_header e.sending (content_header (length text) r) in
          if is_final e.sending.rc || q.header_only
          then (q, e.sending.rc)
          else (send_bytes text q, e.filter_rc))
