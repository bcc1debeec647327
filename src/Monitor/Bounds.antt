-- ===== src/Monitor/Bounds.antt =====
-- The size of the buffer in `lws_monitor_content_handler` of src/lws_monitor.c.
use nginx_lws.Base.{
  ℕ, ◌+◌, ◌*◌, ◌≤◌, ◌<◌, ◌≡◌, Bool, true, false, List, [], ◌∷◌, ◌++◌, length, length-append, Bytes,
  bytes_of, arith,
}
use nginx_lws.Monitor.Defs.{Shared, Function}
use nginx_lws.Monitor.Content.{
  Printer, flag, function_len, functions_len, content_len, line, numbers, members, function_text,
  functions_text, array_text, content_text,
}
use nginx_lws.Monitor.Sound.{IsShared}

-- `%i` writes at most 20 bytes, and one for a digit; the escape writes as many bytes as it counts.
pub record IsPrinter (f : Printer) : Type 0 where
  pub word : (x : ℕ) → length (f.integer x) ≤ 20
  pub digit : (x : ℕ) → x < 10 → length (f.integer x) ≤ 1
  pub escape : (d : Bytes) → length (f.escape_json d) ≡ length d + f.escape_json_n d

record AtMost (text : Bytes) (n : ℕ) : Type 0 where
  bound : length text ≤ n

module _ (f : Printer) (p : IsPrinter f) where
  length-line :
      (label : Bytes) (x n : ℕ)
      → length (f.integer x) ≤ n
      → length (line f label x) ≤ length label + n + 2
  length-line label x n h = omega (
    arith,
    length-append label (f.integer x ++ bytes_of ",\n"),
    length-append (f.integer x) (bytes_of ",\n"),
  )

  length-numbers : (xs : List ℕ) → length (numbers f xs) ≤ 22 * length xs
  length-numbers [] = omega arith
  length-numbers (x ∷ xs) =
      omega (arith, length-numbers xs, p.word x, length-append (f.integer x) (numbers f xs))

  length-function_text : (fn : Function) → length (function_text f fn) + 2 ≤ function_len f fn
  length-function_text fn = omega (
    arith,
    p.escape fn.key,
    length-numbers (members f fn),
    length-append (f.escape_json fn.key)
        (bytes_of "\"" ++ (numbers f (members f fn) ++ bytes_of "]")),
    length-append (numbers f (members f fn)) (bytes_of "]"),
  )

  length-functions_text :
      (fns : List Function) → length (functions_text f fns) ≤ functions_len f fns
  length-functions_text [] = omega arith
  length-functions_text (fn ∷ []) =
      omega (arith, length-function_text fn, length-append (function_text f fn) (bytes_of "\n"))
  length-functions_text (fn ∷ g ∷ fns) = omega (
    arith,
    length-function_text fn,
    length-functions_text (g ∷ fns),
    length-append (function_text f fn) (bytes_of ",\n" ++ functions_text f (g ∷ fns)),
  )

  length-array_text : (fns : List Function) → length (array_text f fns) ≤ 19 + functions_len f fns
  length-array_text [] = omega arith
  length-array_text (fn ∷ fns) = omega (
    arith,
    length-functions_text (fn ∷ fns),
    length-append (functions_text f (fn ∷ fns)) (bytes_of "\t]\n"),
  )

  -- A line before a text of bounded length
  line-AtMost :
      (label : Bytes) (x n : ℕ) {rest : Bytes} {k : ℕ}
      → length (f.integer x) ≤ n
      → AtMost rest k
      → AtMost (line f label x ++ rest) (length label + n + 2 + k)
  line-AtMost label x n {rest} h l = record {
    bound = omega (arith, l.bound, length-line label x n h, length-append (line f label x) rest);
  }

  flag_digit : (b : Bool) → flag b < 10
  flag_digit true = omega arith
  flag_digit false = omega arith

  array_text-AtMost :
      (fns : List Function) → AtMost (array_text f fns ++ bytes_of "}") (20 + functions_len f fns)
  array_text-AtMost fns = record {
    bound = omega (arith, length-array_text fns, length-append (array_text f fns) (bytes_of "}"));
  }

  -- Where `%i` writes at most 20 bytes, one for a digit, and the escape writes as many bytes as it
  -- counts, the text of a monitor whose profiler is in one of its states fits into the buffer.
  pub content_text-content_len :
      (m : Shared) → IsShared m → length (content_text f m) ≤ content_len f m
  unfolding content_text content_len
  content_text-content_len m s =
      let c = m.counters in
      let t = line-AtMost (bytes_of "\t\"states_n\": ") c.states_n 20 (p.word c.states_n) (
        line-AtMost (bytes_of "\t\"requests_n\": ") c.requests_n 20 (p.word c.requests_n) (
          line-AtMost (bytes_of "\t\"memory_used\": ") c.memory_used 20 (p.word c.memory_used) (
            line-AtMost (bytes_of "\t\"request_count\": ") c.request_count 20
              (p.word c.request_count)
              (line-AtMost (bytes_of "\t\"profiler\": ") c.profiler 1
                (p.digit c.profiler (omega (arith, s.profiler)))
                (line-AtMost (bytes_of "\t\"out_of_memory\": ") (flag m.out_of_memory) 1
                  (p.digit (flag m.out_of_memory) (flag_digit m.out_of_memory))
                  (array_text-AtMost m.functions)))))) in
      omega (arith, t.bound)
