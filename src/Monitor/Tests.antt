-- ===== src/Monitor/Tests.antt =====
-- The theorems on src/lws_monitor.c at concrete inputs.
use nginx_lws.Base.{
  ℕ, zero, suc, ◌+◌, ◌/◌, ◌%◌, ◌≤◌, ◌<◌, ◌≡◌, refl, ltb, if◌then◌else◌, if-all, if-split, true,
  false, some, List, [], ◌∷◌, ◌++◌, length, length-append, Bytes, bytes_of, arith,
}
use nginx_lws.Monitor.Defs.{Shared, Timespec, no_counters}
use nginx_lws.Monitor.Body.{Buffer, flatten, Reply, lws_monitor_body_handler}
use nginx_lws.Monitor.Pairs.{answer_to, encode, is_clean, lws_monitor_body_handler-encode}
use nginx_lws.Monitor.Sound.{IsShared, lws_monitor_body_handler-IsShared}
use nginx_lws.Monitor.Content.{Printer, content_len, content_text}
use nginx_lws.Monitor.Bounds.{IsPrinter, content_text-content_len}

abbrev second : Timespec
second = record { tv_sec = 1; tv_nsec = 5 }

-- A monitor with one function
abbrev shared : Shared
shared = record {
  counters = no_counters;
  out_of_memory = false;
  functions_alloc = 32;
  functions =
      record {
        key = bytes_of "a.lua:1: f";
        calls = 3;
        time_self = second;
        time_total = second;
        memory = 100;
      }
      ∷ [];
}

shared-IsShared : IsShared shared
shared-IsShared = record { profiler = omega arith; functions = omega arith }

abbrev pairs : List (Bytes × Bytes)
pairs = (bytes_of "functions", bytes_of "[]") ∷ []

abbrev in_memory : Bytes → Buffer
in_memory cs = record { size = length cs; held = cs }

abbrev buffers : List Buffer
buffers = in_memory (bytes_of "profiler=1&fu") ∷ in_memory (bytes_of "nctions=[]") ∷ []

lws_monitor_body_handler-encode_example :
    lws_monitor_body_handler true (λ i. 0) 61 (some buffers) shared
    ≡ some (answer_to true ((bytes_of "profiler", bytes_of "1") ∷ pairs) shared)
unfolding is_clean encode
lws_monitor_body_handler-encode_example =
    lws_monitor_body_handler-encode true (λ i. 0) 61 (in_memory (bytes_of "profiler=1&fu"))
      (in_memory (bytes_of "nctions=[]") ∷ []) (bytes_of "profiler", bytes_of "1") pairs shared
      (refl, refl, (refl, refl, tt)) (refl, (refl, tt)) refl

-- A body of three bytes in a file: the handler reads what stands in the block.
abbrev spooled : List Buffer
spooled = record { size = 3; held = [] } ∷ []

spooled-flatten : flatten (λ i. 61) spooled ≡ 61 ∷ 61 ∷ 61 ∷ []
unfolding flatten
spooled-flatten = refl

lws_monitor_body_handler-IsShared_example :
    (r : Shared × Reply) × (lws_monitor_body_handler true (λ i. 61) 61 (some spooled) shared
      ≡ some r)
    × IsShared r.0
lws_monitor_body_handler-IsShared_example =
    lws_monitor_body_handler-IsShared true (λ i. 61) 61 (some spooled) shared shared-IsShared

-- Up to `n` decimal digits
unfoldable digits : ℕ → ℕ → Bytes
digits zero x = []
digits (suc n) x =
    let rest = digits n (x / 10) in if ltb x 10 then (48 + x) ∷ [] else rest ++ ((48 + x % 10) ∷ [])

length-digits : (n x : ℕ) → length (digits n x) ≤ n
unfolding digits
length-digits zero x = omega arith
length-digits (suc n) x =
    if-all (λ (t : Bytes). length t ≤ suc n) (ltb x 10) (omega arith)
      (omega
        (arith, length-digits n (x / 10), length-append (digits n (x / 10)) ((48 + x % 10) ∷ [])))

length-digits_one : (n x : ℕ) → x < 10 → length (digits (suc n) x) ≤ 1
unfolding digits
length-digits_one n x h =
    if-split (λ (t : Bytes). length t ≤ 1) (ltb x 10) (λ _. omega arith)
      (λ k. absurd (ground arith))

abbrev printer : Printer
printer = record { integer = digits 20; escape_json = λ d. d; escape_json_n = λ d. 0 }

printer-IsPrinter : IsPrinter printer
printer-IsPrinter = record {
  word = length-digits 20;
  digit = length-digits_one 19;
  escape = λ d. omega arith;
}

content_text-content_len_example : length (content_text printer shared) ≤ content_len printer shared
content_text-content_len_example =
    content_text-content_len printer printer-IsPrinter shared shared-IsShared
