-- ===== src/Monitor/Sound.antt =====
-- The shared state of the monitor under the modifications of src/lws_monitor.c.
use nginx_lws.Base.{
  ℕ, zero, suc, ◌-◌, ◌≤◌, ◌<◌, ◌≡◌, refl, ◌==◌, if-all, if-split, Bool, ◌||◌, not, Option, none,
  some, List, [], ◌∷◌, length, Bytes, bytes_of, arith,
}
use nginx_lws.Monitor.Defs.{
  Shared, Modification, modified, bad_request, conflict, equal, set_profiler, stop_profiling,
  start_profiling, modify_profiler, modify_functions, lws_monitor_modification_handler,
}
use nginx_lws.Monitor.Body.{
  token, Field, at_key, at_value, byte_at, end_token, go_on, tail, body_loop, flatten, Buffer,
  is_separator, lws_monitor_body_handler, Reply, reply_of,
}

-- The profiler is in one of its three states, and the functions have room.
pub record IsShared (m : Shared) : Type 0 where
  pub profiler : m.counters.profiler ≤ 2
  pub functions : length m.functions ≤ m.functions_alloc

IsShared-profiler :
    (m : Shared) (state : ℕ) → state ≤ 2 → IsShared m → IsShared (set_profiler state m)
IsShared-profiler m state h s = record { profiler = h; functions = s.functions }

abbrev Keeps : Shared × Modification → Type 0
Keeps r = IsShared r.0

modify_profiler-IsShared :
    (value : Bytes) (m : Shared) → IsShared m → Keeps (modify_profiler value m)
unfolding modify_profiler stop_profiling start_profiling
modify_profiler-IsShared [] m s = s
modify_profiler-IsShared (c ∷ []) m s =
    if-all Keeps (c == b'0')
      (if-all Keeps (m.counters.profiler == 1 || m.counters.profiler == 2)
        (IsShared-profiler m 0 (omega arith) s) s)
      (if-split Keeps (c == b'1' || c == b'2')
        (λ h.
          if-all Keeps (m.counters.profiler == 0)
            (IsShared-profiler m (c - 48) (ground (arith, h)) s) s)
        (λ _. s))
modify_profiler-IsShared (c ∷ d ∷ cs) m s = s

modification-IsShared :
    (key value : Bytes) (m : Shared)
    → IsShared m
    → Keeps (lws_monitor_modification_handler key value m)
unfolding lws_monitor_modification_handler modify_functions
modification-IsShared key value m s =
    if-all Keeps (equal key (bytes_of "profiler")) (modify_profiler-IsShared value m s) (
      if-all Keeps (equal key (bytes_of "functions"))
        (if-all Keeps (equal value (bytes_of "[]"))
          (record { profiler = s.profiler; functions = omega arith }) s)
        s)

end_token-IsShared :
    (f : Field) (start : Bytes) (c : ℕ) (m : Shared) → IsShared m → Keeps (end_token f start c m)
unfolding end_token
end_token-IsShared at_key start c m s =
    if-all Keeps (c == b'=') s (modification-IsShared start [] m s)
end_token-IsShared (at_value key) start c m s = modification-IsShared key start m s

token_shorter : (cs : Bytes) → length ((token cs).1) ≤ length cs
unfolding token
token_shorter [] = omega arith
token_shorter (c ∷ cs) =
    if-all (λ (t : Bytes × Bytes). length (t.1) ≤ suc (length cs)) (is_separator c) (omega arith)
      (omega (arith, token_shorter cs))

-- A loop that ends, in a sound state.
abbrev Ends : Option (Shared × Modification) → Type 0
Ends o = (r : Shared × Modification) × (o ≡ some r) × IsShared r.0

go_on-Ends :
    (rest : Bytes) (e : Shared × Modification) {next : Option (Shared × Modification)}
    → IsShared e.0
    → (0 < length rest → Ends next)
    → Ends (go_on rest e next)
go_on-Ends [] (m, modified) s h = ((m, modified), refl, s)
go_on-Ends (c ∷ rest) (m, modified) s h = h (omega arith)
go_on-Ends rest (m, bad_request) s h = ((m, bad_request), refl, s)
go_on-Ends rest (m, conflict) s h = ((m, conflict), refl, s)

tail_shorter : (cs : Bytes) → 0 < length cs → length (tail cs) < length cs
tail_shorter [] h = absurd (ground arith)
tail_shorter (c ∷ cs) h = omega arith

body_loop-Ends :
    (fuel beyond : ℕ) (f : Field) (body : Bytes) (m : Shared)
    → IsShared m
    → length body < fuel
    → Ends (body_loop fuel beyond f body m)
unfolding body_loop
body_loop-Ends zero beyond f body m s h = absurd (ground arith)
body_loop-Ends (suc fuel) beyond f body m s h =
    let rest = (token body).1 in
    let i = end_token-IsShared f ((token body).0) (byte_at beyond rest) m s in
    go_on-Ends rest (end_token f ((token body).0) (byte_at beyond rest) m) i (λ k.
      body_loop-Ends fuel beyond _ (tail rest) _ i
        (omega (arith, tail_shorter rest k, token_shorter body)))

-- With the profiler in one of its states and room for the functions, the handler of the body ends for
-- every body, in memory or in a file, with whatever bytes in the block before the copy and behind it,
-- and keeps both.
pub lws_monitor_body_handler-IsShared :
    (data_ok : Bool) (fresh : ℕ → ℕ) (beyond : ℕ) (bufs : Option (List Buffer)) (m : Shared)
    → IsShared m
    → (r : Shared × Reply) × (lws_monitor_body_handler data_ok fresh beyond bufs m ≡ some r)
      × IsShared r.0
unfolding lws_monitor_body_handler
lws_monitor_body_handler-IsShared data_ok fresh beyond none m s = (_, refl, s)
lws_monitor_body_handler-IsShared data_ok fresh beyond (some []) m s = (_, refl, s)
lws_monitor_body_handler-IsShared data_ok fresh beyond (some (b ∷ bs)) m s =
    let body = flatten fresh (b ∷ bs) in
    let a = body_loop-Ends (suc (length body)) beyond at_key body m s (omega arith) in
    if-all (λ (o : Option (Shared × Reply)). (r : Shared × Reply) × (o ≡ some r) × IsShared r.0)
      (not data_ok) ((m, _), refl, s) (rw (a.1) ((a.0.0, reply_of a.0.1), refl, a.2))
