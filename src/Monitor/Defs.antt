-- ===== src/Monitor/Defs.antt =====
-- The shared state of the monitor of src/lws_monitor.h with the profiled functions, its directive and
-- its modification, `lws_monitor_modification_handler` of src/lws_monitor.c.
use nginx_lws.Base.{
  ℕ, ◌-◌, ◌==◌, if◌then◌else◌, Bool, true, false, ◌&&◌, ◌||◌, not, Option, none, some, List, [],
  ◌∷◌, Bytes, bytes_of,
}
use nginx_lws.State.Defs.{Monitor}

-- `struct timespec`
pub record Timespec : Type 0 where
  pub tv_sec : ℕ
  pub tv_nsec : ℕ

-- `lws_function_t`
pub record Function : Type 0 where
  pub key : Bytes
  pub calls : ℕ
  pub time_self : Timespec
  pub time_total : Timespec
  pub memory : ℕ

-- `lws_monitor_t`: the counters, and the members for the profiler; `functions_n` is the length of the
-- list.
pub record Shared : Type 0 where
  pub counters : Monitor
  pub out_of_memory : Bool
  pub functions_alloc : ℕ
  pub functions : List Function

-- The result of a modification: NGX_OK, NGX_HTTP_BAD_REQUEST or NGX_HTTP_CONFLICT.
pub data Modification : Type 0 where
  modified bad_request conflict : Modification

-- Equality of bytes, `ngx_strncmp` on texts of one length
unfoldable pub equal : Bytes → Bytes → Bool
equal [] [] = true
equal [] (b ∷ bs) = false
equal (a ∷ cs) [] = false
equal (a ∷ cs) (b ∷ bs) = a == b && equal cs bs

-- `ngx_atomic_cmp_set(&m->profiler, old, set)`: the result, and the state.
abbrev pub set_profiler : ℕ → Shared → Shared
set_profiler state m = record m { counters = record m.counters { profiler = state } }

-- The profiler is turned off.
unfoldable pub stop_profiling : Shared → Shared × Modification
stop_profiling m =
    if m.counters.profiler == 1 || m.counters.profiler == 2
    then (set_profiler 0 m, modified)
    else (m, conflict)

-- The profiler is turned on.
unfoldable pub start_profiling : ℕ → Shared → Shared × Modification
start_profiling state m =
    if m.counters.profiler == 0 then (set_profiler state m, modified) else (m, conflict)

unfoldable pub modify_profiler : Bytes → Shared → Shared × Modification
unfolding stop_profiling start_profiling
modify_profiler [] m = (m, bad_request)
modify_profiler (c ∷ []) m =
    if c == b'0'
    then stop_profiling m
    else if c == b'1' || c == b'2'
    then start_profiling (c - 48) m
    else (m, bad_request)
modify_profiler (c ∷ d ∷ cs) m = (m, bad_request)

unfoldable pub modify_functions : Bytes → Shared → Shared × Modification
unfolding equal
modify_functions value m =
    if equal value (bytes_of "[]")
    then (record m { out_of_memory = false; functions = [] }, modified)
    else (m, bad_request)

unfoldable pub lws_monitor_modification_handler : Bytes → Bytes → Shared → Shared × Modification
unfolding equal modify_profiler modify_functions
lws_monitor_modification_handler key value m =
    if equal key (bytes_of "profiler")
    then modify_profiler value m
    else if equal key (bytes_of "functions")
    then modify_functions value m
    else (m, modified)

-- The configuration of the location and of the server: whether the location has a monitor or a main
-- chunk, whether the shared memory is added, and whether the location has the monitor's handler.
pub record Zone : Type 0 where
  pub monitor : Bool
  pub main : Bool
  pub monitor_shm : Bool
  pub handler : Bool

-- What the directive `lws_monitor` returns.
pub data Directive : Type 0 where
  conf_ok is_duplicate is_exclusive conf_error : Directive

unfoldable pub lws_monitor : Bool → Zone → Zone × Directive
lws_monitor shm_ok z =
    if z.monitor
    then (z, is_duplicate)
    else if z.main
    then (z, is_exclusive)
    else if not z.monitor_shm && not shm_ok
    then (record z { monitor = true }, conf_error)
    else (record z { monitor = true; monitor_shm = true; handler = true }, conf_ok)

abbrev pub no_counters : Monitor
no_counters = record {
  states_n = 0;
  requests_n = 0;
  request_count = 0;
  memory_used = 0;
  profiler = 0;
}

-- `lws_init_monitor`, with its two allocations; none is NGX_ERROR.
unfoldable pub lws_init_monitor : Bool → Bool → Option Shared
lws_init_monitor monitor_ok functions_ok =
    if not monitor_ok
    then none
    else if not functions_ok
    then none
    else some (record {
      counters = no_counters;
      out_of_memory = false;
      functions_alloc = 32;
      functions = [];
    })
