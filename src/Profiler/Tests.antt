-- ===== src/Profiler/Tests.antt =====
-- The theorems on src/lws_profiler.c at concrete inputs.
use nginx_lws.Base.{
  ℕ, ◌+◌, ◌-◌, ◌%◌, ◌≡◌, ◌⊎◌, refl, true, false, some, List, [], ◌∷◌, Bytes, bytes_of, arith,
}
use nginx_lws.State.Defs.{word}
use nginx_lws.Monitor.Defs.{Timespec, Shared, no_counters}
use nginx_lws.Monitor.Sound.{IsShared}
use nginx_lws.Profiler.Clock.{
  lws_add_timespec, lws_add_timespec_delta, nanos, IsTotal, lws_add_timespec-IsTotal,
  lws_add_timespec_delta-IsTotal,
}
use nginx_lws.Profiler.Hook.{Profile, Event, hook_call, hook_ret, Reading, lws_start_profiler}
use nginx_lws.Profiler.Depth.{HasDepths}
use nginx_lws.Profiler.Balance.{hooks, lws_profiler_hook-HasDepths}
use nginx_lws.Profiler.Sync.{Slab, lws_stop_profiler}
use nginx_lws.Profiler.Totals.{
  calls_of, record_calls, lws_stop_profiler-IsShared, lws_stop_profiler-calls,
}

abbrev time : ℕ → ℕ → Timespec
time s n = record { tv_sec = s; tv_nsec = n }

lws_add_timespec-IsTotal_example :
    IsTotal
      (nanos (time 1 600000000) + nanos (time 2 500000000))
      (lws_add_timespec (time 1 600000000) (time 2 500000000))
lws_add_timespec-IsTotal_example =
    lws_add_timespec-IsTotal (time 1 600000000) (time 2 500000000) (omega arith) (omega arith)

lws_add_timespec_delta-IsTotal_example :
    IsTotal
      (nanos (time 1 5) + nanos (time 8 3) - nanos (time 7 900000000))
      (lws_add_timespec_delta (time 1 5) (time 7 900000000) (time 8 3))
lws_add_timespec_delta-IsTotal_example =
    lws_add_timespec_delta-IsTotal (time 1 5) (time 7 900000000) (time 8 3) (omega arith)
      (omega arith) (omega arith) (omega arith)

abbrev reading : Bytes → ℕ → Reading
reading key n = record {
  time = some (time 1 n);
  entry_time = some (time 1 (n + 1));
  memory = 1000;
  key = key;
  record_ok = true;
  set_ok = true;
  grow_ok = true;
}

abbrev empty : Profile
empty = record { functions = []; stack = []; stack_alloc = 32 }

-- A function that calls another, which returns.
abbrev events : List (Event × Reading)
events =
    (hook_call, reading (bytes_of "f") 10)
    ∷ (hook_call, reading (bytes_of "g") 20)
    ∷ (hook_ret, reading (bytes_of "g") 30)
    ∷ []

lws_profiler_hook-HasDepths_example : HasDepths (hooks events empty)
unfolding lws_start_profiler
lws_profiler_hook-HasDepths_example =
    lws_profiler_hook-HasDepths empty events refl ((_, refl), ((_, refl), ((_, refl), tt)))

abbrev slab : Slab
slab = record { grow_ok = λ n. true; key_ok = λ n. true }

abbrev shared : Shared
shared = record {
  counters = no_counters;
  out_of_memory = false;
  functions_alloc = 1;
  functions =
      record {
        key = bytes_of "f";
        calls = 3;
        time_self = time 1 5;
        time_total = time 1 5;
        memory = 100;
      }
      ∷ [];
}

lws_stop_profiler-IsShared_example : IsShared (lws_stop_profiler slab (hooks events empty) shared)
lws_stop_profiler-IsShared_example =
    lws_stop_profiler-IsShared slab (hooks events empty) shared (omega arith)
      (record { profiler = omega arith; functions = omega arith })

lws_stop_profiler-calls_example :
    ((lws_stop_profiler slab (hooks events empty) shared).out_of_memory ≡ true)
    ⊎ (calls_of ((lws_stop_profiler slab (hooks events empty) shared).functions) % word
        ≡ (calls_of shared.functions + record_calls ((hooks events empty).functions)) % word)
lws_stop_profiler-calls_example = lws_stop_profiler-calls slab (hooks events empty) shared
