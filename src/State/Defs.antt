-- ===== src/State/Defs.antt =====
-- The Lua states and the counters of src/lws_state.h, src/lws_module.h and src/lws_monitor.h. The
-- model has one location with its queues; the Lua state itself is not modelled.
use nginx_lws.Base.{ℕ, ◌+◌, ◌-◌, ◌%◌, Bool, Option, List, ℤ}

-- The values of size_t, ngx_uint_t and ngx_msec_t are below this.
abbrev pub word : ℕ
word = 18446744073709551616

-- `a + b` and `a - b` of unsigned words
abbrev pub add_word : ℕ → ℕ → ℕ
add_word a b = (a + b) % word

abbrev pub sub_word : ℕ → ℕ → ℕ
sub_word a b = (a + (word - b % word)) % word

-- `(ngx_msec_t)-1`
abbrev pub ngx_timer_infinite : ℕ
ngx_timer_infinite = 18446744073709551615

-- `lws_state_t`, without `lmcf` and `llcf`, which are the same for all, and without `init`, which only
-- `lws_run` uses. `l` stands for the pointer `L`; `timer` is the time at which `tev` fires, while its
-- timer is set.
pub record State : Type 0 where
  pub l : ℕ
  pub memory_used : ℕ
  pub memory_max : ℕ
  pub memory_monitor : ℕ
  pub request_count : ℕ
  pub time_max : ℕ
  pub timeout : ℕ
  pub timer : Option ℕ
  pub timedout : Bool
  pub in_use : Bool
  pub close : Bool
  pub profiler : ℕ

-- The members of `lws_loc_conf_t` that limit the states and the requests.
pub record LocConf : Type 0 where
  pub states_max : ℕ
  pub requests_max : ℕ
  pub state_requests_max : ℕ
  pub state_time_max : ℕ
  pub state_timeout : ℕ
  pub state_memory_max : ℕ
  pub state_gc : ℕ
  pub diagnostic : Bool

-- `lws_monitor_t`, the shared counters
pub record Monitor : Type 0 where
  pub states_n : ℕ
  pub requests_n : ℕ
  pub request_count : ℕ
  pub memory_used : ℕ
  pub profiler : ℕ

-- A request context with its posted task: `ctx->state`, and what the thread leaves in `ctx->rc` and
-- `ctx->diagnostic`.
pub record Task : Type 0 where
  pub request : ℕ
  pub state : State
  pub rc : ℤ
  pub diagnostic : List ℕ

-- The state of a location: the queues `states` and `requests` from the head, their counters, the
-- timer of `qev`, the posted tasks, and the counters of the monitor where there is one.
pub record Location : Type 0 where
  pub states : List State
  pub states_n : ℕ
  pub requests : List ℕ
  pub requests_n : ℕ
  pub qev : Bool
  pub tasks : List Task
  pub monitor : Option Monitor
  -- the requests that have been finalized with an error, each with its status
  pub refused : List (ℕ × ℕ)

-- What the environment decides where a state is created: whether the structure is allocated,
-- whether Lua is, and whether `lws_init` runs without an error.
pub record Creation : Type 0 where
  pub allocated : Bool
  pub opened : Bool
  pub initialized : Bool
  pub l : ℕ

-- What Lua gives where a state is released: the memory in use before and after a collection.
pub record Collection : Type 0 where
  pub before : ℕ
  pub after : ℕ
