-- ===== src/State/Ops.antt =====
-- The operations of src/lws_state.c. The time, and what the allocator and Lua decide, are
-- arguments.
use nginx_lws.Base.{
  ℕ, ◌+◌, ◌==◌, ltb, leb, if◌then◌else◌, Bool, true, false, ◌&&◌, ◌||◌, not, Option, none, some,
  List, [], ◌∷◌, ℤ, negsuc,
}
use nginx_lws.State.Defs.{
  State, LocConf, Monitor, Location, Creation, Collection, add_word, sub_word, ngx_timer_infinite,
}

-- `ngx_del_timer`, then `ngx_add_timer`, which fires at `ngx_current_msec` and the delay.
unfoldable pub lws_set_state_timer : ℕ → State → State
lws_set_state_timer now s =
    if not (s.time_max == ngx_timer_infinite) || not (s.timeout == ngx_timer_infinite)
    then (let next = if ltb s.timeout s.time_max then s.timeout else s.time_max in
        record s { timer = some (add_word now (sub_word next now)) })
    else record s { timer = none }

-- `ngx_atomic_fetch_add` on a counter of the monitor, if there is one
abbrev pub count_state : (ℕ → ℕ) → Option Monitor → Option Monitor
count_state f none = none
count_state f (some m) = some (record m { states_n = f m.states_n })

abbrev pub count_memory : (ℕ → ℕ) → Option Monitor → Option Monitor
count_memory f none = none
count_memory f (some m) = some (record m { memory_used = f m.memory_used })

abbrev pub count_request : Option Monitor → Option Monitor
count_request none = none
count_request (some m) = some (record m { request_count = add_word m.request_count 1 })

abbrev pub profiler_of : Option Monitor → ℕ
profiler_of none = 0
profiler_of (some m) = m.profiler

abbrev pub has_monitor : Option Monitor → Bool
has_monitor none = false
has_monitor (some m) = true

-- The state itself is freed.
unfoldable pub lws_close_state : State → Location → Location
lws_close_state s p = record p {
  states_n = sub_word p.states_n 1;
  monitor =
      count_memory (λ n. sub_word n s.memory_monitor) (count_state (λ n. sub_word n 1) p.monitor);
}

-- The state as `ngx_calloc` and `lua_newstate` leave it.
abbrev pub opened_state : LocConf → Creation → State
opened_state conf made = record {
  l = made.l;
  memory_used = 0;
  memory_max = if ltb 0 conf.state_memory_max then conf.state_memory_max else 0;
  memory_monitor = 0;
  request_count = 0;
  time_max = 0;
  timeout = 0;
  timer = none;
  timedout = false;
  in_use = false;
  close = false;
  profiler = 0;
}

-- The state once it is initialized.
abbrev pub new_state : LocConf → ℕ → Creation → State
unfolding lws_set_state_timer
new_state conf now made = lws_set_state_timer now (record (opened_state conf made) {
  time_max =
      if conf.state_time_max == 0 then ngx_timer_infinite else add_word now conf.state_time_max;
  timeout = ngx_timer_infinite;
})

-- None is the null pointer. The count of a limited allocator enters where the
-- state is released.
unfoldable pub lws_create_state : LocConf → ℕ → Creation → Location → Location × Option State
unfolding lws_set_state_timer lws_close_state
lws_create_state conf now made p =
    let s = opened_state conf made in
    if not made.allocated
    then (p, none)
    else if not made.opened
    then (p, none)
    else if not made.initialized
    then (lws_close_state s p, none)
    else (
      record p {
        states_n = add_word p.states_n 1;
        monitor = count_state (λ n. add_word n 1) p.monitor;
      },
      some (new_state conf now made),
    )

-- `in_use` and the profiler of an acquired state
abbrev pub used_state : Option Monitor → State → State
used_state m s = record s { profiler = profiler_of m; in_use = true }

abbrev pub without_timeout : LocConf → ℕ → State → State
unfolding lws_set_state_timer
without_timeout conf now s =
    if ltb 0 conf.state_timeout
    then lws_set_state_timer now (record s { timeout = ngx_timer_infinite })
    else s

-- None is the result -1.
unfoldable pub lws_acquire_state : LocConf → ℕ → Creation → Location → Location × Option State
unfolding lws_create_state lws_set_state_timer
lws_acquire_state conf now made p = elim p.states [
  | s ∷ rest ↦
      (record p { states = rest }, some (used_state p.monitor (without_timeout conf now s)))
  | [] ↦
      let r = lws_create_state conf now made p in
      elim r.1 [ none ↦ (r.0, none) | some s ↦ (r.0, some (used_state r.0.monitor s)) ]
]

-- The memory in use once a released state has been collected as needed. With a limit the allocator
-- has kept the count while Lua ran; else it is read from Lua where it is needed.
unfoldable pub released_memory : LocConf → Collection → Bool → State → ℕ
released_memory conf gc monitored s =
    let used =
      if conf.state_memory_max == 0 && not (ltb 0 conf.state_gc || monitored)
      then s.memory_used
      else gc.before in
    if ltb 0 conf.state_gc && ltb conf.state_gc used then gc.after else used

abbrev pub is_finished : LocConf → State → Bool
is_finished conf s =
    s.close
    || s.timedout
    || (ltb 0 conf.state_requests_max && leb conf.state_requests_max s.request_count)

unfoldable pub lws_release_state : LocConf → ℕ → Collection → State → Location → Location
unfolding lws_close_state lws_set_state_timer released_memory
lws_release_state conf now gc state p₀ =
    let s = record state { request_count = state.request_count + 1 } in
    let p = record p₀ { monitor = count_request p₀.monitor } in
    if is_finished conf s
    then lws_close_state s p
    else (let used = released_memory conf gc (has_monitor p.monitor) s in
        let s₁ = record s {
          memory_used = used;
          memory_monitor = if has_monitor p.monitor then used else s.memory_monitor;
        } in
        let s₂ =
          if ltb 0 conf.state_timeout
          then lws_set_state_timer now (record s₁ { timeout = add_word now conf.state_timeout })
          else s₁ in
        record p {
          states = record s₂ { in_use = false } ∷ p.states;
          monitor = count_memory (λ n. add_word n (sub_word used s.memory_monitor)) p.monitor;
        })

-- `ngx_queue_remove`
unfoldable pub remove_state : ℕ → List State → List State
remove_state l [] = []
remove_state l (s ∷ rest) = if s.l == l then rest else s ∷ remove_state l rest

unfoldable pub lws_state_timer_handler : State → Location → Location
unfolding remove_state lws_close_state
lws_state_timer_handler s p =
    if not s.in_use then lws_close_state s (record p { states = remove_state s.l p.states }) else p

-- What `lua_pcall` of `lws_run` gives, and whether the copy of the message is allocated.
pub data Called : Type 0 where
  returned : ℤ → Called
  failed : List ℕ → Bool → Called

-- The new state, the result and the diagnostic.
unfoldable pub lws_run_state : LocConf → Called → State → State × ℤ × List ℕ
lws_run_state conf (returned result) s = (s, result, [])
lws_run_state conf (failed msg copied) s =
    (record s { close = true }, negsuc 0, if conf.diagnostic && copied then msg else [])
