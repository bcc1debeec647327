-- ===== src/Requests/Reach.antt =====
-- The locations that the handlers of src/lws_module.c and the timers of src/lws_state.c reach.
use nginx_lws.Base.{
  ℕ, zero, suc, ◌%◌, ◌<◌, ◌≤◌, ◌≡◌, ◌≢◌, refl, ap, Bool, true, false, ◌⊎◌, inl, inr, Option, [],
  length, arith,
}
use nginx_lws.State.Defs.{word, State, LocConf, Monitor, Location, Collection}
use nginx_lws.State.Ops.{Called}
use nginx_lws.Requests.Ops.{
  Handing, lws_body_handler, lws_queue_handler, lws_thread_handler, lws_finalization_handler,
  expire_idle, expire_used,
}
use nginx_lws.Requests.Count.{live}
use nginx_lws.Requests.Invariant.{IsConf}
use nginx_lws.Requests.Handlers.{IsOk, body-IsOk, queue-IsOk}
use nginx_lws.Requests.Tasks.{
  Listed, thread-IsOk, finalization-IsOk, expire_used-IsOk, expire_idle-IsOk,
}

-- A location after the configuration
abbrev pub initial : Option Monitor → Location
initial monitor = record {
  states = [];
  states_n = 0;
  requests = [];
  requests_n = 0;
  qev = false;
  tasks = [];
  monitor = monitor;
  refused = [];
}

-- Any sequence of the handlers. Each new Lua state is initialized, or is not opened at all.
pub data Reached (conf : LocConf) : Location → Type 0 where
  start : (monitor : Option Monitor) → Reached conf (initial monitor)
  body :
      (with_body : Bool) (h : Handing) (request : ℕ) (p : Location)
      → h.made.initialized ≡ true
      → Reached conf p
      → Reached conf (lws_body_handler conf with_body h request p)
  queue :
      (h : ℕ → Handing) (p : Location)
      → ((r : ℕ) → (h r).made.initialized ≡ true)
      → Reached conf p
      → Reached conf (lws_queue_handler conf h p)
  thread :
      (called : Called) (request : ℕ) (p : Location)
      → Reached conf p
      → Reached conf (lws_thread_handler conf called request p)
  finalization :
      (now : ℕ) (gc : Collection) (request : ℕ) (p : Location)
      → Reached conf p
      → Reached conf (lws_finalization_handler conf now gc request p)
  timer_used : (request : ℕ) (p : Location) → Reached conf p → Reached conf (expire_used request p)
  timer_idle :
      (s : State) (p : Location)
      → Listed s p.states
      → Reached conf p
      → Reached conf (expire_idle s p)

limit_or : (max n : ℕ) → (0 < max → n ≤ max) → (max ≡ 0) ⊎ (n ≤ max)
limit_or zero n h = inl refl
limit_or (suc m) n h = inr (h (omega arith))

module _ (conf : LocConf) (conf_ok : IsConf conf) where
  Reached-IsOk : (p : Location) → Reached conf p → IsOk conf p
  Reached-IsOk _ (start monitor) = record {
    sound = record {
      counted = refl;
      queued = refl;
      idle = tt;
      used = tt;
      limited = λ m. omega arith;
      bounded = λ m. omega arith;
    };
    woken = inl refl;
  }
  Reached-IsOk _ (body b h request p i r) =
      body-IsOk conf conf_ok b h request p i (Reached-IsOk p r)
  Reached-IsOk _ (queue h p i r) = queue-IsOk conf conf_ok h p i (Reached-IsOk p r)
  Reached-IsOk _ (thread called request p r) =
      thread-IsOk conf conf_ok called request p (Reached-IsOk p r)
  Reached-IsOk _ (finalization now gc request p r) =
      finalization-IsOk conf conf_ok now gc request p (Reached-IsOk p r)
  Reached-IsOk _ (timer_used request p r) =
      expire_used-IsOk conf conf_ok request p (Reached-IsOk p r)
  Reached-IsOk _ (timer_idle s p l r) = expire_idle-IsOk conf conf_ok s p l (Reached-IsOk p r)

  -- In every location that the handlers reach, the counters are, modulo 2 ^ 64, the numbers of the
  -- states, idle and in use, and of the queued requests; and the states are at most `states_max`
  -- if that is not 0, and the queued requests at most `requests_max` if that is not 0. The limits
  -- are below 2 ^ 64, and no Lua state fails to initialize.
  pub Reached-limits :
      (p : Location)
      → Reached conf p
      → (p.states_n ≡ live p % word)
        × (p.requests_n ≡ length p.requests % word)
        × ((conf.states_max ≡ 0) ⊎ (live p ≤ conf.states_max))
        × ((conf.requests_max ≡ 0) ⊎ (length p.requests ≤ conf.requests_max))
  Reached-limits p r =
      let v = (Reached-IsOk p r).sound in
      (
        v.counted,
        v.queued,
        limit_or conf.states_max (live p) v.limited,
        limit_or conf.requests_max (length p.requests) v.bounded,
      )

  -- In every location that the handlers reach, a queued request is not forgotten: the event of the
  -- queue is set, or a task is posted, at whose end the event is set. The limits are below 2 ^ 64,
  -- and no Lua state fails to initialize.
  pub Reached-awake :
      (p : Location) → Reached conf p → p.requests ≢ [] → (p.qev ≡ true) ⊎ (0 < length p.tasks)
  Reached-awake p r h = elim (Reached-IsOk p r).woken [
    | inl e ↦ absurd (h e)
    | inr w ↦ elim w [ inl e ↦ inl e | inr (e, m, l) ↦ inr (omega (arith, ap length e)) ]
  ]
