-- ===== src/Requests/Ops.antt =====
-- The handlers of src/lws_module.c that admit, queue, run and end requests.
use nginx_lws.Base.{
  ℕ, ◌==◌, ltb, if◌then◌else◌, Bool, true, false, ◌||◌, not, Option, none, some, List, [], ◌∷◌,
  ◌++◌, pos,
}
use nginx_lws.State.Defs.{State, LocConf, Task, Location, Creation, Collection, add_word, sub_word}
use nginx_lws.State.Ops.{
  Called, lws_acquire_state, lws_release_state, lws_run_state, lws_state_timer_handler,
}

-- NGX_HTTP_INTERNAL_SERVER_ERROR and NGX_HTTP_SERVICE_UNAVAILABLE
abbrev pub ngx_http_internal_server_error : ℕ
ngx_http_internal_server_error = 500

abbrev pub ngx_http_service_unavailable : ℕ
ngx_http_service_unavailable = 503

-- What the environment decides where a request is handed to a thread: the time, the creation of a
-- state, the allocation of the task, its posting, and the collection where the state is released.
pub record Handing : Type 0 where
  pub now : ℕ
  pub made : Creation
  pub task : Bool
  pub posted : Bool
  pub gc : Collection

-- `ngx_http_finalize_request` with an error
abbrev pub refuse : ℕ → ℕ → Location → Location
refuse request status p = record p { refused = (request, status) ∷ p.refused }

-- `!ngx_queue_empty(&llcf->states) || llcf->states_max == 0 || llcf->states_n < llcf->states_max`
unfoldable pub has_state : LocConf → Location → Bool
has_state conf p =
    (elim p.states [ [] ↦ false | s ∷ rest ↦ true ])
    || (conf.states_max == 0 || ltb p.states_n conf.states_max)

-- The handing over once `lws_acquire_state` has returned.
unfoldable pub hand_over : LocConf → Handing → ℕ → Location × Option State → Location
unfolding lws_release_state
hand_over conf h request (p, none) = refuse request ngx_http_internal_server_error p
hand_over conf h request (p, some s) =
    if not h.task || not h.posted
    then refuse request ngx_http_internal_server_error (lws_release_state conf h.now h.gc s p)
    else record p {
      tasks = record { request = request; state = s; rc = pos 0; diagnostic = [] } ∷ p.tasks;
    }

unfoldable pub lws_state_handler : LocConf → Handing → ℕ → Location → Location
unfolding lws_acquire_state hand_over
lws_state_handler conf h request p =
    hand_over conf h request (lws_acquire_state conf h.now h.made p)

-- The counter of queued requests, in the location and in the monitor
abbrev pub count_queued : (ℕ → ℕ) → Location → Location
count_queued f p = record p {
  requests_n = f p.requests_n;
  monitor = elim p.monitor [
    | none ↦ none
    | some m ↦ some (record m { requests_n = f m.requests_n })
  ];
}

-- `body` is whether the request has a body, and its stream is opened.
unfoldable pub lws_body_handler : LocConf → Bool → Handing → ℕ → Location → Location
unfolding has_state lws_state_handler
lws_body_handler conf body h request p =
    if not body
    then refuse request ngx_http_internal_server_error p
    else if has_state conf p
    then lws_state_handler conf h request p
    else if conf.requests_max == 0 || ltb p.requests_n conf.requests_max
    then (let q = count_queued (λ n. add_word n 1) p in
        record q { requests = q.requests ++ request ∷ [] })
    else refuse request ngx_http_service_unavailable p

-- The loop of `lws_queue_handler` on the queued requests; `h` decides for each.
unfoldable pub serve : LocConf → (ℕ → Handing) → List ℕ → Location → Location
unfolding has_state lws_state_handler
serve conf h [] p = p
serve conf h (request ∷ rest) p =
    let q = count_queued (λ n. sub_word n 1) (record p { requests = rest }) in
    let next = serve conf h rest (lws_state_handler conf (h request) request q) in
    if has_state conf p then next else p

-- The event of the timer `qev`, which is no longer set.
unfoldable pub lws_queue_handler : LocConf → (ℕ → Handing) → Location → Location
unfolding serve
lws_queue_handler conf h p = serve conf h p.requests (record p { qev = false })

-- The task of a request, and the others.
unfoldable pub take_task : ℕ → List Task → Option (Task × List Task)
take_task request [] = none
take_task request (t ∷ ts) =
    if t.request == request
    then some (t, ts)
    else (elim (take_task request ts) [ none ↦ none | some r ↦ some (r.0, t ∷ r.1) ])

-- The thread of a task: `ctx->rc = lws_run_state(ctx)`.
abbrev pub run_task : LocConf → Called → Task → Task
unfolding lws_run_state
run_task conf called t =
    let r = lws_run_state conf called t.state in
    record t { state = r.0; rc = r.1; diagnostic = r.2 }

unfoldable pub lws_thread_handler : LocConf → Called → ℕ → Location → Location
unfolding take_task lws_run_state
lws_thread_handler conf called request p = elim (take_task request p.tasks) [
  | none ↦ p
  | some r ↦ record p { tasks = run_task conf called r.0 ∷ r.1 }
]

-- The part of `lws_finalization_handler` that releases the state and wakes the queue; the answer to
-- the request is not modelled.
unfoldable pub lws_finalization_handler : LocConf → ℕ → Collection → ℕ → Location → Location
unfolding take_task lws_release_state
lws_finalization_handler conf now gc request p = elim (take_task request p.tasks) [
  | none ↦ p
  | some r ↦
      let q = lws_release_state conf now gc r.0.state (record p { tasks = r.1 }) in
      elim q.requests [ [] ↦ q | _ ∷ _ ↦ record q { qev = true } ]
]

-- The timer of an idle state or of a state in use. nginx clears the timer and sets `timedout`; the
-- handler is called with the state.
unfoldable pub expire_idle : State → Location → Location
unfolding lws_state_timer_handler
expire_idle s p = lws_state_timer_handler (record s { timer = none; timedout = true }) p

unfoldable pub expire_used : ℕ → Location → Location
unfolding take_task lws_state_timer_handler
expire_used request p = elim (take_task request p.tasks) [
  | none ↦ p
  | some r ↦
      let s = record (r.0.state) { timer = none; timedout = true } in
      lws_state_timer_handler s (record p { tasks = record (r.0) { state = s } ∷ r.1 })
]
