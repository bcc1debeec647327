-- ===== src/Requests/Failure.antt =====
-- What a Lua state that fails to initialize does to the location: `lws_create_state` of
-- src/lws_state.c closes a state that it has not counted.
use nginx_lws.Base.{ℕ, ◌<◌, ◌≡◌, ◌-◌, refl, ap, true, false, Option, none, [], arith}
use nginx_lws.State.Defs.{word, LocConf, Monitor, Location}
use nginx_lws.State.Ops.{lws_close_state, lws_create_state, lws_acquire_state, opened_state}
use nginx_lws.Requests.Ops.{
  Handing, has_state, hand_over, refuse, ngx_http_internal_server_error, lws_state_handler,
  lws_body_handler,
}
use nginx_lws.Requests.Reach.{initial}

module _ (conf : LocConf) (h : Handing) (request : ℕ) (monitor : Option Monitor) where
  -- The location after the request
  abbrev pub failed : Location
  failed = lws_body_handler conf true h request (initial monitor)

  abbrev closed : Location
  closed = lws_close_state (opened_state conf h.made) (initial monitor)

  create_failed :
      h.made.allocated ≡ true
      → h.made.opened ≡ true
      → h.made.initialized ≡ false
      → lws_create_state conf h.now h.made (initial monitor) ≡ (closed, none)
  unfolding lws_create_state
  create_failed a o i = rw (a, o, i, lws_create_state) refl

  acquire_failed :
      (p : Location)
      → lws_create_state conf h.now h.made (initial monitor) ≡ (p, none)
      → lws_acquire_state conf h.now h.made (initial monitor) ≡ (p, none)
  unfolding lws_acquire_state
  acquire_failed p e = rw (e, lws_acquire_state) (ap (λ r. (r.0, none)) e)

  free_first : (p : Location) → p.states_n ≡ 0 → 0 < conf.states_max → has_state conf p ≡ true
  unfolding has_state
  free_first p z m = ground arith

  none_free :
      (p : Location)
      → p.states ≡ []
      → p.states_n ≡ word - 1
      → 0 < conf.states_max
      → conf.states_max < word
      → has_state conf p ≡ false
  unfolding has_state
  none_free p e n m w = ground (arith, e, n)

  handled :
      lws_acquire_state conf h.now h.made (initial monitor) ≡ (closed, none)
      → has_state conf (initial monitor) ≡ true
      → failed ≡ refuse request ngx_http_internal_server_error closed
  unfolding lws_body_handler lws_state_handler hand_over
  handled e f = rw (f, lws_body_handler) (rw (e, lws_state_handler) refl)

  closed_fields :
      (closed.states ≡ [])
      × (closed.tasks ≡ [])
      × (closed.qev ≡ false)
      × (closed.states_n ≡ word - 1)
  unfolding lws_close_state
  closed_fields = (refl, refl, refl, refl)

  -- Where the Lua state of the first request of a location with a limit below 2 ^ 64 fails to
  -- initialize, the counter of the states wraps around: there is no state, none is taken to be
  -- free, and no task is posted or event set at which a later request would be served.
  pub failed_init-blocks :
      0 < conf.states_max
      → conf.states_max < word
      → h.made.allocated ≡ true
      → h.made.opened ≡ true
      → h.made.initialized ≡ false
      → (failed.states ≡ [])
        × (failed.tasks ≡ [])
        × (failed.qev ≡ false)
        × (failed.states_n ≡ word - 1)
        × (has_state conf failed ≡ false)
  failed_init-blocks m w a o i =
      let run =
        handled (acquire_failed closed (create_failed a o i))
          (free_first (initial monitor) refl m) in
      let (e, t, q, n) = closed_fields in
      let p : Location = refuse request ngx_http_internal_server_error closed in
      rw run (e, t, q, n, none_free p e n m w)
