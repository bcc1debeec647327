-- ===== src/Requests/Handlers.antt =====
-- The handlers of src/lws_module.c and the invariant of a location.
use nginx_lws.Base.{
  ℕ, ◌≡◌, refl, ap, ◌∙◌, ◌==◌, ltb, Bool, true, false, ◌||◌, Bool-cases, ◌⊎◌, inl, inr, List, [],
  ◌∷◌, length, length-append, arith,
}
use nginx_lws.State.Defs.{LocConf, Location, sub_word}
use nginx_lws.Requests.Ops.{
  Handing, refuse, has_state, lws_state_handler, count_queued, lws_body_handler, serve,
  lws_queue_handler, ngx_http_internal_server_error, ngx_http_service_unavailable,
}
use nginx_lws.Requests.Invariant.{
  IsSound, IsWoken, IsConf, Queued, IsSound-by, has_state-true, has_state-false, hand,
}

-- The invariant
pub record IsOk (conf : LocConf) (p : Location) : Type 0 where
  pub sound : IsSound conf p
  pub woken : IsWoken conf p

module _ (conf : LocConf) (conf_ok : IsConf conf) where
  -- Where there is a state for a request, the queue is empty or its event is set.
  woken_has :
      (p : Location)
      → IsSound conf p
      → IsWoken conf p
      → has_state conf p ≡ true
      → (p.requests ≡ []) ⊎ (p.qev ≡ true)
  woken_has p v (inl e) h = inl e
  woken_has p v (inr (inl e)) h = inr e
  woken_has p v (inr (inr (e, m, l))) h =
      absurd (omega (arith, has_state-true conf conf_ok p v h m e))

  IsWoken-same :
      (p p' : Location) → Queued p p' → (p.requests ≡ []) ⊎ (p.qev ≡ true) → IsWoken conf p'
  IsWoken-same p p' q (inl e) = inl (q.requests ∙ e)
  IsWoken-same p p' q (inr e) = inr (inl (q.qev ∙ e))

  refuse-IsOk :
      (request status : ℕ) (p : Location) → IsOk conf p → IsOk conf (refuse request status p)
  refuse-IsOk request status p v = record {
    sound =
        IsSound-by conf conf_ok v.sound (record { requests = refl; requests_n = refl; qev = refl })
          v.sound.counted v.sound.idle v.sound.used v.sound.limited;
    woken = v.woken;
  }

  pub body-IsOk :
      (body : Bool) (h : Handing) (request : ℕ) (p : Location)
      → h.made.initialized ≡ true
      → IsOk conf p
      → IsOk conf (lws_body_handler conf body h request p)
  unfolding lws_body_handler
  body-IsOk false h request p i v = refuse-IsOk request ngx_http_internal_server_error p v
  body-IsOk true h request p i v = elim (Bool-cases (has_state conf p)) [
    | inl has ↦
        let (s, q) = hand conf conf_ok h request p i has v.sound in
        rw (has, lws_body_handler)
          (record { sound = s; woken = IsWoken-same p _ q (woken_has p v.sound v.woken has) })
    | inr lacks ↦ elim (Bool-cases (conf.requests_max == 0 || ltb p.requests_n conf.requests_max)) [
      | inr over ↦
          rw (lacks, over, lws_body_handler) (refuse-IsOk request ngx_http_service_unavailable p v)
      | inl room ↦
          let size = length-append p.requests (request ∷ []) in
          let full = has_state-false conf conf_ok p v.sound lacks in
          rw (lacks, room, lws_body_handler)
            (record {
              sound = record {
                counted = v.sound.counted;
                queued = omega (arith, v.sound.queued, size);
                idle = v.sound.idle;
                used = v.sound.used;
                limited = v.sound.limited;
                bounded =
                    λ m. ground (arith, size, room, v.sound.queued, v.sound.bounded m, conf_ok.1);
              };
              woken = inr (inr full);
            })
    ]
  ]

  -- The loop ends with an empty queue, or without a state for the next request.
  serve-IsOk :
      (h : ℕ → Handing) (rs : List ℕ) (p : Location)
      → ((r : ℕ) → (h r).made.initialized ≡ true)
      → p.requests ≡ rs
      → IsSound conf p
      → IsOk conf (serve conf h rs p)
  unfolding serve has_state
  serve-IsOk h [] p i e v = record { sound = v; woken = inl e }
  serve-IsOk h (r ∷ rs) p i e v = elim (Bool-cases (has_state conf p)) [
    | inr lacks ↦
        rw (lacks, serve)
          (record { sound = v; woken = inr (inr (has_state-false conf conf_ok p v lacks)) })
    | inl has ↦
        let q : Location = count_queued (λ n. sub_word n 1) (record p { requests = rs }) in
        let sq : IsSound conf q = record {
          counted = v.counted;
          queued = omega (arith, v.queued, ap length e);
          idle = v.idle;
          used = v.used;
          limited = v.limited;
          bounded = λ m. omega (arith, v.bounded m, ap length e);
        } in
        let (s, k) = hand conf conf_ok (h r) r q (i r) has sq in
        rw (has, serve) (serve-IsOk h rs (lws_state_handler conf (h r) r q) i k.requests s)
  ]

  pub queue-IsOk :
      (h : ℕ → Handing) (p : Location)
      → ((r : ℕ) → (h r).made.initialized ≡ true)
      → IsOk conf p
      → IsOk conf (lws_queue_handler conf h p)
  unfolding lws_queue_handler
  queue-IsOk h p i v =
      serve-IsOk h p.requests (record p { qev = false }) i refl
        (record {
          counted = v.sound.counted;
          queued = v.sound.queued;
          idle = v.sound.idle;
          used = v.sound.used;
          limited = v.sound.limited;
          bounded = v.sound.bounded;
        })
