-- ===== src/Requests/Tasks.antt =====
-- The handlers of src/lws_module.c and src/lws_state.c that work on a posted task or an idle
-- state, and the invariant of a location.
use nginx_lws.Base.{
  ℕ, suc, ◌≤◌, ◌≡◌, refl, ap, ◌∙◌, sym, ◌==◌, true, false, Bool-cases, Option-cases, ◌⊎◌, inl, inr,
  none, some, List, [], ◌∷◌, length, arith,
}
use nginx_lws.State.Defs.{State, LocConf, Task, Location, Collection}
use nginx_lws.State.Ops.{
  Called, returned, failed, lws_run_state, lws_release_state, lws_close_state, remove_state,
  lws_state_timer_handler,
}
use nginx_lws.Requests.Ops.{
  take_task, run_task, lws_thread_handler, lws_finalization_handler, expire_idle, expire_used,
}
use nginx_lws.Requests.Count.{AreIdle, AreUsed, live, release-Released}
use nginx_lws.Requests.Invariant.{IsSound, IsWoken, IsConf, Queued, IsSound-by}
use nginx_lws.Requests.Handlers.{IsOk}

used_timer : (s : State) (p : Location) → s.in_use ≡ true → lws_state_timer_handler s p ≡ p
unfolding lws_state_timer_handler
used_timer s p h = rw (h, lws_state_timer_handler) refl

idle_timer :
    (s : State) (p : Location)
    → s.in_use ≡ false
    → lws_state_timer_handler s p
      ≡ lws_close_state s (record p { states = remove_state s.l p.states })
unfolding lws_state_timer_handler
idle_timer s p h = rw (h, lws_state_timer_handler) refl

-- A task and the others that it was among.
record Taken (ts : List Task) (r : Task × List Task) : Type 0 where
  size : length ts ≡ suc (length r.1)
  used : AreUsed ts → (r.0.state.in_use ≡ true) × AreUsed r.1

take_step :
    (request : ℕ) (t : Task) (ts : List Task) (r : Task × List Task)
    → take_task request (t ∷ ts) ≡ some r
    → ((r.0 ≡ t) × (r.1 ≡ ts))
      ⊎ ((r' : Task × List Task) × (take_task request ts ≡ some r')
          × (r.0 ≡ r'.0)
          × (r.1 ≡ t ∷ r'.1))
unfolding take_task
take_step request t ts r e = elim (Bool-cases (t.request == request)) [
  | inl here ↦
      let q : take_task request (t ∷ ts) ≡ some (t, ts) = rw here in
      let x : r ≡ (t, ts) = cc (q, e) in inl (ap (λ y. y.0) x, ap (λ y. y.1) x)
  | inr later ↦ elim (Option-cases (take_task request ts)) [
    | inl nowhere ↦
        let q : take_task request (t ∷ ts) ≡ none = rw later (rw nowhere) in absurd (cc (q, e))
    | inr (r', run) ↦
        let q : take_task request (t ∷ ts) ≡ some (r'.0, t ∷ r'.1) = rw later (rw run) in
        let x : r ≡ (r'.0, t ∷ r'.1) = cc (q, e) in inr (r', run, ap (λ y. y.0) x, ap (λ y. y.1) x)
  ]
]

take-Taken :
    (request : ℕ) (ts : List Task) (r : Task × List Task)
    → take_task request ts ≡ some r
    → Taken ts r
unfolding take_task
take-Taken request [] r e = absurd (ground arith)
take-Taken request (t ∷ ts) r e = elim (take_step request t ts r e) [
  | inl (a, b) ↦ record {
    size = ap (λ x. suc (length x)) (sym b);
    used = λ u. (rw a u.0, rw b u.1);
  }
  | inr (r', run, a, b) ↦
      let k = take-Taken request ts r' run in
      record {
        size = omega (arith, k.size, ap length b);
        used = λ u. (rw a (k.used u.1).0, rw b (u.0, (k.used u.1).1));
      }
]

-- One of the idle states
abbrev pub Listed : State → List State → Type 0
Listed s [] = ⊥
Listed s (x ∷ xs) = (x ≡ s) ⊎ Listed s xs

module _ (conf : LocConf) (conf_ok : IsConf conf) where
  IsWoken-by :
      (p p' : Location)
      → Queued p p'
      → IsWoken conf p
      → live p ≤ live p'
      → (p.states ≡ [] → p'.states ≡ [])
      → IsWoken conf p'
  IsWoken-by p p' q (inl e) l s = inl (q.requests ∙ e)
  IsWoken-by p p' q (inr (inl e)) l s = inr (inl (q.qev ∙ e))
  IsWoken-by p p' q (inr (inr (e, m, n))) l s = inr (inr (s e, m, omega (arith, n, l)))

  -- The tasks of a location with another task in the place of one.
  retask-IsOk :
      (request : ℕ) (p : Location) (r : Task × List Task) (t : Task)
      → take_task request p.tasks ≡ some r
      → t.state.in_use ≡ r.0.state.in_use
      → IsOk conf p
      → IsOk conf (record p { tasks = t ∷ r.1 })
  retask-IsOk request p r t e same v =
      let k = take-Taken request p.tasks r e in
      let q : Queued p (record p { tasks = t ∷ r.1 }) = record {
        requests = refl;
        requests_n = refl;
        qev = refl;
      } in
      record {
        sound =
            IsSound-by conf conf_ok v.sound q (omega (arith, v.sound.counted, k.size)) v.sound.idle
              (same ∙ (k.used v.sound.used).0, (k.used v.sound.used).1)
              (λ m. omega (arith, v.sound.limited m, k.size));
        woken = IsWoken-by p _ q v.woken (omega (arith, k.size)) (λ x. x);
      }

  run_in_use : (called : Called) (s : State) → (lws_run_state conf called s).0.in_use ≡ s.in_use
  unfolding lws_run_state
  run_in_use (returned result) s = refl
  run_in_use (failed msg copied) s = refl

  pub thread-IsOk :
      (called : Called) (request : ℕ) (p : Location)
      → IsOk conf p
      → IsOk conf (lws_thread_handler conf called request p)
  unfolding lws_thread_handler
  thread-IsOk called request p v = elim (Option-cases (take_task request p.tasks)) [
    | inl e ↦ rw (e, lws_thread_handler) v
    | inr (r, e) ↦
        rw (e, lws_thread_handler)
          (retask-IsOk request p r (run_task conf called r.0) e (run_in_use called r.0.state) v)
  ]

  -- The location without a task of it, whose state is in hand.
  finalize-IsSound :
      (now : ℕ) (gc : Collection) (request : ℕ) (p : Location) (r : Task × List Task)
      → take_task request p.tasks ≡ some r
      → IsOk conf p
      → IsSound conf (lws_release_state conf now gc r.0.state (record p { tasks = r.1 }))
  finalize-IsSound now gc request p r e v =
      let k = take-Taken request p.tasks r e in
      let p' : Location = record p { tasks = r.1 } in
      let n =
        release-Released conf now gc r.0.state p' (omega (arith, v.sound.counted, k.size))
          v.sound.idle in
      IsSound-by conf conf_ok v.sound
        (record { requests = n.same.requests; requests_n = n.same.requests_n; qev = n.same.qev })
        n.counted n.idle (rw n.same.tasks (k.used v.sound.used).1)
        (λ m. omega (arith, v.sound.limited m, k.size, n.fewer, ap length n.same.tasks))

  wake-IsOk :
      (p : Location) (requests : List ℕ)
      → p.requests ≡ requests
      → IsSound conf p
      → IsOk conf (elim p.requests [ [] ↦ p | _ ∷ _ ↦ record p { qev = true } ])
  wake-IsOk p [] e v = rw e (record { sound = v; woken = inl e })
  wake-IsOk p (x ∷ xs) e v = rw e (record {
    sound = record {
      counted = v.counted;
      queued = v.queued;
      idle = v.idle;
      used = v.used;
      limited = v.limited;
      bounded = v.bounded;
    };
    woken = inr (inl refl);
  })

  pub finalization-IsOk :
      (now : ℕ) (gc : Collection) (request : ℕ) (p : Location)
      → IsOk conf p
      → IsOk conf (lws_finalization_handler conf now gc request p)
  unfolding lws_finalization_handler
  finalization-IsOk now gc request p v = elim (Option-cases (take_task request p.tasks)) [
    | inl e ↦ rw (e, lws_finalization_handler) v
    | inr (r, e) ↦
        let s = finalize-IsSound now gc request p r e v in
        rw (e, lws_finalization_handler) (wake-IsOk _ _ refl s)
  ]

  -- A state in use is left to the request's end.
  pub expire_used-IsOk :
      (request : ℕ) (p : Location) → IsOk conf p → IsOk conf (expire_used request p)
  unfolding expire_used
  expire_used-IsOk request p v = elim (Option-cases (take_task request p.tasks)) [
    | inl e ↦ rw (e, expire_used) v
    | inr (r, e) ↦
        let k = (take-Taken request p.tasks r e).used v.sound.used in
        let s : State = record (r.0.state) { timer = none; timedout = true } in
        let t : Task = record (r.0) { state = s } in
        rw (e, expire_used)
          (rw (used_timer s (record p { tasks = t ∷ r.1 }) k.0)
            (retask-IsOk request p r t e refl v))
  ]

  remove-length :
      (s : State) (ss : List State) → Listed s ss → suc (length (remove_state s.l ss)) ≡ length ss
  unfolding remove_state
  remove-length s [] h = absurd h
  remove-length s (x ∷ xs) (inl e) = ground (arith, ap (λ y. y.l) e)
  remove-length s (x ∷ xs) (inr h) = ground (arith, remove-length s xs h)

  remove-idle : (l : ℕ) (ss : List State) → AreIdle ss → AreIdle (remove_state l ss)
  unfolding remove_state
  remove-idle l [] a = a
  remove-idle l (x ∷ xs) a = elim (Bool-cases (x.l == l)) [
    | inl e ↦ rw e a.1
    | inr e ↦ rw e (a.0, remove-idle l xs a.1)
  ]

  Listed-idle : (s : State) (ss : List State) → AreIdle ss → Listed s ss → s.in_use ≡ false
  Listed-idle s [] a h = absurd h
  Listed-idle s (x ∷ xs) a (inl e) = ap (λ y. y.in_use) (sym e) ∙ a.0
  Listed-idle s (x ∷ xs) a (inr h) = Listed-idle s xs a.1 h

  -- An idle state is closed.
  pub expire_idle-IsOk :
      (s : State) (p : Location) → Listed s p.states → IsOk conf p → IsOk conf (expire_idle s p)
  unfolding expire_idle lws_close_state
  expire_idle-IsOk s p h v =
      let u = Listed-idle s p.states v.sound.idle h in
      let n = remove-length s p.states h in
      let s' : State = record s { timer = none; timedout = true } in
      let p' : Location = lws_close_state s' (record p { states = remove_state s.l p.states }) in
      let q : Queued p p' = record { requests = refl; requests_n = refl; qev = refl } in
      let sound : IsSound conf p' =
        IsSound-by conf conf_ok v.sound q (omega (arith, v.sound.counted, n))
          (remove-idle s.l p.states v.sound.idle) v.sound.used
          (λ m. omega (arith, v.sound.limited m, n)) in
      rw (idle_timer s' p u) (record {
        sound = sound;
        woken = elim v.woken [
          | inl e ↦ inl e
          | inr w ↦ elim w [
            | inl e ↦ inr (inl e)
            | inr (e, m, l) ↦ absurd (omega (arith, n, ap length e))
          ]
        ];
      })
