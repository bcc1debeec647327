-- ===== src/Requests/Invariant.antt =====
-- The invariant of a location of src/lws_module.c, kept by each handler.
use nginx_lws.Base.{
  ℕ, ◌+◌, ◌%◌, ◌<◌, ◌≤◌, ◌≡◌, refl, ap, ◌∙◌, sym, ◌==◌, ltb, true, false, ◌||◌, not, Bool-cases,
  ◌⊎◌, inl, inr, some, List, [], ◌∷◌, length, arith,
}
use nginx_lws.State.Defs.{State, LocConf, Location, word}
use nginx_lws.State.Ops.{lws_release_state}
use nginx_lws.Requests.Ops.{Handing, has_state, hand_over, lws_state_handler}
use nginx_lws.Requests.Count.{AreIdle, AreUsed, live, Acquired, acquire-Acquired, release-Released}

-- The counters count, the idle states are not in use and those of the tasks are, and the limits
-- hold.
pub record IsSound (conf : LocConf) (p : Location) : Type 0 where
  pub counted : p.states_n ≡ live p % word
  pub queued : p.requests_n ≡ length p.requests % word
  pub idle : AreIdle p.states
  pub used : AreUsed p.tasks
  pub limited : 0 < conf.states_max → live p ≤ conf.states_max
  pub bounded : 0 < conf.requests_max → length p.requests ≤ conf.requests_max

-- A queued request waits for the event of the queue, or for one of as many tasks as there may be.
abbrev pub IsWoken : LocConf → Location → Type 0
IsWoken conf p =
    (p.requests ≡ [])
    ⊎ ((p.qev ≡ true) ⊎ ((p.states ≡ []) × (0 < conf.states_max) × (conf.states_max ≤ live p)))

-- The limits are words.
abbrev pub IsConf : LocConf → Type 0
IsConf conf = (conf.states_max < word) × (conf.requests_max < word)

-- The same queue
pub record Queued (p p' : Location) : Type 0 where
  pub requests : p'.requests ≡ p.requests
  pub requests_n : p'.requests_n ≡ p.requests_n
  pub qev : p'.qev ≡ p.qev

none_idle : (ss : List State) → (elim ss [ [] ↦ false | s ∷ rest ↦ true ]) ≡ false → ss ≡ []
none_idle [] h = refl
none_idle (s ∷ ss) h = ground arith

module _ (conf : LocConf) (conf_ok : IsConf conf) where
  pub IsSound-by :
      {p p' : Location}
      → IsSound conf p
      → Queued p p'
      → p'.states_n ≡ live p' % word
      → AreIdle p'.states
      → AreUsed p'.tasks
      → (0 < conf.states_max → live p' ≤ conf.states_max)
      → IsSound conf p'
  IsSound-by v q c i u l = record {
    counted = c;
    queued = q.requests_n ∙ v.queued ∙ ap (λ rs. length rs % word) (sym q.requests);
    idle = i;
    used = u;
    limited = l;
    bounded = λ h. rw q.requests (v.bounded h);
  }

  -- What `has_state` tells of a sound location.
  pub has_state-true :
      (p : Location)
      → IsSound conf p
      → has_state conf p ≡ true
      → 0 < conf.states_max
      → p.states ≡ []
      → live p < conf.states_max
  unfolding has_state
  has_state-true p v h m e =
      let c : ltb p.states_n conf.states_max ≡ true = ground (arith, h, e) in
      let l = v.limited m in ground (arith, c, v.counted, conf_ok.0)

  pub has_state-false :
      (p : Location)
      → IsSound conf p
      → has_state conf p ≡ false
      → (p.states ≡ []) × (0 < conf.states_max) × (conf.states_max ≤ live p)
  unfolding has_state
  has_state-false p v h =
      let e : p.states ≡ [] = none_idle p.states (ground arith) in
      let m : (conf.states_max == 0) ≡ false = ground arith in
      let c : ltb p.states_n conf.states_max ≡ false = ground arith in
      (e, ground arith, ground (arith, v.counted))

  Acquired-limit :
      (p p' : Location)
      → IsSound conf p
      → Acquired p p'
      → has_state conf p ≡ true
      → 0 < conf.states_max
      → live p' + 1 ≤ conf.states_max
  Acquired-limit p p' v a has m = elim a.source [
    | inl one ↦ omega (arith, v.limited m, one, ap length a.same.tasks)
    | inr (e, e') ↦
        omega (arith, has_state-true p v has m e, ap length e, ap length e', ap length a.same.tasks)
  ]

  -- A sound location with a state for a request stays sound when the request is handed over.
  over :
      (h : Handing) (request : ℕ) (p p' : Location) (s : State)
      → IsSound conf p
      → s.in_use ≡ true
      → Acquired p p'
      → (0 < conf.states_max → live p' + 1 ≤ conf.states_max)
      → IsSound conf (hand_over conf h request (p', some s))
        × Queued p (hand_over conf h request (p', some s))
  unfolding hand_over
  over h request p p' s v u a within = elim (Bool-cases (not h.task || not h.posted)) [
    | inl fails ↦
        let r = release-Released conf h.now h.gc s p' a.counted a.idle in
        let q : Queued p (lws_release_state conf h.now h.gc s p') = record {
          requests = r.same.requests ∙ a.same.requests;
          requests_n = r.same.requests_n ∙ a.same.requests_n;
          qev = r.same.qev ∙ a.same.qev;
        } in
        let tasks = r.same.tasks ∙ a.same.tasks in
        let n =
          IsSound-by v q r.counted r.idle (rw tasks v.used)
            (λ m. omega (arith, within m, r.fewer, ap length r.same.tasks)) in
        rw fails (
          IsSound-by n (record { requests = refl; requests_n = refl; qev = refl }) n.counted n.idle
              n.used n.limited,
          record { requests = q.requests; requests_n = q.requests_n; qev = q.qev },
        )
    | inr posts ↦
        let q : Queued p p' = record {
          requests = a.same.requests;
          requests_n = a.same.requests_n;
          qev = a.same.qev;
        } in
        rw posts (
          IsSound-by v (record { requests = q.requests; requests_n = q.requests_n; qev = q.qev })
              (omega (arith, a.counted)) a.idle (u, rw a.same.tasks v.used)
              (λ m. omega (arith, within m)),
          record { requests = q.requests; requests_n = q.requests_n; qev = q.qev },
        )
  ]

  pub hand :
      (h : Handing) (request : ℕ) (p : Location)
      → h.made.initialized ≡ true
      → has_state conf p ≡ true
      → IsSound conf p
      → IsSound conf (lws_state_handler conf h request p)
        × Queued p (lws_state_handler conf h request p)
  unfolding lws_state_handler hand_over
  hand h request p i has v =
      elim (acquire-Acquired conf h.now h.made p p.states refl i v.counted v.idle) [
        | inl run ↦ rw run (
          IsSound-by v (record { requests = refl; requests_n = refl; qev = refl }) v.counted v.idle
              v.used v.limited,
          record { requests = refl; requests_n = refl; qev = refl },
        )
        | inr (s, p', run, u, a) ↦
            rw run (over h request p p' s v u a (Acquired-limit p p' v a has))
      ]
