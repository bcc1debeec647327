-- ===== src/Requests/Count.antt =====
-- What the acquiring and the releasing of a state do to the counter of the states of a location.
use nginx_lws.Base.{
  ℕ, ◌+◌, ◌%◌, ◌≤◌, ◌≡◌, refl, ap, true, false, ◌&&◌, Bool-cases, ◌⊎◌, inl, inr, none, some, List,
  [], ◌∷◌, length, arith,
}
use nginx_lws.State.Defs.{
  State, LocConf, Task, Location, Creation, Collection, word, add_word, sub_word,
}
use nginx_lws.State.Ops.{
  lws_close_state, lws_create_state, lws_acquire_state, lws_release_state, is_finished, used_state,
  new_state, without_timeout, count_state,
}

abbrev pub AreIdle : List State → Type 0
AreIdle [] = Unit {0}
AreIdle (s ∷ ss) = (s.in_use ≡ false) × AreIdle ss

abbrev pub AreUsed : List Task → Type 0
AreUsed [] = Unit {0}
AreUsed (t ∷ ts) = (t.state.in_use ≡ true) × AreUsed ts

-- The states of a location, idle or in use.
abbrev pub live : Location → ℕ
live p = length p.states + length p.tasks

-- The same requests, event and tasks.
pub record Same (p p' : Location) : Type 0 where
  pub requests : p'.requests ≡ p.requests
  pub requests_n : p'.requests_n ≡ p.requests_n
  pub qev : p'.qev ≡ p.qev
  pub tasks : p'.tasks ≡ p.tasks

pub inc_word : (n : ℕ) → add_word (n % word) 1 ≡ (n + 1) % word
inc_word n = omega arith

pub dec_word : (n : ℕ) → sub_word ((n + 1) % word) 1 ≡ n % word
dec_word n = omega arith

-- What an acquired state leaves: the state came from the idle ones, or it is new and there were
-- none.
pub record Acquired (p p' : Location) : Type 0 where
  pub same : Same p p'
  pub counted : p'.states_n ≡ (live p' + 1) % word
  pub idle : AreIdle p'.states
  pub source : (length p.states ≡ length p'.states + 1) ⊎ ((p.states ≡ []) × (p'.states ≡ []))

-- What a released state leaves: it is one of the idle ones, or it is closed.
pub record Released (p p' : Location) : Type 0 where
  pub same : Same p p'
  pub counted : p'.states_n ≡ live p' % word
  pub idle : AreIdle p'.states
  pub fewer : length p'.states ≤ length p.states + 1

module _ (conf : LocConf) (now : ℕ) where
  acquire_idle :
      (made : Creation) (p : Location) (s : State) (rest : List State)
      → p.states ≡ s ∷ rest
      → lws_acquire_state conf now made p
        ≡ (record p { states = rest }, some (used_state p.monitor (without_timeout conf now s)))
  unfolding lws_acquire_state
  acquire_idle made p s rest e = rw (e, lws_acquire_state) refl

  acquire_none :
      (made : Creation) (p : Location)
      → p.states ≡ []
      → made.initialized ≡ true
      → (made.allocated && made.opened) ≡ false
      → lws_acquire_state conf now made p ≡ (p, none)
  unfolding lws_acquire_state lws_create_state
  acquire_none made p e i f = ground arith

  create_new :
      (made : Creation) (p : Location)
      → made.initialized ≡ true
      → (made.allocated && made.opened) ≡ true
      → lws_create_state conf now made p ≡ (
        record p {
          states_n = add_word p.states_n 1;
          monitor = count_state (λ n. add_word n 1) p.monitor;
        },
        some (new_state conf now made),
      )
  unfolding lws_create_state
  create_new made p i f =
      let a : made.allocated ≡ true = ground arith in
      let o : made.opened ≡ true = ground arith in rw (a, o, i, lws_create_state) refl

  acquire_new :
      (made : Creation) (p : Location)
      → p.states ≡ []
      → made.initialized ≡ true
      → (made.allocated && made.opened) ≡ true
      → lws_acquire_state conf now made p ≡ (
        record p {
          states = [];
          states_n = add_word p.states_n 1;
          monitor = count_state (λ n. add_word n 1) p.monitor;
        },
        some (used_state (count_state (λ n. add_word n 1) p.monitor) (new_state conf now made)),
      )
  unfolding lws_acquire_state
  acquire_new made p e i f =
      let m = count_state (λ n. add_word n 1) p.monitor in
      rw (e, lws_acquire_state)
        (rw (create_new made p i f) (
          rw (create_new made p i f) (
            ap
              (λ ss. (
                record p { states = ss; states_n = add_word p.states_n 1; monitor = m },
                some (used_state m (new_state conf now made)),
              ))
              e)))

  -- With the states counted, an acquired state is in use, and nothing changes where none is
  -- acquired.
  pub acquire-Acquired :
      (made : Creation) (p : Location) (states : List State)
      → p.states ≡ states
      → made.initialized ≡ true
      → p.states_n ≡ live p % word
      → AreIdle p.states
      → ((lws_acquire_state conf now made p ≡ (p, none)))
        ⊎ ((s : State) × (p' : Location) × (lws_acquire_state conf now made p ≡ (p', some s))
            × (s.in_use ≡ true)
            × Acquired p p')
  acquire-Acquired made p (s ∷ rest) e i c a = inr (
    used_state p.monitor (without_timeout conf now s),
    record p { states = rest },
    acquire_idle made p s rest e,
    refl,
    record {
      same = record { requests = refl; requests_n = refl; qev = refl; tasks = refl };
      counted = omega (arith, c, ap length e);
      idle = (rw e at a).1;
      source = inl (omega (arith, ap length e));
    },
  )
  acquire-Acquired made p [] e i c a = elim (Bool-cases (made.allocated && made.opened)) [
    | inr f ↦ inl (acquire_none made p e i f)
    | inl f ↦ inr (
      _,
      _,
      acquire_new made p e i f,
      refl,
      record {
        same = record { requests = refl; requests_n = refl; qev = refl; tasks = refl };
        counted = omega (arith, c, ap length e);
        idle = tt;
        source = inr (e, refl);
      },
    )
  ]

  pub release-Released :
      (gc : Collection) (s : State) (p : Location)
      → p.states_n ≡ (live p + 1) % word
      → AreIdle p.states
      → Released p (lws_release_state conf now gc s p)
  unfolding lws_release_state lws_close_state
  release-Released gc s p c a =
      elim (Bool-cases (is_finished conf (record s { request_count = s.request_count + 1 }))) [
        | inl done ↦
            rw (done, lws_release_state, lws_close_state)
              (record {
                same = record { requests = refl; requests_n = refl; qev = refl; tasks = refl };
                counted = omega (arith, c);
                idle = a;
                fewer = omega arith;
              })
        | inr more ↦
            rw (more, lws_release_state)
              (record {
                same = record { requests = refl; requests_n = refl; qev = refl; tasks = refl };
                counted = omega (arith, c);
                idle = (refl, a);
                fewer = omega arith;
              })
      ]
