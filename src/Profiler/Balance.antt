-- ===== src/Profiler/Balance.antt =====
-- The hook of src/lws_profiler.c and the depths of the records.
use nginx_lws.Base.{
  ℕ, suc, ◌%◌, ◌≡◌, refl, sym, ap, subst, ◌∙◌, if◌then◌else◌, Bool, true, false, inl, inr,
  Option-cases, Option, some_injective, none, some, List, [], ◌∷◌, Bytes, arith,
}
use nginx_lws.State.Defs.{word}
use nginx_lws.Monitor.Defs.{Timespec}
use nginx_lws.Profiler.Hook.{
  Activation, find_record, Profile, Event, hook_call, hook_tail_call, hook_ret, enters, Reading,
  process_exit, enter_function, enter_record, process_entry, after_transition, lws_profiler_hook,
  lws_start_profiler,
}
use nginx_lws.Profiler.Depth.{
  count, Depths, HasDepths, profile, put_record-Depths, count_head, count_other,
  process_exit-Depths, Entered, enter_function-Entered,
}

enter_record_depth :
    (event : Event) (time : Timespec) (memory : ℕ) (a : Activation) (n : ℕ)
    → enters event ≡ true
    → a.depth ≡ n % word
    → (enter_record event time memory a).depth ≡ suc n % word
unfolding enter_record
enter_record_depth hook_call time memory a n h e = omega arith
enter_record_depth hook_tail_call time memory a n h e = omega arith
enter_record_depth hook_ret time memory a n h e = absurd (ground arith)

entry-HasDepths :
    (event : Event) (t : Timespec) (memory : ℕ) (p : Profile) (key : Bytes) (old : List Bytes)
    → enters event ≡ true
    → Depths p.functions old
    → p.stack ≡ key ∷ old
    → HasDepths ((process_entry event (some t) memory p).0)
unfolding process_entry
entry-HasDepths event t memory p key old h d e =
    subst
      (λ s.
        HasDepths ((process_entry event (some t) memory (profile p.functions s p.stack_alloc)).0))
      (sym e)
      (put_record-Depths p.functions old (key ∷ old) key _ d
        (enter_record_depth event t memory (find_record p.functions key) (count key old) h (d key)
          ∙ ap (λ n. n % word) (sym (count_head key old)))
        (λ j k. count_other key j old k))

return_stack-HasDepths :
    (t : Option Timespec) (memory : ℕ) (rs : List (Bytes × Activation)) (n : ℕ) (stack : List Bytes)
    → Depths rs stack
    → HasDepths ((process_entry hook_ret t memory (profile rs stack n)).0)
unfolding process_entry enter_record
return_stack-HasDepths t memory rs n [] d = d
return_stack-HasDepths none memory rs n (key ∷ keys) d = d
return_stack-HasDepths (some t) memory rs n (key ∷ keys) d =
    put_record-Depths rs (key ∷ keys) (key ∷ keys) key _ d (d key) (λ j _. refl)

-- Whether the clock does not fail at the entry to a function.
abbrev pub IsTimed : Reading → Type 0
IsTimed e = (t : Timespec) × (e.entry_time ≡ some t)

enters-HasDepths :
    (event : Event) (e : Reading) (p : Profile) (r : Profile × Bool)
    → enters event ≡ true
    → IsTimed e
    → Entered e p r
    → HasDepths ((after_transition event e r).0)
unfolding Entered
enters-HasDepths event e p (q, true) h (t, k) (d, s) =
    subst (λ o. HasDepths ((process_entry event o e.memory q).0)) (sym k)
      (entry-HasDepths event t e.memory q e.key p.stack h d s)
enters-HasDepths event e p (q, false) h k d = d

transition-HasDepths :
    (event : Event) (e : Reading) (q : Profile)
    → IsTimed e
    → HasDepths q
    → HasDepths
        ((after_transition event e (if enters event then enter_function e q else (q, true))).0)
transition-HasDepths hook_call e q t d =
    enters-HasDepths hook_call e q (enter_function e q) refl t (enter_function-Entered e q d)
transition-HasDepths hook_tail_call e q t d =
    enters-HasDepths hook_tail_call e q (enter_function e q) refl t (enter_function-Entered e q d)
transition-HasDepths hook_ret e q t d =
    return_stack-HasDepths e.entry_time e.memory q.functions q.stack_alloc q.stack d

hook-HasDepths :
    (event : Event) (e : Reading) (p : Profile)
    → IsTimed e
    → HasDepths p
    → HasDepths ((lws_profiler_hook event e p).0)
unfolding lws_profiler_hook
hook-HasDepths event e p t d = elim (Option-cases (e.time)) [
  | inl k ↦ rw (lws_profiler_hook, k) d
  | inr (time, k) ↦
      rw (lws_profiler_hook, k)
        (transition-HasDepths event e (process_exit event time e.memory p) t
          (process_exit-Depths event time e.memory p d))
]

-- The calls of the hook in their order
unfoldable pub hooks : List (Event × Reading) → Profile → Profile
unfolding lws_profiler_hook
hooks [] p = p
hooks (x ∷ xs) p = hooks xs ((lws_profiler_hook x.0 x.1 p).0)

abbrev pub AllTimed : List (Event × Reading) → Type 0
AllTimed [] = Unit {0}
AllTimed (x ∷ xs) = IsTimed x.1 × AllTimed xs

hooks-HasDepths :
    (xs : List (Event × Reading)) (p : Profile) → AllTimed xs → HasDepths p → HasDepths (hooks xs p)
unfolding hooks
hooks-HasDepths [] p t d = d
hooks-HasDepths (x ∷ xs) p t d =
    hooks-HasDepths xs ((lws_profiler_hook x.0 x.1 p).0) t.1 (hook-HasDepths x.0 x.1 p t.0 d)

-- Whatever calls and returns the profiler sees from its start, while the clock does not fail at the
-- entry to a function, the depth of every record is the number of its places on the stack, as a
-- word.
pub lws_profiler_hook-HasDepths :
    (p : Profile) (xs : List (Event × Reading))
    → lws_start_profiler true true ≡ some p
    → AllTimed xs
    → HasDepths (hooks xs p)
unfolding lws_start_profiler count find_record
lws_profiler_hook-HasDepths p xs e t =
    hooks-HasDepths xs p t (subst HasDepths (some_injective e) (λ key. refl))
