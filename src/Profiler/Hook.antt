-- ===== src/Profiler/Hook.antt =====
-- `lws_profiler_hook` of src/lws_profiler.c. The activation records are kept by their key, which also
-- stands for the pointer to a record on the stack; the table of the records only grows.
use nginx_lws.Base.{
  ℕ, ◌-◌, ◌*◌, ◌==◌, ltb, if◌then◌else◌, Bool, true, false, ◌&&◌, ◌||◌, not, Option, none, some,
  List, [], ◌∷◌, length, Bytes,
}
use nginx_lws.State.Defs.{add_word, sub_word}
use nginx_lws.Monitor.Defs.{Timespec, equal}
use nginx_lws.Profiler.Clock.{lws_add_timespec_delta}

abbrev pub no_time : Timespec
no_time = record { tv_sec = 0; tv_nsec = 0 }

-- `lws_activation_record_t`
pub record Activation : Type 0 where
  pub depth : ℕ
  pub calls : ℕ
  pub time_self_start : Timespec
  pub time_self : Timespec
  pub time_total_start : Timespec
  pub time_total : Timespec
  pub memory_start : ℕ
  pub memory : ℕ

-- What `ngx_calloc` gives.
abbrev pub fresh : Activation
fresh = record {
  depth = 0;
  calls = 0;
  time_self_start = no_time;
  time_self = no_time;
  time_total_start = no_time;
  time_total = no_time;
  memory_start = 0;
  memory = 0;
}

-- The read and the write of a record by its key
unfoldable pub find_record : List (Bytes × Activation) → Bytes → Activation
unfolding equal
find_record [] key = fresh
find_record (r ∷ rs) key = let rest = find_record rs key in if equal r.0 key then r.1 else rest

unfoldable pub has_record : List (Bytes × Activation) → Bytes → Bool
unfolding equal
has_record [] key = false
has_record (r ∷ rs) key = equal r.0 key || has_record rs key

unfoldable pub put_record :
    Bytes → Activation → List (Bytes × Activation) → List (Bytes × Activation)
unfolding equal
put_record key a [] = (key, a) ∷ []
put_record key a (r ∷ rs) =
    let rest = put_record key a rs in if equal r.0 key then (r.0, a) ∷ rs else r ∷ rest

-- `lws_profiler_t`, with the top of the stack first.
pub record Profile : Type 0 where
  pub functions : List (Bytes × Activation)
  pub stack : List Bytes
  pub stack_alloc : ℕ

-- LUA_HOOKCALL, LUA_HOOKTAILCALL and LUA_HOOKRET
pub data Event : Type 0 where
  hook_call hook_tail_call hook_ret : Event

abbrev pub enters : Event → Bool
enters hook_call = true
enters hook_tail_call = true
enters hook_ret = false

abbrev pub exits : Event → Bool
exits hook_call = false
exits hook_tail_call = true
exits hook_ret = true

-- What the environment decides in a call of the hook: the times at its start and at its end, none where
-- the clock fails, the memory of Lua, the key of the function, and the allocations.
pub record Reading : Type 0 where
  pub time : Option Timespec
  pub entry_time : Option Timespec
  pub memory : ℕ
  pub key : Bytes
  pub record_ok : Bool
  pub set_ok : Bool
  pub grow_ok : Bool

-- `lws_add_memory_delta`
unfoldable pub lws_add_memory_delta : ℕ → ℕ → ℕ → ℕ
lws_add_memory_delta base from to = if ltb from to then add_word base (to - from) else base

-- A record at the exit from its function, or from the part of it up to a call
unfoldable pub leave_record : Event → Timespec → ℕ → Activation → Activation
unfolding lws_add_memory_delta lws_add_timespec_delta
leave_record event time memory a =
    let b = record a {
      time_self = lws_add_timespec_delta a.time_self a.time_self_start time;
      memory = lws_add_memory_delta a.memory a.memory_start memory;
    } in
    if exits event
    then (let depth = sub_word b.depth 1 in
        record b {
          depth = depth;
          time_total =
              if depth == 0
              then lws_add_timespec_delta b.time_total b.time_total_start time
              else b.time_total;
        })
    else b

-- `process function exit`
unfoldable pub process_exit : Event → Timespec → ℕ → Profile → Profile
unfolding leave_record find_record put_record
process_exit event time memory p = elim (p.stack) [
  | [] ↦ p
  | key ∷ keys ↦ record p {
    functions =
        put_record key (leave_record event time memory (find_record p.functions key)) p.functions;
    stack = if exits event then keys else key ∷ keys;
  }
]

-- `transition`: the profile, and whether no error is raised.
unfoldable pub enter_function : Reading → Profile → Profile × Bool
unfolding has_record put_record
enter_function e p =
    let found = has_record p.functions e.key in
    if not found && not (e.record_ok && e.set_ok)
    then (p, false)
    else (let q = record p {
      functions = if found then p.functions else put_record e.key fresh p.functions;
    } in
        if length p.stack == p.stack_alloc && not e.grow_ok then (q, false) else (
          record q {
            stack = e.key ∷ p.stack;
            stack_alloc =
                if length p.stack == p.stack_alloc then p.stack_alloc * 2 else p.stack_alloc;
          },
          true,
        ))

-- A record at the entry to its function, or to the part of it behind a call
unfoldable pub enter_record : Event → Timespec → ℕ → Activation → Activation
enter_record event time memory a =
    let b = record a { time_self_start = time; memory_start = memory } in
    if enters event
    then record b {
      time_total_start = if a.depth == 0 then time else a.time_total_start;
      depth = add_word a.depth 1;
      calls = add_word a.calls 1;
    }
    else b

-- `process function entry`, with no record where the stack is empty.
unfoldable pub process_entry : Event → Option Timespec → ℕ → Profile → Profile × Bool
unfolding enter_record find_record put_record
process_entry event time memory p = elim (p.stack) [
  | [] ↦ (p, true)
  | key ∷ keys ↦ elim time [
    | none ↦ (p, false)
    | some t ↦ (
      record p {
        functions =
            put_record key (enter_record event t memory (find_record p.functions key)) p.functions;
      },
      true,
    )
  ]
]

-- What follows a transition without an error
abbrev pub after_transition : Event → Reading → Profile × Bool → Profile × Bool
after_transition event e (p, false) = (p, false)
after_transition event e (p, true) = process_entry event e.entry_time e.memory p

unfoldable pub lws_profiler_hook : Event → Reading → Profile → Profile × Bool
unfolding process_exit enter_function process_entry
lws_profiler_hook event e p = elim (e.time) [
  | none ↦ (p, false)
  | some time ↦
      (let q = process_exit event time e.memory p in
        after_transition event e (if enters event then enter_function e q else (q, true)))
]

-- `lws_start_profiler`, with the creation of the table and of the stack; none is an error of Lua.
unfoldable pub lws_start_profiler : Bool → Bool → Option Profile
lws_start_profiler functions_ok stack_ok =
    if not functions_ok
    then none
    else if not stack_ok
    then none
    else some (record { functions = []; stack = []; stack_alloc = 32 })
