-- ===== src/Profiler/Sync.antt =====
-- `lws_stop_profiler` of src/lws_profiler.c: the records of the profiler are added to the functions of
-- the monitor.
use nginx_lws.Base.{
  ℕ, ◌*◌, ◌==◌, if◌then◌else◌, Bool, true, ◌&&◌, not, List, [], ◌∷◌, ◌++◌, length, Bytes,
}
use nginx_lws.State.Defs.{add_word}
use nginx_lws.Monitor.Defs.{Function, Shared, equal}
use nginx_lws.Profiler.Clock.{lws_add_timespec}
use nginx_lws.Profiler.Hook.{Activation, find_record, has_record, Profile}

-- `lws_table_set` with the null pointer, which removes the record.
unfoldable pub drop_record : Bytes → List (Bytes × Activation) → List (Bytes × Activation)
unfolding equal
drop_record key [] = []
drop_record key (r ∷ rs) = let rest = drop_record key rs in if equal r.0 key then rs else r ∷ rest

-- `update existing`
abbrev pub add_record : Function → Activation → Function
add_record f a = record f {
  calls = add_word f.calls a.calls;
  time_self = lws_add_timespec f.time_self a.time_self;
  time_total = lws_add_timespec f.time_total a.time_total;
  memory = add_word f.memory a.memory;
}

-- The functions, and the records that are left.
unfoldable pub update_functions :
    List Function → List (Bytes × Activation) → List Function × List (Bytes × Activation)
unfolding drop_record find_record has_record
update_functions [] rs = ([], rs)
update_functions (f ∷ fs) rs =
    let found = has_record rs f.key in
    let rest = update_functions fs (if found then drop_record f.key rs else rs) in
    ((if found then add_record f (find_record rs f.key) else f) ∷ rest.0, rest.1)

abbrev pub new_function : Bytes × Activation → Function
new_function r = record {
  key = r.0;
  calls = r.1.calls;
  time_self = r.1.time_self;
  time_total = r.1.time_total;
  memory = r.1.memory;
}

-- Whether the allocations for the growth and for the key succeed, by the number of functions.
pub record Slab : Type 0 where
  pub grow_ok : ℕ → Bool
  pub key_ok : ℕ → Bool

abbrev pub is_full : Shared → Bool
is_full m = length m.functions == m.functions_alloc

-- `add new`, up to a failing allocation
unfoldable pub add_functions : Slab → List (Bytes × Activation) → Shared → Shared
add_functions s [] m = m
add_functions s (r ∷ rs) m =
    let n = length m.functions in
    let grown = record m {
      functions_alloc = if is_full m then m.functions_alloc * 2 else m.functions_alloc;
    } in
    let rest =
      add_functions s rs (record grown { functions = m.functions ++ new_function r ∷ [] }) in
    if is_full m && not (s.grow_ok n)
    then record m { out_of_memory = true }
    else if not (s.key_ok n)
    then record grown { out_of_memory = true }
    else rest

unfoldable pub lws_stop_profiler : Slab → Profile → Shared → Shared
unfolding update_functions add_functions
lws_stop_profiler s p m =
    let u = update_functions m.functions p.functions in
    let q = record m { functions = u.0 } in if m.out_of_memory then q else add_functions s u.1 q
