-- ===== src/Profiler/Totals.antt =====
-- The functions of the monitor after `lws_stop_profiler` of src/lws_profiler.c.
use nginx_lws.Base.{
  ℕ, suc, ◌+◌, ◌*◌, ◌%◌, ◌≤◌, ◌<◌, ◌≡◌, refl, ap, ◌∙◌, if◌then◌else◌, if-all, if-split, true,
  Bool-cases, ◌&&◌, not, ◌⊎◌, inl, inr, List, [], ◌∷◌, ◌++◌, length, length-append, Bytes, arith,
}
use nginx_lws.State.Defs.{word}
use nginx_lws.Monitor.Defs.{Function, Shared}
use nginx_lws.Monitor.Sound.{IsShared}
use nginx_lws.Profiler.Hook.{Activation, find_record, has_record, Profile}
use nginx_lws.Profiler.Sync.{
  drop_record, update_functions, new_function, Slab, is_full, add_functions, lws_stop_profiler,
}

-- The calls of all functions, and of all records
abbrev pub calls_of : List Function → ℕ
calls_of [] = 0
calls_of (f ∷ fs) = f.calls + calls_of fs

abbrev pub record_calls : List (Bytes × Activation) → ℕ
record_calls [] = 0
record_calls (r ∷ rs) = r.1.calls + record_calls rs

drop_record_calls :
    (key : Bytes) (rs : List (Bytes × Activation))
    → has_record rs key ≡ true
    → record_calls rs ≡ (find_record rs key).calls + record_calls (drop_record key rs)
unfolding drop_record has_record find_record
drop_record_calls key [] h = absurd (ground arith)
drop_record_calls key (r ∷ rs) h = ground (arith, drop_record_calls key rs)

length-update_functions :
    (fs : List Function) (rs : List (Bytes × Activation))
    → length ((update_functions fs rs).0) ≡ length fs
unfolding update_functions
length-update_functions [] rs = refl
length-update_functions (f ∷ fs) rs = ap suc (length-update_functions fs _)

-- Nothing is lost by the update, up to the size of a word.
update_functions_calls :
    (fs : List Function) (rs : List (Bytes × Activation))
    → (calls_of ((update_functions fs rs).0) + record_calls ((update_functions fs rs).1)) % word
      ≡ (calls_of fs + record_calls rs) % word
unfolding update_functions
update_functions_calls [] rs = refl
update_functions_calls (f ∷ fs) rs = elim (Bool-cases (has_record rs f.key)) [
  | inl h ↦
      let i = update_functions_calls fs (drop_record f.key rs) in
      rw (update_functions, h) (omega (arith, i, drop_record_calls f.key rs h))
  | inr h ↦ let i = update_functions_calls fs rs in rw (update_functions, h) (omega (arith, i))
]

calls_of-append :
    (fs : List Function) (f : Function) → calls_of (fs ++ f ∷ []) ≡ calls_of fs + f.calls
calls_of-append [] f = omega arith
calls_of-append (g ∷ fs) f = omega (arith, calls_of-append fs f)

-- The additions run out of memory, or add all calls.
Adds : ℕ → Shared → Type 0
Adds n q = (q.out_of_memory ≡ true) ⊎ (calls_of q.functions ≡ n)

add_functions-Adds :
    (s : Slab) (rs : List (Bytes × Activation)) (m : Shared)
    → Adds (calls_of m.functions + record_calls rs) (add_functions s rs m)
unfolding add_functions Adds
add_functions-Adds s [] m = inr (omega arith)
add_functions-Adds s (r ∷ rs) m =
    let P = Adds (calls_of m.functions + record_calls (r ∷ rs)) in
    let q = record m {
      functions_alloc = if is_full m then m.functions_alloc * 2 else m.functions_alloc;
      functions = m.functions ++ new_function r ∷ [];
    } in
    if-all P (is_full m && not (s.grow_ok (length m.functions))) (inl refl) (
      if-all P (not (s.key_ok (length m.functions))) (inl refl) (elim (add_functions-Adds s rs q) [
        | inl e ↦ inl e
        | inr e ↦ inr (omega (arith, e, calls_of-append m.functions (new_function r)))
      ]))

-- The size after the growth
abbrev grown : Shared → ℕ
grown m = if is_full m then m.functions_alloc * 2 else m.functions_alloc

grown_room : (m : Shared) → 0 < m.functions_alloc → IsShared m → length m.functions < grown m
grown_room m a i =
    if-split (λ n. length m.functions < n) (is_full m) (λ h. ground (arith, i.functions))
      (λ h. ground (arith, i.functions))

add_functions-IsShared :
    (s : Slab) (rs : List (Bytes × Activation)) (m : Shared)
    → 0 < m.functions_alloc
    → IsShared m
    → IsShared (add_functions s rs m)
unfolding add_functions
add_functions-IsShared s [] m a i = i
add_functions-IsShared s (r ∷ rs) m a i =
    let g = grown_room m a i in
    let q = record m {
      functions_alloc = grown m;
      functions = m.functions ++ new_function r ∷ [];
    } in
    let room : length q.functions ≤ grown m =
      omega (arith, g, length-append m.functions (new_function r ∷ [])) in
    if-all IsShared (is_full m && not (s.grow_ok (length m.functions)))
      (record { profiler = i.profiler; functions = i.functions })
      (if-all IsShared (not (s.key_ok (length m.functions)))
        (record { profiler = i.profiler; functions = omega (arith, g) })
        (add_functions-IsShared s rs q (omega (arith, g))
          (record { profiler = i.profiler; functions = room })))

updated-IsShared :
    (p : Profile) (m : Shared)
    → IsShared m
    → IsShared (record m { functions = (update_functions m.functions p.functions).0 })
updated-IsShared p m i = record {
  profiler = i.profiler;
  functions = omega (arith, i.functions, length-update_functions m.functions p.functions);
}

-- With room for a function, the profiler in one of its states and no more functions than room, the end
-- of a profile keeps both, whatever the allocations.
pub lws_stop_profiler-IsShared :
    (s : Slab) (p : Profile) (m : Shared)
    → 0 < m.functions_alloc
    → IsShared m
    → IsShared (lws_stop_profiler s p m)
unfolding lws_stop_profiler
lws_stop_profiler-IsShared s p m a i =
    if-all IsShared m.out_of_memory (updated-IsShared p m i)
      (add_functions-IsShared s _ _ a (updated-IsShared p m i))

-- The end of a profile leaves the monitor out of memory, or adds the calls of all records of the
-- profiler to those of the functions of the monitor, modulo 2^64.
pub lws_stop_profiler-calls :
    (s : Slab) (p : Profile) (m : Shared)
    → ((lws_stop_profiler s p m).out_of_memory ≡ true)
      ⊎ (calls_of ((lws_stop_profiler s p m).functions) % word
          ≡ (calls_of m.functions + record_calls p.functions) % word)
unfolding lws_stop_profiler Adds
lws_stop_profiler-calls s p m =
    let u = update_functions m.functions p.functions in
    let q = record m { functions = u.0 } in
    if-split
      (λ (x : Shared).
        (x.out_of_memory ≡ true)
        ⊎ (calls_of x.functions % word ≡ (calls_of m.functions + record_calls p.functions) % word))
      m.out_of_memory (λ h. inl h)
      (λ _. elim (add_functions-Adds s u.1 q) [
        | inl e ↦ inl e
        | inr e ↦ inr (ap (λ n. n % word) e ∙ update_functions_calls m.functions p.functions)
      ])
