-- ===== src/Profiler/Depth.antt =====
-- The depths of the activation records and the stack of src/lws_profiler.c.
use nginx_lws.Base.{
  ℕ, suc, ◌%◌, ◌≡◌, refl, sym, ap, ap₂, subst, ◌∙◌, ◌==◌, if◌then◌else◌, if-all, if-split, Bool,
  true, false, Bool-cases, ◌&&◌, not, inl, inr, List, [], ◌∷◌, length, Bytes, arith,
}
use nginx_lws.State.Defs.{word}
use nginx_lws.Monitor.Defs.{Timespec, equal}
use nginx_lws.Profiler.Hook.{
  Activation, fresh, find_record, has_record, put_record, Profile, Event, hook_call, hook_tail_call,
  hook_ret, exits, Reading, leave_record, process_exit, enter_function,
}

equal_refl : (a : Bytes) → equal a a ≡ true
unfolding equal
equal_refl [] = refl
equal_refl (a ∷ as') = ground (arith, equal_refl as')

equal_eq : (a b : Bytes) → equal a b ≡ true → a ≡ b
unfolding equal
equal_eq [] [] h = refl
equal_eq [] (b ∷ bs) h = absurd (ground arith)
equal_eq (a ∷ cs) [] h = absurd (ground arith)
equal_eq (a ∷ cs) (b ∷ bs) h =
    let e : a ≡ b = ground arith in
    let r : equal cs bs ≡ true = ground arith in ap₂ ◌∷◌ e (equal_eq cs bs r)

-- Two keys that are equal to a third are equal.
equal_both : (a b c : Bytes) → equal a c ≡ true → equal b c ≡ true → equal a b ≡ true
equal_both a b c h k = rw (equal_eq a c h, equal_eq b c k) (equal_refl c)

-- How often a key is on the stack.
unfoldable pub count : Bytes → List Bytes → ℕ
unfolding equal
count key [] = 0
count key (k ∷ ks) = if equal k key then suc (count key ks) else count key ks

find-put_record :
    (rs : List (Bytes × Activation)) (key j : Bytes) (a : Activation)
    → find_record (put_record key a rs) j ≡ (if equal key j then a else find_record rs j)
unfolding find_record put_record
find-put_record [] key j a = refl
find-put_record ((k, v) ∷ rs) key j a = elim (Bool-cases (equal k key)) [
  | inl h ↦
      let e : equal k j ≡ equal key j = ap (λ x. equal x j) (equal_eq k key h) in
      rw (put_record, h)
        (elim (Bool-cases (equal key j)) [
          | inl x ↦ rw (find_record, e, x) refl
          | inr x ↦ rw (find_record, e, x) refl
        ])
  | inr h ↦
      let r = find-put_record rs key j a in
      rw (put_record, h)
        (elim (Bool-cases (equal key j)) [
          | inl x ↦ elim (Bool-cases (equal k j)) [
            | inl y ↦ absurd (ground (arith, h, equal_both k key j y x))
            | inr y ↦ rw (x, y, r, x) refl
          ]
          | inr x ↦ rw (x, r, x) refl
        ])
]

-- The depths for a stack
abbrev pub Depths : List (Bytes × Activation) → List Bytes → Type 0
Depths rs stack = (key : Bytes) → (find_record rs key).depth ≡ count key stack % word

-- A write of one record, where the places of the others on the stack stay as many.
pub put_record-Depths :
    (rs : List (Bytes × Activation)) (stack stack' : List Bytes) (key : Bytes) (a : Activation)
    → Depths rs stack
    → a.depth ≡ count key stack' % word
    → ((j : Bytes) → equal key j ≡ false → count j stack' ≡ count j stack)
    → Depths (put_record key a rs) stack'
put_record-Depths rs stack stack' key a d e o j = elim (Bool-cases (equal key j)) [
  | inl h ↦
      ap (λ (x : Activation). x.depth)
        (find-put_record rs key j a ∙ ap (λ b. if b then a else find_record rs j) h)
      ∙ subst (λ k. a.depth ≡ count k stack' % word) (equal_eq key j h) e
  | inr h ↦
      ap (λ (x : Activation). x.depth)
        (find-put_record rs key j a ∙ ap (λ b. if b then a else find_record rs j) h)
      ∙ d j
      ∙ ap (λ n. n % word) (sym (o j h))
]

pub count_head : (key : Bytes) (ks : List Bytes) → count key (key ∷ ks) ≡ suc (count key ks)
unfolding count
count_head key ks = rw (equal_refl key) refl

pub count_other :
    (key j : Bytes) (ks : List Bytes) → equal key j ≡ false → count j (key ∷ ks) ≡ count j ks
unfolding count
count_other key j ks h = rw h refl

leave_record_depth :
    (event : Event) (time : Timespec) (memory : ℕ) (a : Activation) (n : ℕ)
    → a.depth ≡ suc n % word
    → (leave_record event time memory a).depth ≡ (if exits event then n else suc n) % word
unfolding leave_record
leave_record_depth hook_call time memory a n h = h
leave_record_depth hook_tail_call time memory a n h = omega arith
leave_record_depth hook_ret time memory a n h = omega arith

abbrev pub profile : List (Bytes × Activation) → List Bytes → ℕ → Profile
profile rs stack n = record { functions = rs; stack = stack; stack_alloc = n }

-- A state with the depths for its stack
abbrev pub HasDepths : Profile → Type 0
HasDepths p = Depths p.functions p.stack

exit_stack-Depths :
    (event : Event) (time : Timespec) (memory : ℕ) (rs : List (Bytes × Activation)) (n : ℕ)
    (stack : List Bytes)
    → Depths rs stack
    → HasDepths (process_exit event time memory (profile rs stack n))
unfolding process_exit
exit_stack-Depths event time memory rs n [] d = d
exit_stack-Depths event time memory rs n (key ∷ keys) d =
    let a = find_record rs key in
    let e =
      leave_record_depth event time memory a (count key keys)
        (d key ∙ ap (λ c. c % word) (count_head key keys)) in
    let ks = if exits event then keys else key ∷ keys in
    put_record-Depths rs (key ∷ keys) ks key (leave_record event time memory a) d
      (e
        ∙ ap (λ c. c % word)
            (if-split
              (λ s. (if exits event then count key keys else suc (count key keys)) ≡ count key s)
              (exits event) (λ h. rw h refl) (λ h. rw (h, count_head key keys) refl)))
      (λ j h.
        if-all (λ s. count j s ≡ count j (key ∷ keys)) (exits event)
          (sym (count_other key j keys h)) refl)

pub process_exit-Depths :
    (event : Event) (time : Timespec) (memory : ℕ) (p : Profile)
    → HasDepths p
    → HasDepths (process_exit event time memory p)
process_exit-Depths event time memory p d =
    exit_stack-Depths event time memory p.functions p.stack_alloc p.stack d

find-has_record :
    (rs : List (Bytes × Activation)) (key : Bytes)
    → has_record rs key ≡ false
    → find_record rs key ≡ fresh
unfolding has_record find_record
find-has_record [] key h = refl
find-has_record (r ∷ rs) key h =
    let a : equal r.0 key ≡ false = ground arith in rw a (find-has_record rs key (ground arith))

-- The creation of a record keeps the depths.
create-Depths :
    (rs : List (Bytes × Activation)) (stack : List Bytes) (key : Bytes)
    → Depths rs stack
    → Depths (if has_record rs key then rs else put_record key fresh rs) stack
create-Depths rs stack key d =
    if-split (λ x. Depths x stack) (has_record rs key) (λ _. d)
      (λ h.
        put_record-Depths rs stack stack key fresh d
          (sym (ap (λ (a : Activation). a.depth) (find-has_record rs key h)) ∙ d key) (λ j _. refl))

-- A function that is entered has its key on the stack, and the depth of its record is still to grow.
unfoldable pub Entered : Reading → Profile → Profile × Bool → Type 0
Entered e p (q, true) = Depths q.functions p.stack × (q.stack ≡ e.key ∷ p.stack)
Entered e p (q, false) = HasDepths q

pub enter_function-Entered :
    (e : Reading) (p : Profile) → HasDepths p → Entered e p (enter_function e p)
unfolding enter_function Entered
enter_function-Entered e p d =
    if-all (Entered e p) (not (has_record p.functions e.key) && not (e.record_ok && e.set_ok)) d (
      if-all (Entered e p) (length p.stack == p.stack_alloc && not e.grow_ok)
        (create-Depths p.functions p.stack e.key d)
        (create-Depths p.functions p.stack e.key d, refl))
