-- ===== src/State/Memory.antt =====
-- `lws_alloc_checked` of src/lws_state.c, the allocator of a Lua state with a memory limit, and the
-- heap that Lua keeps with it. `realloc` is whether the C library's call succeeds.
use nginx_lws.Base.{
  ℕ, zero, suc, ◌+◌, ◌≤◌, ◌<◌, ◌≡◌, ◌≢◌, ◌⊎◌, ◌-◌, refl, ◌==◌, ltb, ltb→lt, if◌then◌else◌, Bool,
  true, false, Bool-cases, inl, inr, List, [], ◌∷◌, length, get_or, set, arith,
}
use nginx_lws.State.Defs.{word, add_word, sub_word}

-- The members of `lws_state_t` that the allocator uses.
pub record Account : Type 0 where
  pub memory_used : ℕ
  pub memory_max : ℕ

-- The result has true for a block, false for the null pointer. From Lua 5.2 on the old size counts
-- only with a pointer.
unfoldable pub lws_alloc_checked : Bool → Account → Bool → ℕ → ℕ → Account × Bool
lws_alloc_checked realloc state ptr osize nsize =
    let osize' = if ptr then osize else 0 in
    if nsize == 0
    then (record state { memory_used = sub_word state.memory_used osize' }, false)
    else (let memory_used = add_word (sub_word state.memory_used osize') nsize in
        if ltb state.memory_max memory_used
        then (state, false)
        else (if realloc
            then (record state { memory_used = memory_used }, true)
            else (state, false)))

-- What Lua asks for: a new block, a new size of a block, or its end.
pub data Call : Type 0 where
  new : ℕ → Bool → Call
  resize : ℕ → ℕ → Bool → Call
  free : ℕ → Call

-- The heap is the sizes of the blocks; a freed block has size 0.
unfoldable pub lua_call : Call → Account × List ℕ → Account × List ℕ
unfolding lws_alloc_checked
lua_call (new n ok) h =
    let r = lws_alloc_checked ok h.0 false 0 n in (r.0, if r.1 then n ∷ h.1 else h.1)
lua_call (resize i n ok) h =
    if ltb i (length h.1)
    then (let r = lws_alloc_checked ok h.0 true (get_or h.1 i 0) n in
        (r.0, if r.1 then set h.1 i n else (if n == 0 then set h.1 i 0 else h.1)))
    else h
lua_call (free i) h =
    if ltb i (length h.1)
    then ((lws_alloc_checked true h.0 true (get_or h.1 i 0) 0).0, set h.1 i 0)
    else h

unfoldable pub lua_calls : List Call → Account × List ℕ → Account × List ℕ
unfolding lua_call
lua_calls [] h = h
lua_calls (c ∷ cs) h = lua_calls cs (lua_call c h)

unfoldable pub total : List ℕ → ℕ
total [] = 0
total (n ∷ ns) = n + total ns

get_or-le-total : (xs : List ℕ) (i : ℕ) → get_or xs i 0 ≤ total xs
unfolding total
get_or-le-total [] i = omega arith
get_or-le-total (x ∷ xs) zero = omega arith
get_or-le-total (x ∷ xs) (suc i) = omega (arith, get_or-le-total xs i)

total-set :
    (xs : List ℕ) (i n : ℕ) → i < length xs → total (set xs i n) + get_or xs i 0 ≡ total xs + n
unfolding total
total-set [] i n h = absurd (omega arith)
total-set (x ∷ xs) zero n h = omega arith
total-set (x ∷ xs) (suc i) n h = omega (arith, total-set xs i n (omega arith))

-- The account is the sum of the blocks, and within the limit.
abbrev pub IsAccount : Account × List ℕ → Type 0
IsAccount h = (h.0.memory_used ≡ total h.1) × (h.0.memory_used ≤ h.0.memory_max)

-- The sizes asked for do not overflow the account.
abbrev pub IsSmall : ℕ → Call → Type 0
IsSmall max (new n ok) = max + n < word
IsSmall max (resize i n ok) = max + n < word
IsSmall max (free i) = max < word

abbrev pub AreSmall : ℕ → List Call → Type 0
AreSmall max [] = Unit {0}
AreSmall max (c ∷ cs) = IsSmall max c × AreSmall max cs

keeps_max : (c : Call) (h : Account × List ℕ) → (lua_call c h).0.memory_max ≡ h.0.memory_max
unfolding lua_call lws_alloc_checked
keeps_max (new n ok) h = ground arith
keeps_max (resize i n ok) h = ground arith
keeps_max (free i) h = ground arith

sub-add : (a b n : ℕ) → b ≤ a → a < word → sub_word a b ≡ a - b
sub-add a b n h k = omega arith

small_add : (a n : ℕ) → a + n < word → add_word a n ≡ a + n
small_add a n h = omega arith

-- A call of an account within its limit, which counts the block and the rest, with a size that
-- does not overflow a word above the limit: with size 0 the block is given back; else it is
-- granted and counted within the limit, or nothing changes.
pub lws_alloc_checked_cases :
    (ok : Bool) (state : Account) (ptr : Bool) (osize nsize rest : ℕ)
    → state.memory_used ≡ (if ptr then osize else 0) + rest
    → state.memory_used ≤ state.memory_max
    → state.memory_max + nsize < word
    → ((nsize ≡ 0)
        × (lws_alloc_checked ok state ptr osize nsize
            ≡ (record state { memory_used = rest }, false)))
      ⊎ (((nsize ≢ 0)
            × (ok ≡ true)
            × (rest + nsize ≤ state.memory_max)
            × (lws_alloc_checked ok state ptr osize nsize
                ≡ (record state { memory_used = rest + nsize }, true)))
          ⊎ ((nsize ≢ 0)
              × ((ok ≡ false) ⊎ (state.memory_max < rest + nsize))
              × (lws_alloc_checked ok state ptr osize nsize ≡ (state, false))))
unfolding lws_alloc_checked
lws_alloc_checked_cases ok state ptr osize nsize rest e l s =
    let old : ℕ = if ptr then osize else 0 in
    let sub : sub_word state.memory_used old ≡ rest = omega arith in
    let add : add_word rest nsize ≡ rest + nsize = omega arith in
    elim (Bool-cases (nsize == 0)) [
      | inl z ↦ inl (ground arith, rw (z, sub) refl)
      | inr nz ↦ elim (Bool-cases (ltb state.memory_max (rest + nsize))) [
        | inl over ↦ inr (inr (ground arith, inr (ground arith), rw (nz, sub, add, over) refl))
        | inr fits ↦ elim (Bool-cases ok) [
          | inl y ↦ inr (inl (ground arith, y, ground arith, rw (nz, sub, add, fits, y) refl))
          | inr n ↦ inr (inr (ground arith, inl n, rw (nz, sub, add, fits, n) refl))
        ]
      ]
    ]

call-IsAccount :
    (c : Call) (h : Account × List ℕ)
    → IsSmall h.0.memory_max c
    → IsAccount h
    → IsAccount (lua_call c h)
unfolding lua_call lws_alloc_checked total
call-IsAccount (new n ok) h s a =
    elim (lws_alloc_checked_cases ok h.0 false 0 n (total h.1) (omega (arith, a.0)) a.1 s) [
      | inl (z, e) ↦ rw (e, lua_call) (refl, omega (arith, a.0, a.1))
      | inr (inl (nz, y, fits, e)) ↦ rw (e, lua_call) (omega arith, fits)
      | inr (inr (nz, why, e)) ↦ rw (e, lua_call) a
    ]
call-IsAccount (resize i n ok) h s a = elim (Bool-cases (ltb i (length h.1))) [
  | inr out ↦ rw (out, lua_call) a
  | inl within ↦
      let rest : ℕ = total h.1 - get_or h.1 i 0 in
      let le = get_or-le-total h.1 i in
      let put = total-set h.1 i n (ltb→lt i (length h.1) within) in
      let same : h.0.memory_used ≡ get_or h.1 i 0 + rest = omega (arith, a.0) in
      elim (lws_alloc_checked_cases ok h.0 true (get_or h.1 i 0) n rest same a.1 s) [
        | inl (z, e) ↦
            let zb : (n == 0) ≡ true = ground arith in
            let put₀ = total-set h.1 i 0 (ltb→lt i (length h.1) within) in
            rw (within, e, zb, lua_call) (omega arith, omega (arith, a.1))
        | inr (inl (nz, y, fits, e)) ↦ rw (within, e, lua_call) (omega arith, fits)
        | inr (inr (nz, why, e)) ↦
            let zb : (n == 0) ≡ false = ground arith in rw (within, e, zb, lua_call) a
      ]
]
call-IsAccount (free i) h s a = elim (Bool-cases (ltb i (length h.1))) [
  | inr out ↦ rw (out, lua_call) a
  | inl within ↦
      let le = get_or-le-total h.1 i in
      let put = total-set h.1 i 0 (ltb→lt i (length h.1) within) in
      rw (within, lua_call, lws_alloc_checked) (omega (arith, a.0, a.1), omega (arith, a.0, a.1))
]

-- Whatever calls Lua makes, with sizes that do not overflow a word above the limit, an account
-- that is the sum of the blocks and within the limit stays so.
pub lua_calls-IsAccount :
    (cs : List Call) (h : Account × List ℕ)
    → AreSmall h.0.memory_max cs
    → IsAccount h
    → IsAccount (lua_calls cs h)
unfolding lua_calls
lua_calls-IsAccount [] h s a = a
lua_calls-IsAccount (c ∷ cs) h s a =
    lua_calls-IsAccount cs (lua_call c h) (rw (keeps_max c h) s.1) (call-IsAccount c h s.0 a)
