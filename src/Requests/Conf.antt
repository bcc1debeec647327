-- ===== src/Requests/Conf.antt =====
-- The directives of a location in src/lws_module.c, as far as the limits of the states and the
-- requests and the variables go. None is a value that is not set.
use nginx_lws.Base.{
  ℕ, ◌-◌, ◌≡◌, refl, ap, ◌∙◌, sym, Bool, true, false, Option, none, some, List, [], ◌∷◌, ◌++◌, zero,
  suc, ◌≤◌, length, length-append, take, drop, arith,
}

pub record RawConf : Type 0 where
  pub states_max : Option ℕ
  pub requests_max : Option ℕ
  pub state_memory_max : Option ℕ
  pub state_gc : Option ℕ
  pub state_requests_max : Option ℕ
  pub state_time_max : Option ℕ
  pub state_timeout : Option ℕ
  pub diagnostic : Option Bool
  pub variables : List ℕ

abbrev pub lws_states_max_default : ℕ
lws_states_max_default = 32

abbrev pub lws_requests_max_default : ℕ
lws_requests_max_default = 256

abbrev pub lws_create_loc_conf : RawConf
lws_create_loc_conf = record {
  states_max = none;
  requests_max = none;
  state_memory_max = none;
  state_gc = none;
  state_requests_max = none;
  state_time_max = none;
  state_timeout = none;
  diagnostic = none;
  variables = [];
}

-- `ngx_conf_merge_value` and the like
unfoldable pub merge_value {ℓ} : {A : Type ℓ} → Option A → Option A → A → Option A
merge_value (some conf) prev default = some conf
merge_value none (some prev) default = some prev
merge_value none none default = some default

-- `ngx_array_push_n`, `ngx_memmove` and `ngx_memcpy`: `n` elements are appended, of undefined
-- value, then the child's elements move up by as many, and the parent's are copied to the start.
unfoldable pub merge_variables : List ℕ → List ℕ → List ℕ → List ℕ
merge_variables undefined conf prev =
    let pushed = conf ++ undefined in
    let n = length prev in
    let moved = take n pushed ++ take (length pushed - n) pushed in prev ++ drop n moved

-- None is NGX_CONF_ERROR, where the elements cannot be appended.
unfoldable pub lws_merge_loc_conf : Option (List ℕ) → RawConf → RawConf → Option RawConf
unfolding merge_value merge_variables
lws_merge_loc_conf none prev conf = none
lws_merge_loc_conf (some undefined) prev conf = some (record {
  states_max = merge_value conf.states_max prev.states_max lws_states_max_default;
  requests_max = merge_value conf.requests_max prev.requests_max lws_requests_max_default;
  state_memory_max = merge_value conf.state_memory_max prev.state_memory_max 0;
  state_gc = merge_value conf.state_gc prev.state_gc 0;
  state_requests_max = merge_value conf.state_requests_max prev.state_requests_max 0;
  state_time_max = merge_value conf.state_time_max prev.state_time_max 0;
  state_timeout = merge_value conf.state_timeout prev.state_timeout 0;
  diagnostic = merge_value conf.diagnostic prev.diagnostic false;
  variables = merge_variables undefined conf.variables prev.variables;
})

-- `lws_max_states`: the parsed arguments, none where `ngx_parse_size` fails, and no second one
-- where the directive has a single argument; NGX_ERROR is the value that is not set. The result
-- has false for a message of an error.
unfoldable pub lws_max_states : Option ℕ → Option (Option ℕ) → RawConf → RawConf × Bool
lws_max_states states requests conf = elim conf.states_max [
  | some _ ↦ (conf, false)
  | none ↦ elim states [
    | none ↦ (conf, false)
    | some n ↦ elim requests [
      | none ↦ (record conf { states_max = some n }, true)
      | some parsed ↦ elim parsed [
        | none ↦ (record conf { states_max = some n; requests_max = none }, false)
        | some k ↦ (record conf { states_max = some n; requests_max = some k }, true)
      ]
    ]
  ]
]

take-append : (xs ys : List ℕ) → take (length xs) (xs ++ ys) ≡ xs
take-append [] ys = refl
take-append (x ∷ xs) ys = ap (◌∷◌ x) (take-append xs ys)

drop-append : (xs ys : List ℕ) → drop (length xs) (xs ++ ys) ≡ ys
drop-append [] ys = refl
drop-append (x ∷ xs) ys = drop-append xs ys

length-take : (n : ℕ) (xs : List ℕ) → n ≤ length xs → length (take n xs) ≡ n
length-take zero xs h = refl
length-take (suc n) [] h = absurd (omega arith)
length-take (suc n) (x ∷ xs) h = ap suc (length-take n xs (omega arith))

drop-append_n : (n : ℕ) (xs ys : List ℕ) → length xs ≡ n → drop n (xs ++ ys) ≡ ys
drop-append_n n xs ys e = ap (λ k. drop k (xs ++ ys)) (sym e) ∙ drop-append xs ys

take-append_n : (n : ℕ) (xs ys : List ℕ) → n ≡ length xs → take n (xs ++ ys) ≡ xs
take-append_n n xs ys e = ap (λ k. take k (xs ++ ys)) e ∙ take-append xs ys

-- Where as many elements are appended as the parent has, the moves in the array give the parent's
-- variables, then the child's.
pub merge_variables-append :
    (undefined conf prev : List ℕ)
    → length undefined ≡ length prev
    → merge_variables undefined conf prev ≡ prev ++ conf
unfolding merge_variables
merge_variables-append undefined conf prev e =
    let size = length-append conf undefined in
    let n : ℕ = length prev in
    let head = length-take n (conf ++ undefined) (omega (arith, size)) in
    ap (◌++◌ prev) (
      drop-append_n n (take n (conf ++ undefined)) _ head
      ∙ take-append_n (length (conf ++ undefined) - n) conf undefined (omega (arith, size)))
