-- ===== src/State/Tests.antt =====
-- The theorems on src/lws_state.c at concrete inputs.
use nginx_lws.Base.{ℕ, ◌+◌, ◌<◌, ◌≤◌, ◌≡◌, ◌≢◌, ◌⊎◌, refl, Bool, true, false, List, [], ◌∷◌, arith}
use nginx_lws.State.Memory.{
  total, Account, Call, new, resize, free, lws_alloc_checked, lws_alloc_checked_cases, lua_calls,
  IsAccount, lua_calls-IsAccount,
}

abbrev account : Account
account = record { memory_used = 0; memory_max = 100 }

abbrev some_calls : List Call
some_calls = new 60 true ∷ new 30 true ∷ resize 0 80 true ∷ resize 0 50 true ∷ free 1 ∷ []

account_lem : IsAccount (account, [])
unfolding total
account_lem = (refl, omega arith)

lua_calls-IsAccount_example : IsAccount (lua_calls some_calls (account, []))
lua_calls-IsAccount_example =
    lua_calls-IsAccount some_calls (account, [])
      (omega arith, (omega arith, (omega arith, (omega arith, (omega arith, tt))))) account_lem

abbrev used : Account
used = record { memory_used = 40; memory_max = 100 }

abbrev asked : ℕ
asked = 70

lws_alloc_checked_cases_example :
    ((asked ≡ 0)
      × (lws_alloc_checked true used true 10 asked ≡ (record used { memory_used = 30 }, false)))
    ⊎ (((asked ≢ 0)
          × (◌≡◌ {A = Bool} true true)
          × (30 + asked ≤ used.memory_max)
          × (lws_alloc_checked true used true 10 asked
              ≡ (record used { memory_used = 30 + asked }, true)))
        ⊎ ((asked ≢ 0)
            × ((◌≡◌ {A = Bool} true false) ⊎ (used.memory_max < 30 + asked))
            × (lws_alloc_checked true used true 10 asked ≡ (used, false))))
lws_alloc_checked_cases_example =
    lws_alloc_checked_cases true used true 10 asked 30 refl (omega arith) (omega arith)
