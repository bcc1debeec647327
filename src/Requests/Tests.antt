-- ===== src/Requests/Tests.antt =====
-- The theorems on the handlers of src/lws_module.c at concrete inputs.
use nginx_lws.Base.{
  ℕ, some, List, ◌++◌, ◌-◌, ◌%◌, ◌<◌, ◌≤◌, ◌≡◌, ◌≢◌, ◌⊎◌, refl, Bool, true, false, none, [], ◌∷◌,
  length, arith,
}
use nginx_lws.State.Defs.{word, LocConf, Location}
use nginx_lws.State.Ops.{lws_set_state_timer, lws_create_state, lws_acquire_state}
use nginx_lws.Requests.Ops.{Handing, has_state, hand_over, lws_state_handler, lws_body_handler}
use nginx_lws.Requests.Body.{read_all, concat, read_all-concat}
use nginx_lws.Requests.Conf.{merge_variables, merge_variables-append}
use nginx_lws.Requests.Count.{live}
use nginx_lws.Requests.Reach.{Reached, start, body, initial, Reached-limits, Reached-awake}
use nginx_lws.Requests.Merge.{find_entry, request_headers}
use nginx_lws.Requests.Joined.{IsSame, values_of, joined, request_headers-joined}
use nginx_lws.Table.Ascii.{same, same_refl, same_symm, same_trans}
use nginx_lws.Requests.Failure.{failed, failed_init-blocks}

-- One state, and a queue of two requests.
abbrev conf : LocConf
conf = record {
  states_max = 1;
  requests_max = 2;
  state_requests_max = 0;
  state_time_max = 0;
  state_timeout = 1000;
  state_memory_max = 0;
  state_gc = 0;
  diagnostic = false;
}

abbrev handing : Bool → Handing
handing initialized = record {
  now = 50;
  made = record { allocated = true; opened = true; initialized = initialized; l = 9 };
  task = true;
  posted = true;
  gc = record { before = 100; after = 80 };
}

-- One request has a task, the other waits.
abbrev two : Location
two =
    lws_body_handler conf true (handing true) 2
      (lws_body_handler conf true (handing true) 1 (initial none))

two-Reached : Reached conf two
two-Reached = body true (handing true) 2 _ refl (body true (handing true) 1 _ refl (start none))

one_waits : two.requests ≡ 2 ∷ []
unfolding lws_body_handler lws_state_handler hand_over lws_acquire_state lws_create_state
    lws_set_state_timer has_state
one_waits = refl

waits : two.requests ≢ []
waits e = absurd (cc (one_waits, e))

Reached-limits_example :
    (two.states_n ≡ live two % word)
    × (two.requests_n ≡ length two.requests % word)
    × ((conf.states_max ≡ 0) ⊎ (live two ≤ conf.states_max))
    × ((conf.requests_max ≡ 0) ⊎ (length two.requests ≤ conf.requests_max))
Reached-limits_example = Reached-limits conf (omega arith, omega arith) two two-Reached

Reached-awake_example : (two.qev ≡ true) ⊎ (0 < length two.tasks)
Reached-awake_example = Reached-awake conf (omega arith, omega arith) two two-Reached waits

failed_init-blocks_example :
    ((failed conf (handing false) 1 none).states ≡ [])
    × ((failed conf (handing false) 1 none).tasks ≡ [])
    × ((failed conf (handing false) 1 none).qev ≡ false)
    × ((failed conf (handing false) 1 none).states_n ≡ word - 1)
    × (has_state conf (failed conf (handing false) 1 none) ≡ false)
failed_init-blocks_example =
    failed_init-blocks conf (handing false) 1 none (omega arith) (omega arith) refl refl refl

abbrev chain : List (List ℕ)
chain = (1 ∷ 2 ∷ 3 ∷ []) ∷ (4 ∷ []) ∷ []

read_all-concat_example : read_all 2 9 chain ≡ some (concat chain)
read_all-concat_example =
    read_all-concat 2 9 chain (omega arith) (omega arith, (omega arith, tt)) (omega arith)

merge_variables-append_example :
    merge_variables (0 ∷ 0 ∷ []) (7 ∷ []) (8 ∷ 9 ∷ []) ≡ (8 ∷ 9 ∷ []) ++ 7 ∷ []
merge_variables-append_example = merge_variables-append (0 ∷ 0 ∷ []) (7 ∷ []) (8 ∷ 9 ∷ []) refl

same-IsSame : IsSame same
same-IsSame = record { same_refl = same_refl; same_symm = same_symm; same_trans = same_trans }

-- The headers `a: x`, `b: z` and `a: y`
abbrev headers : List (List ℕ × List ℕ)
headers = (97 ∷ [], 120 ∷ []) ∷ (98 ∷ [], 122 ∷ []) ∷ (97 ∷ [], 121 ∷ []) ∷ []

request_headers-joined_example :
    find_entry same (request_headers same headers) (97 ∷ [])
    ≡ some (joined (120 ∷ []) ((121 ∷ []) ∷ []))
unfolding values_of same
request_headers-joined_example =
    request_headers-joined same same-IsSame headers (97 ∷ []) (120 ∷ []) ((121 ∷ []) ∷ []) refl
