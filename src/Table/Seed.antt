-- ===== src/Table/Seed.antt =====
-- `lws_table_init_hash` of src/lws_table.c and `lws_init_process` of src/lws_module.c: the seed of
-- the hash of a worker process.
use nginx_lws.Base.{ℕ, if◌then◌else◌, Bool, true, false, not}

-- What the system decides: whether the device opens, whether a whole word is read and which, and
-- whether the file is closed.
pub record Device : Type 0 where
  pub opens : Bool
  pub reads : Bool
  pub word : ℕ
  pub closes : Bool

-- The global `lws_table_hash_seed` after the call; true for 0, false for -1.
unfoldable pub lws_table_init_hash : Device → ℕ → ℕ × Bool
lws_table_init_hash d seed =
    if not d.opens
    then (seed, false)
    else if not d.reads
    then (seed, false)
    else if not d.closes
    then (seed, false)
    else (d.word, true)

-- `worker` is whether the process is a worker or the only one; true for NGX_OK.
unfoldable pub lws_init_process : Bool → Device → ℕ → ℕ × Bool
unfolding lws_table_init_hash
lws_init_process worker d seed = if not worker then (seed, true) else lws_table_init_hash d seed
