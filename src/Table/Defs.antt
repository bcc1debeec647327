-- ===== src/Table/Defs.antt =====
-- The data of src/lws_table.h, and the hash and key comparison of src/lws_table.c.
-- An entry is named by its slot. The queue `order` that links the entries is the list of their
-- slots from head to tail. A value is the address of an object, 0 being the null pointer.
use Prim.Native.Nat.{bit_xor}
use nginx_lws.Base.{
  ℕ, ◌+◌, ◌-◌, ◌*◌, ◌%◌, ◌^◌, ◌≡◌, ◌==◌, if◌then◌else◌, Bool, true, false, ◌&&◌, List, [], ◌∷◌,
  length, get_or,
}

-- `lws_table_entry_state_e`
pub data EntryState : Type 0 where
  tes_unused tes_set tes_deleted : EntryState

-- `lws_table_entry_s`, without its queue links
pub record Entry : Type 0 where
  pub key : List ℕ
  pub value : ℕ
  pub hash : ℕ
  pub time : ℕ
  pub state : EntryState

-- An argument of `ngx_free`.
pub data Freed : Type 0 where
  key_data : List ℕ → Freed
  value_at : ℕ → Freed

-- `lws_table_s`, and the objects that the table has freed, newest first
pub record Table : Type 0 where
  pub alloc : ℕ
  pub load : ℕ
  pub count : ℕ
  pub entries : List Entry
  pub order : List ℕ
  pub timeout : ℕ
  pub cap : ℕ
  pub dup : Bool
  pub free : Bool
  pub ci : Bool
  pub timed : Bool
  pub capped : Bool
  pub freed : List Freed

-- What `ngx_calloc` leaves of an entry.
abbrev pub zeroed : Entry
zeroed = record { key = []; value = 0; hash = 0; time = 0; state = tes_unused }

-- `t->entries[h]`; the slots are remainders modulo `alloc`, the length of the array.
abbrev pub at : List Entry → ℕ → Entry
at es h = get_or es h zeroed

abbrev pub is_set : EntryState → Bool
is_set tes_unused = false
is_set tes_set = true
is_set tes_deleted = false

abbrev pub is_unused : EntryState → Bool
is_unused tes_unused = true
is_unused tes_set = false
is_unused tes_deleted = false

-- What the code takes from NGINX: `ngx_tolower`, and whether `ngx_strncmp` and `ngx_strncasecmp`
-- over the first key's length return 0. On keys of one length both are equivalences.
pub record Strings : Type 0 where
  pub tolower : ℕ → ℕ
  pub strncmp : List ℕ → List ℕ → Bool
  pub strncasecmp : List ℕ → List ℕ → Bool
  pub strncmp_refl : (a : List ℕ) → strncmp a a ≡ true
  pub strncmp_symm : (a b : List ℕ) → length a ≡ length b → strncmp a b ≡ true → strncmp b a ≡ true
  pub strncmp_trans :
      (a b c : List ℕ)
      → length a ≡ length b
      → length b ≡ length c
      → strncmp a b ≡ true
      → strncmp b c ≡ true
      → strncmp a c ≡ true
  pub strncasecmp_refl : (a : List ℕ) → strncasecmp a a ≡ true
  pub strncasecmp_symm :
      (a b : List ℕ) → length a ≡ length b → strncasecmp a b ≡ true → strncasecmp b a ≡ true
  pub strncasecmp_trans :
      (a b c : List ℕ)
      → length a ≡ length b
      → length b ≡ length c
      → strncasecmp a b ≡ true
      → strncasecmp b c ≡ true
      → strncasecmp a c ≡ true

-- `_LWS_TABLE_HASH_PRIME` for 64 bits
abbrev pub hash_prime : ℕ
hash_prime = 1099511628211

-- `hash ^= c; hash *= _LWS_TABLE_HASH_PRIME`, of 64 bits
pub hash_step : ℕ → ℕ → ℕ
hash_step hash c = bit_xor hash c * hash_prime % 2 ^ 64

-- The loop of `lws_table_hash`, which goes from the last byte to the first.
pub hash_bytes : (ℕ → ℕ) → ℕ → List ℕ → ℕ
unfolding hash_step
hash_bytes fold seed [] = seed
hash_bytes fold seed (c ∷ cs) = hash_step (hash_bytes fold seed cs) (fold c)

-- `seed` is the global `lws_table_hash_seed`.
module _ (str : Strings) (seed : ℕ) where
  unfoldable pub lws_table_hash : Bool → List ℕ → ℕ
  unfolding hash_bytes
  lws_table_hash ci key =
      if ci then hash_bytes str.tolower seed key else hash_bytes (λ c. c) seed key

-- The test on a set entry in `lws_table_find`.
unfoldable pub matches : Strings → Bool → Entry → List ℕ → ℕ → Bool
matches str ci e key hash =
    is_set e.state
    && (e.hash == hash
        && (length e.key == length key
            && (if ci then str.strncasecmp e.key key else str.strncmp e.key key)))

-- `hash % t->alloc`
abbrev pub home : ℕ → ℕ → ℕ
home alloc hash = hash % alloc

-- `hash % (t->alloc - 2) + 1`
abbrev pub stride : ℕ → ℕ → ℕ
stride alloc hash = hash % (alloc - 2) + 1
