-- ===== src/Requests/Files.antt =====
-- `lws_get_file_status` of src/lws_module.c, with the cache of the statuses.
use nginx_lws.Base.{ℕ, ◌==◌, if◌then◌else◌, Bool, not, Option, none, some, List}
use nginx_lws.Table.Defs.{Table, Strings}
use nginx_lws.Table.Ops.{Alloc, lws_table_get, lws_table_set}

-- LWS_FS_UNKNOWN, LWS_FS_FOUND and LWS_FS_NOT_FOUND, as the values of the cache
abbrev pub fs_unknown : ℕ
fs_unknown = 0

abbrev pub fs_found : ℕ
fs_found = 1

abbrev pub fs_not_found : ℕ
fs_not_found = 2

-- `regular` is whether `stat` finds a regular file.
abbrev pub stat_of : Bool → ℕ
stat_of regular = if regular then fs_found else fs_not_found

-- The outer `none` is a loop of the cache that does not end.
unfoldable pub lws_get_file_status :
    Strings → ℕ → ℕ → Alloc → Bool → Option Table → List ℕ → Option (Option Table × ℕ)
unfolding lws_table_get lws_table_set
lws_get_file_status str seed now ok regular none filename = some (none, stat_of regular)
lws_get_file_status str seed now ok regular (some cache) filename =
    elim (lws_table_get str seed now cache filename) [
      | none ↦ none
      | some r ↦
          if not (r.1 == fs_unknown)
          then some (some (r.0), r.1)
          else (elim (lws_table_set str seed now ok (r.0) filename (stat_of regular)) [
            | none ↦ none
            | some w ↦ some (some (w.0), stat_of regular)
          ])
    ]
