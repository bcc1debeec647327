-- ===== src/Table/Set.antt =====
-- `lws_table_set` of src/lws_table.c against the abstract content.
use nginx_lws.Base.{
  ℕ, zero, suc, ◌≡◌, refl, sym, ◌∙◌, ◌==◌, Bool, true, false, inl, inr, Option, none, some, List,
  arith,
}
use nginx_lws.Table.Defs.{Entry, Table, Strings, lws_table_hash}
use nginx_lws.Table.Ops.{Alloc, lws_table_remove, add_entry, lws_table_set, update_existing}
use nginx_lws.Table.Prime.{IsPrime}
use nginx_lws.Table.Spec.{pick, without, without_none, pick-items-none}
use nginx_lws.Table.Valid.{IsValid, is_for, view, found, found_cases, matches-used}
use nginx_lws.Table.Get.{pick-view}
use nginx_lws.Table.Remove.{lws_table_remove-IsValid, view-remove}
use nginx_lws.Table.Rehash.{NextIsPrime}
use nginx_lws.Table.Update.{update_item, update_existing-IsValid, view-update_existing}
use nginx_lws.Table.Evict.{IsMissing-items}
use nginx_lws.Table.Adding.{Added, add_entry-Added}

suc_nonzero : (n : ℕ) → (suc n == 0) ≡ false
suc_nonzero n = ground arith

module _ (str : Strings) (seed now : ℕ) where
  -- What a write with a value gives: the entry with its new value where the key has one, else the
  -- outcome of adding it.
  abbrev pub Stored : Alloc → Table → List ℕ → ℕ → Table × Bool → Option Entry → Type 0
  Stored ok t key value r none = Added str seed now ok t key value r
  Stored ok t key value r (some e) =
      (r.1 ≡ true) × (view r.0 ≡ update_item str seed now t key value e)

  -- A write of 0 removes the key's item, if there is one; a write of a value stores it.
  abbrev pub Writes : Alloc → Table → List ℕ → ℕ → Table × Bool → Type 0
  Writes ok t key zero r = (r.1 ≡ true) × (view r.0 ≡ without (is_for str seed t.ci key) (view t))
  Writes ok t key (suc value) r =
      Stored ok t key (suc value) r (pick (is_for str seed t.ci key) (view t))

  set_zero-miss :
      (ok : Alloc) (t : Table) (key : List ℕ)
      → found str seed t key ≡ some none
      → lws_table_set str seed now ok t key 0 ≡ some (t, true)
  unfolding lws_table_set
  set_zero-miss ok t key e = rw (e, lws_table_set)

  set_zero-hit :
      (ok : Alloc) (t : Table) (key : List ℕ) (i : ℕ)
      → found str seed t key ≡ some (some i)
      → lws_table_set str seed now ok t key 0 ≡ some (lws_table_remove t i, true)
  unfolding lws_table_set
  set_zero-hit ok t key i e = rw (e, lws_table_set)

  set_suc-miss :
      (ok : Alloc) (t : Table) (key : List ℕ) (value : ℕ)
      → found str seed t key ≡ some none
      → lws_table_set str seed now ok t key (suc value)
        ≡ add_entry str seed now ok t key (suc value) (lws_table_hash str seed t.ci key)
  unfolding lws_table_set
  set_suc-miss ok t key value e = rw (e, lws_table_set, suc_nonzero value) refl

  set_suc-hit :
      (ok : Alloc) (t : Table) (key : List ℕ) (value i : ℕ)
      → found str seed t key ≡ some (some i)
      → lws_table_set str seed now ok t key (suc value)
        ≡ some (update_existing str seed now t i (suc value), true)
  unfolding lws_table_set
  set_suc-hit ok t key value i e = rw (e, lws_table_set, suc_nonzero value) refl

  module _ (ok : Alloc) {t : Table} (v : IsValid str seed t) (prime : IsPrime t.alloc)
      (next : NextIsPrime t) (key : List ℕ) where
    -- Where the numbers of slots now and after a rehash are prime, a write to a well-formed table
    -- ends, gives a well-formed table with the content that the abstract write gives, and fails
    -- only for want of memory or of a larger size.
    pub lws_table_set-Writes :
        (value : ℕ)
        → (r : Table × Bool) × (lws_table_set str seed now ok t key value ≡ some r)
          × IsValid str seed r.0
          × Writes ok t key value r
    lws_table_set-Writes zero = elim (found_cases str seed v key) [
      | inl (miss, nowhere) ↦ (
        (t, true),
        set_zero-miss ok t key miss,
        v,
        (refl, sym (without_none (is_for str seed t.ci key) t.entries t.order nowhere)),
      )
      | inr (i, run, hit) ↦
          let here = matches-used str seed t.ci key t.entries i hit in
          (
            (lws_table_remove t i, true),
            set_zero-hit ok t key i run,
            lws_table_remove-IsValid str seed v i here,
            (refl, view-remove str seed v i here key hit),
          )
    ]
    lws_table_set-Writes (suc value) = elim (found_cases str seed v key) [
      | inl (miss, nowhere) ↦
          let missing = IsMissing-items str seed t.ci key t.entries t.order nowhere in
          let (r, run, valid, added) =
            add_entry-Added str seed now ok v prime next key (suc value) missing in
          (
            r,
            set_suc-miss ok t key value miss ∙ run,
            valid,
            rw (pick-items-none (is_for str seed t.ci key) t.entries t.order nowhere) added,
          )
      | inr (i, run, hit) ↦
          let here = matches-used str seed t.ci key t.entries i hit in
          (
            (update_existing str seed now t i (suc value), true),
            set_suc-hit ok t key value i run,
            update_existing-IsValid str seed now t v i (suc value) here,
            rw (pick-view str seed v key i hit)
                (refl, view-update_existing str seed now t v i (suc value) here key hit),
          )
    ]
