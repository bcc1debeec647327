-- ===== src/Table/Get.antt =====
-- `lws_table_get` of src/lws_table.c against the abstract content.
use nginx_lws.Base.{
  ℕ, ◌+◌, ◌<◌, ◌≡◌, ap, ◌∙◌, leb, if◌then◌else◌, Bool, true, ◌&&◌, Bool-cases, inl, inr, none, some,
  List, [], ◌∷◌, ◌++◌, arith,
}
use nginx_lws.Table.Defs.{Entry, Table, Strings, at}
use nginx_lws.Table.Ops.{touch, lws_table_get}
use nginx_lws.Table.Brent.{used}
use nginx_lws.Table.Queue.{occ, occ-touch, length-touch}
use nginx_lws.Table.Spec.{pick, without, pick-items, pick-items-none, items-unlink, items-touch}
use nginx_lws.Table.Valid.{IsValid, is_for, view, matches-used, found_cases}

-- The entry of a timed table whose time is over.
abbrev pub is_expired : Table → ℕ → Entry → Bool
is_expired t now e = t.timed && leb (e.time + t.timeout) now

-- What a read does to the content, and gives: nothing and 0 for a key with no entry or with one
-- whose time is over, else the entry's value, and in a capped table the entry becomes the last.
pub read_item : Strings → ℕ → ℕ → Table → List ℕ → List Entry × ℕ
read_item str seed now t key = elim (pick (is_for str seed t.ci key) (view t)) [
  | none ↦ (view t, 0)
  | some e ↦ if is_expired t now e then (view t, 0) else (
    if t.capped then without (is_for str seed t.ci key) (view t) ++ e ∷ [] else view t,
    e.value,
  )
]

module _ (str : Strings) (seed : ℕ) {t : Table} (v : IsValid str seed t) where
  abbrev pub touched : ℕ → Table
  touched i = record t { order = touch i t.order }

  pub present : (i : ℕ) → used t.entries i ≡ true → 0 < occ i t.order
  present i here = ground (arith, v.store.queued i)

  pub touched-IsValid : (i : ℕ) → used t.entries i ≡ true → IsValid str seed (touched i)
  touched-IsValid i here = record {
    big = v.big;
    store = record {
      width = v.store.width;
      placed = v.store.placed;
      queued = λ j. occ-touch j i t.order (present i here) ∙ v.store.queued j;
    };
    counted = omega (arith, v.counted, length-touch i t.order (present i here));
    loaded = v.loaded;
    spare = v.spare;
    sized = v.sized;
    limit = v.limit;
    cap_pos = v.cap_pos;
    hashed = v.hashed;
    distinct = v.distinct;
  }

  module _ (key : List ℕ) (i : ℕ) (hit : is_for str seed t.ci key (at t.entries i) ≡ true) where
    pub pick-view : pick (is_for str seed t.ci key) (view t) ≡ some (at t.entries i)
    pick-view =
        pick-items (is_for str seed t.ci key) t.entries i hit (λ j e. v.distinct j i key e hit)
          t.order (present i (matches-used str seed t.ci key t.entries i hit))

    pub view-touched :
        view (touched i) ≡ without (is_for str seed t.ci key) (view t) ++ at t.entries i ∷ []
    view-touched =
        items-touch t.entries i t.order
        ∙ ap (λ es. es ++ at t.entries i ∷ [])
            (items-unlink (is_for str seed t.ci key) t.entries i hit
              (λ j e. v.distinct j i key e hit) t.order)

  module _ (now : ℕ) (key : List ℕ) where
    -- A read of a well-formed table ends, gives what the content says, and leaves a well-formed
    -- table with the content that it says.
    pub lws_table_get-read_item :
        (t' : Table) × (value : ℕ) × (lws_table_get str seed now t key ≡ some (t', value))
        × (◌≡◌ {A = List Entry × ℕ} (view t', value) (read_item str seed now t key))
        × IsValid str seed t'
    unfolding lws_table_get read_item
    lws_table_get-read_item = elim (found_cases str seed v key) [
      | inl (miss, nowhere) ↦ (
        t,
        0,
        rw (miss, lws_table_get),
        rw (pick-items-none (is_for str seed t.ci key) t.entries t.order nowhere, read_item),
        v,
      )
      | inr (i, run, hit) ↦
          let e : Entry = at t.entries i in
          let pv = pick-view key i hit in
          elim (Bool-cases (is_expired t now e)) [
            | inl old ↦ (t, 0, rw (run, lws_table_get) (rw old), rw (pv, read_item) (rw old), v)
            | inr fresh ↦ elim (Bool-cases t.capped) [
              | inr plain ↦ (
                t,
                e.value,
                rw (run, lws_table_get) (rw (fresh, plain)),
                rw (pv, read_item) (rw (fresh, plain)),
                v,
              )
              | inl lru ↦ (
                touched i,
                e.value,
                rw (run, lws_table_get) (rw (fresh, lru)),
                rw (pv, read_item)
                    (rw (fresh, lru) (ap (λ es. (es, e.value)) (view-touched key i hit))),
                touched-IsValid i (matches-used str seed t.ci key t.entries i hit),
              )
            ]
          ]
    ]
