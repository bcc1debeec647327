-- ===== src/Table/Evict.antt =====
-- The eviction in `lws_table_set` of src/lws_table.c.
use nginx_lws.Base.{
  ℕ, ◌<◌, ◌≡◌, refl, sym, ap, ◌∙◌, ◌==◌, if◌then◌else◌, Bool, true, false, ◌&&◌, Bool-cases, inl,
  inr, some, List, [], ◌∷◌, length, arith,
}
use nginx_lws.Table.Defs.{Entry, Table, Strings, at}
use nginx_lws.Table.Ops.{head_slot, lws_table_remove, evict_as_needed}
use nginx_lws.Table.Brent.{used}
use nginx_lws.Table.Queue.{occ, occ-cons}
use nginx_lws.Table.Store.{items}
use nginx_lws.Table.Valid.{IsValid, is_for, view}
use nginx_lws.Table.Remove.{lws_table_remove-IsValid, view-remove_head}
use nginx_lws.Table.Add.{IsMissing}

abbrev pub drop_first : List Entry → List Entry
drop_first [] = []
drop_first (e ∷ es) = es

-- The content after the eviction: without the first item in a capped table at its cap.
pub evict_item : Table → List Entry
evict_item t = if t.capped && t.count == t.cap then drop_first (view t) else view t

-- The table after `evict as needed`.
pub record Evicted (str : Strings) (seed : ℕ) (t t' : Table) : Type 0 where
  pub valid : IsValid str seed t'
  pub content : view t' ≡ evict_item t
  pub timed : t'.timed ≡ t.timed
  pub ci : t'.ci ≡ t.ci
  pub alloc : t'.alloc ≡ t.alloc

module _ (str : Strings) (seed now : ℕ) {t : Table} (v : IsValid str seed t) where
  evict-head :
      (order : List ℕ)
      → t.order ≡ order
      → 0 < t.count
      → (i : ℕ) × (head_slot t.order ≡ some i)
        × IsValid str seed (lws_table_remove t i)
        × (view (lws_table_remove t i) ≡ drop_first (view t))
  evict-head [] e h = absurd (omega (arith, v.counted, ap length e))
  evict-head (i ∷ is) e h =
      let here : used t.entries i ≡ true =
        ground (arith, v.store.queued i, occ-cons i i is, ap (occ i) e) in
      (
        i,
        ap head_slot e,
        lws_table_remove-IsValid str seed v i here,
        view-remove_head str seed v i here is e
            ∙ ap (λ os. drop_first (items t.entries os)) (sym e),
      )

  remove-timed : (i : ℕ) → (lws_table_remove t i).timed ≡ t.timed
  unfolding lws_table_remove
  remove-timed i = refl

  remove-ci : (i : ℕ) → (lws_table_remove t i).ci ≡ t.ci
  unfolding lws_table_remove
  remove-ci i = refl

  remove-alloc : (i : ℕ) → (lws_table_remove t i).alloc ≡ t.alloc
  unfolding lws_table_remove
  remove-alloc i = refl

  pub evict-Evicted :
      (t' : Table) × (evict_as_needed str seed now t ≡ some t') × Evicted str seed t t'
  unfolding evict_as_needed evict_item
  evict-Evicted = elim (Bool-cases (t.capped && t.count == t.cap)) [
    | inr fits ↦ (
      t,
      rw (fits, evict_as_needed),
      record { valid = v; content = rw (fits, evict_item); timed = refl; ci = refl; alloc = refl },
    )
    | inl full ↦
        let (i, first, valid, content) = evict-head t.order refl (ground (arith, v.cap_pos)) in
        (
          lws_table_remove t i,
          rw (full, evict_as_needed) (rw first),
          record {
            valid = valid;
            content = rw (full, evict_item) content;
            timed = remove-timed i;
            ci = remove-ci i;
            alloc = remove-alloc i;
          },
        )
  ]

pub IsMissing-items :
    (str : Strings) (seed : ℕ) (ci : Bool) (key : List ℕ) (es : List Entry) (order : List ℕ)
    → ((i : ℕ) → is_for str seed ci key (at es i) ≡ false)
    → IsMissing str seed ci key (items es order)
IsMissing-items str seed ci key es [] h = tt
IsMissing-items str seed ci key es (i ∷ is) h = (h i, IsMissing-items str seed ci key es is h)

IsMissing-drop_first :
    (str : Strings) (seed : ℕ) (ci : Bool) (key : List ℕ) (xs : List Entry)
    → IsMissing str seed ci key xs
    → IsMissing str seed ci key (drop_first xs)
IsMissing-drop_first str seed ci key [] m = m
IsMissing-drop_first str seed ci key (x ∷ xs) m = m.1

pub IsMissing-evict_item :
    (str : Strings) (seed : ℕ) (t : Table) (ci : Bool) (key : List ℕ)
    → IsMissing str seed ci key (view t)
    → IsMissing str seed ci key (evict_item t)
unfolding evict_item
IsMissing-evict_item str seed t ci key m = elim (Bool-cases (t.capped && t.count == t.cap)) [
  | inl full ↦ rw (full, evict_item) (IsMissing-drop_first str seed ci key (view t) m)
  | inr fits ↦ rw (fits, evict_item) m
]
