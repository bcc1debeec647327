-- ===== src/Table/Update.antt =====
-- The branch `update existing` of `lws_table_set` in src/lws_table.c.
use nginx_lws.Base.{
  ℕ, ◌<◌, ◌≡◌, refl, sym, ap, ap₂, ◌∙◌, ◌==◌, ==_iff, if◌then◌else◌, true, false, Bool-cases, inl,
  inr, List, [], ◌∷◌, ◌++◌, length, length-set, set, arith,
}
use nginx_lws.Table.Defs.{Entry, Table, Strings, Freed, at, is_unused, matches}
use nginx_lws.Table.Ops.{unlink, touch, update_existing}
use nginx_lws.Table.Brent.{used}
use nginx_lws.Table.Queue.{occ, occ-touch, occ-unlink, length-touch}
use nginx_lws.Table.Store.{IsStore, items, at-set, used-lt, OnChain-mono, items-congr}
use nginx_lws.Table.Spec.{without, replaced, items-unlink, items-replaced, items-touch}
use nginx_lws.Table.Valid.{IsValid, is_for, view}
use nginx_lws.Table.Get.{present}

-- The entry with its new value, and in a timed table its new time.
unfoldable pub renewed : Table → ℕ → ℕ → Entry → Entry
renewed t now value e = record e { value = value; time = if t.timed then now else e.time }

-- The content with that entry: in its place, or in a capped table the last.
pub update_item : Strings → ℕ → ℕ → Table → List ℕ → ℕ → Entry → List Entry
update_item str seed now t key value e =
    if t.capped
    then without (is_for str seed t.ci key) (view t) ++ renewed t now value e ∷ []
    else replaced (is_for str seed t.ci key) (renewed t now value e) (view t)

module _ (str : Strings) (seed now : ℕ) (t : Table) (v : IsValid str seed t) (i value : ℕ)
    (here : used t.entries i ≡ true) where
  abbrev after : List Entry
  after = set t.entries i (renewed t now value (at t.entries i))

  after_reads :
      (j : ℕ)
      → at after j ≡ (if i == j then renewed t now value (at t.entries i) else at t.entries j)
  after_reads j =
      at-set t.entries i (renewed t now value (at t.entries i)) j (used-lt t.entries i here)

  after_same :
      (j : ℕ)
      → ((at after j).hash ≡ (at t.entries j).hash)
        × ((at after j).key ≡ (at t.entries j).key)
        × ((at after j).state ≡ (at t.entries j).state)
  unfolding renewed
  after_same j = elim (Bool-cases (i == j)) [
    | inl e ↦
        let p =
          after_reads j
          ∙ ap (λ b. if b then renewed t now value (at t.entries i) else at t.entries j) e in
        let q = (==_iff i j).0 e in rw (p, q) (refl, refl, refl)
    | inr e ↦
        let p =
          after_reads j
          ∙ ap (λ b. if b then renewed t now value (at t.entries i) else at t.entries j) e in
        rw p (refl, refl, refl)
  ]

  after_keep :
      (j : ℕ) → is_unused (at t.entries j).state ≡ false → is_unused (at after j).state ≡ false
  after_keep j h = rw (after_same j).2 h

  after-IsStore :
      (order : List ℕ) → ((j : ℕ) → occ j order ≡ occ j t.order) → IsStore after order t.alloc
  after-IsStore order same = record {
    width = length-set t.entries i (renewed t now value (at t.entries i)) ∙ v.store.width;
    placed = λ j u. rw (after_same j).0 (
        OnChain-mono t.entries after t.alloc (at t.entries j).hash j after_keep
          (v.store.placed j (rw (after_same j).2 at u)));
    queued = λ j. rw (after_same j).2 (same j ∙ v.store.queued j);
  }

  is_for-after :
      (key : List ℕ) (j : ℕ)
      → is_for str seed t.ci key (at after j) ≡ is_for str seed t.ci key (at t.entries j)
  unfolding matches
  is_for-after key j = rw ((after_same j).0, (after_same j).1, (after_same j).2)

  abbrev changed : List ℕ → List Freed → Table
  changed order freed = record t { entries = after; order = order; freed = freed }

  changed-IsValid :
      (order : List ℕ) (freed : List Freed)
      → ((j : ℕ) → occ j order ≡ occ j t.order)
      → length order ≡ length t.order
      → IsValid str seed (changed order freed)
  changed-IsValid order freed same size = record {
    big = v.big;
    store = after-IsStore order same;
    counted = v.counted ∙ sym size;
    loaded = v.loaded;
    spare = v.spare;
    sized = v.sized;
    limit = v.limit;
    cap_pos = v.cap_pos;
    hashed = λ j u. rw ((after_same j).0, (after_same j).1) (v.hashed j (rw (after_same j).2 at u));
    distinct = λ a b key p q.
        v.distinct a b key (rw (is_for-after key a) at p) (rw (is_for-after key b) at q);
  }

  abbrev order_of : List ℕ
  order_of = if t.capped then touch i t.order else t.order

  occ-order_of : (j : ℕ) → occ j order_of ≡ occ j t.order
  occ-order_of j = ground (arith, occ-touch j i t.order (present str seed v i here))

  length-order_of : length order_of ≡ length t.order
  length-order_of = ground (arith, length-touch i t.order (present str seed v i here))

  -- An update keeps the table well formed.
  pub update_existing-IsValid : IsValid str seed (update_existing str seed now t i value)
  unfolding update_existing renewed
  update_existing-IsValid = changed-IsValid order_of _ occ-order_of length-order_of

  module _ (key : List ℕ) (hit : is_for str seed t.ci key (at t.entries i) ≡ true) where
    view-plain :
        items after t.order
        ≡ replaced (is_for str seed t.ci key) (renewed t now value (at t.entries i)) (view t)
    view-plain =
        items-replaced (is_for str seed t.ci key) t.entries i hit (λ j e. v.distinct j i key e hit)
          after (renewed t now value (at t.entries i)) t.order after_reads

    view-lru :
        items after (touch i t.order)
        ≡ without (is_for str seed t.ci key) (view t) ++ renewed t now value (at t.entries i) ∷ []
    view-lru =
        items-touch after i t.order
        ∙ ap₂ (λ xs e. xs ++ e ∷ [])
            (items-congr t.entries after (unlink i t.order) (λ j h.
                after_reads j
                ∙ ap (λ b. if b then renewed t now value (at t.entries i) else at t.entries j)
                    (elsewhere j h))
              ∙ items-unlink (is_for str seed t.ci key) t.entries i hit
                  (λ j e. v.distinct j i key e hit) t.order)
            (after_reads i
              ∙ ap (λ b. if b then renewed t now value (at t.entries i) else at t.entries i)
                  ((==_iff i i).1 refl))
      where
        elsewhere : (j : ℕ) → 0 < occ j (unlink i t.order) → (i == j) ≡ false
        elsewhere j h = ground (arith, occ-unlink j i t.order, v.store.queued j)

    -- The content after an update.
    pub view-update_existing :
        view (update_existing str seed now t i value)
        ≡ update_item str seed now t key value (at t.entries i)
    unfolding update_existing renewed update_item
    view-update_existing = elim (Bool-cases t.capped) [
      | inl lru ↦ rw (update_existing, update_item, lru) view-lru
      | inr plain ↦ rw (update_existing, update_item, plain) view-plain
    ]
