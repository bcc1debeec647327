-- ===== src/Table/Remove.antt =====
-- `lws_table_remove` of src/lws_table.c, and the write of an entry in place.
use nginx_lws.Base.{
  ℕ, ◌<◌, ◌≡◌, ap, ◌∙◌, ◌==◌, if◌then◌else◌, true, false, List, ◌∷◌, length-set, arith,
}
use nginx_lws.Table.Defs.{Entry, Table, Strings, tes_deleted, at, is_unused}
use nginx_lws.Table.Ops.{unlink, lws_table_remove}
use nginx_lws.Table.Brent.{used}
use nginx_lws.Table.Queue.{occ, occ-unlink, length-unlink}
use nginx_lws.Table.Store.{IsStore, items, at-set, used-lt, OnChain-mono, items-congr}
use nginx_lws.Table.Spec.{without, items-unlink}
use nginx_lws.Table.Valid.{IsValid, is_for, view, matches-used}

unlink_head : (i : ℕ) (is : List ℕ) → unlink i (i ∷ is) ≡ is
unfolding unlink
unlink_head i is = ground arith

module _ (str : Strings) (seed : ℕ) {t : Table} (v : IsValid str seed t) (i : ℕ)
    (here : used t.entries i ≡ true) where
  gone : Entry
  gone = record (at t.entries i) { state = tes_deleted }

  abbrev after : List Entry
  after = (lws_table_remove t i).entries

  after_reads : (j : ℕ) → at after j ≡ (if i == j then gone else at t.entries j)
  unfolding lws_table_remove gone
  after_reads j = at-set t.entries i gone j (used-lt t.entries i here)

  after_keep :
      (j : ℕ) → is_unused (at t.entries j).state ≡ false → is_unused (at after j).state ≡ false
  unfolding gone
  after_keep j h = ground (arith, after_reads j)

  after_used : (j : ℕ) → used after j ≡ true → (i == j) ≡ false
  unfolding gone
  after_used j h = ground (arith, after_reads j)

  after_same : (j : ℕ) → (i == j) ≡ false → at after j ≡ at t.entries j
  after_same j h = after_reads j ∙ ap (λ b. if b then gone else at t.entries j) h

  present : 0 < occ i t.order
  present = ground (arith, v.store.queued i)

  after-IsStore : IsStore after (unlink i t.order) t.alloc
  unfolding lws_table_remove gone
  after-IsStore = record {
    width = length-set t.entries i gone ∙ v.store.width;
    placed = λ j u.
        let same = after_same j (after_used j u) in
        rw same (
          OnChain-mono t.entries after t.alloc (at t.entries j).hash j after_keep
            (v.store.placed j (rw same at u)));
    queued = λ j. ground (arith, after_reads j, occ-unlink j i t.order, v.store.queued j, here);
  }

  -- The entry is gone, and the table stays well formed.
  pub lws_table_remove-IsValid : IsValid str seed (lws_table_remove t i)
  unfolding lws_table_remove
  lws_table_remove-IsValid = record {
    big = v.big;
    store = after-IsStore;
    counted = omega (arith, v.counted, length-unlink i t.order present);
    loaded = omega (arith, v.loaded);
    spare = v.spare;
    sized = v.sized;
    limit = v.limit;
    cap_pos = v.cap_pos;
    hashed = λ j u. let same = after_same j (after_used j u) in rw same (v.hashed j (rw same at u));
    distinct = λ j k key p q.
        let a = after_same j (after_used j (matches-used str seed t.ci key after j p)) in
        let b = after_same k (after_used k (matches-used str seed t.ci key after k q)) in
        v.distinct j k key (rw a at p) (rw b at q);
  }

  -- Its item is gone from the content, and the others stay in order.
  pub view-remove :
      (key : List ℕ)
      → is_for str seed t.ci key (at t.entries i) ≡ true
      → view (lws_table_remove t i) ≡ without (is_for str seed t.ci key) (view t)
  unfolding lws_table_remove
  view-remove key hit =
      items-congr t.entries after (unlink i t.order)
        (λ j h. after_same j (ground (arith, occ-unlink j i t.order, v.store.queued j, here)))
      ∙ items-unlink (is_for str seed t.ci key) t.entries i hit (λ j e. v.distinct j i key e hit)
          t.order

  -- The removal of the first node takes the first item away.
  pub view-remove_head :
      (is : List ℕ) → t.order ≡ i ∷ is → view (lws_table_remove t i) ≡ items t.entries is
  unfolding lws_table_remove
  view-remove_head is e =
      let rest : unlink i t.order ≡ is = ap (unlink i) e ∙ unlink_head i is in
      items-congr t.entries after (unlink i t.order)
        (λ j h. after_same j (ground (arith, occ-unlink j i t.order, v.store.queued j, here)))
      ∙ ap (items t.entries) rest
