-- ===== src/Table/Rehash.antt =====
-- `lws_table_rehash` of src/lws_table.c against the content, in its order.
use mathlib.Core.List.{reverse, reverse-cons, reverse-reverse, append_assoc, append-nil}
use nginx_lws.Base.{
  ℕ, ◌+◌, ◌<◌, ◌≤◌, ◌≡◌, refl, ap, ap₂, ◌∙◌, Bool, true, false, ◌⊎◌, inl, inr, none, some, List, [],
  ◌∷◌, ◌++◌, length, length-append, set, replicate, length-replicate, get_or-replicate, arith,
}
use nginx_lws.Table.Defs.{Entry, tes_set, Table, Strings, at, zeroed}
use nginx_lws.Table.Size.{lws_table_size, size_at, lws_table_load}
use nginx_lws.Table.Sizes.{Larger, lws_table_size-Larger, load-lt, size_at-ge}
use nginx_lws.Table.Ops.{reinsert, lws_table_rehash}
use nginx_lws.Table.Brent.{used}
use nginx_lws.Table.Placing.{lws_table_insert-Outcome}
use nginx_lws.Table.Prime.{IsPrime, free_slot}
use nginx_lws.Table.Queue.{occ, occ-cons, occ-snoc, occ-nil}
use nginx_lws.Table.Store.{IsStore, items, Outcome-Stored}
use nginx_lws.Table.Spec.{items-append}
use nginx_lws.Table.Valid.{IsValid, view}
use nginx_lws.Table.Content.{IsContent-of, hashed_of, distinct_of}

pub used-tes_set : (es : List Entry) (i : ℕ) → used es i ≡ true → (at es i).state ≡ tes_set
used-tes_set es i h = ground arith

pub empty-IsStore : (alloc : ℕ) → IsStore (replicate alloc zeroed) [] alloc
empty-IsStore alloc = record {
  width = length-replicate alloc zeroed;
  placed = λ i u. absurd (ground (arith, get_or-replicate alloc i zeroed));
  queued = λ i. ground (arith, get_or-replicate alloc i zeroed, occ-nil i);
}

length-reverse : (xs : List ℕ) → length (reverse xs) ≡ length xs
length-reverse [] = refl
length-reverse (x ∷ xs) =
    omega
      (arith, ap length (reverse-cons x xs), length-append (reverse xs) (x ∷ []), length-reverse xs)

occ-reverse : (i : ℕ) (xs : List ℕ) → occ i (reverse xs) ≡ occ i xs
occ-reverse i [] = refl
occ-reverse i (x ∷ xs) = omega (
  arith,
  ap (occ i) (reverse-cons x xs),
  occ-snoc i x (reverse xs),
  occ-cons i x xs,
  occ-reverse i xs,
)

module _ (old : List Entry) (alloc : ℕ) (big : 3 ≤ alloc) (prime : IsPrime alloc) where
  -- What the loop leaves, from the slots to go and the store so far.
  record Reinserted (is : List ℕ) (es : List Entry) (order : List ℕ) (r : List Entry × List ℕ)
      : Type 0 where
    store : IsStore r.0 r.1 alloc
    content : items r.0 r.1 ≡ items old (reverse is) ++ items es order
    size : length r.1 ≡ length order + length is

  content_step :
      (is : List ℕ) (i : ℕ) (xs ys : List Entry)
      → xs ≡ at old i ∷ ys
      → items old (reverse is) ++ xs ≡ items old (reverse (i ∷ is)) ++ ys
  content_step is i xs ys h =
      rw (h, reverse-cons i is, items-append old (reverse is) (i ∷ []), append_assoc) refl

  reinsert-Reinserted :
      (is : List ℕ) (es : List Entry) (order : List ℕ)
      → IsStore es order alloc
      → length order + length is < alloc
      → ((i : ℕ) → 0 < occ i is → used old i ≡ true)
      → (r : List Entry × List ℕ) × (reinsert old alloc is es order ≡ some r)
        × Reinserted is es order r
  unfolding reinsert
  reinsert-Reinserted [] es order store room all =
      ((es, order), refl, record { store = store; content = refl; size = omega arith })
  reinsert-Reinserted (i ∷ is) es order store room all =
      let e : Entry = at old i in
      let (f, h, free) = free_slot alloc e.hash big prime es order store (omega arith) in
      let (ins, run, out) =
        lws_table_insert-Outcome es order alloc e.hash big store.placed f h free in
      let kept =
        Outcome-Stored es order alloc e.hash big store e
          (used-tes_set old i (all i (ground (arith, occ-cons i i is)))) refl ins out in
      let next : IsStore (set ins.entries ins.slot e) (ins.slot ∷ ins.order) alloc = record {
        width = kept.width;
        placed = kept.placed;
        queued = λ j. omega (arith, occ-cons j ins.slot ins.order, kept.queued j);
      } in
      let (r, run', t) =
        reinsert-Reinserted is (set ins.entries ins.slot e) (ins.slot ∷ ins.order) next
          (omega (arith, kept.size)) (λ j q. all j (omega (arith, occ-cons j i is))) in
      (
        r,
        rw (run, reinsert) run',
        record {
          store = t.store;
          content =
              t.content
              ∙ content_step is i _ (items es order) (ap₂ ◌∷◌ kept.new_item kept.kept_items);
          size = omega (arith, t.size, kept.size);
        },
      )

-- The size that a rehash of the table asks for is prime, as gen/table.c computes the sizes.
abbrev pub NextIsPrime : Table → Type 0
NextIsPrime t = (n : ℕ) → lws_table_size (t.alloc + 1) ≡ some (some n) → IsPrime n

module _ (str : Strings) (seed : ℕ) {t : Table} (v : IsValid str seed t) where
  -- A rehash that succeeds: a larger table with the same content and settings.
  pub record Grown (t' : Table) : Type 0 where
    pub valid : IsValid str seed t'
    pub content : view t' ≡ view t
    pub count : t'.count ≡ t.count
    pub roomier : t.load < t'.load
    pub larger : t.alloc < t'.alloc
    pub prime : IsPrime t'.alloc
    pub dup : t'.dup ≡ t.dup
    pub free : t'.free ≡ t.free
    pub ci : t'.ci ≡ t.ci
    pub timed : t'.timed ≡ t.timed
    pub capped : t'.capped ≡ t.capped
    pub freed : t'.freed ≡ t.freed

  rehash_run :
      (alloc_new : ℕ) (r : List Entry × List ℕ)
      → lws_table_size (t.alloc + 1) ≡ some (some alloc_new)
      → reinsert t.entries alloc_new (reverse t.order) (replicate alloc_new zeroed) [] ≡ some r
      → lws_table_rehash true t (t.alloc + 1)
        ≡ some (
          record t {
            alloc = alloc_new;
            load = lws_table_load alloc_new;
            entries = r.0;
            order = r.1;
          },
          true,
        )
  unfolding lws_table_rehash
  rehash_run alloc_new r h e = rw (h, lws_table_rehash) (rw e)

  rehash_refused :
      (calloc : Bool)
      → lws_table_size (t.alloc + 1) ≡ some none
      → lws_table_rehash calloc t (t.alloc + 1) ≡ some (t, false)
  unfolding lws_table_rehash
  rehash_refused calloc h = ground arith

  rehash_failed :
      {n : ℕ}
      → lws_table_size (t.alloc + 1) ≡ some (some n)
      → lws_table_rehash false t (t.alloc + 1) ≡ some (t, false)
  unfolding lws_table_rehash
  rehash_failed h = ground arith

  next_size : (lws_table_size (t.alloc + 1) ≡ some none) ⊎ Larger t.alloc
  next_size = let (k, h, e) = v.sized in rw e (lws_table_size-Larger k h)

  grow :
      NextIsPrime t
      → Larger t.alloc
      → (t' : Table) × (lws_table_rehash true t (t.alloc + 1) ≡ some (t', true)) × Grown t'
  grow prime l =
      let n : ℕ = size_at l.index in
      let big : 3 ≤ n = size_at-ge l.index l.within in
      let (r, run, out) =
        reinsert-Reinserted t.entries n big (prime n l.found) (reverse t.order) (replicate n zeroed)
          [] (empty-IsStore n)
          (omega (arith, length-reverse t.order, v.counted, v.loaded, v.spare, l.larger))
          (λ i q. ground (arith, occ-reverse i t.order, v.store.queued i)) in
      let back : items t.entries (reverse (reverse t.order)) ++ [] ≡ view t =
        rw (append-nil, reverse-reverse) refl in
      let content : items r.0 r.1 ≡ view t = out.content ∙ back in
      let c = IsContent-of str seed t.ci t.entries t.order v.store v.hashed v.distinct in
      let c' = rw (← content) at c in
      (
        record t { alloc = n; load = lws_table_load n; entries = r.0; order = r.1 },
        rehash_run n r l.found run,
        record {
          valid = record {
            big = big;
            store = out.store;
            counted = omega (arith, v.counted, out.size, length-reverse t.order);
            loaded = omega (arith, v.loaded, v.limit, l.roomier);
            spare = load-lt n (omega arith);
            sized = (l.index, l.within, refl);
            limit = refl;
            cap_pos = v.cap_pos;
            hashed = hashed_of str seed t.ci r.0 r.1 out.store c';
            distinct = distinct_of str seed t.ci r.0 r.1 out.store c';
          };
          content = content;
          count = refl;
          roomier = omega (arith, v.limit, l.roomier);
          larger = l.larger;
          prime = prime n l.found;
          dup = refl;
          free = refl;
          ci = refl;
          timed = refl;
          capped = refl;
          freed = refl;
        },
      )

  -- A rehash of a well-formed table ends, where the next number of slots is prime. It fails and
  -- changes nothing where the allocation fails or no size of the table is larger; else it gives a
  -- larger well-formed table with the same content.
  pub lws_table_rehash-Grown :
      NextIsPrime t
      → (calloc : Bool)
      → ((lws_table_rehash calloc t (t.alloc + 1) ≡ some (t, false))
          × ((calloc ≡ false) ⊎ (lws_table_size (t.alloc + 1) ≡ some none)))
        ⊎ ((t' : Table) × (lws_table_rehash calloc t (t.alloc + 1) ≡ some (t', true)) × Grown t')
  lws_table_rehash-Grown prime false = elim next_size [
    | inl none_left ↦ inl (rehash_refused false none_left, inr none_left)
    | inr l ↦ inl (rehash_failed l.found, inl refl)
  ]
  lws_table_rehash-Grown prime true = elim next_size [
    | inl none_left ↦ inl (rehash_refused true none_left, inr none_left)
    | inr l ↦ inr (grow prime l)
  ]
