-- ===== src/Table/Store.antt =====
-- The array of entries of src/lws_table.c with its queue: what each write keeps.
use nginx_lws.Base.{
  ℕ, zero, suc, ◌+◌, ◌<◌, ◌≤◌, ◌≡◌, ◌≢◌, refl, ap, ◌∙◌, ap₂, ==_iff, ◌==◌, if◌then◌else◌, true,
  false, Bool-cases, inl, inr, dec_lt, List, [], ◌∷◌, length, set, length-set, get_or-set_self,
  get_or-set_ne, arith,
}
use nginx_lws.Table.Defs.{Entry, tes_set, at, zeroed, is_unused}
use nginx_lws.Table.Insert.{Inserted, relink}
use nginx_lws.Table.Lookup.{OnChain}
use nginx_lws.Table.Brent.{used, IsPlaced, IsMovable}
use nginx_lws.Table.Placing.{Outcome, kept, moved}
use nginx_lws.Table.Queue.{occ, one_if, occ-relink, length-relink}

-- The array has `alloc` slots, each set entry is on its chain, and the queue has the set entries,
-- each once.
pub record IsStore (es : List Entry) (order : List ℕ) (alloc : ℕ) : Type 0 where
  pub width : length es ≡ alloc
  pub placed : IsPlaced es alloc
  pub queued : (i : ℕ) → occ i order ≡ (if used es i then 1 else 0)

-- The entries in the order of the queue.
abbrev pub items : List Entry → List ℕ → List Entry
items es [] = []
items es (i ∷ is) = at es i ∷ items es is

pub at-set :
    (es : List Entry) (i : ℕ) (e : Entry) (j : ℕ)
    → i < length es
    → at (set es i e) j ≡ (if i == j then e else at es j)
at-set es i e j h = elim (Bool-cases (i == j)) [
  | inl same ↦ let p = (==_iff i j).0 same in rw (same, ← p) (get_or-set_self es i e zeroed h)
  | inr other ↦ rw other (get_or-set_ne es i j e zeroed (λ p. ground (arith, other, p)))
]

get_or-beyond : (es : List Entry) (i : ℕ) → length es ≤ i → at es i ≡ zeroed
get_or-beyond [] i h = refl
get_or-beyond (x ∷ es) zero h = absurd (omega arith)
get_or-beyond (x ∷ es) (suc i) h = get_or-beyond es i (omega arith)

-- A set entry is within the array.
pub used-lt : (es : List Entry) (i : ℕ) → used es i ≡ true → i < length es
used-lt es i h = elim (dec_lt i (length es)) [
  | yes p ↦ p
  | no p ↦ absurd (ground (arith, get_or-beyond es i))
]

-- A chain stays where no slot becomes unused.
pub OnChain-mono :
    (es es' : List Entry) (alloc hash i : ℕ)
    → ((j : ℕ) → is_unused (at es j).state ≡ false → is_unused (at es' j).state ≡ false)
    → OnChain es alloc hash i
    → OnChain es' alloc hash i
OnChain-mono es es' alloc hash i keep (n, e, before) = (n, e, λ m h. keep _ (before m h))

pub items-congr :
    (es es' : List Entry) (order : List ℕ)
    → ((i : ℕ) → 0 < occ i order → at es' i ≡ at es i)
    → items es' order ≡ items es order
unfolding occ
items-congr es es' [] h = refl
items-congr es es' (i ∷ is) h =
    ap₂ ◌∷◌ (h i (ground arith)) (items-congr es es' is (λ j p. h j (ground arith)))

items-relink :
    (es es' : List Entry) (old new : ℕ) (order : List ℕ)
    → occ new order ≡ 0
    → at es' new ≡ at es old
    → ((i : ℕ) → i ≢ old → i ≢ new → at es' i ≡ at es i)
    → items es' (relink old new order) ≡ items es order
unfolding occ relink
items-relink es es' old new [] h e o = refl
items-relink es es' old new (i ∷ is) h e o =
    ap₂ ◌∷◌ (head i (ground arith)) (items-relink es es' old new is (ground arith) e o)
  where
    head : (i : ℕ) → i ≢ new → at es' (if i == old then new else i) ≡ at es i
    head i p = elim (Bool-cases (i == old)) [
      | inl same ↦ rw (same, (==_iff i old).0 same) e
      | inr other ↦ rw other (o i (λ q. ground (arith, other, q)) p)
    ]

module _ (es : List Entry) (order : List ℕ) (alloc hash : ℕ) (big : 3 ≤ alloc)
    (store : IsStore es order alloc) (e : Entry) (is : e.state ≡ tes_set)
    (hashes : e.hash ≡ hash) where
  -- What the writing of `e` into the slot gives, where the queue is `order'` before `e` is linked.
  pub record Stored (es' : List Entry) (order' : List ℕ) (slot : ℕ) : Type 0 where
    pub width : length es' ≡ alloc
    pub placed : IsPlaced es' alloc
    pub queued : (i : ℕ) → occ i order' + one_if slot i ≡ (if used es' i then 1 else 0)
    pub size : length order' ≡ length order
    pub kept_items : items es' order' ≡ items es order
    pub new_item : at es' slot ≡ e

  -- From how the new array reads.
  kept-Stored :
      (slot : ℕ) (es' : List Entry)
      → slot < alloc
      → used es slot ≡ false
      → OnChain es alloc hash slot
      → length es' ≡ alloc
      → ((j : ℕ) → at es' j ≡ (if slot == j then e else at es j))
      → (IsPlaced es' alloc)
        × ((i : ℕ) → occ i order + one_if slot i ≡ (if used es' i then 1 else 0))
        × (items es' order ≡ items es order)
        × (at es' slot ≡ e)
  kept-Stored slot es' h free chain width reads = (
    λ i u. elim (Bool-cases (slot == i)) [
      | inl same ↦
          let p = (==_iff slot i).0 same in
          let here : at es' i ≡ e = reads i ∙ ap (λ b. if b then e else at es i) same in
          rw (here, hashes) (rw (← p) (OnChain-mono es es' alloc hash slot keep chain))
      | inr other ↦
          let there : at es' i ≡ at es i = reads i ∙ ap (λ b. if b then e else at es i) other in
          rw there
            (OnChain-mono es es' alloc (at es i).hash i keep (store.placed i (rw there at u)))
    ],
    λ i. ground (arith, reads i, store.queued i),
    items-congr es es' order (λ i p. ground (arith, reads i, store.queued i)),
    ground (arith, reads slot),
  )
    where
      keep : (j : ℕ) → is_unused (at es j).state ≡ false → is_unused (at es' j).state ≡ false
      keep j p = ground (arith, reads j)

  module _ (slot new : ℕ) (es' : List Entry) (m : IsMovable es alloc big store.placed hash slot new)
      (reads : (j : ℕ)
        → at es' j ≡ (if slot == j then e else if new == j then at es slot else at es j)) where
    apart : slot ≢ new
    apart p = cc (ap (used es) p, m.taken, m.vacant)

    keep : (j : ℕ) → is_unused (at es j).state ≡ false → is_unused (at es' j).state ≡ false
    keep j p = ground (arith, reads j, m.taken)

    moved-IsPlaced : IsPlaced es' alloc
    moved-IsPlaced i u = elim (Bool-cases (slot == i)) [
      | inl same ↦
          let p = (==_iff slot i).0 same in
          let here : at es' i ≡ e = ground (arith, reads i) in
          rw (here, hashes) (rw (← p) (OnChain-mono es es' alloc hash slot keep m.reached))
      | inr other ↦ elim (Bool-cases (new == i)) [
        | inl same ↦
            let p = (==_iff new i).0 same in
            let here : at es' i ≡ at es slot = ground (arith, reads i) in
            rw here (rw (← p) (OnChain-mono es es' alloc (at es slot).hash new keep m.onward))
        | inr others ↦
            let there : at es' i ≡ at es i = ground (arith, reads i) in
            rw there
              (OnChain-mono es es' alloc (at es i).hash i keep (store.placed i (rw there at u)))
      ]
    ]

    moved-queued :
        (i : ℕ) → occ i (relink slot new order) + one_if slot i ≡ (if used es' i then 1 else 0)
    moved-queued i = ground (
      arith,
      reads i,
      store.queued i,
      store.queued new,
      store.queued slot,
      occ-relink i slot new order apart,
      m.taken,
      m.vacant,
    )

    moved-items : items es' (relink slot new order) ≡ items es order
    moved-items =
        items-relink es es' slot new order (ground (arith, store.queued new, m.vacant))
          (ground (arith, reads new, apart)) (λ i p q. ground (arith, reads i))

  -- The entry goes into the slot of the outcome: the store stays in order, the items stay as they
  -- were, and the entry can be read back.
  pub Outcome-Stored :
      (ins : Inserted)
      → Outcome es order alloc hash big store.placed ins
      → Stored (set ins.entries ins.slot e) ins.order ins.slot
  Outcome-Stored ins (kept entries queue free inside chain) =
      let r =
        kept-Stored ins.slot (set es ins.slot e) inside free chain
          (length-set es ins.slot e ∙ store.width)
          (λ j. at-set es ins.slot e j (rw store.width inside)) in
      rw (entries, queue)
        (record {
          width = length-set es ins.slot e ∙ store.width;
          placed = r.0;
          queued = r.1;
          size = refl;
          kept_items = r.2;
          new_item = r.3;
        })
  Outcome-Stored ins (moved new m entries queue) =
      let mid : List Entry = set es new (at es ins.slot) in
      let within : ins.slot < length mid =
        rw (length-set es new (at es ins.slot)) (used-lt es ins.slot m.taken) in
      let reads : (j : ℕ)
          → at (set mid ins.slot e) j
            ≡ (if ins.slot == j then e else if new == j then at es ins.slot else at es j) =
        λ j.
          at-set mid ins.slot e j within
          ∙ ap (λ x. if ins.slot == j then e else x)
              (at-set es new (at es ins.slot) j (rw store.width m.inside)) in
      rw (entries, queue)
        (record {
          width = length-set mid ins.slot e ∙ (length-set es new (at es ins.slot) ∙ store.width);
          placed = moved-IsPlaced ins.slot new (set mid ins.slot e) m reads;
          queued = moved-queued ins.slot new (set mid ins.slot e) m reads;
          size = length-relink ins.slot new order;
          kept_items = moved-items ins.slot new (set mid ins.slot e) m reads;
          new_item = get_or-set_self mid ins.slot e zeroed within;
        })
