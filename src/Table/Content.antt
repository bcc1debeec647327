-- ===== src/Table/Content.antt =====
-- What a well-formed table of src/lws_table.c asks of its entries, said of the content: so it can
-- be carried over where the slots change.
use nginx_lws.Base.{
  ℕ, ◌+◌, ◌<◌, ◌≤◌, ◌≡◌, ◌≢◌, refl, ap, ◌==◌, ==_iff, if◌then◌else◌, Bool, true, false, Bool-cases,
  inl, inr, List, [], ◌∷◌, ◌++◌, arith, ℕ_discrete,
}
use nginx_lws.Table.Defs.{Entry, Strings, at, lws_table_hash}
use nginx_lws.Table.Brent.{used}
use nginx_lws.Table.Queue.{occ}
use nginx_lws.Table.Store.{IsStore, items}
use nginx_lws.Table.Valid.{is_for, matches-used}

-- How many items pass.
unfoldable pub tally : (Entry → Bool) → List Entry → ℕ
tally p [] = 0
tally p (e ∷ es) = (if p e then 1 else 0) + tally p es

pub tally-append :
    (p : Entry → Bool) (xs ys : List Entry) → tally p (xs ++ ys) ≡ tally p xs + tally p ys
unfolding tally
tally-append p [] ys = omega arith
tally-append p (x ∷ xs) ys = omega (arith, tally-append p xs ys)

abbrev pub AllItems : (Entry → Type 0) → List Entry → Type 0
AllItems P [] = Unit {0}
AllItems P (e ∷ es) = P e × AllItems P es

pub AllItems-append :
    (P : Entry → Type 0) (xs ys : List Entry)
    → AllItems P xs
    → AllItems P ys
    → AllItems P (xs ++ ys)
AllItems-append P [] ys a b = b
AllItems-append P (x ∷ xs) ys a b = (a.0, AllItems-append P xs ys a.1 b)

AllItems-at :
    (P : Entry → Type 0) (es : List Entry) (order : List ℕ) (i : ℕ)
    → AllItems P (items es order)
    → 0 < occ i order
    → P (at es i)
unfolding occ
AllItems-at P es [] i a h = absurd (omega arith)
AllItems-at P es (j ∷ js) i a h = elim (Bool-cases (j == i)) [
  | inl e ↦ rw (← (==_iff j i).0 e) a.0
  | inr e ↦ AllItems-at P es js i a.1 (ground arith)
]

AllItems-items :
    (P : Entry → Type 0) (es : List Entry) (order : List ℕ)
    → ((i : ℕ) → 0 < occ i order → P (at es i))
    → AllItems P (items es order)
unfolding occ
AllItems-items P es [] h = tt
AllItems-items P es (j ∷ js) h =
    (h j (ground arith), AllItems-items P es js (λ i q. h i (ground arith)))

tally-two :
    (p : Entry → Bool) (es : List Entry) (order : List ℕ) (i j : ℕ)
    → i ≢ j
    → p (at es i) ≡ true
    → p (at es j) ≡ true
    → occ i order + occ j order ≤ tally p (items es order)
unfolding occ tally
tally-two p es [] i j h a b = omega arith
tally-two p es (k ∷ ks) i j h a b =
    let rest = tally-two p es ks i j h a b in
    elim (Bool-cases (k == i)) [
      | inl e ↦ let q = (==_iff k i).0 e in ground (arith, rest, ap (λ x. p (at es x)) q)
      | inr e ↦ elim (Bool-cases (k == j)) [
        | inl e' ↦ let q = (==_iff k j).0 e' in ground (arith, rest, ap (λ x. p (at es x)) q)
        | inr e' ↦ ground (arith, rest)
      ]
    ]

tally-zero :
    (p : Entry → Bool) (es : List Entry) (order : List ℕ)
    → ((i : ℕ) → 0 < occ i order → p (at es i) ≡ false)
    → tally p (items es order) ≡ 0
unfolding occ tally
tally-zero p es [] h = refl
tally-zero p es (j ∷ js) h = ground (arith, h j, tally-zero p es js (λ i q. h i (ground arith)))

tally-one :
    (p : Entry → Bool) (es : List Entry) (order : List ℕ)
    → ((i : ℕ) → occ i order ≤ 1)
    → ((i j : ℕ) → p (at es i) ≡ true → p (at es j) ≡ true → i ≡ j)
    → tally p (items es order) ≤ 1
unfolding occ tally
tally-one p es [] once only = omega arith
tally-one p es (j ∷ js) once only = elim (Bool-cases (p (at es j))) [
  | inl e ↦
      let none_left = tally-zero p es js (λ i q. elim (Bool-cases (p (at es i))) [
        | inr f ↦ f
        | inl f ↦ absurd (ground (arith, only i j f e, once j))
      ]) in
      ground (arith, none_left)
  | inr e ↦ ground (arith, tally-one p es js (λ i. ground (arith, once i)) only)
]

module _ (str : Strings) (seed : ℕ) (ci : Bool) where
  -- Each item has the hash of its key, and no two are for one key.
  pub record IsContent (es : List Entry) : Type 0 where
    pub hashed : AllItems (λ e. e.hash ≡ lws_table_hash str seed ci e.key) es
    pub distinct : (key : List ℕ) → tally (is_for str seed ci key) es ≤ 1

  module _ (es : List Entry) (order : List ℕ) {alloc : ℕ} (store : IsStore es order alloc) where
    in_queue : (i : ℕ) → used es i ≡ true → 0 < occ i order
    in_queue i h = ground (arith, store.queued i)

    from_queue : (i : ℕ) → 0 < occ i order → used es i ≡ true
    from_queue i h = ground (arith, store.queued i)

    pub IsContent-of :
        ((i : ℕ) → used es i ≡ true → (at es i).hash ≡ lws_table_hash str seed ci (at es i).key)
        → ((i j : ℕ) (key : List ℕ)
            → is_for str seed ci key (at es i) ≡ true
            → is_for str seed ci key (at es j) ≡ true
            → i ≡ j)
        → IsContent (items es order)
    IsContent-of h d = record {
      hashed =
          AllItems-items (λ e. e.hash ≡ lws_table_hash str seed ci e.key) es order
            (λ i q. h i (from_queue i q));
      distinct = λ key.
          tally-one (is_for str seed ci key) es order (λ i. ground (arith, store.queued i))
            (λ i j. d i j key);
    }

    module _ (c : IsContent (items es order)) where
      pub hashed_of :
          (i : ℕ) → used es i ≡ true → (at es i).hash ≡ lws_table_hash str seed ci (at es i).key
      hashed_of i h =
          AllItems-at (λ e. e.hash ≡ lws_table_hash str seed ci e.key) es order i c.hashed
            (in_queue i h)

      pub distinct_of :
          (i j : ℕ) (key : List ℕ)
          → is_for str seed ci key (at es i) ≡ true
          → is_for str seed ci key (at es j) ≡ true
          → i ≡ j
      distinct_of i j key a b = elim (ℕ_discrete i j) [
        | yes e ↦ e
        | no e ↦ absurd (
            omega (
              arith,
              tally-two (is_for str seed ci key) es order i j e a b,
              c.distinct key,
              in_queue i (matches-used str seed ci key es i a),
              in_queue j (matches-used str seed ci key es j b),
            ))
      ]
