-- ===== src/Table/Spec.antt =====
-- What the operations of src/lws_table.c do to the abstract content, the entries in queue order.
use nginx_lws.Base.{
  ℕ, ◌<◌, ◌≡◌, refl, ap, ap₂, ◌==◌, ==_iff, if◌then◌else◌, Bool, true, false, Bool-cases, inl, inr,
  Option, none, some, List, [], ◌∷◌, ◌++◌, arith,
}
use nginx_lws.Table.Defs.{Entry, at}
use nginx_lws.Table.Ops.{unlink, touch}
use nginx_lws.Table.Queue.{occ}
use nginx_lws.Table.Store.{items}

module _ (p : Entry → Bool) where
  -- The first item that passes.
  unfoldable pub pick : List Entry → Option Entry
  pick [] = none
  pick (e ∷ es) = if p e then some e else pick es

  -- Without the first item that passes.
  unfoldable pub without : List Entry → List Entry
  without [] = []
  without (e ∷ es) = if p e then es else e ∷ without es

  -- With `x` in place of the items that pass.
  unfoldable pub replaced : Entry → List Entry → List Entry
  replaced x [] = []
  replaced x (e ∷ es) = (if p e then x else e) ∷ replaced x es

  module _ (es : List Entry) (i : ℕ) (hit : p (at es i) ≡ true)
      (only : (j : ℕ) → p (at es j) ≡ true → j ≡ i) where
    misses : (j : ℕ) → (j == i) ≡ false → p (at es j) ≡ false
    misses j h = elim (Bool-cases (p (at es j))) [
      | inr e ↦ e
      | inl e ↦ absurd (ground (arith, only j e))
    ]

    pub pick-items : (order : List ℕ) → 0 < occ i order → pick (items es order) ≡ some (at es i)
    unfolding pick occ
    pick-items [] h = absurd (omega arith)
    pick-items (j ∷ js) h = elim (Bool-cases (j == i)) [
      | inl e ↦ rw ((==_iff j i).0 e, hit)
      | inr e ↦ rw (misses j e) (pick-items js (ground arith))
    ]

    pub items-unlink : (order : List ℕ) → items es (unlink i order) ≡ without (items es order)
    unfolding unlink without
    items-unlink [] = refl
    items-unlink (j ∷ js) = elim (Bool-cases (j == i)) [
      | inl e ↦ rw (e, (==_iff j i).0 e, hit)
      | inr e ↦ rw (e, misses j e) (ap (◌∷◌ (at es j)) (items-unlink js))
    ]

    pub items-replaced :
        (es' : List Entry) (x : Entry) (order : List ℕ)
        → ((j : ℕ) → at es' j ≡ (if i == j then x else at es j))
        → items es' order ≡ replaced x (items es order)
    unfolding replaced
    items-replaced es' x [] h = refl
    items-replaced es' x (j ∷ js) h = elim (Bool-cases (j == i)) [
      | inl e ↦ ap₂ ◌∷◌ (ground (arith, h j, hit, (==_iff j i).0 e)) (items-replaced es' x js h)
      | inr e ↦ ap₂ ◌∷◌ (ground (arith, h j, misses j e)) (items-replaced es' x js h)
    ]

  pub pick-items-none :
      (es : List Entry) (order : List ℕ)
      → ((j : ℕ) → p (at es j) ≡ false)
      → pick (items es order) ≡ none
  unfolding pick
  pick-items-none es [] h = refl
  pick-items-none es (j ∷ js) h = rw (h j) (pick-items-none es js h)

  pub without_none :
      (es : List Entry) (order : List ℕ)
      → ((j : ℕ) → p (at es j) ≡ false)
      → without (items es order) ≡ items es order
  unfolding without
  without_none es [] h = refl
  without_none es (j ∷ js) h = rw (h j) (ap (◌∷◌ (at es j)) (without_none es js h))

pub items-append :
    (es : List Entry) (xs ys : List ℕ) → items es (xs ++ ys) ≡ items es xs ++ items es ys
items-append es [] ys = refl
items-append es (x ∷ xs) ys = ap (◌∷◌ (at es x)) (items-append es xs ys)

pub items-touch :
    (es : List Entry) (i : ℕ) (order : List ℕ)
    → items es (touch i order) ≡ items es (unlink i order) ++ at es i ∷ []
unfolding touch
items-touch es i order = items-append es (unlink i order) (i ∷ [])
