-- ===== src/Response/Folding.antt =====
-- The unfolding of Set-Cookie values that are joined with a comma and a space.
use nginx_lws.Base.{
  ℕ, zero, suc, ◌≤◌, ◌<◌, ◌≡◌, refl, sym, ap, ◌∙◌, ◌==◌, leb, Bool, true, false, Bool-cases, inl,
  inr, ◌||◌, [], ◌∷◌, ◌++◌, length, length-append, take, Bytes, bytes_of, arith,
}
use nginx_lws.Table.Ascii.{lower, lowers}
use nginx_lws.Response.Cookies.{Compare, skip_blanks, is_expires, next_expires}

-- The comparison is the equality of the first bytes in lower case.
pub record IsCompare (starts_with : Compare) : Type 0 where
  pub lowers_iff :
      (a b : Bytes)
      → (starts_with a b ≡ true → lowers (take (length b) a) ≡ lowers b)
        × (lowers (take (length b) a) ≡ lowers b → starts_with a b ≡ true)

-- The bytes that end an attribute or a cookie
abbrev pub ends : ℕ → Bool
ends c = c == b',' || c == b';'

-- Whether one of these is among the bytes
has_end : Bytes → Bool
has_end [] = false
has_end (c ∷ cs) = ends c || has_end cs

or_true : (b : Bool) → (b || true) ≡ true
or_true true = refl
or_true false = refl

ends-lower : (c : ℕ) → ends c ≡ true → ends (lower c) ≡ true
unfolding lower
ends-lower c h = ground (arith, h)

-- An end within the first `n` bytes is among them in lower case.
end_within :
    (n : ℕ) (p : Bytes) (c : ℕ) (t : Bytes)
    → ends c ≡ true
    → length p < n
    → has_end (lowers (take n (p ++ c ∷ t))) ≡ true
unfolding has_end lowers
end_within zero p c t i h = absurd (ground arith)
end_within (suc n) [] c t i h = rw (ends-lower c i) refl
end_within (suc n) (d ∷ p) c t i h =
    rw (end_within n p c t i (omega arith)) (or_true (ends (lower d)))

take_within : (n : ℕ) (p t : Bytes) → n ≤ length p → take n (p ++ t) ≡ take n p
take_within zero p t h = refl
take_within (suc n) [] t h = absurd (ground arith)
take_within (suc n) (c ∷ p) t h = ap (λ x. c ∷ x) (take_within n p t (omega arith))

-- The blanks before the bytes of an attribute do not reach the end behind it.
skip_blanks-append :
    (p : Bytes) (c : ℕ) (t : Bytes)
    → ends c ≡ true
    → skip_blanks (p ++ c ∷ t) ≡ skip_blanks p ++ c ∷ t
unfolding skip_blanks
skip_blanks-append [] c t i = ground (arith, i)
skip_blanks-append (d ∷ p) c t i = ground (arith, skip_blanks-append p c t i)

module _ (starts_with : Compare) (x : IsCompare starts_with) where
  -- The comparison reads as many bytes as the literal has.
  starts_with-take :
      (a b c : Bytes)
      → take (length c) a ≡ take (length c) b
      → starts_with a c ≡ true
      → starts_with b c ≡ true
  starts_with-take a b c e h = (x.lowers_iff b c).1 (sym (ap lowers e) ∙ (x.lowers_iff a c).0 h)

  short-is_not :
      (p : Bytes) (c : ℕ) (t : Bytes)
      → ends c ≡ true
      → length p < 8
      → starts_with (p ++ c ∷ t) (bytes_of "Expires=") ≡ false
  unfolding has_end lowers lower
  short-is_not p c t i h = elim (Bool-cases (starts_with (p ++ c ∷ t) (bytes_of "Expires="))) [
    | inl e ↦
        let k : false ≡ true = sym (ap has_end ((x.lowers_iff _ _).0 e)) ∙ end_within 8 p c t i h in
        absurd (ground arith)
    | inr e ↦ e
  ]

  long-is_same :
      (p t : Bytes)
      → 8 ≤ length p
      → starts_with (p ++ t) (bytes_of "Expires=") ≡ starts_with p (bytes_of "Expires=")
  long-is_same p t h =
      let e = take_within 8 p t h in
      let f = starts_with-take (p ++ t) p (bytes_of "Expires=") e in
      let g = starts_with-take p (p ++ t) (bytes_of "Expires=") (sym e) in
      elim (Bool-cases (starts_with p (bytes_of "Expires="))) [
        | inl k ↦ g k ∙ sym k
        | inr k ↦ elim (Bool-cases (starts_with (p ++ t) (bytes_of "Expires="))) [
          | inl j ↦ j ∙ sym (f j)
          | inr j ↦ j ∙ sym k
        ]
      ]

  -- The test for Expires does not look beyond the end of an attribute.
  pub is_expires-append :
      (p : Bytes) (c : ℕ) (t : Bytes)
      → ends c ≡ true
      → is_expires starts_with (p ++ c ∷ t) ≡ is_expires starts_with p
  unfolding is_expires
  is_expires-append p c t i =
      rw (skip_blanks-append p c t i) (elim (Bool-cases (leb 8 (length (skip_blanks p)))) [
        | inl h ↦
            rw (long-is_same (skip_blanks p) (c ∷ t) (ground arith))
              (ground (arith, length-append (skip_blanks p) (c ∷ t)))
        | inr h ↦ rw (short-is_not (skip_blanks p) c t i (ground arith)) (ground arith)
      ])

  pub next_expires-append :
      (e : Bool) (c : ℕ) (p t : Bytes)
      → next_expires starts_with e c (p ++ b',' ∷ t) ≡ next_expires starts_with e c p
  unfolding next_expires
  next_expires-append e c p t = rw (is_expires-append p b',' t refl) refl
