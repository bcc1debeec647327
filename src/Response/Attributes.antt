-- ===== src/Response/Attributes.antt =====
-- A Set-Cookie value as the cookies of RFC 6265 are written, with attributes behind semicolons, and the
-- variable `expires` of `lws_set_response_header` of src/lws_module.c at its end.
use mathlib.Core.List.{append-nil}
use nginx_lws.Base.{
  ℕ, ◌≡◌, refl, sym, ap, ◌∙◌, ◌==◌, leb, Bool, true, false, Bool-cases, inl, inr, not, ◌&&◌, ◌||◌,
  Option, none, some, List, [], ◌∷◌, ◌++◌, length, take, Bytes, bytes_of, arith,
}
use nginx_lws.Table.Ascii.{same, same_refl, same_eq, lower, lowers}
use nginx_lws.Response.Cookies.{Compare, skip_blanks, is_expires, next_expires}
use nginx_lws.Response.Folding.{IsCompare, ends, is_expires-append}

-- An attribute: blanks, its text, and what follows the comma of a date, where there is one
pub record Attribute : Type 0 where
  pub blanks : Bytes
  pub text : Bytes
  pub date : Option Bytes

pub record Cookie : Type 0 where
  pub head : Bytes
  pub attributes : List Attribute

abbrev pub date_text : Option Bytes → Bytes
date_text none = []
date_text (some u) = b',' ∷ u

abbrev pub attributes_text : List Attribute → Bytes
attributes_text [] = []
attributes_text (a ∷ rest) =
    b';' ∷ (a.blanks ++ (a.text ++ (date_text a.date ++ attributes_text rest)))

abbrev pub cookie_text : Cookie → Bytes
cookie_text c = c.head ++ attributes_text c.attributes

abbrev is_blank : ℕ → Bool
is_blank c = c == b' ' || c == b'\t'

abbrev pub all_blank : Bytes → Bool
all_blank [] = true
all_blank (c ∷ cs) = is_blank c && all_blank cs

abbrev pub starts_unblank : Bytes → Bool
starts_unblank [] = true
starts_unblank (c ∷ cs) = not (is_blank c)

-- No comma and no semicolon
abbrev pub is_plain : Bytes → Bool
is_plain [] = true
is_plain (c ∷ cs) = not (ends c) && is_plain cs

-- Whether the text of an attribute starts with `Expires=`, in any case of the letters
unfoldable pub is_named : Bytes → Bool
unfolding same lowers
is_named text = leb 8 (length text) && same (lowers (take 8 text)) (bytes_of "expires=")

-- Only an attribute Expires has a comma, and one at most.
abbrev pub IsDate : Bytes → Option Bytes → Type 0
IsDate text none = Unit {0}
IsDate text (some u) = (is_named text ≡ true) × (is_plain u ≡ true)

pub record IsAttribute (a : Attribute) : Type 0 where
  pub blanks : all_blank a.blanks ≡ true
  pub start : starts_unblank a.text ≡ true
  pub text : is_plain a.text ≡ true
  pub date : IsDate a.text a.date

-- An attribute Expires has its comma.
abbrev pub IsDated : Bytes → Option Bytes → Type 0
IsDated text none = is_named text ≡ false
IsDated text (some u) = Unit {0}

-- Only behind the last attribute a missing comma matters: the next semicolon ends the others.
abbrev pub AreAttributes : List Attribute → Type 0
AreAttributes [] = Unit {0}
AreAttributes (a ∷ []) = IsAttribute a × IsDated a.text a.date
AreAttributes (a ∷ b ∷ rest) = IsAttribute a × AreAttributes (b ∷ rest)

-- The variable `expires` at the end of a text that the scan does not leave at a comma.
unfoldable pub end_of : Compare → Bool → Bytes → Option Bool
unfolding next_expires
end_of starts_with e [] = some e
end_of starts_with e (c ∷ cs) = elim (next_expires starts_with e c cs) [
  | none ↦ none
  | some e' ↦ end_of starts_with e' cs
]

skip_blanks-blank : (b t : Bytes) → all_blank b ≡ true → skip_blanks (b ++ t) ≡ skip_blanks t
unfolding skip_blanks
skip_blanks-blank [] t h = refl
skip_blanks-blank (c ∷ b) t h = ground (arith, h, skip_blanks-blank b t)

skip_blanks-unblank : (t : Bytes) → starts_unblank t ≡ true → skip_blanks t ≡ t
unfolding skip_blanks
skip_blanks-unblank [] h = refl
skip_blanks-unblank (c ∷ t) h = ground (arith, h)

is_plain-blank : (b : Bytes) → all_blank b ≡ true → is_plain b ≡ true
is_plain-blank [] h = refl
is_plain-blank (c ∷ b) h = ground (arith, h, is_plain-blank b)

-- What may stand behind the text of an attribute
abbrev Ends : Bytes → Type 0
Ends [] = Unit {0}
Ends (c ∷ t) = ends c ≡ true

after_text :
    (date : Option Bytes) (rest : List Attribute) → Ends (date_text date ++ attributes_text rest)
after_text none [] = tt
after_text none (a ∷ rest) = refl
after_text (some u) rest = refl

module _ (starts_with : Compare) where
  pub end_of_step :
      (e e' : Bool) (c : ℕ) (cs : Bytes)
      → next_expires starts_with e c cs ≡ some e'
      → end_of starts_with e (c ∷ cs) ≡ end_of starts_with e' cs
  unfolding end_of
  end_of_step e e' c cs k = rw (end_of, k) refl

  end_of-plain :
      (e : Bool) (p t : Bytes)
      → is_plain p ≡ true
      → end_of starts_with e (p ++ t) ≡ end_of starts_with e t
  unfolding next_expires
  end_of-plain e [] t h = refl
  end_of-plain e (c ∷ p) t h =
      end_of_step e e c (p ++ t) (ground (arith, h)) ∙ end_of-plain e p t (ground (arith, h))

  -- The comma of a date
  end_of-date :
      (text : Bytes) (date : Option Bytes) (t : Bytes)
      → IsDate text date
      → (e : Bool) × (end_of starts_with (is_named text) (date_text date ++ t)
          ≡ end_of starts_with e t)
        × (IsDated text date → e ≡ false)
  unfolding next_expires
  end_of-date text none t d = (is_named text, refl, λ k. k)
  end_of-date text (some u) t d = (
    false,
    ap (λ e. end_of starts_with e (b',' ∷ (u ++ t))) d.0
        ∙ (end_of_step true false b',' (u ++ t) refl ∙ end_of-plain false u t d.1),
    λ _. refl,
  )

module _ (starts_with : Compare) (x : IsCompare starts_with) where
  starts_with-named :
      (text : Bytes)
      → starts_with text (bytes_of "Expires=") ≡ same (lowers (take 8 text)) (bytes_of "expires=")
  unfolding lowers lower
  starts_with-named text =
      let i = x.lowers_iff text (bytes_of "Expires=") in
      elim (Bool-cases (same (lowers (take 8 text)) (bytes_of "expires="))) [
        | inl h ↦ i.1 (same_eq _ _ h) ∙ sym h
        | inr h ↦ elim (Bool-cases (starts_with text (bytes_of "Expires="))) [
          | inl k ↦
              k
              ∙ sym
                  (ap (λ a. same a (bytes_of "expires=")) (i.0 k) ∙ same_refl (bytes_of "expires="))
          | inr k ↦ k ∙ sym h
        ]
      ]

  is_expires-text :
      (text : Bytes) → starts_unblank text ≡ true → is_expires starts_with text ≡ is_named text
  unfolding is_expires is_named
  is_expires-text text h =
      rw (skip_blanks-unblank text h) (ap (λ b. leb 8 (length text) && b) (starts_with-named text))

  is_expires-behind :
      (text t : Bytes)
      → starts_unblank text ≡ true
      → Ends t
      → is_expires starts_with (text ++ t) ≡ is_named text
  is_expires-behind text [] h i =
      ap (is_expires starts_with) (append-nil text) ∙ is_expires-text text h
  is_expires-behind text (c ∷ t) h i =
      is_expires-append starts_with x text c t i ∙ is_expires-text text h

  -- The test for Expires is right behind the semicolon of an attribute.
  is_expires-named :
      (blanks text t : Bytes)
      → all_blank blanks ≡ true
      → starts_unblank text ≡ true
      → Ends t
      → is_expires starts_with (blanks ++ (text ++ t)) ≡ is_named text
  unfolding is_expires
  is_expires-named blanks text t b h i =
      rw (skip_blanks-blank blanks (text ++ t) b) (is_expires-behind text t h i)

  end_of-attribute :
      (e : Bool) (a : Attribute) (rest : List Attribute)
      → IsAttribute a
      → end_of starts_with e (attributes_text (a ∷ rest))
        ≡ end_of starts_with (is_named a.text) (date_text a.date ++ attributes_text rest)
  unfolding next_expires
  end_of-attribute e a rest i =
      let t = date_text a.date ++ attributes_text rest in
      end_of_step starts_with e (is_named a.text) b';' (a.blanks ++ (a.text ++ t))
        (ap some (is_expires-named a.blanks a.text t i.blanks i.start (after_text a.date rest)))
      ∙ (end_of-plain starts_with (is_named a.text) a.blanks (a.text ++ t)
            (is_plain-blank a.blanks i.blanks)
          ∙ end_of-plain starts_with (is_named a.text) a.text t i.text)

  end_of-attributes :
      (e : Bool) (a : Attribute) (rest : List Attribute)
      → AreAttributes (a ∷ rest)
      → end_of starts_with e (attributes_text (a ∷ rest)) ≡ some false
  unfolding end_of
  end_of-attributes e a [] (i, d) =
      let r = end_of-date starts_with a.text a.date [] i.date in
      end_of-attribute e a [] i ∙ (r.1 ∙ ap some (r.2 d))
  end_of-attributes e a (b ∷ bs) (i, d) =
      let r = end_of-date starts_with a.text a.date (attributes_text (b ∷ bs)) i.date in
      end_of-attribute e a (b ∷ bs) i ∙ (r.1 ∙ end_of-attributes r.0 b bs d)

  end_of-attributes_end :
      (l : List Attribute)
      → AreAttributes l
      → end_of starts_with false (attributes_text l) ≡ some false
  unfolding end_of
  end_of-attributes_end [] d = refl
  end_of-attributes_end (a ∷ l) d = end_of-attributes false a l d

  -- Behind a cookie, `expires` is not set.
  pub end_of-cookie :
      (c : Cookie)
      → is_plain c.head ≡ true
      → AreAttributes c.attributes
      → end_of starts_with false (cookie_text c) ≡ some false
  unfolding end_of
  end_of-cookie c h d =
      end_of-plain starts_with false c.head (attributes_text c.attributes) h
      ∙ end_of-attributes_end c.attributes d
