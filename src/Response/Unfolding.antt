-- ===== src/Response/Unfolding.antt =====
-- The scan of joined Set-Cookie values, and the loop around it.
use nginx_lws.Base.{
  ℕ, zero, suc, ◌≤◌, ◌<◌, ◌≡◌, refl, sym, ◌∙◌, ◌==◌, Bool, true, false, Option-cases, inl, inr, not,
  none, some, List, [], ◌∷◌, ◌++◌, length, length-append, Bytes, arith,
}
use nginx_lws.Response.Cookies.{
  Compare, skip_spaces, next_expires, scan, after_comma, add_cookie, unfold_value,
}
use nginx_lws.Response.Attributes.{
  Cookie, cookie_text, is_plain, AreAttributes, end_of, end_of_step, end_of-cookie,
}
use nginx_lws.Response.Folding.{IsCompare, next_expires-append}

abbrev starts_bare : Bytes → Bool
starts_bare [] = false
starts_bare (c ∷ cs) = not (c == b' ')

-- A cookie that does not start with a space, with neither a comma nor a semicolon in its head, and with
-- attributes that have commas only in dates
pub record IsCookie (c : Cookie) : Type 0 where
  pub head : is_plain c.head ≡ true
  pub attributes : AreAttributes c.attributes
  pub start : starts_bare (cookie_text c) ≡ true

abbrev pub AllCookies : List Cookie → Type 0
AllCookies [] = Unit {0}
AllCookies (c ∷ cs) = IsCookie c × AllCookies cs

abbrev pub cookie_texts : List Cookie → List Bytes
cookie_texts [] = []
cookie_texts (c ∷ cs) = cookie_text c ∷ cookie_texts cs

-- A text that the unfolding keeps whole
record IsWhole (starts_with : Compare) (p : Bytes) : Type 0 where
  pub whole : end_of starts_with false p ≡ some false
  pub start : starts_bare p ≡ true

-- The fold of a list of cookies into one value, as the table of the headers does it.
unfoldable pub join : Bytes → List Bytes → Bytes
join p [] = p
join p (q ∷ qs) = p ++ b',' ∷ b' ' ∷ join q qs

abbrev AllWhole : Compare → List Bytes → Type 0
AllWhole starts_with [] = Unit {0}
AllWhole starts_with (p ∷ ps) = IsWhole starts_with p × AllWhole starts_with ps

module _ (starts_with : Compare) where
  scan_step :
      (e e' : Bool) (c : ℕ) (cs : Bytes)
      → next_expires starts_with e c cs ≡ some e'
      → scan starts_with e (c ∷ cs) ≡ (c ∷ (scan starts_with e' cs).0, (scan starts_with e' cs).1)
  unfolding scan
  scan_step e e' c cs k = rw (scan, k) refl

  end_of_stop :
      (e : Bool) (c : ℕ) (cs : Bytes)
      → next_expires starts_with e c cs ≡ none
      → end_of starts_with e (c ∷ cs) ≡ none
  unfolding end_of
  end_of_stop e c cs k = rw (end_of, k) refl

module _ (starts_with : Compare) (x : IsCompare starts_with) where
  scan-append :
      (e : Bool) (p t : Bytes)
      → end_of starts_with e p ≡ some false
      → scan starts_with e (p ++ b',' ∷ t) ≡ (p, b',' ∷ t)
  unfolding scan end_of next_expires
  scan-append true [] t h = absurd (ground arith)
  scan-append false [] t h = refl
  scan-append e (c ∷ p) t h = elim (Option-cases (next_expires starts_with e c p)) [
    | inl k ↦ absurd (ground (arith, end_of_stop starts_with e c p k))
    | inr (e', k) ↦
        let r = scan-append e' p t (sym (end_of_step starts_with e e' c p k) ∙ h) in
        scan_step starts_with e e' c (p ++ b',' ∷ t) (next_expires-append starts_with x e c p t ∙ k)
        ∙ rw r refl
  ]

  scan-whole :
      (e e' : Bool) (p : Bytes) → end_of starts_with e p ≡ some e' → scan starts_with e p ≡ (p, [])
  unfolding scan end_of
  scan-whole e e' [] h = refl
  scan-whole e e' (c ∷ p) h = elim (Option-cases (next_expires starts_with e c p)) [
    | inl k ↦ absurd (ground (arith, end_of_stop starts_with e c p k))
    | inr (e'', k) ↦
        let r = scan-whole e'' e' p (sym (end_of_step starts_with e e'' c p k) ∙ h) in
        scan_step starts_with e e'' c p k ∙ rw r refl
  ]

  add_cookie_next :
      (p q : Bytes) (qs : List Bytes)
      → starts_bare q ≡ true
      → add_cookie p q (some qs) ≡ some (p ∷ qs)
  add_cookie_next p [] qs h = absurd (ground arith)
  add_cookie_next p (c ∷ q) qs h = refl

  join_start : (p : Bytes) (qs : List Bytes) → starts_bare p ≡ true → starts_bare (join p qs) ≡ true
  unfolding join
  join_start p [] h = h
  join_start [] (q ∷ qs) h = absurd (ground arith)
  join_start (c ∷ p) (q ∷ qs) h = h

  skip_spaces_bare : (p : Bytes) → starts_bare p ≡ true → skip_spaces p ≡ p
  unfolding skip_spaces
  skip_spaces_bare [] h = refl
  skip_spaces_bare (c ∷ p) h = ground arith

  unfold_join :
      (fuel : ℕ) (p : Bytes) (qs : List Bytes)
      → AllWhole starts_with (p ∷ qs)
      → length qs < fuel
      → unfold_value starts_with fuel (join p qs) ≡ some (p ∷ qs)
  unfolding unfold_value after_comma join
  unfold_join zero p qs i h = absurd (ground arith)
  unfold_join (suc fuel) p [] i h = rw (scan-whole false false p (i.0.whole)) refl
  unfold_join (suc fuel) p (q ∷ qs) i h =
      let e = unfold_join fuel q qs i.1 (omega arith) in
      rw (scan-append false p (b' ' ∷ join q qs) (i.0.whole)) (
        rw (skip_spaces_bare (join q qs) (join_start q qs (i.1.0.start)), e)
          (add_cookie_next p (join q qs) (q ∷ qs) (join_start q qs (i.1.0.start))))

  length-join :
      (p : Bytes) (qs : List Bytes) → AllWhole starts_with (p ∷ qs) → length qs ≤ length (join p qs)
  unfolding join
  length-join p [] i = omega arith
  length-join p (q ∷ qs) i =
      omega (arith, length-append p (b',' ∷ b' ' ∷ join q qs), length-join q qs i.1)

  AllCookies-AllWhole : (cs : List Cookie) → AllCookies cs → AllWhole starts_with (cookie_texts cs)
  AllCookies-AllWhole [] i = tt
  AllCookies-AllWhole (c ∷ cs) i = (
    record { whole = end_of-cookie starts_with x c i.0.head i.0.attributes; start = i.0.start },
    AllCookies-AllWhole cs i.1,
  )

  -- Where the comparison is that of the first bytes in lower case: cookies that do not start with a
  -- space, with semicolons before their attributes, a comma at most once in each attribute that starts
  -- with `Expires=` in any case, and none elsewhere, of which no last attribute of that name is without
  -- its comma, are unfolded from their texts joined by a comma and a space into the same texts, in as
  -- many steps as there are bytes.
  pub unfold_value-join :
      (c : Cookie) (cs : List Cookie)
      → AllCookies (c ∷ cs)
      → unfold_value starts_with
          (suc (length (join (cookie_text c) (cookie_texts cs))))
          (join (cookie_text c) (cookie_texts cs))
        ≡ some (cookie_texts (c ∷ cs))
  unfold_value-join c cs i =
      let w = AllCookies-AllWhole (c ∷ cs) i in
      unfold_join _ (cookie_text c) (cookie_texts cs) w
        (omega (arith, length-join (cookie_text c) (cookie_texts cs) w))
