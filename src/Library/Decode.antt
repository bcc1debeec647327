-- ===== src/Library/Decode.antt =====
-- `lws_unescape_url` of src/lws_lib.c against the decoding of a URL by its definition.
use nginx_lws.Base.{
  ℕ, zero, suc, ◌+◌, ◌*◌, ◌≤◌, ◌≡◌, refl, ap, sym, ◌∙◌, ◌==◌, ==_iff, if◌then◌else◌, true, false,
  Bool-cases, Option-cases, inl, inr, Option, none, some, List, [], ◌∷◌, arith,
}
use nginx_lws.Library.Unescape.{plain, hex_digit, emit, unescape_loop, bytes, lws_unescape_url}

-- The byte of two hexadecimal digits
unfoldable pub hex_byte : ℕ → ℕ → Option ℕ
hex_byte a b = elim (hex_digit a) [
  | none ↦ none
  | some d ↦ elim (hex_digit b) [ none ↦ none | some e ↦ some (d * 16 + e) ]
]

-- A plus sign is a space, a percent sign with two hexadecimal digits is their byte, and any other
-- byte is itself.
unfoldable pub decode : List ℕ → List ℕ
decode [] = []
decode (x ∷ []) = (if x == 43 then 32 else x) ∷ []
decode (x ∷ (a ∷ [])) = (if x == 43 then 32 else x) ∷ decode (a ∷ [])
decode (x ∷ (a ∷ (b ∷ s))) =
    let after = decode s in
    let rest = decode (a ∷ (b ∷ s)) in
    if x == 37
    then (elim (hex_byte a b) [ none ↦ 37 ∷ rest | some c ↦ c ∷ after ])
    else (if x == 43 then 32 else x) ∷ rest

hex-plain : (x : ℕ) (d : ℕ) → hex_digit x ≡ some d → ((x == 43) ≡ false) × ((x == 37) ≡ false)
unfolding hex_digit
hex-plain x d h = ground arith

-- A step on a byte that is not a percent sign
step-other :
    (f x : ℕ) (s : List ℕ)
    → (x == 37) ≡ false
    → unescape_loop (suc f) plain (x ∷ s)
      ≡ emit (if x == 43 then 32 else x) (unescape_loop f plain s)
unfolding unescape_loop
step-other f x s h = ground arith

step-end : (f x : ℕ) → (x == 37) ≡ true → unescape_loop (suc (suc f)) plain (x ∷ []) ≡ some (x ∷ [])
unfolding unescape_loop
step-end f x h = ground (arith, (==_iff x 37).0 h)

module _ (f x a : ℕ) (s : List ℕ) (pct : (x == 37) ≡ true) where
  step-first :
      hex_digit a ≡ none
      → unescape_loop (suc (suc f)) plain (x ∷ a ∷ s) ≡ emit 37 (unescape_loop f plain (a ∷ s))
  unfolding unescape_loop
  step-first h = ground (arith, (==_iff x 37).0 pct, h)

  step-cut :
      (d : ℕ)
      → hex_digit a ≡ some d
      → unescape_loop (suc (suc (suc f))) plain (x ∷ a ∷ []) ≡ some (37 ∷ a ∷ [])
  unfolding unescape_loop
  step-cut d h = ground (arith, (==_iff x 37).0 pct, h)

  step-second :
      (d b : ℕ)
      → hex_digit a ≡ some d
      → hex_digit b ≡ none
      → unescape_loop (suc (suc (suc f))) plain (x ∷ a ∷ b ∷ s)
        ≡ emit 37 (unescape_loop f plain (a ∷ b ∷ s))
  unfolding unescape_loop
  step-second d b h k = ground (arith, (==_iff x 37).0 pct, h, k)

  step-byte :
      (d b e : ℕ)
      → hex_digit a ≡ some d
      → hex_digit b ≡ some e
      → unescape_loop (suc (suc (suc f))) plain (x ∷ a ∷ b ∷ s)
        ≡ emit (d * 16 + e) (unescape_loop f plain s)
  unfolding unescape_loop
  step-byte d b e h k = ground (arith, (==_iff x 37).0 pct, h, k)

emit-some : (c : ℕ) (o : Option (List ℕ)) (out : List ℕ) → o ≡ some out → emit c o ≡ some (c ∷ out)
unfolding emit
emit-some c o out h = rw h refl

decode-end : (x : ℕ) → (x == 37) ≡ true → decode (x ∷ []) ≡ x ∷ []
unfolding decode
decode-end x h = ground (arith, (==_iff x 37).0 h)

decode-other :
    (x : ℕ) (s : List ℕ)
    → (x == 37) ≡ false
    → decode (x ∷ s) ≡ (if x == 43 then 32 else x) ∷ decode s
unfolding decode
decode-other x [] h = refl
decode-other x (a ∷ []) h = refl
decode-other x (a ∷ (b ∷ s)) h = rw (h, decode) refl

decode-two : (x a : ℕ) → (x == 37) ≡ true → decode (x ∷ a ∷ []) ≡ 37 ∷ decode (a ∷ [])
unfolding decode
decode-two x a h = ground (arith, (==_iff x 37).0 h)

decode-bad :
    (x a b : ℕ) (s : List ℕ)
    → (x == 37) ≡ true
    → hex_byte a b ≡ none
    → decode (x ∷ a ∷ b ∷ s) ≡ 37 ∷ decode (a ∷ b ∷ s)
unfolding decode
decode-bad x a b s h k = rw (h, k, decode) refl

decode-byte :
    (x a b c : ℕ) (s : List ℕ)
    → (x == 37) ≡ true
    → hex_byte a b ≡ some c
    → decode (x ∷ a ∷ b ∷ s) ≡ c ∷ decode s
unfolding decode
decode-byte x a b c s h k = rw (h, k, decode) refl

hex_byte-none : (a b : ℕ) → hex_digit a ≡ none → hex_byte a b ≡ none
unfolding hex_byte
hex_byte-none a b h = rw (h, hex_byte) refl

hex_byte-half : (a b d : ℕ) → hex_digit a ≡ some d → hex_digit b ≡ none → hex_byte a b ≡ none
unfolding hex_byte
hex_byte-half a b d h k = rw (h, hex_byte) (rw k refl)

hex_byte-some :
    (a b d e : ℕ) → hex_digit a ≡ some d → hex_digit b ≡ some e → hex_byte a b ≡ some (d * 16 + e)
unfolding hex_byte
hex_byte-some a b d e h k = rw (h, hex_byte) (rw k refl)

decode-nohex :
    (x a : ℕ) (s : List ℕ)
    → (x == 37) ≡ true
    → hex_digit a ≡ none
    → decode (x ∷ a ∷ s) ≡ 37 ∷ decode (a ∷ s)
decode-nohex x a [] h k = decode-two x a h
decode-nohex x a (b ∷ s) h k = decode-bad x a b s h (hex_byte-none a b k)

hex-end : (a d : ℕ) → hex_digit a ≡ some d → decode (a ∷ []) ≡ a ∷ []
unfolding decode
hex-end a d h = rw (hex-plain a d h).0 refl

loop-decode :
    (fuel : ℕ) (s : List ℕ) → 4 * bytes s + 1 ≤ fuel → unescape_loop fuel plain s ≡ some (decode s)
unfolding unescape_loop decode
loop-decode zero s h = absurd (omega arith)
loop-decode (suc fuel) [] h = refl
loop-decode (suc zero) (x ∷ s) h = absurd (omega arith)
loop-decode (suc (suc zero)) (x ∷ s) h = absurd (omega arith)
loop-decode (suc (suc (suc f))) (x ∷ []) h = elim (Bool-cases (x == 37)) [
  | inr other ↦
      step-other (suc (suc f)) x [] other
      ∙ emit-some _ _ _ (loop-decode (suc (suc f)) [] (omega arith))
      ∙ ap some (sym (decode-other x [] other))
  | inl pct ↦ step-end (suc f) x pct ∙ ap some (sym (decode-end x pct))
]
loop-decode (suc (suc (suc f))) (x ∷ (a ∷ [])) h = elim (Bool-cases (x == 37)) [
  | inr other ↦
      step-other (suc (suc f)) x (a ∷ []) other
      ∙ emit-some _ _ _ (loop-decode (suc (suc f)) (a ∷ []) (omega arith))
      ∙ ap some (sym (decode-other x (a ∷ []) other))
  | inl pct ↦ elim (Option-cases (hex_digit a)) [
    | inl bad ↦
        step-first (suc f) x a [] pct bad
        ∙ emit-some 37 _ _ (loop-decode (suc f) (a ∷ []) (omega arith))
        ∙ ap some (sym (decode-two x a pct))
    | inr (d, good) ↦
        step-cut f x a [] pct d good
        ∙ ap some (sym (decode-two x a pct ∙ ap (◌∷◌ 37) (hex-end a d good)))
  ]
]
loop-decode (suc (suc (suc f))) (x ∷ (a ∷ (b ∷ s))) h = elim (Bool-cases (x == 37)) [
  | inr other ↦
      step-other (suc (suc f)) x (a ∷ (b ∷ s)) other
      ∙ emit-some _ _ _ (loop-decode (suc (suc f)) (a ∷ (b ∷ s)) (omega arith))
      ∙ ap some (sym (decode-other x (a ∷ (b ∷ s)) other))
  | inl pct ↦ elim (Option-cases (hex_digit a)) [
    | inl bad ↦
        step-first (suc f) x a (b ∷ s) pct bad
        ∙ emit-some 37 _ _ (loop-decode (suc f) (a ∷ (b ∷ s)) (omega arith))
        ∙ ap some (sym (decode-nohex x a (b ∷ s) pct bad))
    | inr (d, good) ↦ elim (Option-cases (hex_digit b)) [
      | inl bad ↦
          step-second f x a s pct d b good bad
          ∙ emit-some 37 _ _ (loop-decode f (a ∷ (b ∷ s)) (omega arith))
          ∙ ap some (sym (decode-bad x a b s pct (hex_byte-half a b d good bad)))
      | inr (e, too) ↦
          step-byte f x a s pct d b e good too
          ∙ emit-some (d * 16 + e) _ _ (loop-decode f s (omega arith))
          ∙ ap some (sym (decode-byte x a b (d * 16 + e) s pct (hex_byte-some a b d e good too)))
    ]
  ]
]

-- The loop ends within the bytes, and for every input gives what the definition says.
pub lws_unescape_url-decode : (src : List ℕ) → lws_unescape_url src ≡ some (decode src)
unfolding lws_unescape_url
lws_unescape_url-decode src = loop-decode (4 * bytes src + 1) src (omega arith)
