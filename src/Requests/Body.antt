-- ===== src/Requests/Body.antt =====
-- `lws_read_handler` of src/lws_module.c: the read function of the stream over the request body. A
-- buffer of the chain is the bytes between `pos` and `last`.
use mathlib.Core.List.{append_assoc}
use nginx_lws.Base.{
  ◌⊎◌, ltb→lt, length-append, ℕ, zero, suc, ◌-◌, ◌≤◌, ◌<◌, ◌≡◌, refl, sym, ap, ◌∙◌, ltb, ◌==◌,
  if◌then◌else◌, true, false, Bool-cases, inl, inr, Option, none, some, List, [], ◌∷◌, ◌++◌, length,
  take, drop, arith,
}

-- The chain after the read, and the bytes read.
unfoldable pub lws_read_handler : List (List ℕ) → ℕ → List (List ℕ) × List ℕ
lws_read_handler [] size = ([], [])
lws_read_handler (b ∷ cl) size =
    let count = if ltb size (length b) then size else length b in
    (if count == length b then cl else drop count b ∷ cl, take count b)

abbrev pub concat : List (List ℕ) → List ℕ
concat [] = []
concat (b ∷ cl) = b ++ concat cl

-- A stream reads until a read gives nothing; with fuel.
unfoldable pub read_all : ℕ → ℕ → List (List ℕ) → Option (List ℕ)
unfolding lws_read_handler
read_all size zero cl = none
read_all size (suc fuel) cl =
    let r = lws_read_handler cl size in
    elim r.1 [
      | [] ↦ some []
      | x ∷ xs ↦ elim (read_all size fuel r.0) [ none ↦ none | some rest ↦ some ((x ∷ xs) ++ rest) ]
    ]

-- Each buffer has a byte.
abbrev pub AreFull : List (List ℕ) → Type 0
AreFull [] = Unit {0}
AreFull (b ∷ cl) = (0 < length b) × AreFull cl

take-drop : (n : ℕ) (b : List ℕ) → take n b ++ drop n b ≡ b
take-drop zero b = refl
take-drop (suc n) [] = refl
take-drop (suc n) (x ∷ b) = ap (◌∷◌ x) (take-drop n b)

length-drop : (n : ℕ) (b : List ℕ) → length (drop n b) ≡ length b - n
length-drop zero b = omega arith
length-drop (suc n) [] = omega arith
length-drop (suc n) (x ∷ b) = omega (arith, length-drop n b)

-- A read of a full chain gives some bytes, and leaves a full chain with the others.
record Read (cl : List (List ℕ)) (r : List (List ℕ) × List ℕ) : Type 0 where
  full : AreFull r.0
  bytes : r.1 ++ concat r.0 ≡ concat cl
  some_read : (cl ≡ []) ⊎ (0 < length r.1)

take-all : (b : List ℕ) → take (length b) b ≡ b
take-all [] = refl
take-all (x ∷ b) = ap (◌∷◌ x) (take-all b)

length-take : (n : ℕ) (b : List ℕ) → n ≤ length b → length (take n b) ≡ n
length-take zero b h = refl
length-take (suc n) [] h = absurd (omega arith)
length-take (suc n) (x ∷ b) h = ap suc (length-take n b (omega arith))

Read-Read :
    (size : ℕ) (cl : List (List ℕ)) → 0 < size → AreFull cl → Read cl (lws_read_handler cl size)
unfolding lws_read_handler
Read-Read size [] h f = record { full = tt; bytes = refl; some_read = inl refl }
Read-Read size (b ∷ cl) h f = elim (Bool-cases (ltb size (length b))) [
  | inl part ↦
      let e : (size == length b) ≡ false = ground arith in
      rw (part, e, lws_read_handler)
        (record {
          full = (omega (arith, ltb→lt size (length b) part, length-drop size b), f.1);
          bytes =
              sym (append_assoc (take size b) (drop size b) (concat cl))
              ∙ ap (λ xs. xs ++ concat cl) (take-drop size b);
          some_read =
              inr (omega (arith, length-take size b (omega (arith, ltb→lt size (length b) part))));
        })
  | inr whole ↦
      let e : (length b == length b) ≡ true = ground arith in
      rw (whole, e, lws_read_handler)
        (record {
          full = f.1;
          bytes = ap (λ xs. xs ++ concat cl) (take-all b);
          some_read = inr (omega (arith, f.0, ap length (take-all b)));
        })
]

read_all-step :
    (size fuel : ℕ) (cl : List (List ℕ)) (out rest : List ℕ)
    → (lws_read_handler cl size).1 ≡ out
    → 0 < length out
    → read_all size fuel (lws_read_handler cl size).0 ≡ some rest
    → read_all size (suc fuel) cl ≡ some (out ++ rest)
unfolding read_all
read_all-step size fuel cl [] rest p h k = absurd (omega arith)
read_all-step size fuel cl (x ∷ xs) rest p h k = rw (p, read_all) (rw k)

-- With more reads than bytes, the reads of a stream over a chain without empty buffers, of any
-- positive size, end and give all the bytes of the chain in their order.
pub read_all-concat :
    (size fuel : ℕ) (cl : List (List ℕ))
    → 0 < size
    → AreFull cl
    → length (concat cl) < fuel
    → read_all size fuel cl ≡ some (concat cl)
unfolding read_all
read_all-concat size zero cl s f h = absurd (omega arith)
read_all-concat size (suc fuel) [] s f h = refl
read_all-concat size (suc fuel) (b ∷ cl) s f h =
    let r = lws_read_handler (b ∷ cl) size in
    let k = Read-Read size (b ∷ cl) s f in
    let more : 0 < length r.1 = positive k.some_read in
    let size_lem = length-append r.1 (concat r.0) in
    let next =
      read_all-concat size fuel r.0 s k.full
        (omega (arith, more, h, size_lem, ap length k.bytes)) in
    read_all-step size fuel (b ∷ cl) r.1 (concat r.0) refl more next ∙ ap some k.bytes
  where
    positive :
        ((b ∷ cl ≡ []) ⊎ (0 < length (lws_read_handler (b ∷ cl) size).1))
        → 0 < length (lws_read_handler (b ∷ cl) size).1
    positive (inl e) = absurd (ground arith)
    positive (inr m) = m
