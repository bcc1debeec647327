-- ===== src/Requests/Joined.antt =====
-- The joined request headers of src/lws_module.c, key by key: what the loops do to the record of one
-- key depends on the values of the headers with that key alone.
use nginx_lws.Base.{
  ℕ, suc, ◌+◌, ◌≡◌, refl, sym, ap, ap₂, ◌∙◌, ◌==◌, if◌then◌else◌, Bool, true, false, Bool-cases,
  inl, inr, Option, none, some, List, [], ◌∷◌, ◌++◌, length, length-append, Bytes, arith,
}
use nginx_lws.Requests.Merge.{
  RequestHeader, Entries, comma, count_header, written_after, write_header, find_entry, put_entry,
  count_headers, write_to, write_headers, request_headers,
}

-- The comparison of keys is an equivalence.
pub record IsSame (same : Bytes → Bytes → Bool) : Type 0 where
  pub same_refl : (a : Bytes) → same a a ≡ true
  pub same_symm : (a b : Bytes) → same a b ≡ true → same b a ≡ true
  pub same_trans : (a b c : Bytes) → same a b ≡ true → same b c ≡ true → same a c ≡ true

module _ (same : Bytes → Bytes → Bool) (x : IsSame same) where
  -- Keys that are the same are told from a third alike.
  same_congr : (a b c : Bytes) → same a b ≡ true → same c a ≡ same c b
  same_congr a b c h = elim (Bool-cases (same c a)) [
    | inl k ↦ k ∙ sym (x.same_trans c a b k h)
    | inr k ↦ elim (Bool-cases (same c b)) [
      | inl j ↦ absurd (ground (arith, k, x.same_trans c b a j (x.same_symm a b h)))
      | inr j ↦ k ∙ sym j
    ]
  ]

  same_left : (a b c : Bytes) → same a b ≡ true → same a c ≡ same b c
  same_left a b c h = elim (Bool-cases (same a c)) [
    | inl k ↦ k ∙ sym (x.same_trans b a c (x.same_symm a b h) k)
    | inr k ↦ elim (Bool-cases (same b c)) [
      | inl j ↦ absurd (ground (arith, k, x.same_trans a b c h j))
      | inr j ↦ k ∙ sym j
    ]
  ]

  find_congr :
      (t : Entries) (a b : Bytes) → same a b ≡ true → find_entry same t a ≡ find_entry same t b
  unfolding find_entry
  find_congr [] a b h = refl
  find_congr ((k, e) ∷ t) a b h = rw (find_entry, same_congr a b k h, find_congr t a b h) refl

  find-put :
      (t : Entries) (key k : Bytes) (e : RequestHeader)
      → find_entry same (put_entry same key e t) k
        ≡ (if same key k then some e else find_entry same t k)
  unfolding find_entry put_entry
  find-put [] key k e = refl
  find-put ((j, v) ∷ t) key k e = elim (Bool-cases (same j key)) [
    | inl h ↦
        let c : same j k ≡ same key k = same_left j key k h in
        rw (put_entry, h)
          (elim (Bool-cases (same key k)) [
            | inl y ↦ rw (find_entry, c, y) refl
            | inr y ↦ rw (find_entry, c, y) refl
          ])
    | inr h ↦
        let r = find-put t key k e in
        rw (put_entry, h)
          (elim (Bool-cases (same key k)) [
            | inl y ↦ elim (Bool-cases (same j k)) [
              | inl z ↦ absurd (ground (arith, h, x.same_trans j k key z (x.same_symm key k y)))
              | inr z ↦ rw (y, z, r, y) refl
            ]
            | inr y ↦ rw (y, r, y) refl
          ])
  ]

-- The values of the headers with a key, in their order
unfoldable pub values_of : (Bytes → Bytes → Bool) → Bytes → List (Bytes × Bytes) → List Bytes
values_of same k [] = []
values_of same k (h ∷ hs) =
    let rest = values_of same k hs in if same h.0 k then h.1 ∷ rest else rest

-- The effect of the values on one record, in both loops
abbrev grow : Option RequestHeader → List Bytes → Option RequestHeader
grow o [] = o
grow o (v ∷ vs) = grow (some (count_header o v)) vs

abbrev write_option : Option RequestHeader → Bytes → Option RequestHeader
write_option none v = none
write_option (some e) v = some (write_header e v)

abbrev fill : Option RequestHeader → List Bytes → Option RequestHeader
fill o [] = o
fill o (v ∷ vs) = fill (write_option o v) vs

module _ (same : Bytes → Bytes → Bool) (x : IsSame same) where
  find-count_headers :
      (hs : List (Bytes × Bytes)) (t : Entries) (k : Bytes)
      → find_entry same (count_headers same hs t) k
        ≡ grow (find_entry same t k) (values_of same k hs)
  unfolding count_headers values_of
  find-count_headers [] t k = refl
  find-count_headers (h ∷ hs) t k =
      find-count_headers hs (put_entry same h.0 (count_header (find_entry same t h.0) h.1) t) k
      ∙ (elim (Bool-cases (same h.0 k)) [
        | inl e ↦
            rw
              (
                find-put same x t h.0 k (count_header (find_entry same t h.0) h.1),
                e,
                find_congr same x t h.0 k e,
              )
              refl
        | inr e ↦ rw (find-put same x t h.0 k (count_header (find_entry same t h.0) h.1), e) refl
      ])

  find-write_to :
      (h : Bytes × Bytes) (t : Entries) (k : Bytes) (o : Option RequestHeader)
      → find_entry same t h.0 ≡ o
      → find_entry same (write_to same o h t) k
        ≡ (if same h.0 k then write_option (find_entry same t k) h.1 else find_entry same t k)
  find-write_to h t k none e = elim (Bool-cases (same h.0 k)) [
    | inl s ↦ rw (s, find_congr same x t k h.0 (x.same_symm h.0 k s), e) refl
    | inr s ↦ rw s refl
  ]
  find-write_to h t k (some r) e = elim (Bool-cases (same h.0 k)) [
    | inl s ↦
        rw
          (
            find-put same x t h.0 k (write_header r h.1),
            s,
            find_congr same x t k h.0 (x.same_symm h.0 k s),
            e,
          )
          refl
    | inr s ↦ rw (find-put same x t h.0 k (write_header r h.1), s) refl
  ]

  find-write_headers :
      (hs : List (Bytes × Bytes)) (t : Entries) (k : Bytes)
      → find_entry same (write_headers same hs t) k
        ≡ fill (find_entry same t k) (values_of same k hs)
  unfolding write_headers values_of
  find-write_headers [] t k = refl
  find-write_headers (h ∷ hs) t k =
      find-write_headers hs (write_to same (find_entry same t h.0) h t) k
      ∙ (elim (Bool-cases (same h.0 k)) [
        | inl e ↦ rw (find-write_to h t k (find_entry same t h.0) refl, e) refl
        | inr e ↦ rw (find-write_to h t k (find_entry same t h.0) refl, e) refl
      ])

-- The values joined by a comma and a space
unfoldable pub join_values : Bytes → List Bytes → Bytes
join_values v [] = v
join_values v (w ∷ ws) = join_values (v ++ (comma ++ w)) ws

-- What is copied: nothing for one value
abbrev pub copied : Bytes → List Bytes → Option Bytes
copied v [] = none
copied v (w ∷ ws) = some (join_values v (w ∷ ws))

-- The record of a key with the values `v` and `vs`
abbrev pub joined : Bytes → List Bytes → RequestHeader
joined v vs = record {
  first = v;
  len = length (join_values v vs);
  count = suc (length vs);
  written = copied v vs;
}

-- What the values after the first add to the length
abbrev extra : List Bytes → ℕ
extra [] = 0
extra (w ∷ ws) = (2 + length w) + extra ws

length-join_values : (v : Bytes) (ws : List Bytes) → length (join_values v ws) ≡ length v + extra ws
unfolding join_values
length-join_values v [] = omega arith
length-join_values v (w ∷ ws) =
    omega (arith, length-join_values (v ++ (comma ++ w)) ws, length-append v (comma ++ w))

grow-some :
    (v : Bytes) (l c : ℕ) (ws : List Bytes)
    → grow (some (record { first = v; len = l; count = c; written = none })) ws
      ≡ some (record { first = v; len = l + extra ws; count = c + length ws; written = none })
grow-some v l c [] =
    ap₂ (λ a b. some (record { first = v; len = a; count = b; written = none })) (omega arith)
      (omega arith)
grow-some v l c (w ∷ ws) =
    grow-some v (l + (2 + length w)) (c + 1) ws
    ∙ ap₂ (λ a b. some (record { first = v; len = a; count = b; written = none })) (omega arith)
        (omega arith)

-- A further value of a key with more than one header
write_header-many :
    (f : Bytes) (l c : ℕ) (o : Option Bytes) (v : Bytes)
    → (c == 1) ≡ false
    → write_header (record { first = f; len = l; count = c; written = o }) v
      ≡ record { first = f; len = l; count = c; written = some (written_after o v) }
unfolding write_header
write_header-many f l c o v e =
    ap
      (λ b.
        if b
        then record { first = f; len = l; count = c; written = o }
        else record { first = f; len = l; count = c; written = some (written_after o v) })
      e

fill-some :
    (v : Bytes) (l c : ℕ) (w : Bytes) (ws : List Bytes)
    → (c == 1) ≡ false
    → fill (some (record { first = v; len = l; count = c; written = some w })) ws
      ≡ some (record { first = v; len = l; count = c; written = some (join_values w ws) })
unfolding join_values
fill-some v l c w [] e = refl
fill-some v l c w (u ∷ us) e =
    ap (λ r. fill (some r) us) (write_header-many v l c (some w) u e)
    ∙ fill-some v l c (w ++ (comma ++ u)) us e

fill-grow : (v : Bytes) (vs : List Bytes) → fill (grow none (v ∷ vs)) (v ∷ vs) ≡ some (joined v vs)
unfolding write_header join_values
fill-grow v [] = refl
fill-grow v (w ∷ ws) =
    let e : (2 + length ws == 1) ≡ false = ground arith in
    let r : RequestHeader = record {
      first = v;
      len = length v + (2 + length w) + extra ws;
      count = 2 + length ws;
      written = none;
    } in
    ap (λ o. fill (write_option (write_option o v) w) ws)
      (grow-some v (length v + (2 + length w)) 2 ws)
    ∙ (ap (λ o. fill (write_option (some o) w) ws)
          (write_header-many v (r.len) (2 + length ws) none v e)
        ∙ (fill-some v (r.len) (2 + length ws) v (w ∷ ws) e
            ∙ ap₂ (λ a b. some (record (joined v (w ∷ ws)) { len = a; count = b }))
                (omega (arith, length-join_values v (w ∷ ws))) (omega arith)))

-- With a comparison of keys that is an equivalence, the record of a key under which headers were
-- received has the value of the first and how many there are. Where there is one, nothing is copied;
-- where there are more, their values in order, joined by a comma and a space, are copied, and fill
-- the announced length, which is that of the allocation.
pub request_headers-joined :
    (same : Bytes → Bytes → Bool) (x : IsSame same) (hs : List (Bytes × Bytes)) (k v : Bytes)
    (vs : List Bytes)
    → values_of same k hs ≡ v ∷ vs
    → find_entry same (request_headers same hs) k ≡ some (joined v vs)
unfolding request_headers find_entry
request_headers-joined same x hs k v vs e =
    find-write_headers same x hs (count_headers same hs []) k
    ∙ (ap (λ o. fill o (values_of same k hs)) (find-count_headers same x hs [] k)
        ∙ (ap (λ l. fill (grow none l) l) e ∙ fill-grow v vs))
