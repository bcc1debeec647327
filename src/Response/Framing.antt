-- ===== src/Response/Framing.antt =====
-- What `lws_set_response_header` of src/lws_module.c does to a request.
use mathlib.Core.List.{append-nil, append_assoc}
use nginx_lws.Base.{
  ℕ, zero, suc, ◌≤◌, ◌<◌, ◌≡◌, refl, sym, ap, ◌∙◌, if-split, if-all, Bool, false, inl, inr, ◌⊎◌,
  subst, ◌||◌, Option, none, some, List, [], ◌∷◌, ◌++◌, length, ℤ, Bytes, bytes_of, arith,
}
use nginx_lws.Response.Defs.{Header, Request, Slot}
use nginx_lws.Response.Cookies.{
  Compare, skip_spaces, next_expires, scan, after_comma, add_cookie, unfold_value,
}
use nginx_lws.Response.Headers.{
  Pushed, pushed, push_failed, push, push_cookies, is_header, slot_of, set_slot, push_header,
  set_field, lws_set_response_header,
}

module _ (starts_with : Compare) where
  scan_shorter : (e : Bool) (v : Bytes) → length ((scan starts_with e v).1) ≤ length v
  unfolding scan
  scan_shorter e [] = omega arith
  scan_shorter e (c ∷ v) =
      elim (next_expires starts_with e c v)
        as (λ o.
          length (
            (elim o as (λ _. Bytes × Bytes) [
              | none ↦ ([], c ∷ v)
              | some e' ↦ (c ∷ (scan starts_with e' v).0, (scan starts_with e' v).1)
            ]).1)
          ≤ suc (length v)) [ none ↦ omega arith | some e' ↦ omega (arith, scan_shorter e' v) ]

  skip_spaces_shorter : (v : Bytes) → length (skip_spaces v) ≤ length v
  unfolding skip_spaces
  skip_spaces_shorter [] = omega arith
  skip_spaces_shorter (c ∷ v) = ground (arith, skip_spaces_shorter v)

  add_cookie_ends :
      (p v : Bytes) (o : Option (List Bytes))
      → (0 < length v → (qs : List Bytes) × (o ≡ some qs))
      → (ps : List Bytes) × (add_cookie p v o ≡ some ps)
  add_cookie_ends p [] o h = (p ∷ [], refl)
  add_cookie_ends p (c ∷ v) none h = absurd (ground (arith, (h (omega arith)).1))
  add_cookie_ends p (c ∷ v) (some qs) h = (p ∷ qs, refl)

  after_comma_shorter : (v : Bytes) → 0 < length (after_comma v) → length (after_comma v) < length v
  unfolding after_comma
  after_comma_shorter [] h = h
  after_comma_shorter (c ∷ v) h = omega (arith, skip_spaces_shorter v)

  unfold_value_ends :
      (fuel : ℕ) (v : Bytes)
      → length v < fuel
      → (qs : List Bytes) × (unfold_value starts_with fuel v ≡ some qs)
  unfolding unfold_value
  unfold_value_ends zero v h = absurd (ground arith)
  unfold_value_ends (suc fuel) v h =
      let rest = (scan starts_with false v).1 in
      add_cookie_ends _ _ _ (λ k.
        unfold_value_ends fuel (after_comma rest)
          (omega (arith, after_comma_shorter rest k, scan_shorter false v)))

-- A header that frames the body, which NGINX sets itself.
abbrev pub frames : Compare → Header → Bool
frames starts_with h =
    is_header starts_with (bytes_of "Content-Length") h.key
    || is_header starts_with (bytes_of "Transfer-Encoding") h.key

abbrev pub NoFraming : Compare → List Header → Type 0
NoFraming starts_with [] = Unit {0}
NoFraming starts_with (h ∷ hs) = (frames starts_with h ≡ false) × NoFraming starts_with hs

-- What stays of a request, with the headers that are added.
pub record Extends (starts_with : Compare) (r q : Request) : Type 0 where
  pub added : List Header
  pub headers : q.headers ≡ r.headers ++ added
  pub no_framing : NoFraming starts_with added
  pub main : q.main ≡ r.main
  pub head : q.head ≡ r.head
  pub header_sent : q.header_sent ≡ r.header_sent
  pub header_only : q.header_only ≡ r.header_only
  pub status : q.status ≡ r.status
  pub content_length : q.content_length ≡ r.content_length
  pub output : q.output ≡ r.output
  pub finalized : q.finalized ≡ r.finalized

abbrev pub request_of : Pushed → Request
request_of (pushed r n) = r
request_of (push_failed r) = r

module _ (starts_with : Compare) where
  NoFraming-append :
      (xs ys : List Header)
      → NoFraming starts_with xs
      → NoFraming starts_with ys
      → NoFraming starts_with (xs ++ ys)
  NoFraming-append [] ys a b = b
  NoFraming-append (x ∷ xs) ys a b = (a.0, NoFraming-append xs ys a.1 b)

  Extends-others :
      (r : Request) (v : Bytes) (ss : List (Slot × ℕ)) (t : ℤ)
      → Extends starts_with r (record r { content_type = v; slots = ss; last_modified_time = t })
  Extends-others r v ss t = record {
    added = [];
    headers = sym (append-nil r.headers);
    no_framing = tt;
    main = refl;
    head = refl;
    header_sent = refl;
    header_only = refl;
    status = refl;
    content_length = refl;
    output = refl;
    finalized = refl;
  }

  Extends-refl : (r : Request) → Extends starts_with r r
  Extends-refl r = Extends-others r r.content_type r.slots r.last_modified_time

  Extends-trans :
      {r q s : Request}
      → Extends starts_with r q
      → Extends starts_with q s
      → Extends starts_with r s
  Extends-trans {r} a b = record {
    added = a.added ++ b.added;
    headers =
        b.headers ∙ ap (λ hs. hs ++ b.added) a.headers ∙ append_assoc r.headers a.added b.added;
    no_framing = NoFraming-append a.added b.added a.no_framing b.no_framing;
    main = b.main ∙ a.main;
    head = b.head ∙ a.head;
    header_sent = b.header_sent ∙ a.header_sent;
    header_only = b.header_only ∙ a.header_only;
    status = b.status ∙ a.status;
    content_length = b.content_length ∙ a.content_length;
    output = b.output ∙ a.output;
    finalized = b.finalized ∙ a.finalized;
  }

Pushed-cases :
    (p : Pushed)
    → ((q : Request) × (p ≡ push_failed q)) ⊎ ((q : Request) × (n : ℕ) × (p ≡ pushed q n))
Pushed-cases (pushed q n) = inr (q, n, refl)
Pushed-cases (push_failed q) = inl (q, refl)

module _ (starts_with : Compare) (ngx_parse_http_time : Bytes → ℤ) where
  Extends-push :
      (h : Header) (r : Request) → frames starts_with h ≡ false → Extends starts_with r (push h r)
  Extends-push h r e = record {
    added = h ∷ [];
    headers = refl;
    no_framing = (e, tt);
    main = refl;
    head = refl;
    header_sent = refl;
    header_only = refl;
    status = refl;
    content_length = refl;
    output = refl;
    finalized = refl;
  }

  Extends-push_cookies :
      (key : Bytes) (cs : List Bytes) (r : Request) (n : ℕ)
      → (is_header starts_with (bytes_of "Content-Length") key
          || is_header starts_with (bytes_of "Transfer-Encoding") key)
        ≡ false
      → Extends starts_with r (request_of (push_cookies key cs (pushed r n)))
  unfolding push_cookies
  Extends-push_cookies key [] r n e = Extends-refl starts_with r
  Extends-push_cookies key (c ∷ cs) r zero e = Extends-refl starts_with r
  Extends-push_cookies key (c ∷ cs) r (suc n) e =
      Extends-trans starts_with (Extends-push (record { key = key; value = c }) r e)
        (Extends-push_cookies key cs _ n e)

  Extends-set_slot :
      (s : Option Slot) (v : Bytes) (r : Request)
      → Extends starts_with r (set_slot starts_with ngx_parse_http_time s v r)
  unfolding set_slot
  Extends-set_slot none v r = Extends-refl starts_with r
  Extends-set_slot (some s) v r = Extends-others starts_with r r.content_type _ _

  Extends-push_header :
      (h : Header) (r : Request) (n : ℕ)
      → frames starts_with h ≡ false
      → Extends starts_with r (request_of (push_header starts_with ngx_parse_http_time h r n))
  unfolding push_header
  Extends-push_header h r zero e = Extends-refl starts_with r
  Extends-push_header h r (suc n) e =
      Extends-trans starts_with (Extends-set_slot (slot_of starts_with h.key) h.value r)
        (Extends-push h _ e)

  set_field-Extends :
      (h : Header) (r : Request) (n : ℕ)
      → (p : Pushed) × (set_field starts_with ngx_parse_http_time h r n ≡ some p)
        × Extends starts_with r (request_of p)
  unfolding set_field
  set_field-Extends h r n =
      if-all P (is_header starts_with (bytes_of "Content-Type") h.key)
        (
          pushed (record r { content_type = h.value }) n,
          refl,
          Extends-others starts_with r h.value r.slots r.last_modified_time,
        )
        (if-split P (is_header starts_with (bytes_of "Content-Length") h.key)
          (λ _. (pushed r n, refl, Extends-refl starts_with r))
          (λ a.
            if-split P (is_header starts_with (bytes_of "Transfer-Encoding") h.key)
              (λ _. (pushed r n, refl, Extends-refl starts_with r))
              (λ b.
                let e : frames starts_with h ≡ false = ground (arith, a, b) in
                if-all P (is_header starts_with (bytes_of "Set-Cookie") h.key)
                  (let u =
                      unfold_value_ends starts_with (suc (length h.value)) h.value (omega arith) in
                    rw (u.1) (
                      push_cookies h.key u.0 (pushed r n),
                      refl,
                      Extends-push_cookies h.key u.0 r n e,
                    ))
                  (
                    push_header starts_with ngx_parse_http_time h r n,
                    refl,
                    Extends-push_header h r n e,
                  ))))
    where
      P : Option Pushed → Type 0
      P o = (p : Pushed) × (o ≡ some p) × Extends starts_with r (request_of p)

  -- Whatever the fields of the response, the setting of the header ends; it adds headers of which
  -- none is a Content-Length or a Transfer-Encoding, and keeps the status, the length and the
  -- sending of the response as they are.
  pub lws_set_response_header-Extends :
      (hs : List Header) (r : Request) (n : ℕ)
      → (p : Pushed) × (lws_set_response_header starts_with ngx_parse_http_time hs r n ≡ some p)
        × Extends starts_with r (request_of p)
  unfolding lws_set_response_header
  lws_set_response_header-Extends [] r n = (pushed r n, refl, Extends-refl starts_with r)
  lws_set_response_header-Extends (h ∷ hs) r n =
      let s = set_field-Extends h r n in
      elim (Pushed-cases (s.0)) [
        | inl (q, e) ↦
            rw (lws_set_response_header, s.1 ∙ ap some e)
              (push_failed q, refl, subst (λ p. Extends starts_with r (request_of p)) e s.2)
        | inr (q, m, e) ↦
            let t = lws_set_response_header-Extends hs q m in
            rw (lws_set_response_header, s.1 ∙ ap some e)
              (
                t.0,
                t.1,
                Extends-trans starts_with (subst (λ p. Extends starts_with r (request_of p)) e s.2)
                    t.2,
              )
      ]
