-- ===== src/Monitor/Pairs.antt =====
-- The body of a modification as a list of pairs of a key and a value.
use nginx_lws.Base.{
  ℕ, zero, suc, ◌+◌, ◌*◌, ◌≤◌, ◌≡◌, refl, subst, sym, ap, ◌∙◌, Bool, true, false, ◌&&◌, not, Option,
  some, List, [], ◌∷◌, ◌++◌, length, length-append, Bytes, arith,
}
use nginx_lws.Monitor.Defs.{
  Shared, Modification, modified, bad_request, conflict, lws_monitor_modification_handler,
}
use nginx_lws.Monitor.Body.{
  is_separator, token, at_key, at_value, go_on, body_loop, flatten, Buffer, sizes, copied, block,
  Reply, status_500, reply_of, answer_of, lws_monitor_body_handler,
}

-- A result, or what follows a success.
abbrev pub and_then : Shared × Modification → Shared × Modification → Shared × Modification
and_then (m, modified) next = next
and_then (m, bad_request) next = (m, bad_request)
and_then (m, conflict) next = (m, conflict)

-- The modifications in order, up to the first that fails.
unfoldable pub modify_all : List (Bytes × Bytes) → Shared → Shared × Modification
unfolding lws_monitor_modification_handler
modify_all [] m = (m, modified)
modify_all (p ∷ ps) m =
    let e = lws_monitor_modification_handler p.0 p.1 m in and_then e (modify_all ps e.0)

-- The body with such pairs
unfoldable pub encode : Bytes × Bytes → List (Bytes × Bytes) → Bytes
encode p [] = p.0 ++ (b'=' ∷ p.1)
encode p (q ∷ qs) = p.0 ++ (b'=' ∷ (p.1 ++ (b'&' ∷ encode q qs)))

-- No byte is a separator.
unfoldable pub is_clean : Bytes → Bool
is_clean [] = true
is_clean (c ∷ cs) = not (is_separator c) && is_clean cs

abbrev pub AllClean : List (Bytes × Bytes) → Type 0
AllClean [] = Unit {0}
AllClean (p ∷ ps) = (is_clean p.0 ≡ true) × (is_clean p.1 ≡ true) × AllClean ps

token-append :
    (k : Bytes) (c : ℕ) (t : Bytes)
    → is_clean k ≡ true
    → is_separator c ≡ true
    → token (k ++ (c ∷ t)) ≡ (k, c ∷ t)
unfolding token is_clean
token-append [] c t h s = rw s refl
token-append (d ∷ k) c t h s =
    let n : is_separator d ≡ false = ground arith in
    rw (token-append k c t (ground arith) s, n) refl

token-clean : (k : Bytes) → is_clean k ≡ true → token k ≡ (k, [])
unfolding token is_clean
token-clean [] h = refl
token-clean (d ∷ k) h =
    let n : is_separator d ≡ false = ground arith in rw (token-clean k (ground arith), n) refl

go_on_end :
    (e : Shared × Modification) (next : Option (Shared × Modification))
    → go_on [] e next ≡ some (and_then e (e.0, modified))
go_on_end (m, modified) next = refl
go_on_end (m, bad_request) next = refl
go_on_end (m, conflict) next = refl

go_on_next :
    (c : ℕ) (rest : Bytes) (e : Shared × Modification) {next : Option (Shared × Modification)}
    {x : Shared × Modification}
    → next ≡ some x
    → go_on (c ∷ rest) e next ≡ some (and_then e x)
go_on_next c rest (m, modified) h = h
go_on_next c rest (m, bad_request) h = refl
go_on_next c rest (m, conflict) h = refl

key_step :
    (fuel beyond : ℕ) (k t : Bytes) (m : Shared)
    → is_clean k ≡ true
    → body_loop (suc fuel) beyond at_key (k ++ (b'=' ∷ t)) m
      ≡ body_loop fuel beyond (at_value k) t m
unfolding body_loop
key_step fuel beyond k t m h = rw (body_loop, token-append k b'=' t h refl) refl

-- A body of pairs is read pair by pair.
pairs_loop :
    (fuel beyond : ℕ) (p : Bytes × Bytes) (ps : List (Bytes × Bytes)) (m : Shared)
    → AllClean (p ∷ ps)
    → 2 * length (p ∷ ps) ≤ fuel
    → body_loop fuel beyond at_key (encode p ps) m ≡ some (modify_all (p ∷ ps) m)
unfolding encode modify_all body_loop
pairs_loop zero beyond p ps m c h = absurd (ground arith)
pairs_loop (suc zero) beyond p ps m c h = absurd (ground arith)
pairs_loop (suc (suc fuel)) beyond p [] m c h =
    key_step (suc fuel) beyond p.0 p.1 m c.0
    ∙ rw (body_loop, token-clean p.1 c.1) (go_on_end (lws_monitor_modification_handler p.0 p.1 m) _)
pairs_loop (suc (suc fuel)) beyond p (q ∷ qs) m c h =
    let e = lws_monitor_modification_handler p.0 p.1 m in
    key_step (suc fuel) beyond p.0 (p.1 ++ (b'&' ∷ encode q qs)) m c.0
    ∙ rw (body_loop, token-append p.1 b'&' (encode q qs) c.1 refl)
        (go_on_next b'&' (encode q qs) e (pairs_loop fuel beyond q qs e.0 c.2 (omega arith)))

length-encode :
    (p : Bytes × Bytes) (ps : List (Bytes × Bytes))
    → 2 * length (p ∷ ps) ≤ suc (length (encode p ps))
unfolding encode
length-encode p [] = omega (arith, length-append p.0 (b'=' ∷ p.1))
length-encode p (q ∷ qs) = omega (
  arith,
  length-encode q qs,
  length-append p.0 (b'=' ∷ (p.1 ++ (b'&' ∷ encode q qs))),
  length-append p.1 (b'&' ∷ encode q qs),
)

-- The buffers are in memory: each holds as many bytes as its size.
abbrev pub AllInMemory : List Buffer → Type 0
AllInMemory [] = Unit {0}
AllInMemory (b ∷ bs) = (b.size ≡ length b.held) × AllInMemory bs

sizes-InMemory : (bs : List Buffer) → AllInMemory bs → sizes bs ≡ length (copied bs)
sizes-InMemory [] h = refl
sizes-InMemory (b ∷ bs) h =
    omega (arith, h.0, sizes-InMemory bs h.1, length-append b.held (copied bs))

block-full : (fresh : ℕ → ℕ) (i : ℕ) (cs : Bytes) → block fresh (length cs) i cs ≡ cs
block-full fresh i [] = refl
block-full fresh i (c ∷ cs) = ap (λ t. c ∷ t) (block-full fresh (i + 1) cs)

flatten-InMemory :
    (fresh : ℕ → ℕ) (bs : List Buffer) → AllInMemory bs → flatten fresh bs ≡ copied bs
unfolding flatten
flatten-InMemory fresh bs h =
    ap (λ n. block fresh n 0 (copied bs)) (sizes-InMemory bs h) ∙ block-full fresh 0 (copied bs)

-- The answer to pairs: the modifications and their result, or an error where the body is not allocated.
abbrev pub answer_to : Bool → List (Bytes × Bytes) → Shared → Shared × Reply
answer_to true ps m = ((modify_all ps m).0, reply_of ((modify_all ps m).1))
answer_to false ps m = (m, status_500)

-- A request whose buffers are in memory, and together are the pairs of keys and values without
-- separators, joined by `=` and `&`: where the block for the body is allocated, the handler makes the
-- modifications in their order up to the first that fails, whatever the byte behind the body is, and
-- answers by the result; where it is not, the handler changes nothing and answers with the status 500.
pub lws_monitor_body_handler-encode :
    (data_ok : Bool) (fresh : ℕ → ℕ) (beyond : ℕ) (b : Buffer) (bs : List Buffer)
    (p : Bytes × Bytes) (ps : List (Bytes × Bytes)) (m : Shared)
    → AllClean (p ∷ ps)
    → AllInMemory (b ∷ bs)
    → copied (b ∷ bs) ≡ encode p ps
    → lws_monitor_body_handler data_ok fresh beyond (some (b ∷ bs)) m
      ≡ some (answer_to data_ok (p ∷ ps) m)
unfolding lws_monitor_body_handler
lws_monitor_body_handler-encode false fresh beyond b bs p ps m c i e = refl
lws_monitor_body_handler-encode true fresh beyond b bs p ps m c i e =
    subst
      (λ body.
        answer_of (body_loop (suc (length body)) beyond at_key body m)
        ≡ answer_of (some (modify_all (p ∷ ps) m)))
      (sym (flatten-InMemory fresh (b ∷ bs) i ∙ e))
      (ap answer_of (pairs_loop (suc (length (encode p ps))) beyond p ps m c (length-encode p ps)))
