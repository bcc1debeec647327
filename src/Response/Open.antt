-- ===== src/Response/Open.antt =====
-- The states of a streamed response between the calls of `lws_stream_handler` of src/lws_module.c.
use nginx_lws.Base.{
  ℕ, zero, suc, ◌≡◌, refl, ap, ◌∙◌, subst, ◌==◌, if◌then◌else◌, if-all, if-split, Bool, true, false,
  ◌&&◌, ◌||◌, not, ◌⊎◌, inl, inr, Option, some, [], ◌∷◌, ℤ, pos, Bytes, arith,
}
use nginx_lws.Response.Defs.{
  ngx_ok, ngx_error, is_error, is_again, is_final, Request, send_header, send_bytes, finalize,
  is_bodiless,
}
use nginx_lws.Response.Cookies.{Compare}
use nginx_lws.Response.Headers.{Pushed, pushed, push_failed}
use nginx_lws.Response.Framing.{request_of, lws_set_response_header-Extends}
use nginx_lws.Response.Stream.{
  lws_streaming_reads_max, Stream, Read, read_bytes, read_eof, read_again, read_failed, Turn, Wake,
  Exit, to_read, to_blocked, to_error, to_return, fail_with, on_request, read_end, send_chunk,
  after_header, mark_bodiless, send_read, after_read, read_turn, read_loop, abort, wait_for_client,
  flush_pending_output, leave, lws_stream_handler,
}

-- The pipe is read, and nothing has gone wrong.
pub record IsOpen (s : Stream) : Type 0 where
  pub conn : s.conn ≡ true
  pub reader : s.reader ≡ true
  pub streaming_rc : s.streaming_rc ≡ ngx_ok
  pub header_only : s.request.header_only ≡ false
  pub finalized : s.request.finalized ≡ []

-- The pipe is not read any more: the script still runs and will end the request, or that is done.
pub record IsClosed (s : Stream) : Type 0 where
  pub conn : s.conn ≡ false
  pub reader : s.reader ≡ false
  pub ended :
      ((s.writer ≡ true) × (s.request.finalized ≡ []))
      ⊎ ((s.writer ≡ false) × (rc : ℤ) × (s.request.finalized ≡ rc ∷ []))

-- A state after a handler, with the end of the script as before.
abbrev pub After : Bool → Stream → Type 0
After writer s = (s.writer ≡ writer) × (IsOpen s ⊎ IsClosed s)

-- The states in which a part of the handler is left.
abbrev pub Leaves : Bool → Exit → Type 0
Leaves writer (to_read s) = (s.writer ≡ writer) × IsOpen s
Leaves writer (to_blocked s) = (s.writer ≡ writer) × IsOpen s
Leaves writer (to_error s) = (s.writer ≡ writer) × (s.request.finalized ≡ [])
Leaves writer (to_return s) = After writer s

IsOpen-flags :
    (s : Stream) (blocked timer ready : Bool)
    → IsOpen s
    → IsOpen (record s { blocked = blocked; timer = timer; ready = ready })
IsOpen-flags s blocked timer ready o = record {
  conn = o.conn;
  reader = o.reader;
  streaming_rc = o.streaming_rc;
  header_only = o.header_only;
  finalized = o.finalized;
}

abort-After : (s : Stream) → s.request.finalized ≡ [] → After s.writer (abort s)
unfolding abort
abort-After s e =
    if-split (After s.writer) s.writer
      (λ h. (refl, inr (record { conn = refl; reader = refl; ended = inl (h, e) })))
      (λ h. (
        refl,
        inr (record {
          conn = refl;
          reader = refl;
          ended = inr (h, s.streaming_rc, ap (λ l. s.streaming_rc ∷ l) e);
        }),
      ))

wait_for_client-After : (w : Wake) (s : Stream) → IsOpen s → After s.writer (wait_for_client w s)
unfolding wait_for_client
wait_for_client-After w s o =
    if-all (After s.writer) (not w.pause_ok) (abort-After (fail_with ngx_error s) o.finalized) (
      if-all (After s.writer) (w.write_ready && w.delayed)
        (refl, inl (IsOpen-flags s true s.timer false o))
        (if-all (After s.writer) (not w.write_ok)
          (abort-After
            (fail_with ngx_error
              (record s { blocked = true; timer = not w.delayed || s.timer; ready = false }))
            o.finalized)
          (refl, inl (IsOpen-flags s true (not w.delayed || s.timer) false o))))

flush_pending_output-After :
    (w : Wake) (s : Stream) → IsOpen s → After s.writer (flush_pending_output w s)
unfolding flush_pending_output
flush_pending_output-After w s o =
    let q = record s { blocked = false; timer = false; ready = false } in
    if-all (After s.writer) (w.write_timedout)
      (abort-After (fail_with (pos 408) (record s { timedout = true })) o.finalized)
      (if-all (After s.writer) (w.delayed) (wait_for_client-After w s o) (
        if-all (After s.writer) (is_error w.flush_rc)
          (abort-After (fail_with ngx_error s) o.finalized)
          (if-all (After s.writer) (is_again w.flush_rc || w.flush_pending)
            (wait_for_client-After w s o)
            (if-all (After s.writer) (not w.resume_ok)
              (abort-After (fail_with ngx_error q) o.finalized)
              (refl, inl (IsOpen-flags s false false false o))))))

leave-After : (writer : Bool) (w : Wake) (x : Exit) → Leaves writer x → After writer (leave w x)
unfolding leave
leave-After writer w (to_read s) l = (l.0, inl l.1)
leave-After writer w (to_blocked s) l =
    subst (λ b. After b (wait_for_client w s)) l.0 (wait_for_client-After w s l.1)
leave-After writer w (to_error s) l = subst (λ b. After b (abort s)) l.0 (abort-After s l.1)
leave-After writer w (to_return s) l = l

read_end-After :
    (special_rc : ℤ) (s : Stream)
    → s.writer ≡ false
    → IsOpen s
    → After s.writer (read_end special_rc s)
unfolding read_end
read_end-After special_rc s h o =
    if-all (After s.writer) (not s.request.header_sent) (refl, inr (closed (pos 500)))
      (refl, inr (closed (if s.request.main then special_rc else ngx_ok)))
  where
    closed :
        (rc : ℤ)
        → IsClosed
            (on_request (finalize rc) (record s { eof = true; conn = false; reader = false }))
    closed rc = record {
      conn = refl;
      reader = refl;
      ended = inr (h, rc, ap (λ l. rc ∷ l) o.finalized);
    }

send_chunk-Leaves :
    (e : Turn) (last : Bool) (bytes : Bytes) (s : Stream)
    → IsOpen s
    → Leaves s.writer (send_chunk e last bytes s)
unfolding send_chunk
send_chunk-Leaves e last bytes s o =
    let p : IsOpen (on_request (send_bytes bytes) s) = record {
      conn = o.conn;
      reader = o.reader;
      streaming_rc = o.streaming_rc;
      header_only = o.header_only;
      finalized = o.finalized;
    } in
    if-all (Leaves s.writer) (is_error e.filter_rc) (refl, o.finalized)
      (if-all (Leaves s.writer) (is_again e.filter_rc || e.pending) (refl, p)
        (if-all (Leaves s.writer) (not last) (refl, p)
          (if-all (Leaves s.writer) (not e.del_ok) (refl, o.finalized)
            (if-all (Leaves s.writer) (not e.rearm_ok) (refl, o.finalized)
              (refl, inl (IsOpen-flags _ s.blocked s.timer false p))))))

mark_bodiless_finalized : (r : Request) → (mark_bodiless r).finalized ≡ r.finalized
mark_bodiless_finalized r =
    if-all (λ (q : Request). q.finalized ≡ r.finalized) (is_bodiless r r.status) refl refl

after_header-Leaves :
    (e : Turn) (last : Bool) (bytes : Bytes) (s : Stream) (p : Pushed)
    → IsOpen s
    → (request_of p).finalized ≡ []
    → Leaves s.writer (after_header e last bytes s p)
unfolding after_header
after_header-Leaves e last bytes s (push_failed q) o x = (refl, x)
after_header-Leaves e last bytes s (pushed q n) o x =
    if-split (Leaves s.writer) (is_final e.sending.rc || (e.sending.only || q.header_only))
      (λ _. (refl, x))
      (λ k.
        send_chunk-Leaves e last bytes
          (record s { request = send_header e.sending (record q { status = s.ctx_status }) })
          (record {
            conn = o.conn;
            reader = o.reader;
            streaming_rc = o.streaming_rc;
            header_only = ground (arith, k);
            finalized = x;
          }))

module _ (starts_with : Compare) (ngx_parse_http_time : Bytes → ℤ) where
  -- A part of the handler ends, and leaves as it should.
  abbrev Ends : Bool → Option Exit → Type 0
  Ends writer o = (x : Exit) × (o ≡ some x) × Leaves writer x

  send_read-Ends :
      (e : Turn) (last : Bool) (bytes : Bytes) (s : Stream)
      → IsOpen s
      → Ends s.writer (send_read starts_with ngx_parse_http_time e last bytes s)
  unfolding send_read
  send_read-Ends e last bytes s o =
      let h =
        lws_set_response_header-Extends starts_with ngx_parse_http_time s.fields
          (mark_bodiless s.request) e.room in
      if-all (Ends s.writer) s.request.header_sent
        (send_chunk e last bytes s, refl, send_chunk-Leaves e last bytes s o)
        (rw (h.1) (
          after_header e last bytes s (h.0),
          refl,
          after_header-Leaves e last bytes s (h.0) o
              (h.2.finalized ∙ mark_bodiless_finalized s.request ∙ o.finalized),
        ))

  after_read-Ends :
      (e : Turn) (last : Bool) (s : Stream) (d : Read)
      → IsOpen s
      → (d ≡ read_eof → s.writer ≡ false)
      → Ends s.writer (after_read starts_with ngx_parse_http_time e last s d)
  unfolding after_read
  after_read-Ends e last s (read_bytes bytes) o h = send_read-Ends e last bytes s o
  after_read-Ends e last s read_eof o h = (_, refl, read_end-After e.special_rc s (h refl) o)
  after_read-Ends e last s read_failed o h =
      (to_error (fail_with ngx_error s), refl, (refl, o.finalized))
  after_read-Ends e last s read_again o h =
      if-all (Ends s.writer) (not e.rearm_ok)
        (to_error (fail_with ngx_error (record s { ready = false })), refl, (refl, o.finalized))
        (
          to_return (record s { ready = false }),
          refl,
          (refl, inl (IsOpen-flags s s.blocked s.timer false o)),
        )

  read_turn-Ends :
      (e : Turn) (last : Bool) (s : Stream)
      → IsOpen s
      → (e.read ≡ read_eof → s.writer ≡ false)
      → Ends s.writer (read_turn starts_with ngx_parse_http_time e last s)
  unfolding read_turn
  read_turn-Ends e last s o h =
      if-all (Ends s.writer) e.busy (to_blocked s, refl, (refl, o))
        (if-all (Ends s.writer) (not e.chain_ok)
          (to_error (fail_with ngx_error s), refl, (refl, o.finalized))
          (if-all (Ends s.writer) (not e.block_ok)
            (to_error (fail_with ngx_error s), refl, (refl, o.finalized))
            (after_read-Ends e last s e.read o h)))

  -- The loop goes on behind a turn, where it does.
  read_loop_step :
      (left : ℕ) (turn : ℕ → Turn) (s : Stream)
      → ((q : Stream)
          → IsOpen q
          → q.writer ≡ s.writer
          → Ends q.writer (read_loop starts_with ngx_parse_http_time left turn q))
      → Ends s.writer (read_turn starts_with ngx_parse_http_time (turn left) (left == 0) s)
      → Ends s.writer (read_loop starts_with ngx_parse_http_time (suc left) turn s)
  unfolding read_loop
  read_loop_step left turn s next (to_read q, e, l) =
      rw (read_loop, e)
        (subst (λ b. Ends b (read_loop starts_with ngx_parse_http_time left turn q)) l.0
          (next q l.1 l.0))
  read_loop_step left turn s next (to_blocked q, e, l) = rw (read_loop, e) (to_blocked q, refl, l)
  read_loop_step left turn s next (to_error q, e, l) = rw (read_loop, e) (to_error q, refl, l)
  read_loop_step left turn s next (to_return q, e, l) = rw (read_loop, e) (to_return q, refl, l)

  read_loop-Ends :
      (left : ℕ) (turn : ℕ → Turn) (s : Stream)
      → IsOpen s
      → ((i : ℕ) → (turn i).read ≡ read_eof → s.writer ≡ false)
      → Ends s.writer (read_loop starts_with ngx_parse_http_time left turn s)
  unfolding read_loop
  read_loop-Ends zero turn s o h = (to_return s, refl, (refl, inl o))
  read_loop-Ends (suc left) turn s o h =
      read_loop_step left turn s (λ q p e. read_loop-Ends left turn q p (λ i k. e ∙ h i k))
        (read_turn-Ends (turn left) (left == 0) s o (h left))

  -- In an open state, with a pipe that is at its end only after the script has closed it, the handler
  -- ends, in an open or a closed state with the pipe of the script as before.
  pub lws_stream_handler-After :
      (w : Wake) (s : Stream)
      → IsOpen s
      → ((i : ℕ) → (w.turn i).read ≡ read_eof → s.writer ≡ false)
      → (q : Stream) × (lws_stream_handler starts_with ngx_parse_http_time w s ≡ some q)
        × After s.writer q
  unfolding lws_stream_handler
  lws_stream_handler-After w s o h =
      let x = read_loop-Ends lws_streaming_reads_max w.turn s o h in
      if-all (λ (r : Option Stream). (q : Stream) × (r ≡ some q) × After s.writer q) s.blocked
        (flush_pending_output w s, refl, flush_pending_output-After w s o)
        (rw (x.1) (leave w (x.0), refl, leave-After s.writer w (x.0) x.2))
