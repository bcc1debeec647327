-- ===== src/Response/Once.antt =====
-- The life of a response in src/lws_module.c, from the start of the script to the end of the request:
-- the events of the pipe and of the client's connection, and the end of the script in between.
use nginx_lws.Base.{
  ℕ, ◌≡◌, refl, sym, ap, ◌∙◌, subst, ◌==◌, if-all, if-split, some_injective, Bool, true, false,
  ◌&&◌, ◌||◌, not, ◌⊎◌, inl, inr, Option, none, some, [], ◌∷◌, ℤ, Bool-cases, arith,
}
use nginx_lws.Response.Defs.{ngx_ok, ngx_error, is_ok, is_final}
use nginx_lws.Response.Announced.{IsExact}
use nginx_lws.Response.Stream.{
  Stream, read_eof, Wake, fail_with, lws_stream_handler, lws_stream_write_handler,
}
use nginx_lws.Response.Finish.{
  Site, Result, Ending, close_conn, inspect, close_pipe, finish_streaming, finish,
  finalize_response,
}
use nginx_lws.Response.Open.{IsOpen, After, lws_stream_handler-After}
use nginx_lws.Response.Answer.{answer-Answered}

-- While the script runs: the pipe is read and the script can write to it, or it is not read any more.
-- After the end of the script: the pipe is read, or the request is finalized once.
abbrev pub Lives : Bool → Stream → Type 0
Lives true s = (IsOpen s × (s.writer ≡ true)) ⊎ ((s.conn ≡ false) × (s.request.finalized ≡ []))
Lives false s =
    (s.writer ≡ false)
    × (IsOpen s ⊎ ((s.conn ≡ false) × (rc : ℤ) × (s.request.finalized ≡ rc ∷ [])))

After-Lives : (running : Bool) (s : Stream) → After running s → Lives running s
After-Lives true s (w, inl o) = inl (o, w)
After-Lives true s (w, inr c) =
    inr (c.conn, (elim (c.ended) [ inl e ↦ e.1 | inr e ↦ absurd (ground (arith, w, e.0)) ]))
After-Lives false s (w, inl o) = (w, inl o)
After-Lives false s (w, inr c) = (elim (c.ended) [
  | inl e ↦ absurd (ground (arith, w, e.0))
  | inr e ↦ (w, inr (c.conn, e.1, e.2))
])

finish_streaming-open : (rc : ℤ) (s : Stream) → IsOpen s → finish_streaming rc s ≡ s
unfolding finish_streaming
finish_streaming-open rc s o = rw (o.conn, o.streaming_rc, o.header_only) refl

finish_streaming-closed :
    (rc : ℤ) (s : Stream)
    → s.conn ≡ false
    → s.writer ≡ false
    → s.request.finalized ≡ []
    → Lives false (finish_streaming rc s)
unfolding finish_streaming
finish_streaming-closed rc s c w f =
    if-split (Lives false) (s.conn && (is_ok s.streaming_rc && not s.request.header_only))
      (λ h. absurd (ground (arith, h, c)))
      (λ _.
        if-all (Lives false)
          (not (is_final s.streaming_rc || s.request.header_only) && s.request.main)
          (w, inr (c, rc, ap (λ l. rc ∷ l) f))
          (w, inr (c, s.streaming_rc, ap (λ l. s.streaming_rc ∷ l) f)))

-- A handler ends, in a state of the life after the script.
abbrev pub Ends : Option Stream → Type 0
Ends o = (q : Stream) × (o ≡ some q) × Lives false q

module _ (n : Site) (exact : IsExact n.formats) (e : Ending) (x : Result) where
  finish-open : (s : Stream) → IsOpen s → s.writer ≡ false → Ends (finish n e x s)
  unfolding finish
  finish-open s o w =
      if-split Ends (s.request.header_sent || s.conn || not (is_ok s.streaming_rc))
        (λ _. (
          finish_streaming e.special_rc s,
          refl,
          subst (Lives false) (sym (finish_streaming-open e.special_rc s o)) (w, inl o),
        ))
        (λ h. absurd (ground (arith, h, o.conn)))

  finish-closed :
      (s : Stream)
      → s.conn ≡ false
      → s.writer ≡ false
      → s.request.finalized ≡ []
      → Ends (finish n e x s)
  unfolding finish
  finish-closed s c w f =
      let a = answer-Answered n exact e x s in
      if-all Ends (s.request.header_sent || s.conn || not (is_ok s.streaming_rc))
        (finish_streaming e.special_rc s, refl, finish_streaming-closed e.special_rc s c w f)
        (rw (a.1)
          (record s { request = a.0 }, refl, (w, inr (c, a.3.0, a.3.1 ∙ ap (λ l. a.3.0 ∷ l) f))))

  IsOpen-writer : (s : Stream) (b : Bool) → IsOpen s → IsOpen (record s { writer = b })
  IsOpen-writer s b o = record {
    conn = o.conn;
    reader = o.reader;
    streaming_rc = o.streaming_rc;
    header_only = o.header_only;
    finalized = o.finalized;
  }

  inspect-Ends :
      (available : Option ℕ) (s : Stream)
      → IsOpen s
      → s.writer ≡ false
      → Ends (finish n e x (inspect available s))
  inspect-Ends none s o w = finish-closed (close_conn (fail_with ngx_error s)) refl w o.finalized
  inspect-Ends (some available) s o w =
      if-all (λ t. Ends (finish n e x t)) (available == 0)
        (finish-closed (close_conn s) refl w o.finalized) (finish-open s o w)

  finalize_response-Ends : (s : Stream) → Lives true s → Ends (finalize_response n e x s)
  unfolding finalize_response close_pipe
  finalize_response-Ends s (inl (o, w)) =
      let p = IsOpen-writer s false o in
      if-all (λ t. Ends (finish n e x t))
        (s.conn && (not s.request.header_sent && is_ok s.streaming_rc))
        (inspect-Ends e.available (record s { writer = false }) p refl)
        (finish-open (record s { writer = false }) p refl)
  finalize_response-Ends s (inr (c, f)) =
      if-split (λ t. Ends (finish n e x t))
        (s.conn && (not s.request.header_sent && is_ok s.streaming_rc))
        (λ h. absurd (ground (arith, h, c)))
        (λ _. finish-closed (record s { writer = false }) c refl f)

-- A response is accepted with its pipe, or without where the location has no streaming.
pub record IsAccepted (s : Stream) : Type 0 where
  pub writer : s.writer ≡ s.conn
  pub reader : s.reader ≡ s.conn
  pub streaming_rc : s.streaming_rc ≡ ngx_ok
  pub header_only : s.request.header_only ≡ false
  pub finalized : s.request.finalized ≡ []

-- The pipe is at its end only after the script's side is closed.
abbrev pub ReadsPipe : Wake → Stream → Type 0
ReadsPipe w s = (i : ℕ) → (w.turn i).read ≡ read_eof → s.writer ≡ false

-- The states that the handlers reach, with whether the script still runs.
pub data Streamed (n : Site) : Bool → Stream → Type 0 where
  accepted : (s : Stream) → IsAccepted s → Streamed n true s
  pipe_event :
      (running : Bool) (w : Wake) (s q : Stream)
      → Streamed n running s
      → s.conn ≡ true
      → ReadsPipe w s
      → lws_stream_handler n.starts_with n.ngx_parse_http_time w s ≡ some q
      → Streamed n running q
  client_event :
      (running : Bool) (w : Wake) (s q : Stream)
      → Streamed n running s
      → ReadsPipe w s
      → lws_stream_write_handler n.starts_with n.ngx_parse_http_time w s ≡ some q
      → Streamed n running q
  script_end :
      (e : Ending) (x : Result) (s q : Stream)
      → Streamed n true s
      → finalize_response n e x s ≡ some q
      → Streamed n false q

Lives-accepted : (s : Stream) → IsAccepted s → Lives true s
Lives-accepted s a = elim (Bool-cases (s.conn)) [
  | inl h ↦ inl (
    record {
      conn = h;
      reader = a.reader ∙ h;
      streaming_rc = a.streaming_rc;
      header_only = a.header_only;
      finalized = a.finalized;
    },
    a.writer ∙ h,
  )
  | inr h ↦ inr (h, a.finalized)
]

-- A read pipe is open.
Lives-IsOpen :
    (running : Bool) (s : Stream)
    → Lives running s
    → s.conn ≡ true
    → IsOpen s × (s.writer ≡ running)
Lives-IsOpen true s (inl l) h = l
Lives-IsOpen true s (inr (c, f)) h = absurd (ground (arith, h, c))
Lives-IsOpen false s (w, inl o) h = (o, w)
Lives-IsOpen false s (w, inr (c, rc, f)) h = absurd (ground (arith, h, c))

module _ (n : Site) where
  lws_stream_handler-Lives :
      (running : Bool) (w : Wake) (s q : Stream)
      → Lives running s
      → s.conn ≡ true
      → ReadsPipe w s
      → lws_stream_handler n.starts_with n.ngx_parse_http_time w s ≡ some q
      → Lives running q
  lws_stream_handler-Lives running w s q l c h e =
      let o = Lives-IsOpen running s l c in
      let a = lws_stream_handler-After n.starts_with n.ngx_parse_http_time w s o.0 h in
      subst (Lives running) (some_injective (sym a.1 ∙ e))
        (After-Lives running (a.0) (subst (λ b. After b (a.0)) o.1 a.2))

  client_event-Lives :
      (running : Bool) (w : Wake) (s q : Stream)
      → Lives running s
      → ReadsPipe w s
      → lws_stream_write_handler n.starts_with n.ngx_parse_http_time w s ≡ some q
      → Lives running q
  unfolding lws_stream_write_handler
  client_event-Lives running w s q l h e = elim (Bool-cases (s.conn)) [
    | inl c ↦ lws_stream_handler-Lives running w s q l c h (ground (arith, e, c))
    | inr c ↦ subst (Lives running) (ground (arith, e, c)) l
  ]

module _ (n : Site) (exact : IsExact n.formats) where
  script_end-Lives :
      (e : Ending) (x : Result) (s q : Stream)
      → Lives true s
      → finalize_response n e x s ≡ some q
      → Lives false q
  script_end-Lives e x s q l h =
      let a = finalize_response-Ends n exact e x s l in
      subst (Lives false) (some_injective (sym a.1 ∙ h)) a.2

  -- Where the escapes write as many bytes as they count, a response in any state that the handlers
  -- reach is not finalized while the script runs, and afterwards it is finalized once or its pipe is
  -- still read, without an error so far.
  pub Streamed-Lives : (running : Bool) (s : Stream) → Streamed n running s → Lives running s
  Streamed-Lives _ _ (accepted s a) = Lives-accepted s a
  Streamed-Lives _ _ (pipe_event running w s q r c h e) =
      lws_stream_handler-Lives n running w s q (Streamed-Lives running s r) c h e
  Streamed-Lives _ _ (client_event running w s q r h e) =
      client_event-Lives n running w s q (Streamed-Lives running s r) h e
  Streamed-Lives _ _ (script_end e x s q r h) = script_end-Lives e x s q (Streamed-Lives true s r) h
