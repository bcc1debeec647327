-- ===== src/Response/Stream.antt =====
-- The streaming of a response in src/lws_module.c: the handler of the pipe that the script writes to,
-- and of the client's connection. The free and busy lists of buffers are in what the environment
-- decides.
use nginx_lws.Base.{
  ℕ, zero, suc, ◌==◌, if◌then◌else◌, Bool, true, false, ◌&&◌, ◌||◌, not, Option, none, some, List,
  ℤ, pos, Bytes,
}
use nginx_lws.Response.Defs.{
  ngx_ok, ngx_error, is_error, is_again, is_final, Header, Request, Sending, send_header,
  send_bytes, finalize, is_bodiless,
}
use nginx_lws.Response.Cookies.{Compare}
use nginx_lws.Response.Headers.{Pushed, pushed, push_failed, lws_set_response_header}

abbrev pub lws_streaming_reads_max : ℕ
lws_streaming_reads_max = 16

-- The parts of `lws_request_ctx_t` that the answer uses: the status and the headers that the script has
-- set, whether `streaming_conn` is open, with `streaming_pipe[0]` and `[1]`, and `streaming_rc`; whether
-- `lws_stream_write_handler` is installed, the write timer of the client is set, the connection is
-- marked as timed out, and the flags of the event of the pipe.
pub record Stream : Type 0 where
  pub request : Request
  pub ctx_status : ℕ
  pub fields : List Header
  pub conn : Bool
  pub reader : Bool
  pub writer : Bool
  pub streaming_rc : ℤ
  pub blocked : Bool
  pub timer : Bool
  pub timedout : Bool
  pub ready : Bool
  pub eof : Bool

-- What `read` gives, after the repetition for EINTR.
pub data Read : Type 0 where
  read_bytes : Bytes → Read
  read_eof : Read
  read_again : Read
  read_failed : Read

-- What the environment decides in one turn of the loop: whether buffers are busy, the allocations, the
-- read, the marker at the end, the pushes of headers that succeed, the sending of the header, the
-- result of the output filter and whether output is pending after it, and the calls for the event.
pub record Turn : Type 0 where
  pub busy : Bool
  pub chain_ok : Bool
  pub block_ok : Bool
  pub read : Read
  pub special_rc : ℤ
  pub room : ℕ
  pub sending : Sending
  pub filter_rc : ℤ
  pub pending : Bool
  pub del_ok : Bool
  pub rearm_ok : Bool

-- What the environment decides besides in a call of the handler, by the turns that are left.
pub record Wake : Type 0 where
  pub write_timedout : Bool
  pub delayed : Bool
  pub write_ready : Bool
  pub flush_rc : ℤ
  pub flush_pending : Bool
  pub resume_ok : Bool
  pub pause_ok : Bool
  pub write_ok : Bool
  pub turn : ℕ → Turn

-- Where a part of the handler goes on: at the next turn of the loop, at `blocked`, at `error`, or
-- nowhere.
pub data Exit : Type 0 where
  to_read to_blocked to_error to_return : Stream → Exit

abbrev pub fail_with : ℤ → Stream → Stream
fail_with rc s = record s { streaming_rc = rc }

abbrev pub on_request : (Request → Request) → Stream → Stream
on_request f s = record s { request = f s.request }

-- The branch of `n == 0`
unfoldable pub read_end : ℤ → Stream → Stream
read_end special_rc s =
    let q = record s { eof = true; conn = false; reader = false } in
    if not s.request.header_sent
    then on_request (finalize (pos 500)) q
    else on_request (finalize (if s.request.main then special_rc else ngx_ok)) q

-- From the filling of the buffer to the end of a turn; `last` tells that it is the sixteenth.
unfoldable pub send_chunk : Turn → Bool → Bytes → Stream → Exit
send_chunk e last bytes s =
    let q = on_request (send_bytes bytes) s in
    if is_error e.filter_rc
    then to_error (fail_with ngx_error q)
    else if is_again e.filter_rc || e.pending
    then to_blocked q
    else if not last
    then to_read q
    else if not e.del_ok
    then to_error (fail_with ngx_error q)
    else if not e.rearm_ok
    then to_error (fail_with ngx_error (record q { ready = false }))
    else to_return (record q { ready = false })

-- The mark of a response that the filters would take for header-only
abbrev pub mark_bodiless : Request → Request
mark_bodiless r = if is_bodiless r r.status then record r { header_only = true } else r

-- The end of the branch that sends the header, after `lws_set_response_header`.
unfoldable pub after_header : Turn → Bool → Bytes → Stream → Pushed → Exit
unfolding send_chunk
after_header e last bytes s (push_failed q) =
    to_error (record s { request = q; streaming_rc = pos 500 })
after_header e last bytes s (pushed q n) =
    let sent = send_header e.sending (record q { status = s.ctx_status }) in
    let t = record s { request = sent } in
    if is_final e.sending.rc || sent.header_only
    then to_error (fail_with e.sending.rc t)
    else send_chunk e last bytes t

module _ (starts_with : Compare) (ngx_parse_http_time : Bytes → ℤ) where
  -- The part of a turn behind a read of some bytes; none is a setting of the header that does not end.
  unfoldable pub send_read : Turn → Bool → Bytes → Stream → Option Exit
  unfolding after_header lws_set_response_header
  send_read e last bytes s =
      if s.request.header_sent
      then some (send_chunk e last bytes s)
      else (elim (lws_set_response_header starts_with ngx_parse_http_time s.fields
          (mark_bodiless s.request) e.room) [
            | none ↦ none
            | some p ↦ some (after_header e last bytes s p)
          ])

  unfoldable pub after_read : Turn → Bool → Stream → Read → Option Exit
  unfolding send_read read_end
  after_read e last s (read_bytes bytes) = send_read e last bytes s
  after_read e last s read_eof = some (to_return (read_end e.special_rc s))
  after_read e last s read_failed = some (to_error (fail_with ngx_error s))
  after_read e last s read_again =
      if not e.rearm_ok
      then some (to_error (fail_with ngx_error (record s { ready = false })))
      else some (to_return (record s { ready = false }))

  -- One turn of `while (1)`
  unfoldable pub read_turn : Turn → Bool → Stream → Option Exit
  unfolding after_read
  read_turn e last s =
      if e.busy
      then some (to_blocked s)
      else if not e.chain_ok
      then some (to_error (fail_with ngx_error s))
      else if not e.block_ok
      then some (to_error (fail_with ngx_error s))
      else after_read e last s e.read

  -- The loop, with the number of turns that are left.
  unfoldable pub read_loop : ℕ → (ℕ → Turn) → Stream → Option Exit
  unfolding read_turn
  read_loop zero turn s = some (to_return s)
  read_loop (suc left) turn s = elim (read_turn (turn left) (left == 0) s) [
    | none ↦ none
    | some (to_read q) ↦ read_loop left turn q
    | some (to_blocked q) ↦ some (to_blocked q)
    | some (to_error q) ↦ some (to_error q)
    | some (to_return q) ↦ some (to_return q)
  ]

-- The code at the label `error`
unfoldable pub abort : Stream → Stream
abort s =
    let q = record s {
      conn = false;
      reader = false;
      blocked = false;
      timer = if s.blocked then false else s.timer;
    } in
    if s.writer then q else on_request (finalize s.streaming_rc) q

-- The code at the label `blocked`
unfoldable pub wait_for_client : Wake → Stream → Stream
unfolding abort
wait_for_client w s =
    if not w.pause_ok
    then abort (fail_with ngx_error s)
    else (let q = record s { ready = false; blocked = true } in
        if w.write_ready && w.delayed
        then q
        else (let t = record q { timer = not w.delayed || s.timer } in
            if not w.write_ok then abort (fail_with ngx_error t) else t))

-- The branch that flushes pending output
unfoldable pub flush_pending_output : Wake → Stream → Stream
unfolding wait_for_client abort
flush_pending_output w s =
    if w.write_timedout
    then abort (fail_with (pos 408) (record s { timedout = true }))
    else if w.delayed
    then wait_for_client w s
    else if is_error w.flush_rc
    then abort (fail_with ngx_error s)
    else if is_again w.flush_rc || w.flush_pending
    then wait_for_client w s
    else (let q = record s { timer = false; blocked = false; ready = false } in
        if not w.resume_ok then abort (fail_with ngx_error q) else q)

unfoldable pub leave : Wake → Exit → Stream
unfolding abort wait_for_client
leave w (to_read s) = s
leave w (to_blocked s) = wait_for_client w s
leave w (to_error s) = abort s
leave w (to_return s) = s

module _ (starts_with : Compare) (ngx_parse_http_time : Bytes → ℤ) where
  unfoldable pub lws_stream_handler : Wake → Stream → Option Stream
  unfolding flush_pending_output read_loop leave
  lws_stream_handler w s =
      if s.blocked
      then some (flush_pending_output w s)
      else (elim (read_loop starts_with ngx_parse_http_time lws_streaming_reads_max w.turn s) [
        | none ↦ none
        | some exit ↦ some (leave w exit)
      ])

  unfoldable pub lws_stream_write_handler : Wake → Stream → Option Stream
  unfolding lws_stream_handler
  lws_stream_write_handler w s = if s.conn then lws_stream_handler w s else some s
