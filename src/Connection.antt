-- ===== src/Connection.antt =====
-- Connection of HTTP SERVER/HTTP Server/src/connection.cpp: a socket, its parser and its output.
-- The socket is a list of what the coming calls answer; a call beyond the list would block.
-- Times are nanoseconds of the steady clock. The counts and timeouts of type int are not negative,
-- the length of a body and a chunk together is less than 2 ^ 64, and what is written over TLS is shorter
-- than 2 ^ 31, so that the length that SSL_write is given is the length of the rest of the buffer.

mod State
pub mod Sending
pub mod Output
pub mod Rest
pub mod Safety
pub mod Reading
pub mod Events
pub mod Repeats
pub mod Progress
pub mod Client
pub mod Replies
pub mod Framing
mod Tests
use http_storm.Common.{
  ℕ, suc, ◌+◌, ◌-◌, ◌/◌, min, Bool, true, false, not, ◌&&◌, Bytes, codes, Dict, lookup, length,
  take, drop, List, [], ◌∷◌, ◌++◌, ◌==◌, ltb, if◌then◌else◌, Option, none, some, to_string,
}
use http_storm.Http.{
  HttpRequest, HttpResponse, empty_response, set_header, set_json_body, serialize,
}
use http_storm.Parser.{FeedResult, need_more_data, HttpParser, initial, feed, reset, is_complete}
unfoldable pub use State.*

abbrev pub Stepped : Type 0 → Type 0
Stepped W = Connection × Socket W

-- the calls of `close` on what is still open
abbrev pub ending_calls : Connection → List Ending
ending_calls c =
    (if c.ssl then ssl_shutdown ∷ [] else [])
    ++ elim c.fd [ none ↦ [] | some n ↦ shutdown n ∷ close_fd n ∷ [] ]

-- whether the connection is kept for another request
abbrev pub stays_open : Connection → Bool
stays_open c =
    ltb c.requests_handled c.keepalive_max_requests
    && is_complete c.parser
    && c.parser.request.keep_alive

abbrev pub loaded : (Dict Bytes → Dict Bytes) → HttpResponse → Connection → Connection
loaded walk response c = record c {
  write_buffer = serialize walk response;
  write_offset = 0;
  state = writing;
}

module _ {W : Type 0} where
  unfoldable pub update_activity : Connection → Socket W → Stepped W
  update_activity c s = elim s.delays [
    | [] ↦ (record c { last_activity = s.now }, s)
    | d ∷ ds ↦ (record c { last_activity = s.now + d }, record s { now = s.now + d; delays = ds })
  ]

  unfoldable pub close : Connection → Socket W → Stepped W
  close c s = if is_closed c.state then (c, s) else (
    record c { ssl = false; fd = none; state = closed },
    record s { endings = s.endings ++ ending_calls c },
  )

  -- the destructor, which ~SSL does not precede by a shutdown
  unfoldable pub destroy : Connection → Socket W → Stepped W
  destroy c s = elim c.fd [
    | none ↦ (c, s)
    | some n ↦ (record c { fd = none }, record s { endings = s.endings ++ close_fd n ∷ [] })
  ]

  -- One call of SSL_accept.
  abbrev pub accept_tls : Option Handshake → Connection → Socket W → Bool × Stepped W
  accept_tls none c s = (false, (c, s))
  accept_tls (some accepted) c s = (true, (record c { tls_handshake_done = true }, s))
  accept_tls (some wants_more) c s = (false, (c, s))
  accept_tls (some Handshake.failed) c s = (false, close c s)

  unfoldable pub do_tls_handshake : Connection → Socket W → Bool × Stepped W
  do_tls_handshake c s = elim s.handshakes [
    | [] ↦ accept_tls none c s
    | h ∷ hs ↦ accept_tls (some h) c (record s { handshakes = hs })
  ]

  -- the output when n more bytes of the buffer have gone
  abbrev pub write_some : ℕ → Connection → Socket W → Stepped W
  write_some n c s =
      let gone = min n (length c.write_buffer - c.write_offset) in
      (
        record c { write_offset = c.write_offset + gone },
        record s { output = s.output ++ take gone (drop c.write_offset c.write_buffer) },
      )

  -- One call of send or SSL_write; `again` is the next round of the loop.
  unfoldable pub write_round :
      (Connection → Socket W → Bool × Stepped W) → Sent → Connection → Socket W → Bool × Stepped W
  write_round again no_room c s = (true, (c, s))
  write_round again Sent.failed c s = (false, (c, s))
  write_round again (room n) c s =
      if c.ssl && n == 0 then (false, (c, s)) else let (c', s') = write_some n c s in again c' s'

  unfoldable pub write_rounds : List Sent → Connection → Socket W → Bool × Stepped W
  write_rounds [] c s = (true, (c, record s { sends = [] }))
  write_rounds (r ∷ rs) c s =
      if ltb c.write_offset (length c.write_buffer)
      then write_round (write_rounds rs) r c (record s { sends = rs })
      else (true, (c, record s { sends = r ∷ rs }))

  abbrev pub write_data : Connection → Socket W → Bool × Stepped W
  write_data c s = write_rounds s.sends c s

  -- `handle_write` when the whole buffer is sent
  unfoldable pub finish_write : Connection → Socket W → Stepped W
  finish_write c s =
      let c' = record c { write_buffer = []; write_offset = 0 } in
      if stays_open c'
      then (record c' { parser = reset c'.parser; state = reading }, s)
      else close c' s

  -- `handle_write` after `write_data`
  unfoldable pub after_write : Bool → Connection → Socket W → Stepped W
  after_write false c s = close c s
  after_write true c s =
      if ltb c.write_offset (length c.write_buffer) then (c, s) else finish_write c s

  unfoldable pub handle_write : Connection → Socket W → Stepped W
  handle_write c s =
      if not (is_writing c.state)
      then (c, s)
      else let (c1, s1) = update_activity c s in
        let (ok, (c2, s2)) = write_data c1 s1 in after_write ok c2 s2

  module _ (walk : Dict Bytes → Dict Bytes) where
    unfoldable pub prepare_response : HttpResponse → Connection → Socket W → Stepped W
    prepare_response response c s = handle_write (loaded walk response c) s

    module _ (on_request : HttpRequest → W → HttpResponse × W) where
      -- the request is complete
      unfoldable pub answer : Connection → Socket W → Stepped W
      answer c s =
          let req = record c.parser.request { remote_addr = c.remote_addr } in
          let (resp, app') = on_request req s.app in
          prepare_response (complete_response req.keep_alive resp)
            (record c { state = processing; requests_handled = suc c.requests_handled })
            (record s { app = app' })

      -- What `read_data` does with the parser's result on n bytes; `again` is the next round.
      unfoldable pub after_feed :
          (Connection → Socket W → Bool × Stepped W)
          → FeedResult
          → ℕ
          → Connection
          → Socket W
          → Bool × Stepped W
      after_feed again FeedResult.error n c s = (true, prepare_response bad_request c s)
      after_feed again FeedResult.complete n c s = (true, answer c s)
      after_feed again need_more_data n c s =
          if ltb c.max_request_size (length c.parser.request.body + n)
          then (true, prepare_response payload_too_large c s)
          else again c s

      unfoldable pub read_round :
          (Connection → Socket W → Bool × Stepped W)
          → Received
          → Connection
          → Socket W
          → Bool × Stepped W
      read_round again no_data c s = (true, (c, s))
      read_round again Received.failed c s = (false, (c, s))
      read_round again (chunk []) c s = (false, (c, s))
      read_round again (chunk (b ∷ bs)) c s =
          let (parser', result) = feed c.parser (b ∷ bs) in
          after_feed again result (length (b ∷ bs)) (record c { parser = parser' }) s

      unfoldable pub read_rounds : List Received → Connection → Socket W → Bool × Stepped W
      read_rounds [] c s = (true, (c, record s { receives = [] }))
      read_rounds (r ∷ rs) c s = read_round (read_rounds rs) r c (record s { receives = rs })

      abbrev pub read_data : Connection → Socket W → Bool × Stepped W
      read_data c s = read_rounds s.receives c s

      -- `handle_read` after the handshake
      unfoldable pub read_ready : Connection → Socket W → Stepped W
      read_ready c s =
          let (c1, s1) = update_activity c s in
          let (ok, (c2, s2)) = read_data c1 s1 in if ok then (c2, s2) else close c2 s2

      unfoldable pub handle_read : Connection → Socket W → Stepped W
      handle_read c s =
          if is_ending c.state
          then (c, s)
          else if c.tls_context && not c.tls_handshake_done
          then (let (ok, (c1, s1)) = do_tls_handshake c s in
              if ok then read_ready c1 s1 else (c1, s1))
          else read_ready c s

      abbrev pub handle : Event → Connection → Socket W → Stepped W
      handle readable c s = handle_read c s
      handle writable c s = handle_write c s
      handle removed c s = close c s
      handle timeout_reset c s = update_activity c s

      abbrev pub handle_all : List Event → Connection → Socket W → Stepped W
      handle_all [] c s = (c, s)
      handle_all (e ∷ es) c s = let (c', s') = handle e c s in handle_all es c' s'
