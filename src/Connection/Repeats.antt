-- ===== src/Connection/Repeats.antt =====
-- What handle_read does with bytes that arrive while a response is still being written.
use http_storm.Common.{
  ℕ, suc, Bool, true, false, Bytes, Dict, List, [], ◌∷◌, ◌++◌, ltb, length, ◌≡◌, refl, sym, ap,
  subst, ◌∙◌, Bool-cases, inl, inr, arith, drop,
}
use mathlib.Core.List.{append-nil}
use http_storm.Http.{HttpRequest, HttpResponse, serialize}
use http_storm.Parser.{HttpParser, ParseState, FeedResult, feed, run, append_buffer}
use http_storm.Connection.{
  Connection, writing, Socket, Received, chunk, Stepped, stays_open, finish_write, after_write,
  handle_write, close, loaded, prepare_response, complete_response, answer, after_feed, read_round,
  read_rounds, read_data, read_ready, handle_read, write_data, processing,
}
use http_storm.Connection.Sending.{write_rounds-Wrote, promised}
use http_storm.Connection.Output.{
  update_activity_lem, handle_write-writing, written, Written, waits, keeps, ends, breaks,
  handle_write-Written,
}

module _ {W : Type 0} where
  -- what a write does not touch
  abbrev Untouched : Connection → Socket W → Stepped W → Type 0
  Untouched c s x = (x.0.requests_handled ≡ c.requests_handled) × (x.1.app ≡ s.app)

  close-Untouched : (c : Connection) (s : Socket W) → Untouched c s (close c s)
  unfolding close
  close-Untouched c s = (ground arith, ground arith)

  finish_write-Untouched : (c : Connection) (s : Socket W) → Untouched c s (finish_write c s)
  unfolding finish_write
  finish_write-Untouched c s =
      let c' : Connection = record c { write_buffer = []; write_offset = 0 } in
      elim (Bool-cases (stays_open c')) [
        | inl stays ↦ rw stays (refl, refl)
        | inr last ↦ rw last (close-Untouched c' s)
      ]

  after_write-Untouched :
      (ok : Bool) (c : Connection) (s : Socket W) → Untouched c s (after_write ok c s)
  unfolding after_write
  after_write-Untouched false c s = close-Untouched c s
  after_write-Untouched true c s = elim (Bool-cases (ltb c.write_offset (length c.write_buffer))) [
    | inl more ↦ rw more (refl, refl)
    | inr done ↦ rw done (finish_write-Untouched c s)
  ]

  written-Untouched : (c : Connection) (s : Socket W) → Untouched c s (written c s)
  written-Untouched c s =
      let r = write_data c s in
      let w = write_rounds-Wrote s.sends c s in
      let (handled, app) = after_write-Untouched r.0 r.1.0 r.1.1 in
      (handled ∙ ap (λ x. x.requests_handled) w.kept, app ∙ ap (λ x. x.app) w.same)

  handle_write-Untouched :
      (c : Connection) (s : Socket W) → c.state ≡ writing → Untouched c s (handle_write c s)
  handle_write-Untouched c s e =
      let (t, ds, touched) = update_activity_lem c s in
      subst (λ x. Untouched c s x)
        (sym (handle_write-writing c s e ∙ ap (λ x. written x.0 x.1) touched))
        (written-Untouched (record c { last_activity = t }) (record s { now = t; delays = ds }))

  -- However a write ends, the peer has a prefix of what it was promised.
  Written-prefix :
      {c : Connection} {s : Socket W} {c' : Connection} {s' : Socket W}
      → Written c s c' s'
      → (rest : Bytes) × (s'.output ++ rest ≡ promised c s)
  Written-prefix {c' = c'} (waits e b l p k) = (drop c'.write_offset c'.write_buffer, p)
  Written-prefix {s' = s'} (keeps k e p o) = ([], append-nil s'.output ∙ o)
  Written-prefix {s' = s'} (ends k e o) = ([], append-nil s'.output ∙ o)
  Written-prefix (breaks e rest o f) = (rest, o)

feed-complete :
    (p : HttpParser) (bytes : Bytes)
    → p.state ≡ ParseState.complete
    → feed p bytes ≡ (append_buffer p bytes, FeedResult.complete)
unfolding feed run
feed-complete p bytes e = ap (λ st. run st (append_buffer p bytes)) e

module _ {W : Type 0} (walk : Dict Bytes → Dict Bytes)
    (on_request : HttpRequest → W → HttpResponse × W) where
  -- the request as the handler sees it
  abbrev pub request_of : Connection → HttpRequest
  request_of c = record c.parser.request { remote_addr = c.remote_addr }

  abbrev pub response_of : Connection → Socket W → HttpResponse
  response_of c s =
      complete_response c.parser.request.keep_alive (on_request (request_of c) s.app).0

  -- Every answer runs the handler once, counts one request, and starts the response from its first byte.
  abbrev pub Answered : Connection → Socket W → Stepped W → Type 0
  Answered c s x =
      (x.1.app ≡ (on_request (request_of c) s.app).1)
      × (x.0.requests_handled ≡ suc c.requests_handled)
      × ((rest : Bytes) × (x.1.output ++ rest ≡ s.output ++ serialize walk (response_of c s)))

  answer-Answered : (c : Connection) (s : Socket W) → Answered c s (answer walk on_request c s)
  unfolding answer prepare_response
  answer-Answered c s =
      let c1 : Connection =
        loaded walk (response_of c s)
          (record c { state = processing; requests_handled = suc c.requests_handled }) in
      let s1 : Socket W = record s { app = (on_request (request_of c) s.app).1 } in
      let (handled, app) = handle_write-Untouched c1 s1 refl in
      (app, handled, Written-prefix (handle_write-Written c1 s1 refl))

  read_rounds-complete :
      (b : ℕ) (bs : Bytes) (rs : List Received) (c : Connection) (s : Socket W)
      → c.parser.state ≡ ParseState.complete
      → read_rounds walk on_request (chunk (b ∷ bs) ∷ rs) c s ≡ (
        true,
        answer walk on_request
            (record c { parser = append_buffer c.parser (b ∷ bs) })
            (record s { receives = rs }),
      )
  unfolding read_rounds read_round after_feed
  read_rounds-complete b bs rs c s e = rw (feed-complete c.parser (b ∷ bs) e) refl

  handle_read-ready :
      (c : Connection) (s : Socket W)
      → c.state ≡ writing
      → c.tls_context ≡ false
      → handle_read walk on_request c s ≡ read_ready walk on_request c s
  unfolding handle_read
  handle_read-ready c s e plain = ground (arith, e, plain)

  read_ready-complete :
      (b : ℕ) (bs : Bytes) (rs : List Received) (c : Connection) (s : Socket W)
      → s.receives ≡ chunk (b ∷ bs) ∷ rs
      → c.parser.state ≡ ParseState.complete
      → Answered c s (read_ready walk on_request c s)
  unfolding read_ready
  read_ready-complete b bs rs c s arrived e =
      let (t, ds, touched) = update_activity_lem c s in
      let c1 : Connection = record c { last_activity = t } in
      let s1 : Socket W = record s { now = t; delays = ds } in
      let read : read_data walk on_request c1 s1 ≡ _ =
        ap (λ l. read_rounds walk on_request l c1 s1) arrived
        ∙ read_rounds-complete b bs rs c1 s1 e in
      rw (touched, read)
        (answer-Answered (record c1 { parser = append_buffer c.parser (b ∷ bs) })
          (record s1 { receives = rs }))

  -- When bytes arrive on a plain connection whose response is still being written, the request that this
  -- response answers is handled again: on_request is called on it a second time, the count of requests
  -- goes up, and the new response is written from its first byte after whatever part of the old one the
  -- peer already has.
  pub handle_read-Answered :
      (b : ℕ) (bs : Bytes) (rs : List Received) (c : Connection) (s : Socket W)
      → s.receives ≡ chunk (b ∷ bs) ∷ rs
      → c.state ≡ writing
      → c.parser.state ≡ ParseState.complete
      → c.tls_context ≡ false
      → Answered c s (handle_read walk on_request c s)
  handle_read-Answered b bs rs c s arrived e complete plain =
      subst (Answered c s) (sym (handle_read-ready c s e plain))
        (read_ready-complete b bs rs c s arrived complete)
