-- ===== src/Connection/Reading.antt =====
-- How handle_read, with its handshake and its answers, keeps what holds of a connection at rest.
use http_storm.Common.{
  ℕ, ◌+◌, Bool, true, false, not, ◌&&◌, Bytes, Dict, length, List, [], ◌∷◌, ltb, if◌then◌else◌,
  Option, none, some, ◌≡◌, refl, sym, subst, Bool-cases, inl, inr, arith,
}
use http_storm.Http.{HttpRequest, HttpResponse}
use http_storm.Parser.{HttpParser, FeedResult, need_more_data, feed}
use http_storm.Parser.Framing.{IsValid}
use http_storm.Parser.Validity.{feed-IsValid}
use http_storm.Connection.{
  Connection, ConnectionState, reading, processing, writing, keep_alive_wait, closing, closed,
  Socket, Received, chunk, no_data, Handshake, accepted, wants_more, Stepped, close, is_closed,
  do_tls_handshake, accept_tls, is_ending, loaded, prepare_response, answer, after_feed, read_round,
  read_rounds, read_data, read_ready, handle_read, payload_too_large, bad_request,
}
use http_storm.Connection.Safety.{
  IsOpen, IsSound, IsReadable, close-IsSound, IsReadable-IsOpen, handle_write-IsWriting,
}
use http_storm.Connection.Sending.{List-cases}
use http_storm.Connection.Output.{update_activity_lem}
use http_storm.Connection.Rest.{with_parser, at_time}

is_ending-closed : (state : ConnectionState) → is_ending state ≡ false → is_closed state ≡ false
is_ending-closed reading h = refl
is_ending-closed writing h = refl
is_ending-closed processing h = refl
is_ending-closed keep_alive_wait h = refl
is_ending-closed closing h = refl
is_ending-closed closed h = ground (arith, h)

module _ {W : Type 0} (n : ℕ) (tls : Bool) where
  module _ (walk : Dict Bytes → Dict Bytes) where
    prepare_response-IsSound :
        (response : HttpResponse) (c : Connection) (s : Socket W)
        → IsOpen n tls c s
        → IsValid c.parser
        → let r = prepare_response walk response c s in IsSound n tls r.0 r.1
    unfolding prepare_response
    prepare_response-IsSound response c s o v =
        handle_write-IsWriting n tls (loaded walk response c) s (refl, o, v, omega arith)

    module _ (on_request : HttpRequest → W → HttpResponse × W) where
      answer-IsSound :
          (c : Connection) (s : Socket W)
          → IsOpen n tls c s
          → IsValid c.parser
          → let r = answer walk on_request c s in IsSound n tls r.0 r.1
      unfolding answer
      answer-IsSound c s o v = prepare_response-IsSound _ _ _ o v

      -- a round of the loop that reads again
      abbrev Keeps : (Connection → Socket W → Bool × Stepped W) → Type 0
      Keeps again =
          (c : Connection) (s : Socket W)
          → IsReadable n tls c s
          → IsSound n tls (again c s).1.0 (again c s).1.1

      after_feed-IsSound :
          (again : Connection → Socket W → Bool × Stepped W)
          → Keeps again
          → (result : FeedResult) (k : ℕ) (p : HttpParser) (c : Connection) (s : Socket W)
          → IsReadable n tls c s
          → IsValid p
          → let r = after_feed walk on_request again result k (record c { parser = p }) s in
            IsSound n tls r.1.0 r.1.1
      unfolding after_feed
      after_feed-IsSound again ih FeedResult.error k p c s r v =
          prepare_response-IsSound bad_request (record c { parser = p }) s r.opened v
      after_feed-IsSound again ih FeedResult.complete k p c s r v =
          answer-IsSound (record c { parser = p }) s r.opened v
      after_feed-IsSound again ih need_more_data k p c s r v =
          let c' : Connection = record c { parser = p } in
          elim (Bool-cases (ltb c.max_request_size (length p.request.body + k))) [
            | inl more ↦ rw more (prepare_response-IsSound payload_too_large c' s r.opened v)
            | inr fits ↦
                rw fits (ih c' s (with_parser n tls p c s.endings r v (ground (arith, fits))))
          ]

      read_round-IsSound :
          (again : Connection → Socket W → Bool × Stepped W)
          → Keeps again
          → (r : Received) (c : Connection) (s : Socket W) → IsReadable n tls c s
          → let x = read_round walk on_request again r c s in IsSound n tls x.1.0 x.1.1
      unfolding read_round
      read_round-IsSound again ih no_data c s r = r.sound
      read_round-IsSound again ih Received.failed c s r = r.sound
      read_round-IsSound again ih (chunk []) c s r = r.sound
      read_round-IsSound again ih (chunk (b ∷ bs)) c s r =
          let fed = feed c.parser (b ∷ bs) in
          after_feed-IsSound again ih fed.1 (length (b ∷ bs)) fed.0 c s r
            (feed-IsValid c.parser (b ∷ bs) r.sound.parser_IsValid)

      read_rounds-IsSound :
          (rs : List Received) (c : Connection) (s : Socket W)
          → IsReadable n tls c s
          → let x = read_rounds walk on_request rs c s in IsSound n tls x.1.0 x.1.1
      unfolding read_rounds
      read_rounds-IsSound [] c s r = r.sound
      read_rounds-IsSound (r ∷ rs) c s h =
          read_round-IsSound (read_rounds walk on_request rs) (read_rounds-IsSound rs) r c
            (record s { receives = rs }) h

      settled-IsSound :
          (ok : Bool) (c : Connection) (s : Socket W)
          → IsSound n tls c s
          → let x = if ok then (c, s) else close c s in IsSound n tls x.0 x.1
      settled-IsSound true c s h = h
      settled-IsSound false c s h = close-IsSound n tls c s h

      -- `read_ready` once the clock is read
      abbrev read_settled : Connection → Socket W → Stepped W
      read_settled c s =
          let (ok, (c', s')) = read_data walk on_request c s in if ok then (c', s') else close c' s'

      read_settled-IsSound :
          (c : Connection) (s : Socket W)
          → IsReadable n tls c s
          → IsSound n tls (read_settled c s).0 (read_settled c s).1
      read_settled-IsSound c s r =
          let x = read_data walk on_request c s in
          settled-IsSound x.0 x.1.0 x.1.1 (read_rounds-IsSound s.receives c s r)

      read_ready-IsSound :
          (c : Connection) (s : Socket W)
          → IsReadable n tls c s
          → let x = read_ready walk on_request c s in IsSound n tls x.0 x.1
      unfolding read_ready
      read_ready-IsSound c s r =
          let (t, ds, touched) = update_activity_lem c s in
          subst (λ y. let x = read_settled y.0 y.1 in IsSound n tls x.0 x.1) (sym touched)
            (read_settled-IsSound (record c { last_activity = t })
              (record s { now = t; delays = ds })
              (at_time n tls t c.tls_handshake_done c s.endings r))

      -- what is known after the handshake, which may let the connection read
      abbrev Shaken : Bool × Stepped W → Type 0
      Shaken x = if x.0 then IsReadable n tls x.1.0 x.1.1 else IsSound n tls x.1.0 x.1.1

      accept_tls-Shaken :
          (h : Option Handshake) (c : Connection) (s : Socket W)
          → IsReadable n tls c s
          → Shaken (accept_tls h c s)
      accept_tls-Shaken none c s r = r.sound
      accept_tls-Shaken (some accepted) c s r = at_time n tls c.last_activity true c s.endings r
      accept_tls-Shaken (some wants_more) c s r = r.sound
      accept_tls-Shaken (some Handshake.failed) c s r = close-IsSound n tls c s r.sound

      do_tls_handshake-Shaken :
          (c : Connection) (s : Socket W) → IsReadable n tls c s → Shaken (do_tls_handshake c s)
      unfolding do_tls_handshake
      do_tls_handshake-Shaken c s r = elim (List-cases s.handshakes) [
        | inl e ↦ rw e (accept_tls-Shaken none c s r)
        | inr (h, hs, e) ↦ rw e (accept_tls-Shaken (some h) c (record s { handshakes = hs }) r)
      ]

      after_handshake-IsSound :
          (ok : Bool) (c : Connection) (s : Socket W)
          → Shaken (ok, (c, s))
          → let x = if ok then read_ready walk on_request c s else (c, s) in IsSound n tls x.0 x.1
      after_handshake-IsSound true c s r = read_ready-IsSound c s r
      after_handshake-IsSound false c s h = h

      handle_read-live :
          (c : Connection) (s : Socket W)
          → is_ending c.state ≡ false
          → IsReadable n tls c s
          → let x = handle_read walk on_request c s in IsSound n tls x.0 x.1
      unfolding handle_read
      handle_read-live c s live r = elim (Bool-cases (c.tls_context && not c.tls_handshake_done)) [
        | inl shaking ↦
            rw (live, shaking)
              (after_handshake-IsSound (do_tls_handshake c s).0 (do_tls_handshake c s).1.0
                (do_tls_handshake c s).1.1 (do_tls_handshake-Shaken c s r))
        | inr plain ↦ rw (live, plain) (read_ready-IsSound c s r)
      ]

      handle_read-ending :
          (c : Connection) (s : Socket W)
          → is_ending c.state ≡ true
          → handle_read walk on_request c s ≡ (c, s)
      unfolding handle_read
      handle_read-ending c s e = rw e refl

      pub handle_read-IsSound :
          (c : Connection) (s : Socket W)
          → IsSound n tls c s
          → let x = handle_read walk on_request c s in IsSound n tls x.0 x.1
      handle_read-IsSound c s h = elim (Bool-cases (is_ending c.state)) [
        | inl ends ↦ subst (λ x. IsSound n tls x.0 x.1) (sym (handle_read-ending c s ends)) h
        | inr live ↦
            handle_read-live c s live
              (IsReadable-IsOpen n tls c s h (is_ending-closed c.state live))
      ]
