-- ===== src/Connection/Events.antt =====
-- A connection under the events of the server's loop, from accept to the destructor.
use http_storm.Common.{
  ℕ, Bool, true, false, Bytes, Dict, List, [], ◌∷◌, ◌≡◌, refl, sym, subst, inl, inr, arith,
}
use http_storm.Http.{HttpRequest, HttpResponse}
use http_storm.Parser.Validity.{initial-IsValid}
use http_storm.Connection.{
  Connection, closed, Socket, Ending, ssl_shutdown, shutdown, close_fd, connect, destroy, Event,
  readable, writable, removed, timeout_reset, handle, handle_all,
}
use http_storm.Connection.Safety.{IsSound, close-IsSound, handle_write-IsSound}
use http_storm.Connection.Sending.{is_closed_eq}
use http_storm.Connection.Output.{update_activity_lem}
use http_storm.Connection.Rest.{AtRest, AtRest-time, all_endings, AtRest-cases}
use http_storm.Connection.Reading.{handle_read-IsSound}

-- the descriptors on which ::close is called
abbrev pub closes : List Ending → List ℕ
closes [] = []
closes (ssl_shutdown ∷ es) = closes es
closes (shutdown n ∷ es) = closes es
closes (close_fd n ∷ es) = n ∷ closes es

all_endings-closes : (n : ℕ) (tls : Bool) → closes (all_endings n tls) ≡ n ∷ []
all_endings-closes n true = refl
all_endings-closes n false = refl

module _ {W : Type 0} (n : ℕ) (tls : Bool) (walk : Dict Bytes → Dict Bytes)
    (on_request : HttpRequest → W → HttpResponse × W) where
  handle-IsSound :
      (e : Event) (c : Connection) (s : Socket W)
      → IsSound n tls c s
      → let x = handle walk on_request e c s in IsSound n tls x.0 x.1
  handle-IsSound readable c s h = handle_read-IsSound n tls walk on_request c s h
  handle-IsSound writable c s h = handle_write-IsSound n tls c s h
  handle-IsSound removed c s h = close-IsSound n tls c s h
  handle-IsSound timeout_reset c s h =
      let (t, ds, touched) = update_activity_lem c s in
      subst (λ x. IsSound n tls x.0 x.1) (sym touched)
        (record {
          parser_IsValid = h.parser_IsValid;
          rest = AtRest-time n tls c.state t c.tls_handshake_done c s.endings h.rest;
        })

  handle_all-IsSound :
      (es : List Event) (c : Connection) (s : Socket W)
      → IsSound n tls c s
      → let x = handle_all walk on_request es c s in IsSound n tls x.0 x.1
  handle_all-IsSound [] c s h = h
  handle_all-IsSound (e ∷ es) c s h =
      let x = handle walk on_request e c s in handle_all-IsSound es x.0 x.1 (handle-IsSound e c s h)

  connect-IsSound :
      (addr : Bytes) (timeout requests size now : ℕ) (s : Socket W)
      → s.endings ≡ []
      → IsSound n tls (connect n addr tls timeout requests size now) s
  unfolding connect
  connect-IsSound addr timeout requests size now s e = record {
    parser_IsValid = initial-IsValid;
    rest = (record { held = refl; tls_kept = refl; going = e }, refl, refl, omega arith);
  }

  -- The invariant of a connection. Whatever its socket answers and whatever events reach it, in any
  -- order, a connection is READING with an empty output buffer and a body of at most
  -- max_request_size bytes, or WRITING with its offset within the buffer, or CLOSED; its parser is
  -- well-formed; in the first two states it holds its descriptor and has ended nothing, in the
  -- third it holds none and has made each of the calls that end it exactly once.
  pub handle_all-connect :
      (es : List Event) (addr : Bytes) (timeout requests size now : ℕ) (s : Socket W)
      → s.endings ≡ []
      → let x = handle_all walk on_request es (connect n addr tls timeout requests size now) s in
        IsSound n tls x.0 x.1
  handle_all-connect es addr timeout requests size now s e =
      handle_all-IsSound es _ s (connect-IsSound addr timeout requests size now s e)

  destroy-closes :
      (c : Connection) (s : Socket W) → IsSound n tls c s → closes (destroy c s).1.endings ≡ n ∷ []
  unfolding destroy
  destroy-closes c s h = elim (AtRest-cases n tls c.state c s.endings h.rest) [
    | inl (o, _) ↦ rw (o.held, o.going) refl
    | inr ended ↦
        let (free, _, e) : AtRest n tls closed c s.endings =
          subst (λ st. AtRest n tls st c s.endings) (is_closed_eq c.state ended) h.rest in
        rw (free, e) (all_endings-closes n tls)
  ]

  -- The descriptor of a connection is closed exactly once: whatever its socket answers and whatever
  -- events reach it before its destructor runs, ::close has by then been called on it once, and on
  -- no other.
  pub destroy-once :
      (es : List Event) (addr : Bytes) (timeout requests size now : ℕ) (s : Socket W)
      → s.endings ≡ []
      → let x = handle_all walk on_request es (connect n addr tls timeout requests size now) s in
        closes (destroy x.0 x.1).1.endings ≡ n ∷ []
  destroy-once es addr timeout requests size now s e =
      destroy-closes _ _ (handle_all-connect es addr timeout requests size now s e)
