-- ===== src/Connection/Rest.antt =====
-- What holds of a connection whenever the event loop has it.
use http_storm.Common.{
  ℕ, ◌≤◌, Bool, true, false, length, List, [], ◌∷◌, ◌++◌, if◌then◌else◌, Option, none, some, ◌≡◌,
  refl, inl, inr, ◌⊎◌,
}
use http_storm.Parser.{HttpParser}
use http_storm.Parser.Framing.{IsValid}
use http_storm.Connection.{
  Connection, ConnectionState, reading, processing, writing, keep_alive_wait, closing, closed,
  Ending, ssl_shutdown, shutdown, close_fd, is_closed,
}

-- the calls that end the connection on n
abbrev pub all_endings : ℕ → Bool → List Ending
all_endings n tls = (if tls then ssl_shutdown ∷ [] else []) ++ shutdown n ∷ close_fd n ∷ []

-- The descriptor n is held, and nothing has ended.
pub record IsHeld (n : ℕ) (tls : Bool) (fd : Option ℕ) (ssl : Bool) (endings : List Ending)
    : Type 0 where
  pub held : fd ≡ some n
  pub tls_kept : ssl ≡ tls
  pub going : endings ≡ []

module _ (n : ℕ) (tls : Bool) where
  -- What each state says of the output and the descriptor; the other three are never seen from outside.
  abbrev pub AtRest : ConnectionState → Connection → List Ending → Type 0
  AtRest reading c endings =
      IsHeld n tls c.fd c.ssl endings
      × (c.write_buffer ≡ [])
      × (c.write_offset ≡ 0)
      × (length c.parser.request.body ≤ c.max_request_size)
  AtRest writing c endings =
      IsHeld n tls c.fd c.ssl endings × (c.write_offset ≤ length c.write_buffer)
  AtRest closed c endings = (c.fd ≡ none) × (c.ssl ≡ false) × (endings ≡ all_endings n tls)
  AtRest _ c endings = ⊥

  pub record RestsSoundly (c : Connection) (endings : List Ending) : Type 0 where
    pub parser_IsValid : IsValid c.parser
    pub rest : AtRest c.state c endings

  -- A connection that reads: what `read_data` keeps from one round to the next.
  pub record ReadsSoundly (c : Connection) (endings : List Ending) : Type 0 where
    pub sound : RestsSoundly c endings
    pub opened : IsHeld n tls c.fd c.ssl endings
    pub live : is_closed c.state ≡ false

  -- A connection at rest is open and not closed, or it is closed.
  pub AtRest-cases :
      (state : ConnectionState) (c : Connection) (endings : List Ending)
      → AtRest state c endings
      → (IsHeld n tls c.fd c.ssl endings × (is_closed state ≡ false)) ⊎ (is_closed state ≡ true)
  AtRest-cases reading c e (o, _, _, _) = inl (o, refl)
  AtRest-cases writing c e (o, _) = inl (o, refl)
  AtRest-cases closed c e _ = inr refl
  AtRest-cases processing c e h = absurd h
  AtRest-cases closing c e h = absurd h
  AtRest-cases keep_alive_wait c e h = absurd h

  AtRest-parser :
      (state : ConnectionState) (p : HttpParser) (c : Connection) (endings : List Ending)
      → length p.request.body ≤ c.max_request_size
      → AtRest state c endings
      → is_closed state ≡ false
      → AtRest state (record c { parser = p }) endings
  AtRest-parser reading p c es h (o, b, f, _) live = (o, b, f, h)
  AtRest-parser writing p c es h (o, f) live = (o, f)
  AtRest-parser closed p c es h (f, g, e) live = (f, g, e)
  AtRest-parser processing p c es h r live = absurd r
  AtRest-parser closing p c es h r live = absurd r
  AtRest-parser keep_alive_wait p c es h r live = absurd r

  pub with_parser :
      (p : HttpParser) (c : Connection) (endings : List Ending)
      → ReadsSoundly c endings
      → IsValid p
      → length p.request.body ≤ c.max_request_size
      → ReadsSoundly (record c { parser = p }) endings
  with_parser p c endings r v h = record {
    sound = record {
      parser_IsValid = v;
      rest = AtRest-parser c.state p c endings h r.sound.rest r.live;
    };
    opened = r.opened;
    live = r.live;
  }

  pub AtRest-time :
      (state : ConnectionState) (t : ℕ) (done : Bool) (c : Connection) (endings : List Ending)
      → AtRest state c endings
      → AtRest state (record c { last_activity = t; tls_handshake_done = done }) endings
  AtRest-time reading t d c es h = h
  AtRest-time writing t d c es h = h
  AtRest-time closed t d c es h = h
  AtRest-time processing t d c es h = h
  AtRest-time closing t d c es h = h
  AtRest-time keep_alive_wait t d c es h = h

  -- Neither times nor the end of the handshake matter to a connection that reads.
  pub at_time :
      (t : ℕ) (done : Bool) (c : Connection) (endings : List Ending)
      → ReadsSoundly c endings
      → ReadsSoundly (record c { last_activity = t; tls_handshake_done = done }) endings
  at_time t done c endings r = record {
    sound = record {
      parser_IsValid = r.sound.parser_IsValid;
      rest = AtRest-time c.state t done c endings r.sound.rest;
    };
    opened = r.opened;
    live = r.live;
  }
