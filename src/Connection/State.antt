-- ===== src/Connection/State.antt =====
-- The data of a connection: its fields, its socket, the events that reach it, and the responses that
-- Connection::read_data makes itself, of HTTP SERVER/HTTP Server/src/connection.cpp.
use http_storm.Common.{
  ℕ, ◌-◌, ◌/◌, Bool, true, false, not, ◌&&◌, Bytes, codes, lookup, length, List, [], ltb,
  if◌then◌else◌, Option, none, some, to_string,
}
use http_storm.Http.{HttpResponse, empty_response, set_header, set_json_body}
use http_storm.Parser.{HttpParser, initial}

pub data ConnectionState : Type 0 where
  reading processing writing keep_alive_wait closing closed : ConnectionState

pub record Connection : Type 0 where
  -- none is -1
  pub fd : Option ℕ
  pub remote_addr : Bytes
  -- whether tls_context_ is not null, and ssl_ neither
  pub tls_context : Bool
  pub ssl : Bool
  pub parser : HttpParser
  pub state : ConnectionState
  pub write_buffer : Bytes
  pub write_offset : ℕ
  -- in milliseconds
  pub keepalive_timeout_ms : ℕ
  pub keepalive_max_requests : ℕ
  pub max_request_size : ℕ
  pub requests_handled : ℕ
  pub tls_handshake_done : Bool
  pub last_activity : ℕ

-- What recv or SSL_read gives: bytes (none of them at the end of the stream), EAGAIN or another error.
pub data Received : Type 0 where
  chunk : Bytes → Received
  no_data : Received
  failed : Received

-- What send or SSL_write gives: the bytes that it has room for, EAGAIN or another error.
pub data Sent : Type 0 where
  room : ℕ → Sent
  no_room : Sent
  failed : Sent

-- What SSL_accept gives.
pub data Handshake : Type 0 where
  accepted wants_more failed : Handshake

-- A call that ends the connection.
pub data Ending : Type 0 where
  ssl_shutdown : Ending
  shutdown : ℕ → Ending
  close_fd : ℕ → Ending

-- The socket, the clock and the application as the connection meets them.
pub record Socket (W : Type 0) : Type 0 where
  pub now : ℕ
  -- what passes before each coming reading of the clock
  pub delays : List ℕ
  pub receives : List Received
  pub sends : List Sent
  pub handshakes : List Handshake
  -- the bytes taken off the connection so far
  pub output : Bytes
  pub endings : List Ending
  -- the state that on_request reads and changes
  pub app : W

-- What the server calls on a connection: handle_read and handle_write as the socket allows, close when
-- it removes the connection, and reset_timeout.
pub data Event : Type 0 where
  readable writable removed timeout_reset : Event

-- The constructor, when create_ssl has not thrown or is not called; new_connection of Server.Handles has the
-- exception.
unfoldable pub connect : ℕ → Bytes → Bool → ℕ → ℕ → ℕ → ℕ → Connection
connect fd remote_addr tls timeout_ms max_requests max_size now = record {
  fd = some fd;
  remote_addr = remote_addr;
  tls_context = tls;
  ssl = tls;
  parser = initial;
  state = reading;
  write_buffer = [];
  write_offset = 0;
  keepalive_timeout_ms = timeout_ms;
  keepalive_max_requests = max_requests;
  max_request_size = max_size;
  requests_handled = 0;
  tls_handshake_done = false;
  last_activity = now;
}

abbrev pub is_reading : ConnectionState → Bool
is_reading s = elim s [ reading ↦ true | _ ↦ false ]

abbrev pub is_writing : ConnectionState → Bool
is_writing s = elim s [ writing ↦ true | _ ↦ false ]

abbrev pub is_closed : ConnectionState → Bool
is_closed s = elim s [ closed ↦ true | _ ↦ false ]

-- CLOSED or CLOSING
abbrev pub is_ending : ConnectionState → Bool
is_ending s = elim s [ closed ↦ true | closing ↦ true | _ ↦ false ]

abbrev pub is_some {ℓ} : {A : Type ℓ} → Option A → Bool
is_some found = elim found [ none ↦ false | some x ↦ true ]

abbrev pub is_alive : Connection → Bool
is_alive c = not (is_ending c.state) && is_some c.fd

abbrev pub is_timed_out : ℕ → Connection → Bool
is_timed_out now c = ltb c.keepalive_timeout_ms ((now - c.last_activity) / 1_000_000)

abbrev pub bad_request : HttpResponse
bad_request =
    set_json_body (codes "{\"error\":\"Bad Request\",\"code\":400}")
      (record empty_response { status_code = 400; status_message = codes "Bad Request" })

abbrev pub payload_too_large : HttpResponse
payload_too_large =
    set_json_body (codes "{\"error\":\"Payload Too Large\",\"code\":413}")
      (record empty_response { status_code = 413; status_message = codes "Payload Too Large" })

-- the headers that `read_data` adds to what on_request answers
unfoldable pub complete_response : Bool → HttpResponse → HttpResponse
complete_response keep_alive resp =
    let named =
      set_header (codes "Connection") (codes (if keep_alive then "keep-alive" else "close"))
        (set_header (codes "Server") (codes "hphttp/1.0") resp) in
    if not (is_some (lookup (codes "Content-Length") named.headers)) && not named.compressed
    then set_header (codes "Content-Length") (to_string (length named.body)) named
    else named
