-- ===== src/Server/Handles.antt =====
-- The connections of HTTP SERVER/HTTP Server/src/connection.cpp, with their sockets, as what the
-- server's table holds.
use http_storm.Common.{true, false, not, ◌&&◌, Dict, Bytes, ℕ, Option, none, some, ◌≡◌, ap}
use http_storm.Http.{HttpRequest, HttpResponse}
use http_storm.Connection.{
  Connection, Socket, is_ending, is_some, is_alive, is_timed_out, close, connect, handle_read,
  handle_write,
}
use http_storm.Connection.Output.{close-closed}
use http_storm.Server.Table.{ConnectionOps, Made, made, made_none}
use http_storm.Tls.{SslCtx, OpenSsl, ready, thrown, create_ssl}

pub is_alive-close : {W : Type 0} (c : Connection) (s : Socket W) → is_alive (close c s).0 ≡ false
is_alive-close c s = ap (λ st. not (is_ending st) && is_some (close c s).0.fd) (close-closed c s)

-- The constructor of Connection on an accepted descriptor, with the server's TLS context if there is one.
unfoldable new_connection : OpenSsl → Option SslCtx → ℕ → Bytes → ℕ → ℕ → ℕ → ℕ → Made Connection
new_connection ssl tls_context fd remote_addr timeout_ms max_requests max_size now =
    elim tls_context [
      | none ↦ made (connect fd remote_addr false timeout_ms max_requests max_size now)
      | some ctx ↦ elim (create_ssl ssl ctx fd) [
        | ready created warned ↦
            made (connect fd remote_addr true timeout_ms max_requests max_size now)
        | thrown message warned ↦ made_none message
      ]
    ]

abbrev pub connection_ops :
    {W : Type 0}
    → (Dict Bytes → Dict Bytes)
    → (HttpRequest → W → HttpResponse × W)
    → ConnectionOps (Connection × Socket W)
connection_ops walk on_request = record {
  handle_read = λ x. handle_read walk on_request x.0 x.1;
  handle_write = λ x. handle_write x.0 x.1;
  close = λ x. close x.0 x.1;
  is_alive = λ x. is_alive x.0;
  is_timed_out = λ now x. is_timed_out now x.0;
  close-is_alive = λ x. is_alive-close x.0 x.1;
}
