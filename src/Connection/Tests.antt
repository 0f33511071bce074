-- ===== src/Connection/Tests.antt =====
-- A connection on descriptor 5 that runs the code of HTTP SERVER/HTTP Server/src/connection.cpp.
use http_storm.Common.{
  Bool, true, List, map, some, All, lacks-Without, trim_left, lookup, insert, equal, to_string, inl,
  inr, ℕ, suc, false, Bytes, codes, Dict, [], ◌∷◌, ◌≡◌, refl, ◌⊎◌, arith,
}
use http_storm.Http.{HttpRequest, HttpResponse, empty_response, set_json_body}
use http_storm.Parser.{ParseState}
use http_storm.Connection.{
  Connection, writing, reading, closed, Socket, chunk, room, no_room, connect, readable, writable,
  removed, handle_all, handle_read, handle_write, destroy,
}
use http_storm.Connection.Sending.{promised}
use http_storm.Connection.Output.{Written, handle_write-Written}
use http_storm.Connection.Progress.{handle_write-sends}
use http_storm.Connection.Safety.{IsSound}
use http_storm.Connection.Events.{handle_all-connect, closes, destroy-once}
use http_storm.Connection.Client.{read_replies}
use http_storm.Connection.Replies.{IsField, received}
use http_storm.Connection.Framing.{IsWalk, completed, written_all, read_replies-written_all}
use http_storm.Connection.Repeats.{Answered, handle_read-Answered}

-- an application that counts its requests
abbrev counting : HttpRequest → ℕ → HttpResponse × ℕ
counting request seen = (record empty_response { body = codes "ok" }, suc seen)

abbrev in_order : Dict Bytes → Dict Bytes
in_order d = d

abbrev asks_once : Socket ℕ
asks_once = record {
  now = 0;
  delays = [];
  receives = chunk (codes "GET / HTTP/1.1\r\n\r\n") ∷ [];
  sends = room 7 ∷ no_room ∷ room 500 ∷ [];
  handshakes = [];
  output = [];
  endings = [];
  app = 0;
}

abbrev fresh : Connection
fresh = connect 5 (codes "10.0.0.1:99") false 75000 1000 1048576 0

handle_all-connect_example :
    let x = handle_all in_order counting (readable ∷ writable ∷ removed ∷ []) fresh asks_once in
    IsSound 5 false x.0 x.1
handle_all-connect_example =
    handle_all-connect 5 false in_order counting (readable ∷ writable ∷ removed ∷ [])
      (codes "10.0.0.1:99") 75000 1000 1048576 0 asks_once refl

destroy-once_example :
    let x = handle_all in_order counting (readable ∷ writable ∷ removed ∷ []) fresh asks_once in
    closes (destroy x.0 x.1).1.endings ≡ 5 ∷ []
destroy-once_example =
    destroy-once 5 false in_order counting (readable ∷ writable ∷ removed ∷ [])
      (codes "10.0.0.1:99") 75000 1000 1048576 0 asks_once refl

-- a complete request, and a response of which three bytes are sent
abbrev half_sent : Connection
half_sent = record fresh {
  state = writing;
  parser = record fresh.parser { state = ParseState.complete };
  write_buffer = codes "HTTP/1.1 200 OK\r\n\r\n";
  write_offset = 3;
}

handle_write-Written_example :
    Written half_sent asks_once
      (handle_write half_sent asks_once).0
      (handle_write half_sent asks_once).1
handle_write-Written_example = handle_write-Written half_sent asks_once refl

handle_read-Answered_example :
    Answered in_order counting half_sent asks_once
      (handle_read in_order counting half_sent asks_once)
unfolding connect
handle_read-Answered_example =
    handle_read-Answered in_order counting b'G' (codes "ET / HTTP/1.1\r\n\r\n") [] half_sent
      asks_once refl refl refl refl

abbrev roomy : Socket ℕ
roomy = record asks_once { sends = room 7 ∷ room 1 ∷ room 500 ∷ [] }

abbrev nearly_sent : Connection
nearly_sent = record half_sent { write_buffer = codes "HTTP/1"; write_offset = 3 }

handle_write-sends_example :
    let (c', s') = handle_write nearly_sent roomy in
    (s'.output ≡ promised nearly_sent roomy) × ((c'.state ≡ reading) ⊎ (c'.state ≡ closed))
handle_write-sends_example =
    handle_write-sends nearly_sent roomy refl ((6, refl), ((0, refl), ((499, refl), tt)))
      (omega arith)

in_order-IsWalk : (m : Dict Bytes) → IsWalk m (in_order m)
in_order-IsWalk m = record { same = λ key. refl; entries = λ P h. h }

-- a body that looks like the end of the headers, with no length, and one whose handler has counted it
abbrev two_answers : List (Bool × HttpResponse)
two_answers =
    (true, record empty_response { body = codes "a\r\n\r\nHTTP/1.1 " })
    ∷ (false, set_json_body (codes "{}") (record empty_response { status_code = 404 }))
    ∷ []

json_body-fields : All IsField (set_json_body (codes "{}") empty_response).headers
unfolding trim_left set_json_body insert equal to_string
json_body-fields = (
  (
    lacks-Without b':' (codes "Content-Type") refl,
    lacks-Without b'\r' (codes "Content-Type") refl,
    lacks-Without b'\r' (codes "application/json; charset=utf-8") refl,
    refl,
  ),
  (
    (
      lacks-Without b':' (codes "Content-Length") refl,
      lacks-Without b'\r' (codes "Content-Length") refl,
      lacks-Without b'\r' (codes "2") refl,
      refl,
    ),
    tt,
  ),
)

read_replies-written_all_example :
    read_replies 2 (written_all in_order two_answers)
    ≡ some (map (λ answer. received in_order (completed answer)) two_answers)
unfolding lookup set_json_body insert equal
read_replies-written_all_example = read_replies-written_all in_order two_answers (
  record {
    status = omega arith;
    message = lacks-Without b'\r' (codes "OK") refl;
    fields = tt;
    body = omega arith;
    counted = inr (refl, refl);
    walked = in_order-IsWalk _;
  },
  (
    record {
      status = omega arith;
      message = lacks-Without b'\r' (codes "OK") refl;
      fields = json_body-fields;
      body = omega arith;
      counted = inl refl;
      walked = in_order-IsWalk _;
    },
    tt,
  ),
)
