-- ===== src/Parser/Tests.antt =====
-- Runs of the parser, after HTTP SERVER/HTTP Server/tests/http_tests.cpp.
use http_storm.Common.{
  to_string, print_digits, lacks-Without, arith, Bytes, codes, ◌≡◌, refl, lookup, insert, equal,
  find, find_crlf, is_prefix, contains, trim_left, tolower, from_chars, some, ◌∷◌, [],
}
use http_storm.Http.{post, http_1_1}
use http_storm.Url.{url_decode, add_pair, query_rounds, parse_query_string, hex_pair}
use http_storm.Parser.{
  method_to_string, FeedResult, HttpParser, ParseState, initial, feed, parse_method, parse_version,
  parse_request_line, parse_header_line, finalize_headers, feed_body, feed_headers, headers_round,
  feed_request_line,
}
use http_storm.Parser.Chunks.{settle}
use http_storm.Parser.Printing.{IsPrintable, Message}
use http_storm.Parser.RoundTrip.{IsRead}
use http_storm.Parser.CutRoundTrip.{feed_all-print_request}
use http_storm.Parser.Framing.{IsValid}
use http_storm.Parser.Streams.{feed_all, feed_all-joined}
use http_storm.Parser.Validity.{feed-IsValid, initial-IsValid}

simple_get : Bytes
simple_get = codes "GET /a?q=x+y%21 HTTP/1.1\r\nHost: h\r\n\r\n"

simple_get_runs :
    ((feed initial simple_get).1 ≡ FeedResult.complete)
    × ((feed initial simple_get).0.request.path ≡ codes "/a")
    × (lookup (codes "q") (feed initial simple_get).0.request.query_params ≡ some (codes "x y!"))
    × ((feed initial simple_get).0.request.version ≡ http_1_1)
unfolding simple_get feed feed_request_line feed_headers headers_round feed_body finalize_headers
    parse_header_line parse_request_line parse_method parse_version parse_query_string query_rounds
    add_pair url_decode hex_pair lookup insert equal find find_crlf is_prefix contains trim_left
    tolower from_chars
simple_get_runs = (refl, refl, refl, refl)

feed_all-joined_example :
    settle (
      feed_all initial
        (codes "GET /a?q=x HT")
        (codes "TP/1.1\r\nContent-Length: 3\r" ∷ codes "\n\r\nab" ∷ codes "c" ∷ []))
    ≡ settle (feed initial (codes "GET /a?q=x HTTP/1.1\r\nContent-Length: 3\r\n\r\nabc"))
feed_all-joined_example =
    feed_all-joined initial (codes "GET /a?q=x HT")
      (codes "TP/1.1\r\nContent-Length: 3\r" ∷ codes "\n\r\nab" ∷ codes "c" ∷ []) initial-IsValid

feed-IsValid_example :
    IsValid (feed initial (codes "POST / HTTP/1.1\r\nContent-Length: 2\r\n\r\nabc")).0
feed-IsValid_example =
    feed-IsValid initial (codes "POST / HTTP/1.1\r\nContent-Length: 2\r\n\r\nabc") initial-IsValid

abbrev at_headers : HttpParser
at_headers = record initial { state = ParseState.headers; buffer = codes "Host: h\r\nA: b\r\n\r\n" }

abbrev message : Message
message = record {
  method = post;
  path = codes "/api/data";
  query = some (codes "q=a+b");
  headers = (codes "host", codes "h") ∷ [];
  body = codes "{}";
}

message-IsPrintable : IsPrintable message
unfolding tolower trim_left
message-IsPrintable = record {
  method = λ e. cc;
  path_words = lacks-Without b' ' (codes "/api/data") refl;
  path_query = lacks-Without b'?' (codes "/api/data") refl;
  path_lines = lacks-Without b'\r' (codes "/api/data") refl;
  query = (lacks-Without b' ' (codes "q=a+b") refl, lacks-Without b'\r' (codes "q=a+b") refl);
  headers = (
    (
      lacks-Without b':' (codes "host") refl,
      lacks-Without b'\r' (codes "host") refl,
      refl,
      lacks-Without b'\r' (codes "h") refl,
      refl,
    ),
    tt,
  );
  body = ground arith;
}

-- The first of two requests, in three pieces.
feed_all-print_request_example : IsRead message (codes "GET ") (
    feed_all initial
      (codes "POST /api/data?q=a+b HT")
      (codes "TP/1.1\r\nhost: h\r\ncontent-length: 2\r\n\r\n{" ∷ codes "}GET " ∷ []))
unfolding to_string print_digits method_to_string
feed_all-print_request_example =
    feed_all-print_request message (codes "GET ") (codes "POST /api/data?q=a+b HT")
      (codes "TP/1.1\r\nhost: h\r\ncontent-length: 2\r\n\r\n{" ∷ codes "}GET " ∷ [])
      message-IsPrintable refl
