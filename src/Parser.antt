-- ===== src/Parser.antt =====
-- HttpParser of HTTP SERVER/HTTP Server/src/http_parser.cpp: the request line, the header lines
-- and the incremental `feed`. A std::size_t wraps at 2 ^ 64.

mod LineParsers
pub mod Rounds
pub mod Chunks
pub mod Framing
pub mod Steps
pub mod Streams
pub mod Validity
pub mod Lines
pub mod Printing
pub mod PrintedLines
pub mod HeaderLoop
pub mod RoundTrip
pub mod CutRoundTrip
mod Tests
use http_storm.Common.{
  ℕ, zero, suc, ◌+◌, ◌-◌, ◌%◌, ◌^◌, Bool, true, false, Bytes, codes, Dict, insert, lookup, length,
  [], ◌∷◌, ◌++◌, ◌==◌, ltb, if◌then◌else◌, Option, none, some, find, find_crlf, take, drop, equal,
  map, tolower, trim_left, contains, from_chars, size_mod,
}
use http_storm.Http.{
  HttpMethod, get, post, put, delete, patch, head, options, HttpVersion, http_1_0, http_1_1,
  http_2_0, HttpRequest, empty_request, same_method,
}
use http_storm.Url.{parse_query_string}
unfoldable pub use LineParsers.*

pub data ParseState : Type 0 where
  request_line headers body complete error : ParseState

pub data FeedResult : Type 0 where
  need_more_data complete error : FeedResult

pub record HttpParser : Type 0 where
  pub request : HttpRequest
  pub state : ParseState
  pub buffer : Bytes
  pub error_message : Bytes
  pub body_bytes_read : ℕ

abbrev pub initial : HttpParser
initial = record {
  request = empty_request;
  state = ParseState.request_line;
  buffer = [];
  error_message = [];
  body_bytes_read = 0;
}

abbrev pub Fed : Type 0
Fed = HttpParser × FeedResult

-- `content_length - body_bytes_read_`, a std::size_t
abbrev pub remaining : HttpParser → ℕ
remaining p = (p.request.content_length + size_mod - p.body_bytes_read) % size_mod

-- `if (state_ == ParseState::BODY)`
unfoldable pub feed_body : HttpParser → Fed
feed_body p =
    if p.request.content_length == 0
    then (record p { state = ParseState.complete }, FeedResult.complete)
    else if ltb (length p.buffer) (remaining p)
    then (
      record p {
        request = record p.request { body = p.request.body ++ p.buffer };
        body_bytes_read = (p.body_bytes_read + length p.buffer) % size_mod;
        buffer = [];
      },
      need_more_data,
    )
    else (
      record p {
        request = record p.request { body = p.request.body ++ take (remaining p) p.buffer };
        buffer = drop (remaining p) p.buffer;
        state = ParseState.complete;
      },
      FeedResult.complete,
    )

-- A failed line leaves its message; the state becomes ERROR and the line stays in the buffer.
abbrev pub fail_line : HttpParser → HttpRequest → Bytes → Fed
fail_line p r message =
    (record p { request = r; error_message = message; state = ParseState.error }, FeedResult.error)

-- `buffer_.erase(0, pos + 2)`
abbrev pub erase_line : ℕ → HttpParser → HttpParser
erase_line pos p = record p { buffer = drop (suc (suc pos)) p.buffer }

-- the end of the headers, at an empty line
abbrev pub end_headers : HttpParser → HttpParser
end_headers p = record (erase_line 0 p) {
  request = finalize_headers p.request;
  state = ParseState.body;
}

-- The body of the `while (true)` of the state HEADERS; `again` is the next round.
unfoldable pub headers_round : (HttpParser → Fed) → HttpParser → Fed
headers_round again p = elim (find_crlf p.buffer) [
  | none ↦ (p, need_more_data)
  | some zero ↦ feed_body (end_headers p)
  | some (suc n) ↦ elim (parse_header_line (take (suc n) p.buffer) p.request) [
    | failed r message ↦ fail_line p r message
    | parsed r ↦ again (record (erase_line (suc n) p) { request = r })
  ]
]

-- The loop. Each round but the last cuts a line off the buffer.
unfoldable pub feed_headers : ℕ → HttpParser → Fed
feed_headers zero p = (p, need_more_data)
feed_headers (suc fuel) p = headers_round (feed_headers fuel) p

-- A buffer of n bytes holds fewer than n + 1 lines.
abbrev pub rounds : HttpParser → ℕ
rounds p = suc (length p.buffer)

abbrev pub after_request_line : ℕ → HttpRequest → HttpParser → HttpParser
after_request_line pos r p = record (erase_line pos p) { request = r; state = ParseState.headers }

unfoldable pub feed_request_line : HttpParser → Fed
feed_request_line p = elim (find_crlf p.buffer) [
  | none ↦ (p, need_more_data)
  | some pos ↦ elim (parse_request_line (take pos p.buffer) p.request) [
    | failed r message ↦ fail_line p r message
    | parsed r ↦ feed_headers (rounds (after_request_line pos r p)) (after_request_line pos r p)
  ]
]

unfoldable pub run : ParseState → HttpParser → Fed
run ParseState.request_line p = feed_request_line p
run ParseState.headers p = feed_headers (rounds p) p
run ParseState.body p = feed_body p
run ParseState.complete p = (p, FeedResult.complete)
run ParseState.error p = (p, FeedResult.error)

abbrev pub append_buffer : HttpParser → Bytes → HttpParser
append_buffer p bytes = record p { buffer = p.buffer ++ bytes }

-- One pass of the outer `while (true)`: every state returns from it.
unfoldable pub feed : HttpParser → Bytes → Fed
unfolding run
feed p bytes = run p.state (append_buffer p bytes)

unfoldable pub reset : HttpParser → HttpParser
reset p = record {
  request = empty_request;
  state = ParseState.request_line;
  buffer = [];
  error_message = [];
  body_bytes_read = 0;
}

abbrev pub is_complete : HttpParser → Bool
is_complete p = elim p.state [ ParseState.complete ↦ true | _ ↦ false ]
