-- ===== src/Parser/Lines.antt =====
-- What the line parsers leave alone.
use http_storm.Common.{◌<◌, Bytes, from_chars_lt, size_mod, ◌≡◌, arith}
use http_storm.Http.{HttpRequest}
use http_storm.Parser.{
  Line, parsed, failed, set_target, parse_target, parse_request_line, parse_header_line,
  finalize_headers,
}

-- The fields that no line before the end of the headers touches.
pub record SameBody (r s : HttpRequest) : Type 0 where
  pub body : s.body ≡ r.body
  pub content_length : s.content_length ≡ r.content_length

abbrev pub result : Line → HttpRequest
result (parsed s) = s
result (failed s message) = s

set_target-SameBody : (full : Bytes) (r : HttpRequest) → SameBody r (set_target full r)
unfolding set_target
set_target-SameBody full r = ground arith

parse_target-SameBody : (rest : Bytes) (r : HttpRequest) → SameBody r (result (parse_target rest r))
unfolding parse_target
parse_target-SameBody rest r = ground arith

pub parse_request_line-SameBody :
    (line : Bytes) (r : HttpRequest) → SameBody r (result (parse_request_line line r))
unfolding parse_request_line
parse_request_line-SameBody line r = ground arith

pub parse_header_line-SameBody :
    (line : Bytes) (r : HttpRequest) → SameBody r (result (parse_header_line line r))
unfolding parse_header_line
parse_header_line-SameBody line r = ground arith

-- The end of the headers keeps the body, and announces a length that a std::size_t can hold.
pub finalize_headers-body : (r : HttpRequest) → (finalize_headers r).body ≡ r.body
unfolding finalize_headers
finalize_headers-body r = ground arith

pub finalize_headers-lt :
    (r : HttpRequest) → r.content_length < size_mod → (finalize_headers r).content_length < size_mod
unfolding finalize_headers
finalize_headers-lt r h = grind (arith, from_chars_lt)
