-- ===== src/Parser/Steps.antt =====
-- One call of `feed`, by the state it starts in, and lines in a buffer that has been extended.
use http_storm.Common.{
  ℕ, suc, Bytes, ◌++◌, take, drop, take-append, drop-append, ◌≡◌, refl, ap, ◌∙◌, arith, find_crlf,
  find_crlf-le, find_crlf-append, none, some,
}
use http_storm.Http.{HttpRequest}
use http_storm.Parser.{
  HttpParser, ParseState, FeedResult, need_more_data, Line, parsed, failed, Fed, fail_line,
  feed_body, end_headers, feed_headers, rounds, feed_request_line, after_request_line, feed, run,
  append_buffer, parse_request_line, parse_header_line, headers_round,
}
use http_storm.Parser.Chunks.{settle}
use http_storm.Parser.Rounds.{next_line, round_empty_line, round_bad_line, round_good_line}

pub feed-at :
    (s : ParseState) (p : HttpParser) (b : Bytes)
    → p.state ≡ s
    → feed p b ≡ run s (append_buffer p b)
unfolding feed
feed-at s p b e = ap (λ t. run t (append_buffer p b)) e

pub feed-headers :
    (p : HttpParser) (b : Bytes)
    → p.state ≡ ParseState.headers
    → feed p b ≡ feed_headers (rounds (append_buffer p b)) (append_buffer p b)
unfolding run
feed-headers p b e = feed-at ParseState.headers p b e

pub feed-request :
    (p : HttpParser) (b : Bytes)
    → p.state ≡ ParseState.request_line
    → feed p b ≡ feed_request_line (append_buffer p b)
unfolding run
feed-request p b e = feed-at ParseState.request_line p b e

pub feed-error :
    (p : HttpParser) (b : Bytes)
    → p.state ≡ ParseState.error
    → feed p b ≡ (append_buffer p b, FeedResult.error)
unfolding run
feed-error p b e = feed-at ParseState.error p b e

pub feed_headers-round :
    (m : ℕ) (p : HttpParser) → feed_headers (suc m) p ≡ headers_round (feed_headers m) p
unfolding feed_headers
feed_headers-round m p = refl

pub erase_append :
    (i : ℕ) (p : HttpParser) (b : Bytes)
    → find_crlf p.buffer ≡ some i
    → drop (suc (suc i)) (p.buffer ++ b) ≡ drop (suc (suc i)) p.buffer ++ b
erase_append i p b f = drop-append (suc (suc i)) p.buffer b (omega (arith, find_crlf-le p.buffer f))

pub line_append :
    (i : ℕ) (p : HttpParser) (b : Bytes)
    → find_crlf p.buffer ≡ some i
    → take i (p.buffer ++ b) ≡ take i p.buffer
line_append i p b f = take-append i p.buffer b (omega (arith, find_crlf-le p.buffer f))

pub settle_eq : (x y : Fed) → x ≡ y → settle x ≡ settle y
settle_eq x y e = ap settle e

-- A round on a buffer that has been extended.
module _ (again : HttpParser → Fed) (p : HttpParser) (b : Bytes) where
  pub extended_empty_line :
      find_crlf p.buffer ≡ some 0
      → headers_round again (append_buffer p b) ≡ feed_body (append_buffer (end_headers p) b)
  extended_empty_line f =
      round_empty_line again (append_buffer p b) (find_crlf-append p.buffer b f)
      ∙ ap (λ x. feed_body (record (end_headers p) { buffer = x })) (erase_append 0 p b f)

  pub extended_line :
      (i : ℕ) {line : Line}
      → find_crlf p.buffer ≡ some i
      → parse_header_line (take i p.buffer) p.request ≡ line
      → parse_header_line (take i (p.buffer ++ b)) p.request ≡ line
  extended_line i f g = ap (λ l. parse_header_line l p.request) (line_append i p b f) ∙ g

  pub extended_bad_line :
      (i : ℕ) (r : HttpRequest) (message : Bytes)
      → find_crlf p.buffer ≡ some (suc i)
      → parse_header_line (take (suc i) p.buffer) p.request ≡ failed r message
      → headers_round again (append_buffer p b) ≡ fail_line (append_buffer p b) r message
  extended_bad_line i r message f g =
      round_bad_line again (append_buffer p b) i r message (find_crlf-append p.buffer b f)
        (extended_line (suc i) f g)

  pub extended_good_line :
      (i : ℕ) (r : HttpRequest)
      → find_crlf p.buffer ≡ some (suc i)
      → parse_header_line (take (suc i) p.buffer) p.request ≡ parsed r
      → headers_round again (append_buffer p b) ≡ again (append_buffer (next_line i r p) b)
  extended_good_line i r f g =
      round_good_line again (append_buffer p b) i r (find_crlf-append p.buffer b f)
        (extended_line (suc i) f g)
      ∙ ap (λ x. again (record (next_line i r p) { buffer = x })) (erase_append (suc i) p b f)

-- What `feed` does in the state REQUEST_LINE, for each line at the head of the buffer.
module _ (p : HttpParser) where
  pub request_no_line : find_crlf p.buffer ≡ none → feed_request_line p ≡ (p, need_more_data)
  unfolding feed_request_line
  request_no_line f = rw (f, feed_request_line) refl

  pub request_bad_line :
      (i : ℕ) (r : HttpRequest) (message : Bytes)
      → find_crlf p.buffer ≡ some i
      → parse_request_line (take i p.buffer) p.request ≡ failed r message
      → feed_request_line p ≡ fail_line p r message
  unfolding feed_request_line
  request_bad_line i r message f g = rw (f, feed_request_line, g, feed_request_line) refl

  pub request_good_line :
      (i : ℕ) (r : HttpRequest)
      → find_crlf p.buffer ≡ some i
      → parse_request_line (take i p.buffer) p.request ≡ parsed r
      → feed_request_line p
        ≡ feed_headers (rounds (after_request_line i r p)) (after_request_line i r p)
  unfolding feed_request_line
  request_good_line i r f g = rw (f, feed_request_line, g, feed_request_line) refl
