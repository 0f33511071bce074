-- ===== src/Parser/HeaderLoop.antt =====
-- What the request line and the header loop of `HttpParser::feed` make of printed lines.
use http_storm.Common.{
  ℕ, suc, Bytes, Dict, insert, [], ◌∷◌, ◌++◌, length, take, drop, find_crlf, Without,
  find_crlf-append_crlf, take-length-append, drop_past_two, All, some, ◌≡◌, ◌≢◌, refl, sym, ap, ◌∙◌,
}
use http_storm.Http.{HttpRequest}
use http_storm.Parser.{
  HttpParser, ParseState, Fed, parsed, parse_request_line, parse_header_line, finalize_headers,
  feed_body, feed_headers, feed_request_line, after_request_line, rounds,
}
use http_storm.Parser.Rounds.{round_empty_line, round_good_line, feed_headers_lem}
use http_storm.Parser.Printing.{print_header, print_headers, IsHeader}
use http_storm.Parser.PrintedLines.{parse_header_line-print, print_header-Without}

-- the loop with the rounds that `feed` allows it
abbrev pub loop : HttpParser → Fed
loop p = feed_headers (rounds p) p

length-suc : (line : Bytes) → line ≢ [] → (k : ℕ) × (length line ≡ suc k)
length-suc [] h = absurd (h refl)
length-suc (x ∷ xs) h = (length xs, refl)

-- A header line at the head of the buffer is taken off.
loop-line :
    (p : HttpParser) (line rest : Bytes) (r : HttpRequest)
    → line ≢ []
    → Without b'\r' line
    → p.buffer ≡ line ++ b'\r' ∷ b'\n' ∷ rest
    → parse_header_line line p.request ≡ parsed r
    → loop p ≡ loop (record p { buffer = rest; request = r })
loop-line p line rest r some_bytes clean e h =
    let (k, size) = length-suc line some_bytes in
    let found : find_crlf p.buffer ≡ some (suc k) =
      ap find_crlf e ∙ find_crlf-append_crlf line rest clean ∙ ap some size in
    let cut : take (suc k) p.buffer ≡ line =
      ap (λ n. take n p.buffer) (sym size)
      ∙ ap (take (length line)) e
      ∙ take-length-append line (b'\r' ∷ b'\n' ∷ rest) in
    let left : drop (suc (suc (suc k))) p.buffer ≡ rest =
      ap (λ n. drop (suc (suc n)) p.buffer) (sym size)
      ∙ ap (drop (suc (suc (length line)))) e
      ∙ drop_past_two line rest b'\r' b'\n' in
    feed_headers_lem p
    ∙ round_good_line (λ q. loop q) p k r found (ap (λ t. parse_header_line t p.request) cut ∙ h)
    ∙ ap (λ t. loop (record p { buffer = t; request = r })) left

feed_request_line-found :
    (p : HttpParser) (pos : ℕ) (r : HttpRequest)
    → find_crlf p.buffer ≡ some pos
    → parse_request_line (take pos p.buffer) p.request ≡ parsed r
    → feed_request_line p ≡ loop (after_request_line pos r p)
unfolding feed_request_line
feed_request_line-found p pos r e f = rw (e, feed_request_line, f, feed_request_line) refl

-- `headers[name] = value` for one line after the other
abbrev pub insert_all : Dict Bytes → Dict Bytes → Dict Bytes
insert_all [] m = m
insert_all ((name, value) ∷ headers) m = insert_all headers (insert name value m)

print_header-ne-nil : (name value : Bytes) → print_header name value ≢ []
print_header-ne-nil [] value e = cc
print_header-ne-nil (c ∷ name) value e = cc

pub loop-headers :
    (headers : Dict Bytes) (rest : Bytes) (p : HttpParser)
    → All IsHeader headers
    → p.buffer ≡ print_headers headers rest
    → loop p
      ≡ loop (record p {
        buffer = rest;
        request = record p.request { headers = insert_all headers p.request.headers };
      })
loop-headers [] rest p h e = ap (λ t. loop (record p { buffer = t })) e
loop-headers ((name, value) ∷ headers) rest p (h, hs) e =
    let r : HttpRequest = record p.request { headers = insert name value p.request.headers } in
    let next : HttpParser = record p { buffer = print_headers headers rest; request = r } in
    loop-line p (print_header name value) (print_headers headers rest) r
      (print_header-ne-nil name value) (print_header-Without name value h) e
      (parse_header_line-print name value p.request h)
    ∙ loop-headers headers rest next hs refl

pub loop-end :
    (p : HttpParser) (rest : Bytes)
    → p.buffer ≡ b'\r' ∷ b'\n' ∷ rest
    → loop p
      ≡ feed_body (record p {
        buffer = rest;
        request = finalize_headers p.request;
        state = ParseState.body;
      })
unfolding find_crlf
loop-end p rest e =
    feed_headers_lem p
    ∙ round_empty_line (λ q. loop q) p (ap find_crlf e)
    ∙ ap
        (λ t. feed_body (record p {
          buffer = drop 2 t;
          request = finalize_headers p.request;
          state = ParseState.body;
        }))
        e

pub feed_request_line-parsed :
    (p : HttpParser) (line rest : Bytes) (r : HttpRequest)
    → Without b'\r' line
    → p.buffer ≡ line ++ b'\r' ∷ b'\n' ∷ rest
    → parse_request_line line p.request ≡ parsed r
    → feed_request_line p
      ≡ loop (record p { buffer = rest; request = r; state = ParseState.headers })
feed_request_line-parsed p line rest r clean e h =
    let found : find_crlf p.buffer ≡ some (length line) =
      ap find_crlf e ∙ find_crlf-append_crlf line rest clean in
    let cut : take (length line) p.buffer ≡ line =
      ap (take (length line)) e ∙ take-length-append line (b'\r' ∷ b'\n' ∷ rest) in
    let left : drop (suc (suc (length line))) p.buffer ≡ rest =
      ap (drop (suc (suc (length line)))) e ∙ drop_past_two line rest b'\r' b'\n' in
    feed_request_line-found p (length line) r found
      (ap (λ t. parse_request_line t p.request) cut ∙ h)
    ∙ ap (λ t. loop (record p { buffer = t; request = r; state = ParseState.headers })) left
