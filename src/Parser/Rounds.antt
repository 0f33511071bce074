-- ===== src/Parser/Rounds.antt =====
-- The header loop of `HttpParser::feed`, round by round.
use http_storm.Common.{
  ℕ, zero, suc, ◌+◌, ◌≤◌, ◌<◌, Bytes, length, length-drop, take, find_crlf, find_crlf-le, Option,
  none, some, ◌≡◌, refl, sym, ◌∙◌, arith,
}
use http_storm.Http.{HttpRequest}
use http_storm.Parser.{
  HttpParser, Line, parsed, failed, Fed, parse_header_line, erase_line, headers_round, feed_headers,
  rounds, need_more_data, feed_body, end_headers, fail_line,
}

-- What stands at the head of the buffer.
pub data Head (p : HttpParser) : Type 0 where
  no_line : find_crlf p.buffer ≡ none → Head p
  empty_line : find_crlf p.buffer ≡ some 0 → Head p
  bad_line :
      (n : ℕ) (r : HttpRequest) (message : Bytes)
      → find_crlf p.buffer ≡ some (suc n)
      → parse_header_line (take (suc n) p.buffer) p.request ≡ failed r message
      → Head p
  good_line :
      (n : ℕ) (r : HttpRequest)
      → find_crlf p.buffer ≡ some (suc n)
      → parse_header_line (take (suc n) p.buffer) p.request ≡ parsed r
      → Head p

Head-line :
    (p : HttpParser) (n : ℕ) (line : Line)
    → find_crlf p.buffer ≡ some (suc n)
    → parse_header_line (take (suc n) p.buffer) p.request ≡ line
    → Head p
Head-line p n (parsed r) e h = good_line n r e h
Head-line p n (failed r message) e h = bad_line n r message e h

Head-at : (p : HttpParser) (found : Option ℕ) → find_crlf p.buffer ≡ found → Head p
Head-at p none e = no_line e
Head-at p (some zero) e = empty_line e
Head-at p (some (suc n)) e = Head-line p n _ e refl

pub Head-of : (p : HttpParser) → Head p
Head-of p = Head-at p _ refl

-- the parser after a header line of n + 1 bytes
abbrev pub next_line : ℕ → HttpRequest → HttpParser → HttpParser
next_line n r p = record (erase_line (suc n) p) { request = r }

pub length-next_line :
    (n : ℕ) (r : HttpRequest) (p : HttpParser)
    → find_crlf p.buffer ≡ some (suc n)
    → length (next_line n r p).buffer + 3 ≤ length p.buffer
length-next_line n r p e =
    omega (arith, find_crlf-le p.buffer e, length-drop (suc (suc (suc n))) p.buffer)

-- What a round does at each head, for any next round.
module _ (again : HttpParser → Fed) (p : HttpParser) where
  pub round_no_line : find_crlf p.buffer ≡ none → headers_round again p ≡ (p, need_more_data)
  unfolding headers_round
  round_no_line e = rw (e, headers_round) refl

  pub round_empty_line :
      find_crlf p.buffer ≡ some 0 → headers_round again p ≡ feed_body (end_headers p)
  unfolding headers_round
  round_empty_line e = rw (e, headers_round) refl

  pub round_bad_line :
      (n : ℕ) (r : HttpRequest) (message : Bytes)
      → find_crlf p.buffer ≡ some (suc n)
      → parse_header_line (take (suc n) p.buffer) p.request ≡ failed r message
      → headers_round again p ≡ fail_line p r message
  unfolding headers_round
  round_bad_line n r message e f = rw (e, headers_round, f, headers_round) refl

  pub round_good_line :
      (n : ℕ) (r : HttpRequest)
      → find_crlf p.buffer ≡ some (suc n)
      → parse_header_line (take (suc n) p.buffer) p.request ≡ parsed r
      → headers_round again p ≡ again (next_line n r p)
  unfolding headers_round
  round_good_line n r e f = rw (e, headers_round, f, headers_round) refl

-- Two rounds agree if what follows a good line does.
round-cong :
    (again again' : HttpParser → Fed) (p : HttpParser)
    → ((n : ℕ) (r : HttpRequest)
        → find_crlf p.buffer ≡ some (suc n)
        → again (next_line n r p) ≡ again' (next_line n r p))
    → headers_round again p ≡ headers_round again' p
round-cong again again' p same = go (Head-of p)
  where
    go : Head p → headers_round again p ≡ headers_round again' p
    go (no_line e) = round_no_line again p e ∙ sym (round_no_line again' p e)
    go (empty_line e) = round_empty_line again p e ∙ sym (round_empty_line again' p e)
    go (bad_line n r m e f) =
        round_bad_line again p n r m e f ∙ sym (round_bad_line again' p n r m e f)
    go (good_line n r e f) =
        round_good_line again p n r e f ∙ same n r e ∙ sym (round_good_line again' p n r e f)

-- Fuel above the length of the buffer makes no difference.
pub feed_headers-fuel :
    (m n : ℕ) (p : HttpParser)
    → length p.buffer < m
    → length p.buffer < n
    → feed_headers m p ≡ feed_headers n p
unfolding feed_headers
feed_headers-fuel zero n p h k = elim h [ ]
feed_headers-fuel (suc m) zero p h k = elim k [ ]
feed_headers-fuel (suc m) (suc n) p h k = round-cong (feed_headers m) (feed_headers n) p λ i r e.
    feed_headers-fuel m n (next_line i r p) (omega (arith, length-next_line i r p e))
      (omega (arith, length-next_line i r p e))

-- The header loop never runs out of rounds: with the rounds that `feed` allows it, it does one round
-- and then what the loop does from the parser that the round leaves, as `while (true)` does.
pub feed_headers_lem :
    (p : HttpParser) → feed_headers (rounds p) p ≡ headers_round (λ q. feed_headers (rounds q) q) p
unfolding feed_headers
feed_headers_lem p =
    round-cong (feed_headers (length p.buffer)) (λ q. feed_headers (rounds q) q) p
      λ n r e.
        feed_headers-fuel _ (rounds (next_line n r p)) (next_line n r p)
          (omega (arith, length-next_line n r p e)) (omega arith)
