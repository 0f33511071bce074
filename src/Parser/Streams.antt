-- ===== src/Parser/Streams.antt =====
-- However a stream is cut into chunks, `HttpParser::feed` ends in the same place.
use mathlib.Core.List.{append_assoc}
use http_storm.Common.{
  ℕ, zero, suc, ◌<◌, Bytes, List, [], ◌∷◌, ◌++◌, length, length-append, take, ◌≡◌, refl, sym, ap,
  subst, ◌∙◌, arith, find_crlf, find_crlf-append, none, some, Option,
}
use http_storm.Parser.{
  HttpParser, ParseState, Line, parsed, failed, Fed, fail_line, end_headers, feed_headers, rounds,
  feed_request_line, after_request_line, feed, run, append_buffer, parse_request_line,
  headers_round,
}
use http_storm.Parser.Steps.{
  feed-at, feed-headers, feed-request, feed-error, feed_headers-round, erase_append, line_append,
  settle_eq, extended_empty_line, extended_bad_line, extended_good_line, request_no_line,
  request_bad_line, request_good_line,
}
use http_storm.Parser.Framing.{Framed, IsValid}
use http_storm.Parser.Chunks.{settle, body-chunks}
use http_storm.Parser.Rounds.{
  Head, no_line, empty_line, bad_line, good_line, Head-of, next_line, length-next_line,
  round_no_line, round_empty_line, round_bad_line, round_good_line, feed_headers-fuel,
}
use http_storm.Parser.Validity.{
  BeforeBody, BeforeBody-request, before, end_headers-InBody, header-SameBody, request-SameBody,
  feed-IsValid, append_buffer-IsValid,
}

-- The claim for the header loop, from any parser.
abbrev HeadersAgree : ℕ → ℕ → HttpParser → Bytes → Type 0
HeadersAgree n m p b =
    BeforeBody p
    → p.state ≡ ParseState.headers
    → length p.buffer < n
    → length (p.buffer ++ b) < m
    → settle (feed (feed_headers n p).0 b) ≡ settle (feed_headers m (append_buffer p b))

module _ (n m : ℕ) (p : HttpParser) (b : Bytes) (v : BeforeBody p)
    (e : p.state ≡ ParseState.headers) where
  headers_agree :
      (i j : ℕ)
      → length (p.buffer ++ b) < i
      → length (p.buffer ++ b) < j
      → feed_headers i (append_buffer p b) ≡ feed_headers j (append_buffer p b)
  headers_agree i j h k = feed_headers-fuel i j (append_buffer p b) h k

  headers-step :
      ((q : HttpParser) → HeadersAgree n m q b)
      → length p.buffer < suc n
      → length (p.buffer ++ b) < suc m
      → Head p
      → settle (feed (headers_round (feed_headers n) p).0 b)
        ≡ settle (headers_round (feed_headers m) (append_buffer p b))
  headers-step ih h k (no_line f) =
      ap (λ x. settle (feed x.0 b)) (round_no_line (feed_headers n) p f)
      ∙ settle_eq (feed p b) _ (
          feed-headers p b e
          ∙ headers_agree (rounds (append_buffer p b)) (suc m) (omega arith) k
          ∙ feed_headers-round m (append_buffer p b))
  headers-step ih h k (empty_line f) =
      ap (λ x. settle (feed x.0 b)) (round_empty_line (feed_headers n) p f)
      ∙ body-chunks (end_headers p) b refl (end_headers-InBody p v).counts
      ∙ settle_eq _ _ (sym (extended_empty_line (feed_headers m) p b f))
  headers-step ih h k (bad_line i r message f g) =
      ap (λ x. settle (feed x.0 b)) (round_bad_line (feed_headers n) p i r message f g)
      ∙ settle_eq _ _ (
          feed-error (fail_line p r message).0 b refl
          ∙ sym (extended_bad_line (feed_headers m) p b i r message f g))
  headers-step ih h k (good_line i r f g) =
      ap (λ x. settle (feed x.0 b)) (round_good_line (feed_headers n) p i r f g)
      ∙ ih (next_line i r p)
          (BeforeBody-request p (next_line i r p) v (header-SameBody (suc i) p g) refl) e
          (omega (arith, length-next_line i r p f))
          (omega (
            arith,
            length-next_line i r p f,
            length-append p.buffer b,
            length-append (next_line i r p).buffer b,
          ))
      ∙ settle_eq _ _ (sym (extended_good_line (feed_headers m) p b i r f g))

headers-chunks : (n m : ℕ) (p : HttpParser) (b : Bytes) → HeadersAgree n m p b
headers-chunks zero m p b v e h k = elim h [ ]
headers-chunks (suc n) zero p b v e h k = elim k [ ]
headers-chunks (suc n) (suc m) p b v e h k =
    ap (λ x. settle (feed x.0 b)) (feed_headers-round n p)
    ∙ headers-step n m p b v e (λ q. headers-chunks n m q b) h k (Head-of p)
    ∙ settle_eq _ _ (sym (feed_headers-round m (append_buffer p b)))

module _ (p : HttpParser) (b : Bytes) (v : BeforeBody p)
    (e : p.state ≡ ParseState.request_line) where
  request-line :
      (i : ℕ) (l : Line)
      → find_crlf p.buffer ≡ some i
      → parse_request_line (take i p.buffer) p.request ≡ l
      → parse_request_line (take i (p.buffer ++ b)) p.request ≡ l
      → settle (feed (feed_request_line p).0 b) ≡ settle (feed_request_line (append_buffer p b))
  request-line i (failed r message) f g g' =
      ap (λ x. settle (feed x.0 b)) (request_bad_line p i r message f g)
      ∙ settle_eq _ _ (
          feed-error (fail_line p r message).0 b refl
          ∙ sym
              (request_bad_line (append_buffer p b) i r message (find_crlf-append p.buffer b f) g'))
  request-line i (parsed r) f g g' =
      let q = after_request_line i r p in
      ap (λ x. settle (feed x.0 b)) (request_good_line p i r f g)
      ∙ headers-chunks (rounds q) (rounds (append_buffer q b)) q b
          (BeforeBody-request p q v (request-SameBody i p g) refl) refl (omega arith) (omega arith)
      ∙ settle_eq _ _ (
          ap (λ x. feed_headers (suc (length x)) (record q { buffer = x }))
            (sym (erase_append i p b f))
          ∙ sym (request_good_line (append_buffer p b) i r (find_crlf-append p.buffer b f) g'))

  request-chunks :
      (found : Option ℕ)
      → find_crlf p.buffer ≡ found
      → settle (feed (feed_request_line p).0 b) ≡ settle (feed_request_line (append_buffer p b))
  request-chunks none f =
      ap (λ x. settle (feed x.0 b)) (request_no_line p f) ∙ settle_eq _ _ (feed-request p b e)
  request-chunks (some i) f =
      request-line i _ f refl (ap (λ l. parse_request_line l p.request) (line_append i p b f))

run-chunks :
    (s : ParseState) (p : HttpParser) (b : Bytes)
    → p.state ≡ s
    → IsValid p
    → settle (feed (run s p).0 b) ≡ settle (run s (append_buffer p b))
unfolding run
run-chunks ParseState.request_line p b e v =
    request-chunks p b (before p v (subst (λ s. Framed s p) e v.framed)) e _ refl
run-chunks ParseState.headers p b e v =
    headers-chunks (rounds p) (rounds (append_buffer p b)) p b
      (before p v (subst (λ s. Framed s p) e v.framed)) e (omega arith) (omega arith)
run-chunks ParseState.body p b e v = body-chunks p b e v.counts
run-chunks ParseState.complete p b e v = settle_eq _ _ (feed-at ParseState.complete p b e)
run-chunks ParseState.error p b e v = settle_eq _ _ (feed-error p b e)

-- Two chunks are as good as one.
feed-feed :
    (p : HttpParser) (a b : Bytes)
    → IsValid p
    → settle (feed (feed p a).0 b) ≡ settle (feed p (a ++ b))
feed-feed p a b v =
    ap (λ x. settle (feed x.0 b)) (feed-at p.state p a refl)
    ∙ run-chunks p.state (append_buffer p a) b refl (append_buffer-IsValid p a v)
    ∙ settle_eq _ _ (
        ap (λ x. run p.state (record p { buffer = x })) (append_assoc p.buffer a b)
        ∙ sym (feed-at p.state p (a ++ b) refl))

-- The chunks of a stream, fed one after another, and the stream.
abbrev pub feed_all : HttpParser → Bytes → List Bytes → Fed
feed_all p a [] = feed p a
feed_all p a (b ∷ bs) = feed_all (feed p a).0 b bs

abbrev pub joined : Bytes → List Bytes → Bytes
joined a [] = a
joined a (b ∷ bs) = a ++ joined b bs

-- From a well-formed parser, feeding a stream in any number of chunks, cut anywhere, gives the result of
-- the last chunk, the request, the state, the buffer and the error message that feeding it whole gives;
-- only the count of body bytes may differ, and that once the request is complete, when nothing reads it.
pub feed_all-joined :
    (p : HttpParser) (a : Bytes) (bs : List Bytes)
    → IsValid p
    → settle (feed_all p a bs) ≡ settle (feed p (joined a bs))
feed_all-joined p a [] v = refl
feed_all-joined p a (b ∷ bs) v =
    feed_all-joined (feed p a).0 b bs (feed-IsValid p a v) ∙ feed-feed p a (joined b bs) v
