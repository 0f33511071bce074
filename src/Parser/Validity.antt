-- ===== src/Parser/Validity.antt =====
-- `HttpParser::feed` and `reset` keep the parser well-formed.
use http_storm.Common.{
  ℕ, zero, suc, ◌-◌, ◌<◌, Bytes, [], length, length-append, length-take, take, size_mod, ◌≡◌, refl,
  sym, subst, ◌∙◌, inl, inr, ◌⊎◌, arith, find_crlf, none, some, Option,
}
use native.Mathlib.Decide.{dec_lt, ℕ_discrete}
use http_storm.Http.{HttpRequest}
use http_storm.Parser.{
  HttpParser, after_request_line, ParseState, Line, parsed, failed, fail_line, feed_body,
  end_headers, feed_headers, rounds, feed_request_line, initial, feed, run, append_buffer,
  parse_request_line, headers_round, parse_header_line,
}
use http_storm.Parser.Framing.{
  HasCounts, Framed, IsValid, feed_body-empty, feed_body-part, feed_body-rest,
}
use http_storm.Parser.Lines.{
  SameBody, result, parse_request_line-SameBody, parse_header_line-SameBody, finalize_headers-body,
  finalize_headers-lt,
}
use http_storm.Parser.Rounds.{
  Head, no_line, empty_line, bad_line, good_line, Head-of, next_line, round_no_line,
  round_empty_line, round_bad_line, round_good_line,
}

-- A well-formed parser in the state BODY.
pub record InBody (p : HttpParser) : Type 0 where
  pub counts : HasCounts p
  pub framed : length p.request.body ≡ p.body_bytes_read
  pub state : p.state ≡ ParseState.body

feed_body-IsValid : (p : HttpParser) → InBody p → IsValid (feed_body p).0
feed_body-IsValid p v = elim (ℕ_discrete p.request.content_length 0) [
  | yes none_due ↦ rw (feed_body-empty p none_due) (record {
    counts = record { range = v.counts.range; counted = v.counts.counted };
    framed = omega (arith, v.framed, v.counts.counted);
  })
  | no due ↦ elim (dec_lt (length p.buffer) (p.request.content_length - p.body_bytes_read)) [
    | yes part ↦ rw (feed_body-part p v.counts due part) (record {
      counts = record { range = v.counts.range; counted = omega (arith, v.counts.counted) };
      framed = rw v.state (omega (arith, v.framed, length-append p.request.body p.buffer));
    })
    | no full ↦
        let n = p.request.content_length - p.body_bytes_read in
        rw (feed_body-rest p v.counts due (omega arith)) (record {
          counts = record { range = v.counts.range; counted = v.counts.counted };
          framed = omega (
            arith,
            v.framed,
            v.counts.counted,
            length-append p.request.body (take n p.buffer),
            length-take n p.buffer (omega arith),
          );
        })
  ]
]

-- A well-formed parser that has read nothing of the body.
pub record BeforeBody (p : HttpParser) : Type 0 where
  pub range : p.request.content_length < size_mod
  pub no_body : p.request.body ≡ []
  pub unread : p.body_bytes_read ≡ 0

pub BeforeBody-request :
    (p q : HttpParser)
    → BeforeBody p
    → SameBody p.request q.request
    → q.body_bytes_read ≡ p.body_bytes_read
    → BeforeBody q
BeforeBody-request p q v same e = record {
  range = omega (arith, same.content_length, v.range);
  no_body = same.body ∙ v.no_body;
  unread = e ∙ v.unread;
}

pub end_headers-InBody : (p : HttpParser) → BeforeBody p → InBody (end_headers p)
end_headers-InBody p v = record {
  counts = record {
    range = finalize_headers-lt p.request v.range;
    counted = rw v.unread (omega arith);
  };
  framed = rw (finalize_headers-body p.request, v.no_body, v.unread) refl;
  state = refl;
}

fail_line-IsValid :
    (p : HttpParser) (r : HttpRequest) (message : Bytes)
    → BeforeBody p
    → SameBody p.request r
    → IsValid (fail_line p r message).0
fail_line-IsValid p r message v same = record {
  counts = record {
    range = omega (arith, same.content_length, v.range);
    counted = rw v.unread (omega arith);
  };
  framed = tt;
}

pub header-SameBody :
    (i : ℕ) (p : HttpParser) {line : Line}
    → parse_header_line (take i p.buffer) p.request ≡ line
    → SameBody p.request (result line)
header-SameBody i p e =
    subst (λ l. SameBody p.request (result l)) e
      (parse_header_line-SameBody (take i p.buffer) p.request)

pub request-SameBody :
    (i : ℕ) (p : HttpParser) {line : Line}
    → parse_request_line (take i p.buffer) p.request ≡ line
    → SameBody p.request (result line)
request-SameBody i p e =
    subst (λ l. SameBody p.request (result l)) e
      (parse_request_line-SameBody (take i p.buffer) p.request)

-- A parser that waits for the rest of a line.
waiting-IsValid :
    (p : HttpParser)
    → BeforeBody p
    → (p.state ≡ ParseState.request_line) ⊎ (p.state ≡ ParseState.headers)
    → IsValid p
waiting-IsValid p v e = record {
  counts = record { range = v.range; counted = rw v.unread (omega arith) };
  framed = framed e;
}
  where
    framed : (p.state ≡ ParseState.request_line) ⊎ (p.state ≡ ParseState.headers) → Framed p.state p
    framed (inl e) = subst (λ s. Framed s p) (sym e) (v.no_body, v.unread)
    framed (inr e) = subst (λ s. Framed s p) (sym e) (v.no_body, v.unread)

feed_headers-IsValid :
    (n : ℕ) (p : HttpParser)
    → BeforeBody p
    → p.state ≡ ParseState.headers
    → IsValid (feed_headers n p).0
unfolding feed_headers
feed_headers-IsValid zero p v e = waiting-IsValid p v (inr e)
feed_headers-IsValid (suc n) p v e = go (feed_headers-IsValid n) (Head-of p)
  where
    go :
        ((q : HttpParser)
          → BeforeBody q
          → q.state ≡ ParseState.headers
          → IsValid (feed_headers n q).0)
        → Head p
        → IsValid (headers_round (feed_headers n) p).0
    go ih (no_line f) = rw (round_no_line (feed_headers n) p f) (waiting-IsValid p v (inr e))
    go ih (empty_line f) =
        rw (round_empty_line (feed_headers n) p f)
          (feed_body-IsValid (end_headers p) (end_headers-InBody p v))
    go ih (bad_line i r m f g) =
        rw (round_bad_line (feed_headers n) p i r m f g)
          (fail_line-IsValid p r m v (header-SameBody (suc i) p g))
    go ih (good_line i r f g) = rw (round_good_line (feed_headers n) p i r f g) (
        ih (next_line i r p)
          (BeforeBody-request p (next_line i r p) v (header-SameBody (suc i) p g) refl) e)

feed_request_line-IsValid :
    (p : HttpParser)
    → BeforeBody p
    → p.state ≡ ParseState.request_line
    → IsValid (feed_request_line p).0
feed_request_line-IsValid p v e = found (find_crlf p.buffer) refl
  where
    line :
        (i : ℕ) (l : Line)
        → find_crlf p.buffer ≡ some i
        → parse_request_line (take i p.buffer) p.request ≡ l
        → IsValid (feed_request_line p).0
    line i (failed r m) f g =
        unfold feed_request_line in
        rw (f, feed_request_line, g, feed_request_line)
          (fail_line-IsValid p r m v (request-SameBody i p g))
    line i (parsed r) f g =
        unfold feed_request_line in
        rw (f, feed_request_line, g, feed_request_line)
          (feed_headers-IsValid _ (after_request_line i r p)
            (BeforeBody-request p (after_request_line i r p) v (request-SameBody i p g) refl) refl)

    found : (o : Option ℕ) → find_crlf p.buffer ≡ o → IsValid (feed_request_line p).0
    found none f =
        unfold feed_request_line in rw (f, feed_request_line) (waiting-IsValid p v (inl e))
    found (some i) f = line i _ f refl

pub before :
    (p : HttpParser) → IsValid p → (p.request.body ≡ []) × (p.body_bytes_read ≡ 0) → BeforeBody p
before p v (empty, unread) = record { range = v.counts.range; no_body = empty; unread = unread }

pub append_buffer-IsValid : (p : HttpParser) (b : Bytes) → IsValid p → IsValid (append_buffer p b)
append_buffer-IsValid p b v = record {
  counts = record { range = v.counts.range; counted = v.counts.counted };
  framed = same_frame p.state v.framed;
}
  where
    same_frame : (s : ParseState) → Framed s p → Framed s (append_buffer p b)
    same_frame ParseState.request_line h = h
    same_frame _ h = h

run-IsValid : (s : ParseState) (p : HttpParser) → p.state ≡ s → IsValid p → IsValid (run s p).0
unfolding run
run-IsValid ParseState.request_line p e v =
    feed_request_line-IsValid p (before p v (subst (λ s. Framed s p) e v.framed)) e
run-IsValid ParseState.headers p e v =
    feed_headers-IsValid (rounds p) p (before p v (subst (λ s. Framed s p) e v.framed)) e
run-IsValid ParseState.body p e v =
    feed_body-IsValid p
      (record { counts = v.counts; framed = subst (λ s. Framed s p) e v.framed; state = e })
run-IsValid ParseState.complete p e v = v
run-IsValid ParseState.error p e v = v

-- Feeding bytes keeps the parser well-formed: the announced length fits a std::size_t, no more than it
-- is read, the body is as long as the count of bytes read while it arrives, and exactly as long as
-- announced once the request is complete.
pub feed-IsValid : (p : HttpParser) (b : Bytes) → IsValid p → IsValid (feed p b).0
unfolding feed
feed-IsValid p b v = run-IsValid p.state (append_buffer p b) refl (append_buffer-IsValid p b v)

pub initial-IsValid : IsValid initial
initial-IsValid = record {
  counts = record { range = omega arith; counted = omega arith };
  framed = (refl, refl);
}
