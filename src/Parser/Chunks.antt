-- ===== src/Parser/Chunks.antt =====
-- `HttpParser::feed` does not depend on how the stream is cut into chunks.
use native.Mathlib.Nat.{add_assoc, zero-add}
use native.Mathlib.Decide.{dec_lt, ℕ_discrete}
use mathlib.Core.List.{append_assoc}
use http_storm.Common.{
  ◌+◌, ◌-◌, ◌≤◌, ◌<◌, Bytes, ◌++◌, length, length-append, take-append, drop-append, take-append_ge,
  drop-append_ge, ◌≡◌, ◌≢◌, refl, sym, ap, ◌∙◌, arith,
}
use http_storm.Parser.{HttpParser, ParseState, FeedResult, Fed, feed_body, feed, run, append_buffer}
use http_storm.Parser.Framing.{
  HasCounts, absorb, finish, feed_body-empty, feed_body-part, feed_body-rest,
}

-- The count of body bytes is read in the state BODY only: it is left out once the request is complete.
abbrev pub erase_count : ParseState → HttpParser → HttpParser
erase_count ParseState.complete p = record p { body_bytes_read = 0 }
erase_count _ p = p

abbrev pub settle : Fed → Fed
settle (p, r) = (erase_count p.state p, r)

feed-body_state :
    (p : HttpParser) (b : Bytes)
    → p.state ≡ ParseState.body
    → feed p b ≡ feed_body (append_buffer p b)
unfolding feed run
feed-body_state p b e = rw (e, run) refl

feed-complete :
    (p : HttpParser) (b : Bytes)
    → p.state ≡ ParseState.complete
    → feed p b ≡ (append_buffer p b, FeedResult.complete)
unfolding feed run
feed-complete p b e = rw (e, run) refl

-- Three cases: the first chunk ends the body, neither does, or the second one does.
module _ (p : HttpParser) (b : Bytes) (in_body : p.state ≡ ParseState.body) (c : HasCounts p) where
  appended : HasCounts (append_buffer p b)
  appended = record { range = c.range; counted = c.counted }

  body-done :
      p.request.content_length ≢ 0
      → p.request.content_length - p.body_bytes_read ≤ length p.buffer
      → feed (feed_body p).0 b ≡ feed_body (append_buffer p b)
  body-done e h =
      let n = p.request.content_length - p.body_bytes_read in
      ap (λ x. feed x.0 b) (feed_body-rest p c e h)
      ∙ feed-complete (finish n p) b refl
      ∙ rw (← take-append n p.buffer b h, ← drop-append n p.buffer b h)
          (sym (
            feed_body-rest (append_buffer p b) appended e
              (omega (arith, length-append p.buffer b))))

  body-short :
      p.request.content_length ≢ 0
      → length (p.buffer ++ b) < p.request.content_length - p.body_bytes_read
      → feed (feed_body p).0 b ≡ feed_body (append_buffer p b)
  body-short e h =
      ap (λ x. feed x.0 b) (feed_body-part p c e (omega (arith, length-append p.buffer b)))
      ∙ feed-body_state (absorb p) b in_body
      ∙ feed_body-part (append_buffer (absorb p) b)
          (record { range = c.range; counted = omega (arith, length-append p.buffer b) }) e
          (omega (arith, length-append p.buffer b))
      ∙ (simp (append_assoc, length-append, add_assoc, zero-add))
      ∙ sym (feed_body-part (append_buffer p b) appended e h)

  body-later :
      p.request.content_length ≢ 0
      → length p.buffer < p.request.content_length - p.body_bytes_read
      → p.request.content_length - p.body_bytes_read ≤ length (p.buffer ++ b)
      → settle (feed (feed_body p).0 b) ≡ settle (feed_body (append_buffer p b))
  body-later e h k =
      let n = p.request.content_length - p.body_bytes_read in
      let left : p.request.content_length - (p.body_bytes_read + length p.buffer)
          ≡ n - length p.buffer =
        omega arith in
      ap settle (
        ap (λ x. feed x.0 b) (feed_body-part p c e h)
        ∙ feed-body_state (absorb p) b in_body
        ∙ feed_body-rest (append_buffer (absorb p) b)
            (record { range = c.range; counted = omega arith }) e
            (omega (arith, length-append p.buffer b)))
      ∙ (rw
          (
            take-append_ge n p.buffer b (omega arith),
            drop-append_ge n p.buffer b (omega arith),
            append_assoc,
            left,
          )
          refl)
      ∙ ap settle (sym (feed_body-rest (append_buffer p b) appended e k))

  pub body-chunks : settle (feed (feed_body p).0 b) ≡ settle (feed_body (append_buffer p b))
  body-chunks = elim (ℕ_discrete p.request.content_length 0) [
    | yes none_due ↦ ap settle (
        ap (λ x. feed x.0 b) (feed_body-empty p none_due)
        ∙ feed-complete (record p { state = ParseState.complete }) b refl
        ∙ sym (feed_body-empty (append_buffer p b) none_due))
    | no due ↦ elim (dec_lt (length p.buffer) (p.request.content_length - p.body_bytes_read)) [
      | no full ↦ ap settle (body-done due (omega arith))
      | yes part ↦
          elim (dec_lt (length (p.buffer ++ b)) (p.request.content_length - p.body_bytes_read)) [
            | yes short ↦ ap settle (body-short due short)
            | no later ↦ body-later due part (omega arith)
          ]
    ]
  ]
