-- ===== src/Parser/Framing.antt =====
-- The body stage: how many bytes it takes, and the well-formedness of a parser.
use http_storm.Common.{
  ℕ, ◌+◌, ◌-◌, ◌≤◌, ◌<◌, [], ◌++◌, length, take, drop, size_mod, ◌≡◌, ◌≢◌, arith,
}
use http_storm.Parser.{HttpParser, ParseState, FeedResult, need_more_data, remaining, feed_body}

-- The counts of a parser: no more of the body is read than was announced.
pub record HasCounts (p : HttpParser) : Type 0 where
  pub range : p.request.content_length < size_mod
  pub counted : p.body_bytes_read ≤ p.request.content_length

-- What the state says of the bytes read so far.
abbrev pub Framed : ParseState → HttpParser → Type 0
Framed ParseState.request_line p = (p.request.body ≡ []) × (p.body_bytes_read ≡ 0)
Framed ParseState.headers p = (p.request.body ≡ []) × (p.body_bytes_read ≡ 0)
Framed ParseState.body p = length p.request.body ≡ p.body_bytes_read
Framed ParseState.complete p = length p.request.body ≡ p.request.content_length
Framed ParseState.error p = Unit

pub record IsValid (p : HttpParser) : Type 0 where
  pub counts : HasCounts p
  pub framed : Framed p.state p

pub remaining_lem :
    (p : HttpParser) → HasCounts p → remaining p ≡ p.request.content_length - p.body_bytes_read
remaining_lem p c = omega arith

-- the parser when the whole buffer belongs to the body
abbrev pub absorb : HttpParser → HttpParser
absorb p = record p {
  request = record p.request { body = p.request.body ++ p.buffer };
  body_bytes_read = p.body_bytes_read + length p.buffer;
  buffer = [];
}

-- the parser when the first n bytes of the buffer end the body
abbrev pub finish : ℕ → HttpParser → HttpParser
finish n p = record p {
  request = record p.request { body = p.request.body ++ take n p.buffer };
  buffer = drop n p.buffer;
  state = ParseState.complete;
}

module _ (p : HttpParser) where
  pub feed_body-empty :
      p.request.content_length ≡ 0
      → feed_body p ≡ (record p { state = ParseState.complete }, FeedResult.complete)
  unfolding feed_body
  feed_body-empty e = ground arith

  pub feed_body-part :
      HasCounts p
      → p.request.content_length ≢ 0
      → length p.buffer < p.request.content_length - p.body_bytes_read
      → feed_body p ≡ (absorb p, need_more_data)
  unfolding feed_body
  feed_body-part c e h = ground (arith, remaining_lem p c)

  pub feed_body-rest :
      HasCounts p
      → p.request.content_length ≢ 0
      → p.request.content_length - p.body_bytes_read ≤ length p.buffer
      → feed_body p ≡ (finish (p.request.content_length - p.body_bytes_read) p, FeedResult.complete)
  unfolding feed_body
  feed_body-rest c e h = ground (arith, remaining_lem p c)
