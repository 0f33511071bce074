-- ===== src/Connection/Client.antt =====
-- A reader of responses, as a client that keeps its connection open has it: it knows where a response
-- ends by the Content-Length alone. It is an independent description of what `HttpResponse::serialize`
-- writes, and models no code.
use http_storm.Common.{
  ℕ, zero, suc, Bytes, codes, Dict, lookup, length, take, drop, List, [], ◌∷◌, is_empty, ltb,
  if◌then◌else◌, Option, none, some, cut_line, cut_at, trim_left, from_chars,
}

infixl 10 ◌>>=◌
abbrev pub ◌>>=◌ : {A B : Type 0} → Option A → (A → Option B) → Option B
o >>= f = elim o [ none ↦ none | some a ↦ f a ]

pub record Reply : Type 0 where
  pub status_code : ℕ
  pub status_message : Bytes
  pub headers : Dict Bytes
  pub body : Bytes

-- header lines up to the empty one; each takes a byte at least, so that as much fuel as bytes is enough
unfoldable pub read_fields : ℕ → Bytes → Option (Dict Bytes × Bytes)
read_fields zero bytes = none
read_fields (suc fuel) bytes = do
  (line, rest) ← cut_line bytes
  if is_empty line then some ([], rest) else do
    (name, value) ← cut_at b':' line
    (fields, behind) ← read_fields fuel rest
    some ((name, trim_left value) ∷ fields, behind)

unfoldable pub read_body : ℕ → Bytes → Dict Bytes → Bytes → Option (Reply × Bytes)
read_body status_code status_message headers bytes = do
  text ← lookup (codes "Content-Length") headers
  size ← from_chars text
  if ltb (length bytes) size
      then none
      else some (
        record {
          status_code = status_code;
          status_message = status_message;
          headers = headers;
          body = take size bytes;
        },
        drop size bytes,
      )

-- One response, and the bytes behind it.
unfoldable pub read_reply : Bytes → Option (Reply × Bytes)
read_reply bytes = do
  (line, rest) ← cut_line bytes
  (version, status) ← cut_at b' ' line
  (code, message) ← cut_at b' ' status
  status_code ← from_chars code
  (headers, behind) ← read_fields (length rest) rest
  read_body status_code message headers behind

-- The given number of responses, with no byte left.
unfoldable pub read_replies : ℕ → Bytes → Option (List Reply)
read_replies zero bytes = if is_empty bytes then some [] else none
read_replies (suc n) bytes = do
  (reply, rest) ← read_reply bytes
  replies ← read_replies n rest
  some (reply ∷ replies)
