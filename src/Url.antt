-- ===== src/Url.antt =====
-- HttpParser::url_decode and HttpParser::parse_query_string of
-- HTTP SERVER/HTTP Server/src/http_parser.cpp. A char is a byte, 0 to 255.
pub mod Escapes
pub mod Query
mod Tests
use http_storm.Common.{
  ℕ, zero, suc, ◌+◌, ◌-◌, ◌*◌, Bool, true, false, ◌&&◌, ◌||◌, Bytes, codes, Dict, insert, length,
  [], ◌∷◌, ◌++◌, ◌≡◌, arith, ◌==◌, leb, if◌then◌else◌, Option, none, some, find, take, drop,
}

-- A digit of base 16, as std::from_chars reads it: of either case.
unfoldable pub hex_digit : ℕ → Option ℕ
hex_digit c =
    if leb b'0' c && leb c b'9'
    then some (c - b'0')
    else if leb b'a' c && leb c b'f'
    then some (c - b'a' + 10)
    else if leb b'A' c && leb c b'F'
    then some (c - b'A' + 10)
    else none

-- `static_cast<char>(-v)` for v < 16
abbrev negated : ℕ → ℕ
negated zero = 0
negated (suc v) = 256 - suc v

-- std::from_chars of the two characters `a b` into an int, in base 16, cast to a char: a minus
-- sign is read, and so is a single digit before a character that is none.
unfoldable pub hex_pair : ℕ → ℕ → Option ℕ
unfolding hex_digit
hex_pair a b =
    if a == b'-'
    then elim (hex_digit b) [ none ↦ none | some v ↦ some (negated v) ]
    else elim (hex_digit a) [
      | none ↦ none
      | some u ↦ elim (hex_digit b) [ none ↦ some u | some v ↦ some (u * 16 + v) ]
    ]

-- A character that opens no escape.
abbrev pub plain : ℕ → ℕ
plain c = if c == b'+' then b' ' else c

unfoldable pub url_decode : Bytes → Bytes
url_decode [] = []
url_decode (c ∷ []) = plain c ∷ []
url_decode (c ∷ a ∷ []) = plain c ∷ plain a ∷ []
url_decode (c ∷ a ∷ b ∷ rest) = elim (if c == b'%' then hex_pair a b else none) [
  | some v ↦ v ∷ url_decode rest
  | none ↦ plain c ∷ url_decode (a ∷ b ∷ rest)
]

-- One `key=value` between two `&`.
unfoldable pub add_pair : Bytes → Dict Bytes → Dict Bytes
add_pair pair params = elim (find b'=' pair) [
  | some eq_pos ↦
      insert (url_decode (take eq_pos pair)) (url_decode (drop (suc eq_pos) pair)) params
  | none ↦ elim pair [ [] ↦ params | c ∷ cs ↦ insert (c ∷ cs) [] params ]
]

-- The loop over the query; each round cuts at least one byte off `remaining`.
unfoldable pub query_rounds : ℕ → Bytes → Dict Bytes → Dict Bytes
query_rounds zero remaining params = params
query_rounds (suc fuel) [] params = params
query_rounds (suc fuel) (c ∷ cs) params = elim (find b'&' (c ∷ cs)) [
  | none ↦ add_pair (c ∷ cs) params
  | some amp_pos ↦
      query_rounds fuel (drop (suc amp_pos) (c ∷ cs)) (add_pair (take amp_pos (c ∷ cs)) params)
]

unfoldable pub parse_query_string : Bytes → Dict Bytes → Dict Bytes
unfolding query_rounds
parse_query_string query params = query_rounds (length query) query params
