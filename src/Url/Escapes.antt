-- ===== src/Url/Escapes.antt =====
-- url_decode against a percent-encoder of RFC 3986, and on escapes that are not well formed.
use http_storm.Common.{
  ℕ, ◌+◌, ◌-◌, ◌*◌, ◌/◌, ◌%◌, ◌<◌, Bool, ◌&&◌, ◌||◌, Bytes, [], ◌∷◌, ◌≡◌, ◌≢◌, refl, arith, ap,
  ◌==◌, leb, ltb, if◌then◌else◌, Bool-cases, inl, inr, All, some,
}
use http_storm.Url.{hex_digit, hex_pair, plain, url_decode}

abbrev pub is_unreserved : ℕ → Bool
is_unreserved c =
    (leb b'a' c && leb c b'z')
    || ((leb b'A' c && leb c b'Z')
        || ((leb b'0' c && leb c b'9') || (c == b'-' || (c == b'.' || (c == b'_' || c == b'~')))))

abbrev pub to_hex : ℕ → ℕ
to_hex n = if ltb n 10 then b'0' + n else b'A' + (n - 10)

-- The encoder: an unreserved byte stands for itself, any other is written as an escape.
abbrev pub url_encode : Bytes → Bytes
url_encode [] = []
url_encode (c ∷ cs) =
    if is_unreserved c
    then c ∷ url_encode cs
    else b'%' ∷ to_hex (c / 16) ∷ to_hex (c % 16) ∷ url_encode cs

hex_digit-to_hex : (n : ℕ) → n < 16 → hex_digit (to_hex n) ≡ some n
unfolding hex_digit
hex_digit-to_hex n h = ground arith

to_hex-ne-minus : (n : ℕ) → n < 16 → to_hex n ≢ b'-'
to_hex-ne-minus n h = ground arith

hex_pair-to_hex : (u v : ℕ) → u < 16 → v < 16 → hex_pair (to_hex u) (to_hex v) ≡ some (u * 16 + v)
unfolding hex_pair
hex_pair-to_hex u v h k =
    ground (arith, to_hex-ne-minus u h, hex_digit-to_hex u h, hex_digit-to_hex v k)

-- A byte other than the percent sign is read by itself.
url_decode-plain : (c : ℕ) (cs : Bytes) → c ≢ b'%' → url_decode (c ∷ cs) ≡ plain c ∷ url_decode cs
unfolding url_decode
url_decode-plain c [] h = refl
url_decode-plain c (a ∷ []) h = refl
url_decode-plain c (a ∷ b ∷ cs) h = ground arith

url_decode-escape :
    (a b : ℕ) (cs : Bytes) {v : ℕ}
    → hex_pair a b ≡ some v
    → url_decode (b'%' ∷ a ∷ b ∷ cs) ≡ v ∷ url_decode cs
unfolding url_decode
url_decode-escape a b cs h = ground arith

abbrev pub IsBytes : Bytes → Type 0
IsBytes = All (λ c. c < 256)

-- Decoding gives back every byte string that was percent-encoded.
pub url_decode-url_encode : (s : Bytes) → IsBytes s → url_decode (url_encode s) ≡ s
url_decode-url_encode [] h = unfold url_decode in refl
url_decode-url_encode (c ∷ cs) (h, hs) = elim (Bool-cases (is_unreserved c)) [
  | inl kept ↦
      rw (kept, url_decode-plain c (url_encode cs) (λ e. ground arith), url_decode-url_encode cs hs)
        (ground arith)
  | inr escaped ↦
      rw
        (
          escaped,
          url_decode-escape _ _ (url_encode cs)
              (hex_pair-to_hex (c / 16) (c % 16) (omega arith) (omega arith)),
          url_decode-url_encode cs hs,
        )
        (ap (λ (x : ℕ). x ∷ cs) (omega arith))
]
