-- ===== src/Url/Query.antt =====
-- parse_query_string against a printer of query strings.
use http_storm.Common.{
  ℕ, zero, suc, ◌≤◌, Bytes, Dict, insert, List, [], ◌∷◌, ◌++◌, ◌≡◌, ◌≢◌, refl, sym, arith, ap,
  length, length-append, false, Bool-cases, inl, inr, All, Without, All-append, find-Without,
  find-append_cons, take-length-append, drop_past, ◌∙◌,
}
use http_storm.Url.{add_pair, query_rounds, parse_query_string}
use http_storm.Url.Escapes.{is_unreserved, url_encode, IsBytes, url_decode-url_encode}

-- `key=value` pairs, percent-encoded and joined by `&`.
abbrev pub format_pair : Bytes × Bytes → Bytes
format_pair (key, value) = url_encode key ++ b'=' ∷ url_encode value

abbrev pub format_query : List (Bytes × Bytes) → Bytes
format_query [] = []
format_query (p ∷ []) = format_pair p
format_query (p ∷ q ∷ ps) = format_pair p ++ b'&' ∷ format_query (q ∷ ps)

abbrev pub insert_all : List (Bytes × Bytes) → Dict Bytes → Dict Bytes
insert_all [] params = params
insert_all ((key, value) ∷ ps) params = insert_all ps (insert key value params)

abbrev pub IsBytesPair : Bytes × Bytes → Type 0
IsBytesPair (key, value) = IsBytes key × IsBytes value

-- The encoder writes unreserved bytes and escapes only.
url_encode-Without :
    (c : ℕ) (s : Bytes) → is_unreserved c ≡ false → c ≢ b'%' → IsBytes s → Without c (url_encode s)
url_encode-Without c [] h k b = tt
url_encode-Without c (x ∷ xs) h k (b, bs) = elim (Bool-cases (is_unreserved x)) [
  | inl kept ↦ rw kept ((λ e. ground arith), url_encode-Without c xs h k bs)
  | inr escaped ↦ rw escaped (
    (λ e. k (sym e)),
    ((λ e. ground arith), ((λ e. ground arith), url_encode-Without c xs h k bs)),
  )
]

format_pair-Without_amp : (p : Bytes × Bytes) → IsBytesPair p → Without b'&' (format_pair p)
format_pair-Without_amp (key, value) (hk, hv) =
    All-append _ (url_encode key) _ (url_encode-Without b'&' key refl (omega arith) hk)
      ((omega arith), url_encode-Without b'&' value refl (omega arith) hv)

add_pair-format :
    (key value : Bytes) (params : Dict Bytes)
    → IsBytesPair (key, value)
    → add_pair (format_pair (key, value)) params ≡ insert key value params
unfolding add_pair
add_pair-format key value params (hk, hv) =
    rw
      (
        find-append_cons b'=' (url_encode key) (url_encode value)
            (url_encode-Without b'=' key refl (omega arith) hk),
        add_pair,
        take-length-append (url_encode key) (b'=' ∷ url_encode value),
        drop_past (url_encode key) (url_encode value) b'=',
        url_decode-url_encode key hk,
        url_decode-url_encode value hv,
      )
      refl

format_pair-ne-nil : (p : Bytes × Bytes) → format_pair p ≢ []
format_pair-ne-nil (key, value) e = go (url_encode key) e
  where
    go : (xs : Bytes) → xs ++ b'=' ∷ url_encode value ≡ [] → ⊥
    go [] e = cc
    go (x ∷ xs) e = cc

query_rounds-last :
    (fuel : ℕ) (pair : Bytes) (params : Dict Bytes)
    → pair ≢ []
    → Without b'&' pair
    → query_rounds (suc fuel) pair params ≡ add_pair pair params
query_rounds-last fuel [] params h k = absurd (h refl)
query_rounds-last fuel (c ∷ cs) params h k =
    unfold query_rounds in rw (find-Without b'&' (c ∷ cs) k, query_rounds) refl

query_rounds-next :
    (fuel : ℕ) (pair rest : Bytes) (params : Dict Bytes)
    → Without b'&' pair
    → query_rounds (suc fuel) (pair ++ b'&' ∷ rest) params
      ≡ query_rounds fuel rest (add_pair pair params)
query_rounds-next fuel [] rest params h =
    unfold query_rounds in rw (find-append_cons b'&' [] rest h, query_rounds) refl
query_rounds-next fuel (c ∷ cs) rest params h =
    unfold query_rounds in
    rw
      (
        find-append_cons b'&' (c ∷ cs) rest h,
        query_rounds,
        take-length-append (c ∷ cs) (b'&' ∷ rest),
        drop_past (c ∷ cs) rest b'&',
      )
      refl

length-le_zero : (xs : Bytes) → length xs ≤ 0 → xs ≡ []
length-le_zero [] h = refl
length-le_zero (x ∷ xs) h = elim h [ ]

query_rounds-format :
    (fuel : ℕ) (ps : List (Bytes × Bytes)) (params : Dict Bytes)
    → All IsBytesPair ps
    → length (format_query ps) ≤ fuel
    → query_rounds fuel (format_query ps) params ≡ insert_all ps params
query_rounds-format zero [] params h le = unfold query_rounds in refl
query_rounds-format (suc fuel) [] params h le = unfold query_rounds in refl
query_rounds-format zero (p ∷ []) params h le = absurd (format_pair-ne-nil p (length-le_zero _ le))
query_rounds-format (suc fuel) (p ∷ []) params (h, _) le =
    query_rounds-last fuel (format_pair p) params (format_pair-ne-nil p)
      (format_pair-Without_amp p h)
    ∙ add_pair-format p.0 p.1 params h
query_rounds-format zero (p ∷ q ∷ ps) params h le =
    absurd (omega (arith, length-append (format_pair p) (b'&' ∷ format_query (q ∷ ps))))
query_rounds-format (suc fuel) (p ∷ q ∷ ps) params (h, hs) le =
    query_rounds-next fuel (format_pair p) (format_query (q ∷ ps)) params
      (format_pair-Without_amp p h)
    ∙ ap (query_rounds fuel (format_query (q ∷ ps))) (add_pair-format p.0 p.1 params h)
    ∙ query_rounds-format fuel (q ∷ ps) (insert p.0 p.1 params) hs
        (omega (arith, length-append (format_pair p) (b'&' ∷ format_query (q ∷ ps))))

-- Whatever pairs of byte strings are percent-encoded and printed into a query string, the parser enters
-- them decoded, in their order.
pub parse_query_string-format_query :
    (ps : List (Bytes × Bytes)) (params : Dict Bytes)
    → All IsBytesPair ps
    → parse_query_string (format_query ps) params ≡ insert_all ps params
unfolding parse_query_string
parse_query_string-format_query ps params h = query_rounds-format _ ps params h (omega arith)
