-- ===== src/Url/Tests.antt =====
-- The decoder and the query parser of HTTP SERVER/HTTP Server/src/http_parser.cpp on short strings.
use http_storm.Common.{codes, [], ◌∷◌, ◌≡◌, arith}
use http_storm.Url.{url_decode, parse_query_string}
use http_storm.Url.Escapes.{url_encode, url_decode-url_encode}
use http_storm.Url.Query.{format_query, insert_all, parse_query_string-format_query}

url_decode-url_encode_example : url_decode (url_encode (codes "a b%")) ≡ codes "a b%"
url_decode-url_encode_example =
    url_decode-url_encode (codes "a b%")
      (omega arith, (omega arith, (omega arith, (omega arith, tt))))

parse_query_string-format_query_example :
    parse_query_string (format_query ((codes "a", codes "&") ∷ (codes "b", codes "=") ∷ [])) []
    ≡ insert_all ((codes "a", codes "&") ∷ (codes "b", codes "=") ∷ []) []
parse_query_string-format_query_example =
    parse_query_string-format_query ((codes "a", codes "&") ∷ (codes "b", codes "=") ∷ []) []
      (((omega arith, tt), (omega arith, tt)), (((omega arith, tt), (omega arith, tt)), tt))
