-- ===== src/Middleware/Tests.antt =====
-- The middlewares of HTTP SERVER/HTTP Server/src/middleware.cpp on short chains.
use http_storm.Common.{
  ℕ, List, ◌+◌, ◌*◌, ◌/◌, ◌≤◌, Bytes, codes, lookup, [], ◌∷◌, Option, none, some, ◌≡◌, refl, arith,
  drop, ap, sym,
}
use http_storm.Http.{HttpRequest, HttpResponse, empty_request, empty_response}
use http_storm.Middleware.{World, MiddlewareNext, Bucket, second, pure}
use http_storm.Middleware.Limits.{admitted, rate_limit-starves}
use http_storm.Middleware.Admissions.{admissions, span, admissions-le}
use http_storm.Middleware.Headers.{Zlib}

-- An empty bucket, read when the clock stands at its start.
abbrev empty_bucket : Bucket
empty_bucket = record { count = 0; window_start = 0 }

rate_limit-starves_example :
    admitted 2 4 0 empty_bucket (400_000_000 ∷ 400_000_000 ∷ 400_000_000 ∷ []) ≡ 0
rate_limit-starves_example =
    rate_limit-starves 2 4 0 empty_bucket (400_000_000 ∷ 400_000_000 ∷ 400_000_000 ∷ []) refl refl
      (omega arith, (omega arith, (omega arith, tt)))

-- Takes the first byte off.
abbrev unpack : Bytes → Option Bytes
unpack packed = some (drop 1 packed)

abbrev unpack_some : Option Bytes → Option Bytes
unpack_some none = none
unpack_some (some packed) = unpack packed

-- A packing that puts a byte in front.
abbrev tagging : Zlib
tagging = record {
  deflate = λ body. some (31 ∷ body);
  inflate = unpack;
  inflate-deflate = λ body packed e. ap unpack_some (sym e);
}

abbrev gzip_request : HttpRequest
gzip_request = record empty_request { headers = (codes "accept-encoding", codes "gzip, br") ∷ [] }

abbrev hello : HttpResponse
hello = record empty_response { body = codes "hello" }

abbrev empty_world : World
empty_world = record {
  now = 0;
  delays = [];
  random = [];
  buckets = [];
  access_log = [];
  warnings = [];
}

abbrev says_hello : MiddlewareNext
says_hello request = pure hello

-- three requests of one address at the same time, and one of another between them
abbrev crowd : List (Bytes × ℕ)
crowd =
    (codes "10.0.0.1:9", second)
    ∷ (codes "10.0.0.1:9", 0)
    ∷ (codes "10.0.0.2:9", 0)
    ∷ (codes "10.0.0.1:9", 0)
    ∷ []

admissions-le_example :
    admissions 2 3 (codes "10.0.0.1:9") 0 empty_world crowd ≤ 3 + span crowd * 2 / second
unfolding lookup
admissions-le_example = admissions-le 2 3 (codes "10.0.0.1:9") 0 empty_world crowd (omega arith)
