-- ===== src/Parser/Printing.antt =====
-- A printer of requests, and what it prints.
use mathlib.Core.List.{append_assoc}
use http_storm.Common.{
  ap, refl, ◌∙◌, ◌<◌, Bytes, codes, Dict, [], ◌∷◌, ◌++◌, map, length, Without, All, trim_left,
  tolower, to_string, size_mod, Option, none, some, ◌≡◌, ◌≢◌,
}
use http_storm.Http.{HttpMethod, http_1_1, HttpRequest, empty_request}
use http_storm.Url.{parse_query_string}
use http_storm.Parser.{method_to_string}

pub record Message : Type 0 where
  pub method : HttpMethod
  pub path : Bytes
  pub query : Option Bytes
  pub headers : Dict Bytes
  pub body : Bytes

abbrev pub print_target : Bytes → Option Bytes → Bytes
print_target path none = path
print_target path (some query) = path ++ b'?' ∷ query

abbrev pub print_request_line : Message → Bytes
print_request_line m =
    method_to_string m.method ++ b' ' ∷ (print_target m.path m.query ++ b' ' ∷ codes "HTTP/1.1")

abbrev pub print_header : Bytes → Bytes → Bytes
print_header name value = name ++ b':' ∷ b' ' ∷ value

-- header lines, and what follows them
abbrev pub print_headers : Dict Bytes → Bytes → Bytes
print_headers [] rest = rest
print_headers ((name, value) ∷ headers) rest =
    print_header name value ++ b'\r' ∷ (b'\n' ∷ print_headers headers rest)

pub print_headers-append :
    (headers : Dict Bytes) (rest extra : Bytes)
    → print_headers headers rest ++ extra ≡ print_headers headers (rest ++ extra)
print_headers-append [] rest extra = refl
print_headers-append ((name, value) ∷ headers) rest extra =
    append_assoc (print_header name value) (b'\r' ∷ b'\n' ∷ print_headers headers rest) extra
    ∙ ap (λ t. print_header name value ++ b'\r' ∷ (b'\n' ∷ t))
        (print_headers-append headers rest extra)

-- with the length of the body as the last header
abbrev pub all_headers : Message → Dict Bytes
all_headers m = m.headers ++ (codes "content-length", to_string (length m.body)) ∷ []

abbrev pub print_request : Message → Bytes
print_request m =
    print_request_line m ++ b'\r' ∷ b'\n' ∷ print_headers (all_headers m) (b'\r' ∷ b'\n' ∷ m.body)

abbrev pub IsHeader : Bytes × Bytes → Type 0
IsHeader (name, value) =
    Without b':' name
    × Without b'\r' name
    × (map tolower name ≡ name)
    × Without b'\r' value
    × (trim_left value ≡ value)

abbrev pub IsQuery : Option Bytes → Type 0
IsQuery none = Unit
IsQuery (some query) = Without b' ' query × Without b'\r' query

-- What a printed request can hold.
pub record IsPrintable (m : Message) : Type 0 where
  pub method : m.method ≢ HttpMethod.unknown
  pub path_words : Without b' ' m.path
  pub path_query : Without b'?' m.path
  pub path_lines : Without b'\r' m.path
  pub query : IsQuery m.query
  pub headers : All IsHeader m.headers
  pub body : length m.body < size_mod

abbrev pub query_of : Option Bytes → Bytes
query_of none = []
query_of (some query) = query

abbrev pub params_of : Option Bytes → Dict Bytes
params_of none = []
params_of (some query) = parse_query_string query []

-- the request behind the request line
abbrev pub request_of : Message → HttpRequest
request_of m = record empty_request {
  method = m.method;
  path = m.path;
  query_string = query_of m.query;
  query_params = params_of m.query;
  version = http_1_1;
}
