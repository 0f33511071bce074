-- ===== src/Parser/LineParsers.antt =====
-- The line parsers of HttpParser, and the end of the headers.
use http_storm.Common.{
  suc, Bool, true, false, Bytes, codes, insert, lookup, if◌then◌else◌, none, some, find, take, drop,
  equal, map, tolower, trim_left, contains, from_chars,
}
use http_storm.Http.{
  HttpMethod, get, post, put, delete, patch, head, options, HttpVersion, http_1_0, http_1_1,
  http_2_0, HttpRequest, same_method,
}
use http_storm.Url.{parse_query_string}

unfoldable pub parse_method : Bytes → HttpMethod
unfolding equal
parse_method s =
    if equal s (codes "GET")
    then get
    else if equal s (codes "POST")
    then post
    else if equal s (codes "PUT")
    then put
    else if equal s (codes "DELETE")
    then delete
    else if equal s (codes "PATCH")
    then patch
    else if equal s (codes "HEAD")
    then head
    else if equal s (codes "OPTIONS")
    then options
    else HttpMethod.unknown

unfoldable pub parse_version : Bytes → HttpVersion
unfolding equal
parse_version s =
    if equal s (codes "HTTP/1.1")
    then http_1_1
    else if equal s (codes "HTTP/1.0")
    then http_1_0
    else if equal s (codes "HTTP/2.0")
    then http_2_0
    else HttpVersion.unknown

unfoldable pub method_to_string : HttpMethod → Bytes
method_to_string get = codes "GET"
method_to_string post = codes "POST"
method_to_string put = codes "PUT"
method_to_string delete = codes "DELETE"
method_to_string patch = codes "PATCH"
method_to_string head = codes "HEAD"
method_to_string options = codes "OPTIONS"
method_to_string HttpMethod.unknown = codes "UNKNOWN"

-- What a line parser returns: true, or false with its message; both with the request it leaves.
pub data Line : Type 0 where
  parsed : HttpRequest → Line
  failed : HttpRequest → Bytes → Line

-- `full_path`, cut at the question mark
unfoldable pub set_target : Bytes → HttpRequest → HttpRequest
set_target full_path r = elim (find b'?' full_path) [
  | none ↦ record r { path = full_path }
  | some query_pos ↦ record r {
    path = take query_pos full_path;
    query_string = drop (suc query_pos) full_path;
    query_params = parse_query_string (drop (suc query_pos) full_path) r.query_params;
  }
]

-- behind the method: `rest` is the line from `path_start` on
unfoldable pub parse_target : Bytes → HttpRequest → Line
unfolding set_target
parse_target rest r =
    if same_method r.method HttpMethod.unknown
    then failed r (codes "Unknown HTTP method")
    else elim (find b' ' rest) [
      | none ↦ failed r (codes "Invalid request line: missing version")
      | some path_end ↦ parsed (record (set_target (take path_end rest) r) {
        version = parse_version (drop (suc path_end) rest);
      })
    ]

unfoldable pub parse_request_line : Bytes → HttpRequest → Line
unfolding parse_target
parse_request_line line r = elim (find b' ' line) [
  | none ↦ failed r (codes "Invalid request line: missing method")
  | some method_end ↦
      parse_target (drop (suc method_end) line)
        (record r { method = parse_method (take method_end line) })
]

unfoldable pub parse_header_line : Bytes → HttpRequest → Line
parse_header_line line r = elim (find b':' line) [
  | none ↦ failed r (codes "Invalid header line")
  | some colon_pos ↦ parsed (record r {
    headers =
        insert (map tolower (take colon_pos line)) (trim_left (drop (suc colon_pos) line))
          r.headers;
  })
]

unfoldable pub set_content_length : HttpRequest → HttpRequest
set_content_length r = elim (lookup (codes "content-length") r.headers) [
  | none ↦ r
  | some value ↦ elim (from_chars value) [ none ↦ r | some n ↦ record r { content_length = n } ]
]

abbrev is_1_1 : HttpVersion → Bool
is_1_1 http_1_1 = true
is_1_1 _ = false

unfoldable pub set_keep_alive : HttpRequest → HttpRequest
set_keep_alive r = elim (lookup (codes "connection") r.headers) [
  | none ↦ record r { keep_alive = is_1_1 r.version }
  | some value ↦ record r { keep_alive = contains (codes "keep-alive") (map tolower value) }
]

unfoldable pub finalize_headers : HttpRequest → HttpRequest
unfolding set_content_length set_keep_alive
finalize_headers r = set_keep_alive (set_content_length r)
