-- ===== src/Parser/RoundTrip.antt =====
-- A printed request comes back from `HttpParser::feed`, and what follows it stays in the buffer.
use mathlib.Core.List.{append_assoc}
use http_storm.Common.{
  digits-Without, digits-trim_left, ℕ, ◌-◌, ◌<◌, Bytes, codes, Dict, insert, lookup, lookup-insert,
  [], ◌∷◌, ◌++◌, length, length-append, drop, take-length-append, drop-length-append, All,
  All-append, to_string-IsDigits, lacks-Without, tolower, equal, to_string, from_chars-to_string,
  size_mod, some, ◌≡◌, refl, sym, ap, subst, ◌∙◌, arith,
}
use http_storm.Http.{HttpRequest, http_1_1}
use http_storm.Parser.{
  HttpParser, ParseState, FeedResult, Fed, initial, finalize_headers, feed_body, run, feed,
  append_buffer,
}
use http_storm.Parser.Framing.{finish, feed_body-empty, feed_body-rest, HasCounts}
use http_storm.Parser.Printing.{
  print_headers-append, Message, print_request_line, print_headers, all_headers, print_request,
  IsHeader, IsPrintable, query_of, params_of, request_of,
}
use http_storm.Parser.PrintedLines.{parse_request_line-print, print_request_line-Without}
use http_storm.Parser.HeaderLoop.{insert_all, loop-headers, loop-end, feed_request_line-parsed}

-- the parser at the body of a message, and behind it
abbrev at_body : HttpRequest → Bytes → HttpParser
at_body r buffer = record initial { request = r; buffer = buffer; state = ParseState.body }

abbrev behind : HttpRequest → Bytes → Bytes → Fed
behind r body extra = (
  record initial {
    request = record r { body = body };
    buffer = extra;
    state = ParseState.complete;
  },
  FeedResult.complete,
)

feed_body-exact :
    (r : HttpRequest) (body extra : Bytes)
    → r.body ≡ []
    → r.content_length ≡ length body
    → length body < size_mod
    → feed_body (at_body r (body ++ extra)) ≡ behind r body extra
feed_body-exact r [] extra e f h =
    feed_body-empty (at_body r extra) f
    ∙ ap
        (λ b. (
          record initial {
            request = record r { body = b };
            buffer = extra;
            state = ParseState.complete;
          },
          FeedResult.complete,
        ))
        e
feed_body-exact r (x ∷ xs) extra e f h =
    let whole = (x ∷ xs) ++ extra in
    let n = r.content_length - 0 in
    let size : n ≡ length (x ∷ xs) = omega (arith, f) in
    let counts : HasCounts (at_body r whole) = record {
      range = omega (arith, f, h);
      counted = omega arith;
    } in
    feed_body-rest (at_body r whole) counts (λ g. ground (arith, f, g))
      (omega (arith, f, length-append (x ∷ xs) extra))
    ∙ ap (λ b. (finish n (at_body (record r { body = b }) whole), FeedResult.complete)) e
    ∙ ap (λ k. (finish k (at_body (record r { body = [] }) whole), FeedResult.complete)) size
    ∙ ap (λ b. behind r b (drop (length (x ∷ xs)) whole)) (take-length-append (x ∷ xs) extra)
    ∙ ap (λ b. behind r (x ∷ xs) b) (drop-length-append (x ∷ xs) extra)

-- What `finalize_headers` does to a request with the length of its body among its headers.
record Finalized (r s : HttpRequest) : Type 0 where
  method : s.method ≡ r.method
  path : s.path ≡ r.path
  query_string : s.query_string ≡ r.query_string
  query_params : s.query_params ≡ r.query_params
  version : s.version ≡ r.version
  headers : s.headers ≡ r.headers
  body : s.body ≡ r.body

finalize_headers-Finalized : (r : HttpRequest) → Finalized r (finalize_headers r)
unfolding finalize_headers
finalize_headers-Finalized r = ground arith

finalize_headers-length :
    (r : HttpRequest) (n : ℕ)
    → lookup (codes "content-length") r.headers ≡ some (to_string n)
    → n < size_mod
    → (finalize_headers r).content_length ≡ n
unfolding finalize_headers
finalize_headers-length r n e h = ground (arith, e, from_chars-to_string n h)

to_string-IsHeader : (n : ℕ) → IsHeader (codes "content-length", to_string n)
unfolding tolower
to_string-IsHeader n =
    let name = codes "content-length" in
    let digits = to_string-IsDigits n in
    (
      lacks-Without b':' name refl,
      lacks-Without b'\r' name refl,
      refl,
      digits-Without b'\r' (to_string n) refl digits,
      digits-trim_left (to_string n) digits,
    )

all_headers-All : (m : Message) → IsPrintable m → All IsHeader (all_headers m)
all_headers-All m h =
    All-append _ m.headers ((codes "content-length", to_string (length m.body)) ∷ []) h.headers
      (to_string-IsHeader (length m.body), tt)

insert_all-append :
    (headers : Dict Bytes) (name value : Bytes) (m : Dict Bytes)
    → insert_all (headers ++ (name, value) ∷ []) m ≡ insert name value (insert_all headers m)
insert_all-append [] name value m = refl
insert_all-append ((n, v) ∷ headers) name value m =
    insert_all-append headers name value (insert n v m)

-- what stands behind the request line
abbrev tail : Message → Bytes → Bytes
tail m extra = print_headers (all_headers m) (b'\r' ∷ b'\n' ∷ (m.body ++ extra))

print_request-append :
    (m : Message) (extra : Bytes)
    → print_request m ++ extra ≡ print_request_line m ++ b'\r' ∷ b'\n' ∷ tail m extra
print_request-append m extra =
    append_assoc (print_request_line m)
      (b'\r' ∷ b'\n' ∷ print_headers (all_headers m) (b'\r' ∷ b'\n' ∷ m.body)) extra
    ∙ ap (λ t. print_request_line m ++ b'\r' ∷ (b'\n' ∷ t))
        (print_headers-append (all_headers m) (b'\r' ∷ b'\n' ∷ m.body) extra)

-- What `feed` has read of a message, with what is left for the next one.
pub record IsRead (m : Message) (extra : Bytes) (fed : Fed) : Type 0 where
  pub result : fed.1 ≡ FeedResult.complete
  pub state : fed.0.state ≡ ParseState.complete
  pub method : fed.0.request.method ≡ m.method
  pub path : fed.0.request.path ≡ m.path
  pub query_string : fed.0.request.query_string ≡ query_of m.query
  pub query_params : fed.0.request.query_params ≡ params_of m.query
  pub version : fed.0.request.version ≡ http_1_1
  pub headers : fed.0.request.headers ≡ insert_all (all_headers m) []
  pub body : fed.0.request.body ≡ m.body
  pub content_length : fed.0.request.content_length ≡ length m.body
  pub left : fed.0.buffer ≡ extra

abbrev headed : Message → HttpRequest
headed m = record (request_of m) { headers = insert_all (all_headers m) [] }

headed-length :
    (m : Message) → IsPrintable m → (finalize_headers (headed m)).content_length ≡ length m.body
unfolding equal
headed-length m h =
    let announced : lookup (codes "content-length") (headed m).headers
        ≡ some (to_string (length m.body)) =
      ap (lookup (codes "content-length"))
        (insert_all-append m.headers (codes "content-length") (to_string (length m.body)) [])
      ∙ lookup-insert (codes "content-length") (codes "content-length") (to_string (length m.body))
          (insert_all m.headers []) in
    finalize_headers-length (headed m) (length m.body) announced h.body

feed-behind :
    (m : Message) (extra : Bytes)
    → IsPrintable m
    → feed initial (print_request m ++ extra) ≡ behind (finalize_headers (headed m)) m.body extra
unfolding feed run
feed-behind m extra h =
    let bytes = print_request m ++ extra in
    let ending = b'\r' ∷ b'\n' ∷ (m.body ++ extra) in
    let at_headers : HttpParser = record initial {
      buffer = tail m extra;
      request = request_of m;
      state = ParseState.headers;
    } in
    let at_end : HttpParser = record at_headers { buffer = ending; request = headed m } in
    feed_request_line-parsed (append_buffer initial bytes) (print_request_line m) (tail m extra)
      (request_of m) (print_request_line-Without m h) (print_request-append m extra)
      (parse_request_line-print m h)
    ∙ loop-headers (all_headers m) ending at_headers (all_headers-All m h) refl
    ∙ loop-end at_end (m.body ++ extra) refl
    ∙ feed_body-exact (finalize_headers (headed m)) m.body extra
        (finalize_headers-Finalized (headed m)).body (headed-length m h) h.body

-- A request that is printed with its method, path, query, headers and body, and the length of the body as its
-- last header, is read by a new parser in one piece into these, as HTTP/1.1, with the headers entered in their
-- order and the query cut into its parameters; whatever bytes follow are left in the buffer. The path holds no
-- blank, question mark or carriage return, the query no blank or carriage return, the names of the headers are in
-- lower case and hold no colon, and no header holds a carriage return or a value that begins with a blank.
pub feed-print_request :
    (m : Message) (extra : Bytes)
    → IsPrintable m
    → IsRead m extra (feed initial (print_request m ++ extra))
feed-print_request m extra h =
    let same = finalize_headers-Finalized (headed m) in
    subst (IsRead m extra) (sym (feed-behind m extra h)) (record {
      result = refl;
      state = refl;
      method = same.method;
      path = same.path;
      query_string = same.query_string;
      query_params = same.query_params;
      version = same.version;
      headers = same.headers;
      body = refl;
      content_length = headed-length m h;
      left = refl;
    })
