-- ===== src/Parser/PrintedLines.antt =====
-- What the line parsers of HttpParser make of printed lines.
use http_storm.Common.{
  ℕ, suc, true, false, Bytes, codes, insert, [], ◌∷◌, ◌++◌, length, take, drop, find, Without,
  find-Without, lacks, lacks-Without, find-append_cons, take-length-append, drop_past, All-append,
  equal, trim_left, Option, none, some, ◌≡◌, ◌≢◌, refl, sym, ap, ◌∙◌, Bool-cases, inl, inr, arith,
}
use http_storm.Http.{
  HttpMethod, get, post, put, delete, patch, head, options, HttpRequest, empty_request, same_method,
  same_method_iff,
}
use http_storm.Parser.{
  parsed, method_to_string, parse_method, parse_version, set_target, parse_target,
  parse_request_line, parse_header_line,
}
use http_storm.Parser.Printing.{
  Message, print_target, print_request_line, print_header, IsHeader, IsQuery, IsPrintable, query_of,
  params_of, request_of,
}

-- The name of a method has no blank and no carriage return.
method_to_string-lacks :
    (m : HttpMethod)
    → (lacks b' ' (method_to_string m) ≡ true) × (lacks b'\r' (method_to_string m) ≡ true)
unfolding method_to_string
method_to_string-lacks get = (refl, refl)
method_to_string-lacks post = (refl, refl)
method_to_string-lacks put = (refl, refl)
method_to_string-lacks delete = (refl, refl)
method_to_string-lacks patch = (refl, refl)
method_to_string-lacks head = (refl, refl)
method_to_string-lacks options = (refl, refl)
method_to_string-lacks HttpMethod.unknown = (refl, refl)

-- The name that is printed for a method is read as the method.
parse_method-to_string : (m : HttpMethod) → parse_method (method_to_string m) ≡ m
unfolding parse_method method_to_string equal
parse_method-to_string get = refl
parse_method-to_string post = refl
parse_method-to_string put = refl
parse_method-to_string delete = refl
parse_method-to_string patch = refl
parse_method-to_string head = refl
parse_method-to_string options = refl
parse_method-to_string HttpMethod.unknown = refl

set_target-print :
    (path : Bytes) (query : Option Bytes) (r : HttpRequest)
    → Without b'?' path
    → r.query_string ≡ []
    → r.query_params ≡ []
    → set_target (print_target path query) r
      ≡ record r { path = path; query_string = query_of query; query_params = params_of query }
unfolding set_target
set_target-print path none r h e f = rw (find-Without b'?' path h, set_target, e, f) refl
set_target-print path (some query) r h e f =
    rw
      (
        find-append_cons b'?' path query h,
        set_target,
        take-length-append path (b'?' ∷ query),
        drop_past path query b'?',
        f,
      )
      refl

print_target-lacks :
    (c : ℕ) (path : Bytes) (query : Option Bytes)
    → c ≢ b'?'
    → Without c path
    → Without c (query_of query)
    → Without c (print_target path query)
print_target-lacks c path none d h k = h
print_target-lacks c path (some query) d h k =
    All-append _ path (b'?' ∷ query) h (λ e. d (sym e), k)

pub parse_header_line-print :
    (name value : Bytes) (r : HttpRequest)
    → IsHeader (name, value)
    → parse_header_line (print_header name value) r
      ≡ parsed (record r { headers = insert name value r.headers })
unfolding parse_header_line trim_left
parse_header_line-print name value r (h, _, low, _, trimmed) =
    rw
      (
        find-append_cons b':' name (b' ' ∷ value) h,
        parse_header_line,
        take-length-append name (b':' ∷ b' ' ∷ value),
        drop_past name (b' ' ∷ value) b':',
        low,
        trimmed,
      )
      refl

query_of-words :
    (query : Option Bytes)
    → IsQuery query
    → Without b' ' (query_of query) × Without b'\r' (query_of query)
query_of-words none h = (tt, tt)
query_of-words (some query) h = h

print_target-words : (m : Message) → IsPrintable m → Without b' ' (print_target m.path m.query)
print_target-words m h =
    print_target-lacks b' ' m.path m.query (λ e. ground (arith, e)) h.path_words
      (query_of-words m.query h.query).0

parse_target-print :
    (m : Message)
    → IsPrintable m
    → parse_target
        (print_target m.path m.query ++ b' ' ∷ codes "HTTP/1.1")
        (record empty_request { method = m.method })
      ≡ parsed (request_of m)
unfolding parse_target parse_version equal
parse_target-print m h =
    let target = print_target m.path m.query in
    let known : same_method m.method HttpMethod.unknown ≡ false =
      elim (Bool-cases (same_method m.method HttpMethod.unknown)) [
        | inl e ↦ absurd (h.method ((same_method_iff m.method HttpMethod.unknown).0 e))
        | inr e ↦ e
      ] in
    rw
      (
        known,
        find-append_cons b' ' target (codes "HTTP/1.1") (print_target-words m h),
        parse_target,
        take-length-append target (b' ' ∷ codes "HTTP/1.1"),
        drop_past target (codes "HTTP/1.1") b' ',
        set_target-print m.path m.query (record empty_request { method = m.method }) h.path_query
            refl refl,
      )
      refl

parse_request_line-cut :
    (line : Bytes) (pos : ℕ) (r : HttpRequest)
    → find b' ' line ≡ some pos
    → parse_request_line line r
      ≡ parse_target (drop (suc pos) line) (record r { method = parse_method (take pos line) })
unfolding parse_request_line parse_target
parse_request_line-cut line pos r e = rw (e, parse_request_line) refl

-- The printed line is read as what it was printed from.
pub parse_request_line-print :
    (m : Message)
    → IsPrintable m
    → parse_request_line (print_request_line m) empty_request ≡ parsed (request_of m)
parse_request_line-print m h =
    let name = method_to_string m.method in
    let rest = print_target m.path m.query ++ b' ' ∷ codes "HTTP/1.1" in
    parse_request_line-cut (print_request_line m) (length name) empty_request (
      find-append_cons b' ' name rest (lacks-Without b' ' name (method_to_string-lacks m.method).0))
    ∙ ap
        (λ t. parse_target t (record empty_request {
          method = parse_method (take (length name) (print_request_line m));
        }))
        (drop_past name rest b' ')
    ∙ ap (λ t. parse_target rest (record empty_request { method = parse_method t }))
        (take-length-append name (b' ' ∷ rest))
    ∙ ap (λ method. parse_target rest (record empty_request { method = method }))
        (parse_method-to_string m.method)
    ∙ parse_target-print m h

-- No printed line holds a carriage return.
pub print_request_line-Without :
    (m : Message) → IsPrintable m → Without b'\r' (print_request_line m)
print_request_line-Without m h =
    All-append _ (method_to_string m.method) _
      (lacks-Without b'\r' (method_to_string m.method) (method_to_string-lacks m.method).1)
      (
        (λ e. ground (arith, e)),
        All-append _ (print_target m.path m.query) _
            (print_target-lacks b'\r' m.path m.query (λ e. ground (arith, e)) h.path_lines
              (query_of-words m.query h.query).1)
            (lacks-Without b'\r' (b' ' ∷ codes "HTTP/1.1") refl),
      )

pub print_header-Without :
    (name value : Bytes) → IsHeader (name, value) → Without b'\r' (print_header name value)
print_header-Without name value (_, h, _, k, _) =
    All-append _ name (b':' ∷ b' ' ∷ value) h
      ((λ e. ground (arith, e)), ((λ e. ground (arith, e)), k))
