-- ===== src/Connection/Replies.antt =====
-- What a client reads of the responses that a connection writes.
use mathlib.Core.List.{append_assoc}
use http_storm.Common.{
  ℕ, zero, suc, ◌<◌, false, Bytes, codes, Dict, lookup, length, length-append, [], ◌∷◌, ◌++◌,
  Without, lacks-Without, All, All-append, cut_line-append, cut_at, cut_at-append, trim_left,
  digits-Without, to_string, to_string-IsDigits, from_chars-to_string, size_mod, is_empty, some,
  take-length-append, drop-length-append, ltb, ◌≡◌, refl, arith,
}
use http_storm.Http.{HttpResponse, header_lines, serialize}
use http_storm.Parser.Printing.{print_header, print_headers, print_headers-append}
use http_storm.Connection.Client.{Reply, read_fields, read_body, read_reply}

-- A header that stands on a line of its own and can be cut at its colon.
abbrev pub IsField : Bytes × Bytes → Type 0
IsField (name, value) =
    Without b':' name × Without b'\r' name × Without b'\r' value × (trim_left value ≡ value)

print_field-Without :
    (name value : Bytes) → IsField (name, value) → Without b'\r' (print_header name value)
print_field-Without name value (_, h, k, _) =
    All-append _ name (b':' ∷ b' ' ∷ value) h
      ((λ e. ground (arith, e)), ((λ e. ground (arith, e)), k))

print_field-cut :
    (name value : Bytes)
    → IsField (name, value)
    → (is_empty (print_header name value) ≡ false)
      × (cut_at b':' (print_header name value) ≡ some (name, b' ' ∷ value))
      × (trim_left (b' ' ∷ value) ≡ value)
unfolding trim_left
print_field-cut name value (h, _, _, trimmed) =
    (filled name, cut_at-append b':' name (b' ' ∷ value) h, trimmed)
  where
    filled : (xs : Bytes) → is_empty (print_header xs value) ≡ false
    filled [] = refl
    filled (x ∷ xs) = refl

-- The lines of the headers are read as the headers.
read_fields-print :
    (fuel : ℕ) (headers : Dict Bytes) (rest : Bytes)
    → All IsField headers
    → length headers < fuel
    → read_fields fuel (print_headers headers (b'\r' ∷ b'\n' ∷ rest)) ≡ some (headers, rest)
unfolding read_fields
read_fields-print zero headers rest h enough = elim enough [ ]
read_fields-print (suc fuel) [] rest h enough = rw (cut_line-append [] rest tt) refl
read_fields-print (suc fuel) ((name, value) ∷ headers) rest (h, hs) enough =
    let (filled, cut, trimmed) = print_field-cut name value h in
    rw
      (
        cut_line-append (print_header name value) (print_headers headers (b'\r' ∷ b'\n' ∷ rest))
            (print_field-Without name value h),
        filled,
        cut,
        read_fields-print fuel headers rest hs (omega arith),
        trimmed,
      )
      refl

length-print_headers :
    (headers : Dict Bytes) (rest : Bytes)
    → length headers < length (print_headers headers (b'\r' ∷ b'\n' ∷ rest))
length-print_headers [] rest = omega arith
length-print_headers ((name, value) ∷ headers) rest =
    let line = print_header name value in
    omega (
      arith,
      length-append line (b'\r' ∷ b'\n' ∷ print_headers headers (b'\r' ∷ b'\n' ∷ rest)),
      length-print_headers headers rest,
    )

header_lines-print :
    (headers : Dict Bytes) (rest : Bytes)
    → header_lines headers ++ rest ≡ print_headers headers rest
unfolding header_lines
header_lines-print [] rest = refl
header_lines-print ((name, value) ∷ headers) rest =
    simp (append_assoc, header_lines-print headers rest)

serialize-print :
    (walk : Dict Bytes → Dict Bytes) (resp : HttpResponse) (more : Bytes)
    → serialize walk resp ++ more
      ≡ (codes "HTTP/1.1" ++ b' ' ∷ (to_string resp.status_code ++ b' ' ∷ resp.status_message))
        ++ b'\r' ∷ (b'\n' ∷ print_headers (walk resp.headers) (b'\r' ∷ b'\n' ∷ (resp.body ++ more)))
unfolding serialize
serialize-print walk resp more =
    simp (append_assoc, header_lines-print (walk resp.headers), print_headers-append)

-- What a client is meant to read of a response.
abbrev pub received : (Dict Bytes → Dict Bytes) → HttpResponse → Reply
received walk resp = record {
  status_code = resp.status_code;
  status_message = resp.status_message;
  headers = walk resp.headers;
  body = resp.body;
}

-- A response that ends where its own headers say.
pub record IsFramed (walk : Dict Bytes → Dict Bytes) (resp : HttpResponse) : Type 0 where
  pub status : resp.status_code < size_mod
  pub message : Without b'\r' resp.status_message
  pub fields : All IsField (walk resp.headers)
  pub body : length resp.body < size_mod
  pub length_field :
      lookup (codes "Content-Length") (walk resp.headers) ≡ some (to_string (length resp.body))

read_body-append :
    (code : ℕ) (message : Bytes) (headers : Dict Bytes) (body more : Bytes)
    → lookup (codes "Content-Length") headers ≡ some (to_string (length body))
    → length body < size_mod
    → read_body code message headers (body ++ more)
      ≡ some (
        record { status_code = code; status_message = message; headers = headers; body = body },
        more,
      )
unfolding read_body
read_body-append code message headers body more e h =
    let fits : ltb (length (body ++ more)) (length body) ≡ false =
      ground (arith, length-append body more) in
    rw
      (
        e,
        from_chars-to_string (length body) h,
        fits,
        take-length-append body more,
        drop-length-append body more,
      )
      refl

-- The written response is read whole, and no byte behind it is.
pub read_reply-serialize :
    (walk : Dict Bytes → Dict Bytes) (resp : HttpResponse) (more : Bytes)
    → IsFramed walk resp
    → read_reply (serialize walk resp ++ more) ≡ some (received walk resp, more)
unfolding read_reply
read_reply-serialize walk resp more h =
    let code = to_string resp.status_code in
    let digits = to_string-IsDigits resp.status_code in
    let status = code ++ b' ' ∷ resp.status_message in
    let line = codes "HTTP/1.1" ++ b' ' ∷ status in
    let fields = walk resp.headers in
    let rest = print_headers fields (b'\r' ∷ b'\n' ∷ (resp.body ++ more)) in
    let clean : Without b'\r' line =
      All-append _ (codes "HTTP/1.1 ") status (lacks-Without b'\r' (codes "HTTP/1.1 ") refl) (
        All-append _ code (b' ' ∷ resp.status_message) (digits-Without b'\r' code refl digits)
          ((λ e. ground (arith, e)), h.message)) in
    rw
      (
        serialize-print walk resp more,
        cut_line-append line rest clean,
        cut_at-append b' ' (codes "HTTP/1.1") status (lacks-Without b' ' (codes "HTTP/1.1") refl),
        cut_at-append b' ' code resp.status_message (digits-Without b' ' code refl digits),
        from_chars-to_string resp.status_code h.status,
        read_fields-print (length rest) fields (resp.body ++ more) h.fields
            (length-print_headers fields (resp.body ++ more)),
        read_body-append resp.status_code resp.status_message fields resp.body more h.length_field
            h.body,
      )
      refl
