-- ===== src/Connection/Framing.antt =====
-- The responses that a connection completes end where their headers say, so that a client can tell them
-- apart.
use http_storm.Common.{
  ℕ, ◌<◌, Bool, true, false, Bytes, codes, Dict, insert, lookup, lookup-insert, length, List, [],
  ◌∷◌, ◌++◌, map, Without, lacks-Without, All, equal, equal_iff, trim_left, digits-Without,
  digits-trim_left, to_string, to_string-IsDigits, size_mod, none, some, if◌then◌else◌, ◌≡◌, refl,
  sym, ap, subst, ◌∙◌, Bool-cases, inl, inr, ◌⊎◌,
}
use http_storm.Http.{HttpResponse, serialize, set_header}
use http_storm.Connection.{complete_response}
use http_storm.Connection.Client.{read_replies}
use http_storm.Connection.Replies.{IsField, IsFramed, received, read_reply-serialize}

module _ (P : Bytes × Bytes → Type 0) where
  insert-All :
      (key value : Bytes) (m : Dict Bytes) → P (key, value) → All P m → All P (insert key value m)
  unfolding insert
  insert-All key value [] p h = (p, tt)
  insert-All key value ((k, v) ∷ m) p (q, h) = elim (Bool-cases (equal k key)) [
    | inl same ↦ rw same (subst (λ n. P (n, value)) (sym ((equal_iff k key).0 same)) p, h)
    | inr other ↦ rw other (q, insert-All key value m p h)
  ]

connection-IsField :
    (keep_alive : Bool)
    → IsField (codes "Connection", codes (if keep_alive then "keep-alive" else "close"))
unfolding trim_left
connection-IsField true = (
  lacks-Without b':' (codes "Connection") refl,
  lacks-Without b'\r' (codes "Connection") refl,
  lacks-Without b'\r' (codes "keep-alive") refl,
  refl,
)
connection-IsField false = (
  lacks-Without b':' (codes "Connection") refl,
  lacks-Without b'\r' (codes "Connection") refl,
  lacks-Without b'\r' (codes "close") refl,
  refl,
)

server-IsField : IsField (codes "Server", codes "hphttp/1.0")
unfolding trim_left
server-IsField = (
  lacks-Without b':' (codes "Server") refl,
  lacks-Without b'\r' (codes "Server") refl,
  lacks-Without b'\r' (codes "hphttp/1.0") refl,
  refl,
)

length-IsField : (n : ℕ) → IsField (codes "Content-Length", to_string n)
length-IsField n =
    let digits = to_string-IsDigits n in
    (
      lacks-Without b':' (codes "Content-Length") refl,
      lacks-Without b'\r' (codes "Content-Length") refl,
      digits-Without b'\r' (to_string n) refl digits,
      digits-trim_left (to_string n) digits,
    )

-- the response with the two headers that every answer gets
abbrev named : Bool → HttpResponse → HttpResponse
named keep_alive resp =
    set_header (codes "Connection") (codes (if keep_alive then "keep-alive" else "close"))
      (set_header (codes "Server") (codes "hphttp/1.0") resp)

named-fields :
    (keep_alive : Bool) (resp : HttpResponse)
    → All IsField resp.headers
    → All IsField (named keep_alive resp).headers
unfolding set_header
named-fields keep_alive resp h =
    insert-All IsField (codes "Connection") _ _ (connection-IsField keep_alive)
      (insert-All IsField (codes "Server") _ resp.headers server-IsField h)

named-length :
    (keep_alive : Bool) (resp : HttpResponse)
    → lookup (codes "Content-Length") (named keep_alive resp).headers
      ≡ lookup (codes "Content-Length") resp.headers
unfolding set_header equal
named-length keep_alive resp = simp lookup-insert

-- A response whose handler has counted its body, or leaves that to the connection.
abbrev pub HasLength : HttpResponse → Type 0
HasLength resp =
    (lookup (codes "Content-Length") resp.headers ≡ some (to_string (length resp.body)))
    ⊎ ((lookup (codes "Content-Length") resp.headers ≡ none) × (resp.compressed ≡ false))

-- What `complete_response` keeps of a response, and what it adds.
record Completed (resp result : HttpResponse) : Type 0 where
  status_code : result.status_code ≡ resp.status_code
  status_message : result.status_message ≡ resp.status_message
  body : result.body ≡ resp.body
  fields : All IsField result.headers
  length_field :
      lookup (codes "Content-Length") result.headers ≡ some (to_string (length resp.body))

complete_response-Completed :
    (keep_alive : Bool) (resp : HttpResponse)
    → All IsField resp.headers
    → HasLength resp
    → Completed resp (complete_response keep_alive resp)
unfolding complete_response set_header equal
complete_response-Completed keep_alive resp h (inl counted) =
    let found = named-length keep_alive resp ∙ counted in
    rw found (record {
      status_code = refl;
      status_message = refl;
      body = refl;
      fields = named-fields keep_alive resp h;
      length_field = found;
    })
complete_response-Completed keep_alive resp h (inr (missing, plain)) =
    let size = to_string (length resp.body) in
    let absent = named-length keep_alive resp ∙ missing in
    let fields = named-fields keep_alive resp h in
    rw (absent, plain)
      (record {
        status_code = refl;
        status_message = refl;
        body = refl;
        fields =
            insert-All IsField (codes "Content-Length") size (named keep_alive resp).headers
              (length-IsField (length resp.body)) fields;
        length_field = simp lookup-insert;
      })

-- A walk of a map goes over its entries, and each key is found as before.
pub record IsWalk (m walked : Dict Bytes) : Type 1 where
  pub same : (key : Bytes) → lookup key walked ≡ lookup key m
  pub entries : (P : Bytes × Bytes → Type 0) → All P m → All P walked

-- What a handler has to answer for the response to be read: clean lines, and a length that is right.
pub record IsAnswer (walk : Dict Bytes → Dict Bytes) (keep_alive : Bool) (resp : HttpResponse)
    : Type 1 where
  pub status : resp.status_code < size_mod
  pub message : Without b'\r' resp.status_message
  pub fields : All IsField resp.headers
  pub body : length resp.body < size_mod
  pub counted : HasLength resp
  pub walked :
      let headers = (complete_response keep_alive resp).headers in IsWalk headers (walk headers)

complete_response-IsFramed :
    (walk : Dict Bytes → Dict Bytes) (keep_alive : Bool) (resp : HttpResponse)
    → IsAnswer walk keep_alive resp
    → IsFramed walk (complete_response keep_alive resp)
complete_response-IsFramed walk keep_alive resp h =
    let done = complete_response-Completed keep_alive resp h.fields h.counted in
    record {
      status = subst (λ n. n < size_mod) (sym done.status_code) h.status;
      message = subst (Without b'\r') (sym done.status_message) h.message;
      fields = h.walked.entries IsField done.fields;
      body = subst (λ b. length b < size_mod) (sym done.body) h.body;
      length_field =
          h.walked.same (codes "Content-Length")
          ∙ done.length_field
          ∙ ap (λ b. some (to_string (length b))) (sym done.body);
    }

abbrev pub completed : Bool × HttpResponse → HttpResponse
completed (keep_alive, resp) = complete_response keep_alive resp

-- what the connection writes for one answer after the other
abbrev pub written_all : (Dict Bytes → Dict Bytes) → List (Bool × HttpResponse) → Bytes
written_all walk [] = []
written_all walk (answer ∷ answers) = serialize walk (completed answer) ++ written_all walk answers

-- The responses to one request after the other on a kept connection are told apart: whatever the bodies hold
-- and in whatever order the headers are walked, a client that cuts the stream by Content-Length alone reads as
-- many responses as were written, each with the status, the headers and the whole body of the completed
-- answer, and nothing is left. Each answer of a handler has no line end in its message and headers, no colon in a
-- header's name and no blank before its value, and a Content-Length that is right, or none and is not marked as compressed.
pub read_replies-written_all :
    (walk : Dict Bytes → Dict Bytes) (answers : List (Bool × HttpResponse))
    → All (λ (answer : Bool × HttpResponse). IsAnswer walk answer.0 answer.1) answers
    → read_replies (length answers) (written_all walk answers)
      ≡ some (map (λ answer. received walk (completed answer)) answers)
unfolding read_replies
read_replies-written_all walk [] h = refl
read_replies-written_all walk ((keep_alive, resp) ∷ answers) (h, hs) =
    rw
      (
        read_reply-serialize walk (complete_response keep_alive resp) (written_all walk answers)
            (complete_response-IsFramed walk keep_alive resp h),
        read_replies-written_all walk answers hs,
      )
      refl
