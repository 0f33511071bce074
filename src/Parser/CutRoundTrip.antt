-- ===== src/Parser/CutRoundTrip.antt =====
-- A printed request comes back from `HttpParser::feed` in whatever pieces it arrives.
use http_storm.Common.{Bytes, List, ◌++◌, ◌≡◌, refl, sym, ap, ◌∙◌}
use http_storm.Http.{HttpRequest}
use http_storm.Parser.{HttpParser, ParseState, FeedResult, Fed, initial, feed}
use http_storm.Parser.Chunks.{erase_count, settle}
use http_storm.Parser.Validity.{initial-IsValid}
use http_storm.Parser.Streams.{feed_all, joined, feed_all-joined}
use http_storm.Parser.Printing.{Message, print_request, IsPrintable}
use http_storm.Parser.RoundTrip.{IsRead, feed-print_request}

-- What IsRead looks at.
record View : Type 0 where
  request : HttpRequest
  state : ParseState
  buffer : Bytes
  result : FeedResult

abbrev view : Fed → View
view fed = record {
  request = fed.0.request;
  state = fed.0.state;
  buffer = fed.0.buffer;
  result = fed.1;
}

erase_count-view :
    (state : ParseState) (p : HttpParser) (r : FeedResult)
    → view (erase_count state p, r) ≡ view (p, r)
erase_count-view ParseState.request_line p r = refl
erase_count-view ParseState.headers p r = refl
erase_count-view ParseState.body p r = refl
erase_count-view ParseState.complete p r = refl
erase_count-view ParseState.error p r = refl

view-IsRead :
    (m : Message) (extra : Bytes) (f g : Fed)
    → view g ≡ view f
    → IsRead m extra f
    → IsRead m extra g
view-IsRead m extra f g e h = record {
  result = ap (λ v. v.result) e ∙ h.result;
  state = ap (λ v. v.state) e ∙ h.state;
  method = ap (λ v. v.request.method) e ∙ h.method;
  path = ap (λ v. v.request.path) e ∙ h.path;
  query_string = ap (λ v. v.request.query_string) e ∙ h.query_string;
  query_params = ap (λ v. v.request.query_params) e ∙ h.query_params;
  version = ap (λ v. v.request.version) e ∙ h.version;
  headers = ap (λ v. v.request.headers) e ∙ h.headers;
  body = ap (λ v. v.request.body) e ∙ h.body;
  content_length = ap (λ v. v.request.content_length) e ∙ h.content_length;
  left = ap (λ v. v.buffer) e ∙ h.left;
}

-- A request is printed with its method, path, query, headers and body, and with the length of the body as its last
-- header. However the bytes of it, and any bytes behind it, are cut into the chunks that a new parser is fed, the
-- parser ends in COMPLETE with these in its request, as HTTP/1.1, the headers entered in their order and the query
-- cut into its parameters, and with the bytes behind it in its buffer. The path holds no blank, question mark or
-- carriage return, the query no blank or carriage return, the names of the headers are in lower case and hold no
-- colon, and no header holds a carriage return or a value that begins with a blank.
pub feed_all-print_request :
    (m : Message) (extra a : Bytes) (bs : List Bytes)
    → IsPrintable m
    → joined a bs ≡ print_request m ++ extra
    → IsRead m extra (feed_all initial a bs)
feed_all-print_request m extra a bs h e =
    let pieces = feed_all initial a bs in
    let whole = feed initial (print_request m ++ extra) in
    let same : settle pieces ≡ settle whole =
      feed_all-joined initial a bs initial-IsValid ∙ ap (λ t. settle (feed initial t)) e in
    view-IsRead m extra whole pieces
      (sym (erase_count-view pieces.0.state pieces.0 pieces.1)
        ∙ ap view same
        ∙ erase_count-view whole.0.state whole.0 whole.1)
      (feed-print_request m extra h)
