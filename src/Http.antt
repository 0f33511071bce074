-- ===== src/Http.antt =====
-- The data of a message: HttpMethod, HttpVersion, HttpRequest and HttpResponse of
-- HTTP SERVER/HTTP Server/include/http_parser.hpp, and the methods of HttpResponse.
use http_storm.Common.{
  ℕ, Bool, true, false, Bytes, codes, Dict, insert, to_string, length, [], ◌∷◌, ◌++◌, ◌≡◌, arith,
  ◌==◌, ◌↔◌,
}

pub data HttpMethod : Type 0 where
  get post put delete patch head options unknown : HttpMethod

pub data HttpVersion : Type 0 where
  http_1_0 http_1_1 http_2_0 unknown : HttpVersion

-- The value of an enumerator; the source compares methods by it.
abbrev pub ordinal : HttpMethod → ℕ
ordinal get = 0
ordinal post = 1
ordinal put = 2
ordinal delete = 3
ordinal patch = 4
ordinal head = 5
ordinal options = 6
ordinal HttpMethod.unknown = 7

abbrev pub same_method : HttpMethod → HttpMethod → Bool
same_method a b = ordinal a == ordinal b

pub same_method_iff : (a b : HttpMethod) → (same_method a b ≡ true) ↔ (a ≡ b)
same_method_iff a b = ground arith

pub record HttpRequest : Type 0 where
  pub method : HttpMethod
  pub path : Bytes
  pub query_string : Bytes
  pub version : HttpVersion
  pub headers : Dict Bytes
  pub query_params : Dict Bytes
  pub body : Bytes
  pub remote_addr : Bytes
  pub keep_alive : Bool
  pub content_length : ℕ

abbrev pub empty_request : HttpRequest
empty_request = record {
  method = HttpMethod.unknown;
  path = [];
  query_string = [];
  version = HttpVersion.unknown;
  headers = [];
  query_params = [];
  body = [];
  remote_addr = [];
  keep_alive = false;
  content_length = 0;
}

pub record HttpResponse : Type 0 where
  pub status_code : ℕ
  pub status_message : Bytes
  pub headers : Dict Bytes
  pub body : Bytes
  pub compressed : Bool

abbrev pub empty_response : HttpResponse
empty_response = record {
  status_code = 200;
  status_message = codes "OK";
  headers = [];
  body = [];
  compressed = false;
}

unfoldable pub set_header : Bytes → Bytes → HttpResponse → HttpResponse
set_header key value resp = record resp { headers = insert key value resp.headers }

unfoldable pub set_json_body : Bytes → HttpResponse → HttpResponse
set_json_body json resp = record resp {
  body = json;
  headers =
      insert (codes "Content-Length") (to_string (length json))
        (insert (codes "Content-Type") (codes "application/json; charset=utf-8") resp.headers);
}

unfoldable pub set_content_type : Bytes → HttpResponse → HttpResponse
set_content_type content_type resp = record resp {
  headers = insert (codes "Content-Type") content_type resp.headers;
}

abbrev pub crlf : Bytes
crlf = b'\r' ∷ b'\n' ∷ []

-- One line for each header, in the order in which the map is walked.
unfoldable pub header_lines : Dict Bytes → Bytes
header_lines [] = []
header_lines ((key, value) ∷ rest) = key ++ codes ": " ++ value ++ crlf ++ header_lines rest

-- The order in which a std::unordered_map is walked is not specified: `walk` lists the entries in it.
unfoldable pub serialize : (Dict Bytes → Dict Bytes) → HttpResponse → Bytes
unfolding header_lines
serialize walk resp =
    codes "HTTP/1.1 "
    ++ (to_string resp.status_code
        ++ (b' ' ∷ resp.status_message)
        ++ crlf
        ++ header_lines (walk resp.headers)
        ++ crlf
        ++ resp.body)
