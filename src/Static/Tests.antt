-- ===== src/Static/Tests.antt =====
-- A directory of one file, served by HTTP SERVER/HTTP Server/src/static_file_server.cpp.
use http_storm.Common.{
  Bool, false, Bytes, codes, [], ◌∷◌, ◌++◌, ◌≡◌, refl, equal, none, some, All, lookup, insert,
  print_digits, print_hex, to_string, tolower,
}
use http_storm.Http.{
  HttpRequest, HttpResponse, empty_request, empty_response, get, set_header, set_content_type,
  set_json_body,
}
use http_storm.Static.{
  FileSystem, StaticFileServer, new_server, sanitize_path, segments, path_join, as_directory,
  resolve_file, serve, target_file, join_onto, resolve_segments, segments_from, strip_slash,
  push_segment, file_entry, serve_file, is_modified_since, file_response, extension, filename_from,
  generate_etag, get_mime_type, last_dot, pop_back,
}
use http_storm.Static.Paths.{IsSafe, sanitize_path-IsSafe}
use http_storm.Static.Serving.{serve-revalidate}

sanitize_path-IsSafe_example :
    All IsSafe (segments (sanitize_path (codes "/a/../../etc//x")))
    × (path_join (codes "www") (sanitize_path (codes "/a/../../etc//x"))
        ≡ as_directory (codes "www") ++ sanitize_path (codes "/a/../../etc//x"))
sanitize_path-IsSafe_example = sanitize_path-IsSafe (codes "www") (codes "/a/../../etc//x")

abbrev is_page : Bytes → Bool
is_page path = equal path (codes "www/a.txt")

abbrev one_file : FileSystem
one_file = record {
  is_directory = λ path. equal path (codes "www");
  is_regular_file = is_page;
  file_size = λ path. some 2;
  last_write_time = λ path. some 5;
  read = λ path. some (codes "hi");
  to_system = λ t. t;
  http_date = λ t. codes "Thu, 01 Jan 1970 00:00:05 GMT";
}

abbrev site : StaticFileServer
site = new_server (codes "www") false

abbrev page_request : HttpRequest
page_request = record empty_request { method = get; path = codes "/a.txt" }

abbrev sent_page : HttpResponse
sent_page = elim (serve one_file site page_request) [ none ↦ empty_response | some r ↦ r ]

abbrev page_tag : Bytes
page_tag = codes "\"7\""

abbrev page_again : HttpRequest
page_again = record page_request { headers = (codes "if-none-match", page_tag) ∷ [] }

serve-revalidate_example :
    (answer : HttpResponse) × (serve one_file site page_again ≡ some answer)
    × (answer.status_code ≡ 304)
    × (answer.body ≡ [])
unfolding serve resolve_file equal path_join as_directory sanitize_path new_server lookup insert
    target_file join_onto resolve_segments segments_from strip_slash push_segment file_entry
    serve_file is_modified_since file_response extension filename_from generate_etag get_mime_type
    last_dot pop_back print_digits print_hex to_string tolower set_header set_content_type
    set_json_body
serve-revalidate_example =
    serve-revalidate one_file site page_request page_again sent_page page_tag refl refl refl refl
      refl
