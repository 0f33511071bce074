-- ===== src/Static.antt =====
-- StaticFileServer of HTTP SERVER/HTTP Server/src/static_file_server.cpp. The file system, the clocks
-- and the printed date are an argument; paths are byte strings with the separator `/`.
mod Segments
pub mod Paths
pub mod Serving
mod Tests
use Prim.Native.Nat.{bit_xor}
use http_storm.Common.{
  ℕ, zero, suc, ◌+◌, ◌-◌, ◌/◌, ◌%◌, Bool, true, false, not, ◌&&◌, ◌||◌, Bytes, codes, Dict, insert,
  lookup, length, List, [], ◌∷◌, ◌++◌, ◌==◌, ltb, if◌then◌else◌, Option, none, some, equal, map,
  tolower, to_string, print_hex,
}
use http_storm.Http.{
  HttpMethod, get, head, HttpRequest, HttpResponse, empty_response, same_method, set_header,
  set_json_body, set_content_type,
}
unfoldable pub use Segments.*

-- The file system, as far as the server asks it. `none` is an error code, or a file that does not open.
pub record FileSystem : Type 0 where
  pub is_directory : Bytes → Bool
  pub is_regular_file : Bytes → Bool
  pub file_size : Bytes → Option ℕ
  pub last_write_time : Bytes → Option ℕ
  pub read : Bytes → Option Bytes
  -- a file time as a system time, and its text by "%a, %d %b %Y %H:%M:%S GMT"
  pub to_system : ℕ → ℕ
  pub http_date : ℕ → Bytes

pub record FileEntry : Type 0 where
  pub path : Bytes
  pub content_type : Bytes
  pub size : ℕ
  pub last_modified : ℕ
  pub etag : Bytes

pub record StaticFileServer : Type 0 where
  pub root_dir : Bytes
  pub enable_directory_listing : Bool
  pub index_file : Bytes
  pub cache_max_age : ℕ
  pub mime_types : Dict Bytes

abbrev pub default_mime_types : Dict Bytes
default_mime_types =
    (codes ".html", codes "text/html; charset=utf-8")
    ∷ (codes ".htm", codes "text/html; charset=utf-8")
    ∷ (codes ".css", codes "text/css; charset=utf-8")
    ∷ (codes ".js", codes "application/javascript; charset=utf-8")
    ∷ (codes ".mjs", codes "application/javascript; charset=utf-8")
    ∷ (codes ".json", codes "application/json; charset=utf-8")
    ∷ (codes ".xml", codes "application/xml; charset=utf-8")
    ∷ (codes ".txt", codes "text/plain; charset=utf-8")
    ∷ (codes ".md", codes "text/markdown; charset=utf-8")
    ∷ (codes ".png", codes "image/png")
    ∷ (codes ".jpg", codes "image/jpeg")
    ∷ (codes ".jpeg", codes "image/jpeg")
    ∷ (codes ".gif", codes "image/gif")
    ∷ (codes ".webp", codes "image/webp")
    ∷ (codes ".svg", codes "image/svg+xml")
    ∷ (codes ".ico", codes "image/x-icon")
    ∷ (codes ".woff", codes "font/woff")
    ∷ (codes ".woff2", codes "font/woff2")
    ∷ (codes ".ttf", codes "font/ttf")
    ∷ (codes ".eot", codes "application/vnd.ms-fontobject")
    ∷ (codes ".pdf", codes "application/pdf")
    ∷ (codes ".zip", codes "application/zip")
    ∷ (codes ".gz", codes "application/gzip")
    ∷ (codes ".mp4", codes "video/mp4")
    ∷ (codes ".webm", codes "video/webm")
    ∷ (codes ".mp3", codes "audio/mpeg")
    ∷ (codes ".wav", codes "audio/wav")
    ∷ []

unfoldable pub new_server : Bytes → Bool → StaticFileServer
new_server root listing = record {
  root_dir = root;
  enable_directory_listing = listing;
  index_file = codes "index.html";
  cache_max_age = 3600;
  mime_types = default_mime_types;
}

unfoldable pub add_custom_mime_type : Bytes → Bytes → StaticFileServer → StaticFileServer
add_custom_mime_type ext mime s = record s { mime_types = insert ext mime s.mime_types }

unfoldable pub set_cache_max_age : ℕ → StaticFileServer → StaticFileServer
set_cache_max_age seconds s = record s { cache_max_age = seconds }

unfoldable pub set_index_file : Bytes → StaticFileServer → StaticFileServer
set_index_file name s = record s { index_file = name }

unfoldable pub get_mime_type : StaticFileServer → Bytes → Bytes
get_mime_type s ext = elim (lookup (map tolower ext) s.mime_types) [
  | none ↦ codes "application/octet-stream"
  | some mime ↦ mime
]

module _ (fs : FileSystem) where
  unfoldable pub generate_etag : Bytes → ℕ → Bytes
  generate_etag path size = elim (fs.last_write_time path) [
    | none ↦ codes "\"unknown\""
    | some ns ↦ codes "\"" ++ (print_hex (suc (bit_xor ns size)) (bit_xor ns size) ++ codes "\"")
  ]

  -- the file that `resolve_file` looks at: the index file of a directory
  unfoldable pub target_file : StaticFileServer → Bytes → Bytes
  target_file s url_path =
      let full_path = path_join s.root_dir (sanitize_path url_path) in
      if fs.is_directory full_path then path_join full_path s.index_file else full_path

  -- the entry of a regular file
  unfoldable pub file_entry : StaticFileServer → Bytes → Option FileEntry
  file_entry s path = elim (fs.file_size path) [
    | none ↦ none
    | some size ↦ elim (fs.last_write_time path) [
      | none ↦ none
      | some ftime ↦ some (record {
        path = path;
        content_type = get_mime_type s (extension path);
        size = size;
        last_modified = fs.to_system ftime;
        etag = generate_etag path size;
      })
    ]
  ]

  unfoldable pub resolve_file : StaticFileServer → Bytes → Option FileEntry
  resolve_file s url_path =
      if fs.is_regular_file (target_file s url_path)
      then file_entry s (target_file s url_path)
      else none

  unfoldable pub is_modified_since : FileEntry → HttpRequest → Bool
  is_modified_since entry request = elim (lookup (codes "if-none-match") request.headers) [
    | none ↦ true
    | some tag ↦ not (equal tag entry.etag)
  ]

  abbrev pub not_modified : FileEntry → HttpResponse
  not_modified entry =
      set_header (codes "ETag") entry.etag
        (record empty_response { status_code = 304; status_message = codes "Not Modified" })

  abbrev pub open_failed : HttpResponse
  open_failed =
      set_json_body (codes "{\"error\":\"Failed to open file\",\"code\":500}")
        (record empty_response {
          status_code = 500;
          status_message = codes "Internal Server Error";
        })

  unfoldable pub file_response : StaticFileServer → FileEntry → Bytes → HttpResponse
  file_response s entry content =
      set_header (codes "Last-Modified") (fs.http_date entry.last_modified) (
        set_header (codes "Accept-Ranges") (codes "bytes") (
          set_header (codes "Cache-Control") (codes "public, max-age=" ++ to_string s.cache_max_age)
            (set_header (codes "ETag") entry.etag (
              set_header (codes "Content-Length") (to_string entry.size)
                (set_content_type entry.content_type (record empty_response { body = content }))))))

  unfoldable pub serve_file : StaticFileServer → FileEntry → HttpRequest → HttpResponse
  serve_file s entry request =
      if not (is_modified_since entry request)
      then not_modified entry
      else elim (fs.read entry.path) [
        | none ↦ open_failed
        | some content ↦
            if same_method request.method head
            then record (file_response s entry content) { body = [] }
            else file_response s entry content
      ]

  unfoldable pub serve : StaticFileServer → HttpRequest → Option HttpResponse
  serve s request =
      if not (same_method request.method get) && not (same_method request.method head)
      then none
      else elim (resolve_file s request.path) [
        | none ↦ none
        | some entry ↦ some (serve_file s entry request)
      ]

  unfoldable pub can_serve : StaticFileServer → Bytes → Bool
  can_serve s path =
      let full_path = path_join s.root_dir (sanitize_path path) in
      if equal (sanitize_path path) []
      then false
      else if fs.is_regular_file full_path
      then true
      else if fs.is_directory full_path
      then fs.is_regular_file (path_join full_path s.index_file) || s.enable_directory_listing
      else false
