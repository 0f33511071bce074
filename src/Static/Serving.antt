-- ===== src/Static/Serving.antt =====
-- What StaticFileServer::serve answers.
use mathlib.Core.Option
use http_storm.Common.{
  Bytes, codes, [], ◌==◌, if◌then◌else◌, ◌≡◌, refl, subst, ap, ◌∙◌, arith, equal, equal_refl,
  lookup, lookup-insert, Option-cases, inl, inr, none, some,
}
use http_storm.Http.{
  get, head, HttpRequest, HttpResponse, set_header, set_json_body, set_content_type,
}
use http_storm.Static.{
  StaticFileServer, FileSystem, FileEntry, serve, serve_file, resolve_file, is_modified_since,
  file_response, not_modified, open_failed,
}

-- A sent file without its content.
abbrev pub without_content : HttpResponse → HttpResponse
without_content resp = if resp.status_code == 200 then record resp { body = [] } else resp

module _ (fs : FileSystem) (s : StaticFileServer) where
  file_response-status :
      (entry : FileEntry) (content : Bytes) → (file_response fs s entry content).status_code ≡ 200
  unfolding file_response set_header set_content_type
  file_response-status entry content = refl

  not_modified-status : (entry : FileEntry) → (not_modified fs entry).status_code ≡ 304
  unfolding set_header
  not_modified-status entry = refl

  not_modified-body : (entry : FileEntry) → (not_modified fs entry).body ≡ []
  unfolding set_header
  not_modified-body entry = refl

  open_failed-status : (open_failed fs).status_code ≡ 500
  unfolding set_json_body
  open_failed-status = refl

  serve_file-head :
      (entry : FileEntry) (request : HttpRequest)
      → serve_file fs s entry (record request { method = head })
        ≡ without_content (serve_file fs s entry (record request { method = get }))
  unfolding serve_file is_modified_since
  serve_file-head entry request = elim (Option-cases (fs.read entry.path)) [
    | inl e ↦ ground (arith, open_failed-status, not_modified-status entry)
    | inr (content, e) ↦
        ground (arith, file_response-status entry content, not_modified-status entry)
  ]

  -- A HEAD request is answered as the GET request for the same path with the same headers is, status,
  -- message and headers alike, and without the content where a file is sent.
  pub serve-head :
      (request : HttpRequest)
      → serve fs s (record request { method = head })
        ≡ Option.map without_content (serve fs s (record request { method = get }))
  unfolding serve
  serve-head request = elim (Option-cases (resolve_file fs s request.path)) [
    | inl e ↦ rw e refl
    | inr (entry, e) ↦ rw e (ap some (serve_file-head entry request))
  ]

  file_response-etag :
      (entry : FileEntry) (content : Bytes)
      → lookup (codes "ETag") (file_response fs s entry content).headers ≡ some entry.etag
  unfolding file_response set_header set_content_type equal
  file_response-etag entry content = simp lookup-insert

  open_failed-etag : lookup (codes "ETag") (open_failed fs).headers ≡ none
  unfolding set_json_body equal lookup
  open_failed-etag = simp lookup-insert

  not_modified-etag :
      (entry : FileEntry) → lookup (codes "ETag") (not_modified fs entry).headers ≡ some entry.etag
  unfolding set_header equal
  not_modified-etag entry = simp lookup-insert

  serve_file-etag :
      (entry : FileEntry) (request : HttpRequest) (tag : Bytes)
      → lookup (codes "ETag") (serve_file fs s entry request).headers ≡ some tag
      → tag ≡ entry.etag
  unfolding serve_file
  serve_file-etag entry request tag e = elim (Option-cases (fs.read entry.path)) [
    | inl f ↦ ground (arith, open_failed-etag, not_modified-etag entry)
    | inr (content, f) ↦ ground (arith, file_response-etag entry content, not_modified-etag entry)
  ]

  serve_file-tagged :
      (entry : FileEntry) (again : HttpRequest)
      → lookup (codes "if-none-match") again.headers ≡ some entry.etag
      → serve_file fs s entry again ≡ not_modified fs entry
  unfolding serve_file is_modified_since
  serve_file-tagged entry again h = ground (arith, equal_refl entry.etag)

  serve-inv :
      (request : HttpRequest) {first : HttpResponse}
      → serve fs s request ≡ some first
      → (entry : FileEntry) × (resolve_file fs s request.path ≡ some entry)
        × (first ≡ serve_file fs s entry request)
        × ((again : HttpRequest)
            → again.method ≡ request.method
            → again.path ≡ request.path
            → serve fs s again ≡ some (serve_file fs s entry again))
  unfolding serve
  serve-inv request e = elim (Option-cases (resolve_file fs s request.path)) [
    | inl f ↦ absurd (ground arith)
    | inr (entry, f) ↦ (entry, f, ground arith, λ again m p. ground arith)
  ]

  -- The ETag that `serve` sends for a request is answered by "304 Not Modified" with an empty body
  -- when it comes back in If-None-Match with the same method and path, while the files stay as they are.
  pub serve-revalidate :
      (request again : HttpRequest) (first : HttpResponse) (tag : Bytes)
      → serve fs s request ≡ some first
      → lookup (codes "ETag") first.headers ≡ some tag
      → again.path ≡ request.path
      → again.method ≡ request.method
      → lookup (codes "if-none-match") again.headers ≡ some tag
      → (answer : HttpResponse) × (serve fs s again ≡ some answer)
        × (answer.status_code ≡ 304)
        × (answer.body ≡ [])
  serve-revalidate request again first tag e t p m h =
      let (entry, _, same, others) = serve-inv request e in
      let tag_eq =
        serve_file-etag entry request tag
          (subst (λ r. lookup (codes "ETag") r.headers ≡ some tag) same t) in
      (
        not_modified fs entry,
        others again m p ∙ ap some (serve_file-tagged entry again (h ∙ ap some tag_eq)),
        not_modified-status entry,
        not_modified-body entry,
      )
