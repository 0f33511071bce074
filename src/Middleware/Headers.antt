-- ===== src/Middleware/Headers.antt =====
-- What the middlewares do to a response.
use http_storm.Common.{
  is_empty, ℕ, Bool, true, false, ◌||◌, Bytes, codes, lookup, lookup-insert, equal, List, ◌∷◌,
  if◌then◌else◌, ◌≡◌, refl, ap, ◌∙◌, Bool-cases, Option-cases, inl, inr, ◌⊎◌, Option, none, some,
}
use http_storm.Http.{HttpRequest, HttpResponse, set_header, set_json_body}
use http_storm.Middleware.{
  zlib_input, World, MiddlewareFn, MiddlewareNext, execute, secured, security_headers, compress,
  gzipped, accepts_gzip, rate_limiter, admit, default_burst, read_clock, too_many_requests,
}

-- What zlib is relied on for: inflating what deflate has packed gives it back.
pub record Zlib : Type 0 where
  pub deflate : Bytes → Option Bytes
  pub inflate : Bytes → Option Bytes
  pub inflate-deflate :
      (body packed : Bytes) → deflate body ≡ some packed → inflate packed ≡ some body

-- The body that a client reads: inflated, if the response says that it is packed.
abbrev pub decoded : (Bytes → Option Bytes) → HttpResponse → Option Bytes
decoded inflate resp = elim (lookup (codes "Content-Encoding") resp.headers) [
  | none ↦ some resp.body
  | some encoding ↦ if equal encoding (codes "gzip") then inflate resp.body else none
]

-- `compress` leaves the response alone, or packs it for a client that accepts that.
abbrev pub Compressed : (Bytes → Option Bytes) → HttpRequest → HttpResponse → HttpResponse → Type 0
Compressed deflate request response result =
    (result ≡ response)
    ⊎ ((packed : Bytes) × (deflate (zlib_input response.body) ≡ some packed)
        × (accepts_gzip request ≡ true)
        × (result ≡ gzipped packed response))

pub compress-Compressed :
    (deflate : Bytes → Option Bytes) (request : HttpRequest) (response : HttpResponse)
    → Compressed deflate request response (compress deflate request response)
unfolding compress
compress-Compressed deflate request response =
    elim (Bool-cases (response.compressed || is_empty response.body)) [
      | inl skip ↦ inl (rw skip refl)
      | inr body ↦ elim (Bool-cases (accepts_gzip request)) [
        | inr no_gzip ↦ inl (rw (body, no_gzip) refl)
        | inl gzip ↦ elim (Option-cases (deflate (zlib_input response.body))) [
          | inl failed ↦ inl (rw (body, gzip, failed) refl)
          | inr (packed, done) ↦ inr (packed, done, gzip, rw (body, gzip, done) refl)
        ]
      ]
    ]

-- Whatever the rest of the chain answers, `security_headers` sets X-Content-Type-Options to nosniff and
-- X-Frame-Options to SAMEORIGIN, and leaves the body, the status and Strict-Transport-Security as they are.
pub security_headers-set :
    (request : HttpRequest) (next : MiddlewareNext) (w : World)
    → let resp = (security_headers request next w).0 in
      (lookup (codes "X-Content-Type-Options") resp.headers ≡ some (codes "nosniff"))
      × (lookup (codes "X-Frame-Options") resp.headers ≡ some (codes "SAMEORIGIN"))
      × (lookup (codes "Strict-Transport-Security") resp.headers
          ≡ lookup (codes "Strict-Transport-Security") (next request w).0.headers)
      × (resp.body ≡ (next request w).0.body)
      × (resp.status_code ≡ (next request w).0.status_code)
unfolding security_headers secured set_header equal
security_headers-set request next w =
    (simp lookup-insert, simp lookup-insert, simp lookup-insert, refl, refl)

too_many_requests-headers :
    (rate : ℕ)
    → ((too_many_requests rate).status_code ≡ 429)
      × (lookup (codes "X-Content-Type-Options") (too_many_requests rate).headers ≡ none)
unfolding too_many_requests set_json_body set_header equal lookup
too_many_requests-headers rate = (refl, simp lookup-insert)

-- the bucket taken, and whether `rate_limiter` lets the request through
abbrev pub verdict : ℕ → ℕ → HttpRequest → World → Bool × World
verdict rate burst request w =
    let (now, w') = read_clock w in admit rate (default_burst rate burst) request.remote_addr now w'

rate_limiter-refused :
    (rate burst : ℕ) (next : MiddlewareNext) (request : HttpRequest) (w : World)
    → (verdict rate burst request w).0 ≡ false
    → rate_limiter rate burst request next w
      ≡ (too_many_requests rate, (verdict rate burst request w).1)
unfolding rate_limiter
rate_limiter-refused rate burst next request w h = rw h refl

-- A request that the rate limiter turns away is answered by 429 and goes no further: what stands behind
-- the limiter in the chain is not run, so that the answer has none of the security headers that a later
-- middleware sets, and the clock and the client's bucket are all that changes.
pub rate_limiter-denies :
    (rate burst : ℕ) (ms : List MiddlewareFn) (final : MiddlewareNext) (request : HttpRequest)
    (w : World)
    → (verdict rate burst request w).0 ≡ false
    → let (resp, after) = execute (rate_limiter rate burst ∷ ms) final request w in
      (resp.status_code ≡ 429)
      × (lookup (codes "X-Content-Type-Options") resp.headers ≡ none)
      × (after ≡ (verdict rate burst request w).1)
unfolding execute
rate_limiter-denies rate burst ms final request w h =
    let refused = rate_limiter-refused rate burst (execute ms final) request w h in
    let (status, header) = too_many_requests-headers rate in
    (
      ap (λ r. r.0.status_code) refused ∙ status,
      ap (λ r. lookup (codes "X-Content-Type-Options") r.0.headers) refused ∙ header,
      ap (λ r. r.1) refused,
    )
