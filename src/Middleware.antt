-- ===== src/Middleware.antt =====
-- MiddlewareChain and the middlewares of HTTP SERVER/HTTP Server/src/middleware.cpp.
-- A middleware reads clocks and random numbers, keeps buckets and writes logs: these are its world.
-- Times are nanoseconds of the steady clock, and a double is read as the exact number it stands for.
mod Effects
pub mod Limits
pub mod Admissions
pub mod Headers
mod Tests
use http_storm.Common.{
  is_empty, ℕ, zero, suc, ◌+◌, ◌-◌, ◌*◌, ◌/◌, ◌%◌, ◌^◌, min, Bool, true, false, not, ◌&&◌, ◌||◌,
  Bytes, codes, Dict, insert, lookup, length, take, List, [], ◌∷◌, ◌++◌, ◌==◌, ltb, if◌then◌else◌,
  Option, none, some, contains, to_string, print_hex, replicate, size_mod,
}
use http_storm.Http.{
  HttpMethod, options, HttpRequest, HttpResponse, empty_response, same_method, set_header,
  set_json_body,
}
use http_storm.Parser.{method_to_string}
unfoldable pub use Effects.*

abbrev pub MiddlewareNext : Type 0
MiddlewareNext = HttpRequest → M HttpResponse

abbrev pub MiddlewareFn : Type 0
MiddlewareFn = HttpRequest → MiddlewareNext → M HttpResponse

-- MiddlewareChain::use
abbrev pub add_middleware : List MiddlewareFn → MiddlewareFn → List MiddlewareFn
add_middleware middlewares m = middlewares ++ m ∷ []

-- MiddlewareChain::execute: `dispatch(index, req)` over the middlewares from `index` on
unfoldable pub execute : List MiddlewareFn → MiddlewareNext → MiddlewareNext
execute [] final_handler request = final_handler request
execute (m ∷ ms) final_handler request = m request (execute ms final_handler)

unfoldable pub request_logger : MiddlewareFn
request_logger request next = do
  start ← read_clock
  response ← next request
  end ← read_clock
  log_access (record {
    remote_addr = request.remote_addr;
    method = method_to_string request.method;
    path = request.path;
    status_code = response.status_code;
    response_size = length response.body;
    latency = end - start;
  })
  pure response

unfoldable pub preflight : Bytes → HttpResponse
preflight origins = set_header (codes "Access-Control-Max-Age") (codes "86400") (
    set_header (codes "Access-Control-Allow-Headers")
      (codes "Content-Type, Authorization, X-Request-ID")
      (set_header (codes "Access-Control-Allow-Methods")
        (codes "GET, POST, PUT, DELETE, PATCH, OPTIONS")
        (set_header (codes "Access-Control-Allow-Origin") origins
          (record empty_response { status_code = 204; status_message = codes "No Content" }))))

unfoldable pub cors : Bytes → MiddlewareFn
unfolding preflight
cors origins request next =
    if same_method request.method options then pure (preflight origins) else do
      response ← next request
      pure (
          set_header (codes "Vary") (codes "Origin")
            (set_header (codes "Access-Control-Allow-Origin") origins response))

-- `accept_encoding_it` is there and names gzip
abbrev pub accepts_gzip : HttpRequest → Bool
accepts_gzip request = elim (lookup (codes "accept-encoding") request.headers) [
  | none ↦ false
  | some value ↦ contains (codes "gzip") value
]

unfoldable pub gzipped : Bytes → HttpResponse → HttpResponse
gzipped packed response = set_header (codes "Vary") (codes "Accept-Encoding") (
    set_header (codes "Content-Length") (to_string (length packed)) (
      set_header (codes "Content-Encoding") (codes "gzip")
        (record response { body = packed; compressed = true })))

-- `static_cast<uInt>(body.size())` bytes of the body
abbrev pub zlib_input : Bytes → Bytes
zlib_input body = take (length body % 2 ^ 32) body

-- what gzip_compression makes of a response; `deflate` is zlib's, at the level of the middleware
unfoldable pub compress : (Bytes → Option Bytes) → HttpRequest → HttpResponse → HttpResponse
compress deflate request response =
    if response.compressed || is_empty response.body
    then response
    else if not (accepts_gzip request)
    then response
    else elim (deflate (zlib_input response.body)) [
      | none ↦ response
      | some packed ↦ gzipped packed response
    ]

unfoldable pub gzip_compression : (Bytes → Option Bytes) → MiddlewareFn
gzip_compression deflate request next = do
  response ← next request
  pure (compress deflate request response)

abbrev pub second : ℕ
second = 1_000_000_000

-- A std::unordered_map makes an empty bucket of an unknown client.
abbrev pub bucket_of : Bytes → Dict Bucket → Bucket
bucket_of client buckets = elim (lookup client buckets) [
  | some b ↦ b
  | none ↦ record { count = 0; window_start = 0 }
]

unfoldable pub replenish : ℕ → ℕ → ℕ → Bucket → Bucket
replenish rate burst now b = record {
  count = min burst (b.count + (now - b.window_start) * rate / second);
  window_start = now;
}

-- Whether the request is let through, and the bucket that it leaves.
unfoldable pub take_token : ℕ → ℕ → ℕ → Bucket → Bool × Bucket
unfolding replenish
take_token rate burst now b =
    let b' = replenish rate burst now b in
    if b'.count == 0 then (false, b') else (true, record b' { count = b'.count - 1 })

unfoldable pub too_many_requests : ℕ → HttpResponse
too_many_requests rate = set_json_body (codes "{\"error\":\"Too Many Requests\",\"code\":429}") (
    set_header (codes "X-RateLimit-Limit") (to_string rate) (
      set_header (codes "Retry-After") (codes "1")
        (record empty_response { status_code = 429; status_message = codes "Too Many Requests" })))

abbrev pub default_burst : ℕ → ℕ → ℕ
default_burst rate burst = if burst == 0 then rate * 2 % size_mod else burst

-- the block under the lock
unfoldable pub admit : ℕ → ℕ → Bytes → ℕ → M Bool
admit rate burst client now w =
    let (admitted, b) = take_token rate burst now (bucket_of client w.buckets) in
    (admitted, record w { buckets = insert client b w.buckets })

abbrev pub forward : ℕ → MiddlewareFn
forward rate request next = do
  response ← next request
  pure (set_header (codes "X-RateLimit-Limit") (to_string rate) response)

unfoldable pub rate_limiter : ℕ → ℕ → MiddlewareFn
rate_limiter rate burst request next = do
  now ← read_clock
  admitted ← admit rate (default_burst rate burst) request.remote_addr now
  if admitted then forward rate request next else pure (too_many_requests rate)

-- The timeout in milliseconds.
unfoldable pub request_timeout : ℕ → MiddlewareFn
request_timeout timeout request next = do
  start ← read_clock
  response ← next request
  end ← read_clock
  if ltb (timeout * 1_000_000) (end - start) then warn request.path timeout else pure tt
  pure response

unfoldable pub secured : HttpResponse → HttpResponse
secured response =
    set_header (codes "Content-Security-Policy")
      (codes "default-src 'self'; script-src 'self'; style-src 'self' 'unsafe-inline'")
      (set_header (codes "Permissions-Policy") (codes "geolocation=(), microphone=(), camera=()") (
        set_header (codes "Referrer-Policy") (codes "strict-origin-when-cross-origin") (
          set_header (codes "X-XSS-Protection") (codes "1; mode=block") (
            set_header (codes "X-Frame-Options") (codes "SAMEORIGIN")
              (set_header (codes "X-Content-Type-Options") (codes "nosniff") response)))))

unfoldable pub security_headers : MiddlewareFn
security_headers request next = do response ← next request; pure (secured response)

-- `std::setw(width) << std::setfill('0')`
abbrev pub pad_left : ℕ → Bytes → Bytes
pad_left width text = replicate (width - length text) b'0' ++ text

-- A number of 64 bits in 16 digits.
unfoldable pub fresh_id : ℕ → Bytes
fresh_id n = pad_left 16 (print_hex (suc n) n)

unfoldable pub request_id : MiddlewareFn
request_id request next = do
  req_id ← elim (lookup (codes "x-request-id") request.headers) [
    | some id ↦ pure id
    | none ↦ next_random >>= λ n. pure (fresh_id n)
  ]
  response ← next request
  pure (set_header (codes "X-Request-ID") req_id response)
