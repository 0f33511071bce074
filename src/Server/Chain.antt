-- ===== src/Server/Chain.antt =====
-- What the chain of the server does to every response.
use http_storm.Common.{
  ℕ, Bool, true, false, Bytes, codes, lookup, lookup-insert, equal, Option, some, inl, inr, [], ◌≡◌,
  sym, subst,
}
use http_storm.Http.{HttpRequest, HttpResponse, set_header}
use http_storm.Router.{Router, dispatch}
use http_storm.Middleware.{
  World, M, pure, MiddlewareNext, add_middleware, execute, request_logger, gzip_compression,
  gzipped, compress, security_headers, secured, request_id,
}
use http_storm.Middleware.Headers.{compress-Compressed}
use http_storm.Config.{ServerConfig}
use http_storm.Server.{use_if, middleware_chain, dispatch_request}

-- The headers that no response of the chain goes without.
pub record IsHardened (resp : HttpResponse) : Type 0 where
  pub sniffing : lookup (codes "X-Content-Type-Options") resp.headers ≡ some (codes "nosniff")
  pub framing : lookup (codes "X-Frame-Options") resp.headers ≡ some (codes "SAMEORIGIN")
  pub scripting : lookup (codes "X-XSS-Protection") resp.headers ≡ some (codes "1; mode=block")
  pub referring :
      lookup (codes "Referrer-Policy") resp.headers ≡ some (codes "strict-origin-when-cross-origin")
  pub permitting :
      lookup (codes "Permissions-Policy") resp.headers
      ≡ some (codes "geolocation=(), microphone=(), camera=()")
  pub loading :
      lookup (codes "Content-Security-Policy") resp.headers
      ≡ some (codes "default-src 'self'; script-src 'self'; style-src 'self' 'unsafe-inline'")

-- A rest of the chain that always answers with them.
abbrev pub Hardens : MiddlewareNext → Type 0
Hardens next = (request : HttpRequest) (w : World) → IsHardened (next request w).0

secured-IsHardened : (resp : HttpResponse) → IsHardened (secured resp)
unfolding secured set_header equal
secured-IsHardened resp = record {
  sniffing = simp lookup-insert;
  framing = simp lookup-insert;
  scripting = simp lookup-insert;
  referring = simp lookup-insert;
  permitting = simp lookup-insert;
  loading = simp lookup-insert;
}

security_headers-Hardens :
    (next : MiddlewareNext) → Hardens (λ request. security_headers request next)
unfolding security_headers
security_headers-Hardens next request w = secured-IsHardened (next request w).0

request_logger-Hardens :
    (next : MiddlewareNext) → Hardens next → Hardens (λ request. request_logger request next)
unfolding request_logger
request_logger-Hardens next h request w = h request _

gzipped-IsHardened :
    (packed : Bytes) (resp : HttpResponse) → IsHardened resp → IsHardened (gzipped packed resp)
unfolding gzipped set_header equal
gzipped-IsHardened packed resp h = record {
  sniffing = simp (lookup-insert, h.sniffing);
  framing = simp (lookup-insert, h.framing);
  scripting = simp (lookup-insert, h.scripting);
  referring = simp (lookup-insert, h.referring);
  permitting = simp (lookup-insert, h.permitting);
  loading = simp (lookup-insert, h.loading);
}

compress-IsHardened :
    (deflate : Bytes → Option Bytes) (request : HttpRequest) (resp : HttpResponse)
    → IsHardened resp
    → IsHardened (compress deflate request resp)
compress-IsHardened deflate request resp h = elim (compress-Compressed deflate request resp) [
  | inl same ↦ subst IsHardened (sym same) h
  | inr (packed, _, _, result) ↦ subst IsHardened (sym result) (gzipped-IsHardened packed resp h)
]

gzip_compression-Hardens :
    (deflate : Bytes → Option Bytes) (next : MiddlewareNext)
    → Hardens next
    → Hardens (λ request. gzip_compression deflate request next)
unfolding gzip_compression
gzip_compression-Hardens deflate next h request w =
    compress-IsHardened deflate request (next request w).0 (h request w)

-- the chain without a limiter
module _ (deflate : ℕ → Bytes → Option Bytes) (config : ServerConfig) (final : MiddlewareNext) where
  chain-Hardens :
      (logs zips : Bool)
      → Hardens (
          execute
            (add_middleware
              (add_middleware
                (use_if zips
                  (gzip_compression (deflate config.gzip_level))
                  (use_if logs request_logger []))
                security_headers)
              request_id)
            final)
  unfolding execute
  chain-Hardens true true =
      request_logger-Hardens _ (gzip_compression-Hardens _ _ (security_headers-Hardens _))
  chain-Hardens true false = request_logger-Hardens _ (security_headers-Hardens _)
  chain-Hardens false true = gzip_compression-Hardens _ _ (security_headers-Hardens _)
  chain-Hardens false false = security_headers-Hardens _

-- Without rate limiting, every response that the chain of middlewares gives carries the six headers of
-- `security_headers` with their values, whatever the route answers, whether the path is known or not, and
-- whether or not the response is logged and compressed. The 400 and the 413 that a connection answers by
-- itself do not come from the chain.
pub dispatch_request-IsHardened :
    (deflate : ℕ → Bytes → Option Bytes) (config : ServerConfig) (router : Router (M HttpResponse))
    (request : HttpRequest) (w : World)
    → config.rate_limit.enabled ≡ false
    → IsHardened (dispatch_request (middleware_chain deflate config) router request w).0
unfolding dispatch_request middleware_chain
dispatch_request-IsHardened deflate config router request w e = rw e (
    chain-Hardens deflate config (dispatch pure router) config.log_access config.enable_gzip request
      w)
