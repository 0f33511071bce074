-- ===== src/Server/AccessLog.antt =====
-- What the chain of the server writes to the access log.
use http_storm.Common.{
  either_way, ℕ, ◌-◌, Bool, true, false, Bytes, codes, lookup, length, List, [], ◌∷◌, ◌++◌, Option,
  Option-cases, inl, inr, ◌≡◌, refl, sym, ap, subst, ◌∙◌,
}
use http_storm.Http.{HttpRequest, HttpResponse}
use http_storm.Parser.{method_to_string}
use http_storm.Router.{Router, dispatch}
use http_storm.Middleware.{
  AccessEntry, World, M, pure, MiddlewareNext, add_middleware, execute, read_clock, next_random,
  request_logger, rate_limiter, admit, default_burst, too_many_requests, forward, gzip_compression,
  security_headers, request_id,
}
use http_storm.Config.{ServerConfig}
use http_storm.Server.{use_if, middleware_chain, dispatch_request}

-- A rest of the chain that leaves the access log alone.
abbrev pub Keeps : MiddlewareNext → Type 0
Keeps next = (request : HttpRequest) (w : World) → (next request w).1.access_log ≡ w.access_log

read_clock-log : (w : World) → (read_clock w).1.access_log ≡ w.access_log
unfolding read_clock
read_clock-log w = go w.delays refl
  where
    go : (ds : List ℕ) → w.delays ≡ ds → (read_clock w).1.access_log ≡ w.access_log
    go [] e = rw (e, read_clock) refl
    go (d ∷ ds) e = rw (e, read_clock) refl

next_random-log : (w : World) → (next_random w).1.access_log ≡ w.access_log
unfolding next_random
next_random-log w = go w.random refl
  where
    go : (ds : List ℕ) → w.random ≡ ds → (next_random w).1.access_log ≡ w.access_log
    go [] e = rw (e, next_random) refl
    go (d ∷ ds) e = rw (e, next_random) refl

security_headers-Keeps :
    (next : MiddlewareNext) → Keeps next → Keeps (λ request. security_headers request next)
unfolding security_headers
security_headers-Keeps next h request w = h request w

gzip_compression-Keeps :
    (deflate : Bytes → Option Bytes) (next : MiddlewareNext)
    → Keeps next
    → Keeps (λ request. gzip_compression deflate request next)
unfolding gzip_compression
gzip_compression-Keeps deflate next h request w = h request w

request_id-Keeps : (next : MiddlewareNext) → Keeps next → Keeps (λ request. request_id request next)
unfolding request_id
request_id-Keeps next h request w =
    elim (Option-cases (lookup (codes "x-request-id") request.headers)) [
      | inl e ↦ rw (e) (h request (next_random w).1 ∙ next_random-log w)
      | inr (id, e) ↦ rw (e) (h request w)
    ]

rate_limiter-Keeps :
    (rate burst : ℕ) (next : MiddlewareNext)
    → Keeps next
    → Keeps (λ request. rate_limiter rate burst request next)
unfolding rate_limiter admit
rate_limiter-Keeps rate burst next h request w =
    let (now, w1) = read_clock w in
    let (admitted, w2) = admit rate (default_burst rate burst) request.remote_addr now w1 in
    either_way (λ (m : M HttpResponse). (m w2).1.access_log ≡ w.access_log) admitted
      (forward rate request next) (pure (too_many_requests rate)) (h request w2 ∙ read_clock-log w)
      (read_clock-log w)

-- Behind the logger: the limiter and the compression, if they are on, and the two that always are.
abbrev behind_logger :
    (ℕ → Bytes → Option Bytes) → ServerConfig → Bool → Bool → MiddlewareNext → MiddlewareNext
behind_logger deflate config limits zips final =
    execute
      (add_middleware
        (add_middleware
          (use_if zips (gzip_compression (deflate config.gzip_level)) (
            use_if limits
              (rate_limiter config.rate_limit.requests_per_second config.rate_limit.burst_size) []))
          security_headers)
        request_id)
      final

module _ (deflate : ℕ → Bytes → Option Bytes) (config : ServerConfig) (final : MiddlewareNext) where
  behind_logger-Keeps :
      (limits zips : Bool) → Keeps final → Keeps (behind_logger deflate config limits zips final)
  unfolding execute
  behind_logger-Keeps true true h =
      rate_limiter-Keeps _ _ _
        (gzip_compression-Keeps _ _ (security_headers-Keeps _ (request_id-Keeps final h)))
  behind_logger-Keeps true false h =
      rate_limiter-Keeps _ _ _ (security_headers-Keeps _ (request_id-Keeps final h))
  behind_logger-Keeps false true h =
      gzip_compression-Keeps _ _ (security_headers-Keeps _ (request_id-Keeps final h))
  behind_logger-Keeps false false h = security_headers-Keeps _ (request_id-Keeps final h)

  -- the whole chain, with the logger first
  abbrev with_logger : Bool → Bool → Bool → MiddlewareNext
  with_logger logs limits zips =
      execute
        (add_middleware
          (add_middleware
            (use_if zips (gzip_compression (deflate config.gzip_level)) (
              use_if limits
                (rate_limiter config.rate_limit.requests_per_second config.rate_limit.burst_size)
                (use_if logs request_logger [])))
            security_headers)
          request_id)
        final

  with_logger-on :
      (limits zips : Bool)
      → with_logger true limits zips
        ≡ (λ request. request_logger request (behind_logger deflate config limits zips final))
  unfolding execute
  with_logger-on true true = refl
  with_logger-on true false = refl
  with_logger-on false true = refl
  with_logger-on false false = refl

-- The line for a request and its response; only the latency is the logger's own.
pub record IsEntry (request : HttpRequest) (resp : HttpResponse) (entry : AccessEntry)
    : Type 0 where
  pub remote_addr : entry.remote_addr ≡ request.remote_addr
  pub method : entry.method ≡ method_to_string request.method
  pub path : entry.path ≡ request.path
  pub status_code : entry.status_code ≡ resp.status_code
  pub response_size : entry.response_size ≡ length resp.body

-- The access log is longer by the line for a request and what is answered to it.
abbrev pub Logs : MiddlewareNext → Type 0
Logs next =
    (request : HttpRequest) (w : World)
    → (entry : AccessEntry) × ((next request w).1.access_log ≡ w.access_log ++ entry ∷ [])
      × IsEntry request (next request w).0 entry

request_logger-Logs :
    (next : MiddlewareNext) → Keeps next → Logs (λ request. request_logger request next)
unfolding request_logger
request_logger-Logs next h request w =
    let (start, w1) = read_clock w in
    let (resp, w2) = next request w1 in
    let (end, w3) = read_clock w2 in
    let entry : AccessEntry = record {
      remote_addr = request.remote_addr;
      method = method_to_string request.method;
      path = request.path;
      status_code = resp.status_code;
      response_size = length resp.body;
      latency = end - start;
    } in
    (
      entry,
      ap (λ l. l ++ entry ∷ []) (read_clock-log w2 ∙ h request w1 ∙ read_clock-log w),
      record {
        remote_addr = refl;
        method = refl;
        path = refl;
        status_code = refl;
        response_size = refl;
      },
    )

-- If access logging is on and no handler of the router writes to the access log, every request that the server
-- dispatches adds one line to it: with the client, the method and the path of the request, and the status and the
-- size of the body of the response that the server sends, also when the limiter refuses the request or the
-- compression changes the body.
pub dispatch_request-Logs :
    (deflate : ℕ → Bytes → Option Bytes) (config : ServerConfig) (router : Router (M HttpResponse))
    → config.log_access ≡ true
    → Keeps (dispatch pure router)
    → Logs (dispatch_request (middleware_chain deflate config) router)
unfolding dispatch_request middleware_chain
dispatch_request-Logs deflate config router on quiet =
    let limits = config.rate_limit.enabled in
    let zips = config.enable_gzip in
    let final = dispatch pure router in
    subst (λ b. Logs (with_logger deflate config final b limits zips)) (sym on)
      (subst Logs (sym (with_logger-on deflate config final limits zips)) (
        request_logger-Logs (behind_logger deflate config limits zips final)
          (behind_logger-Keeps deflate config final limits zips quiet)))
