-- ===== src/Server.antt =====
-- The chain of middlewares that HTTP SERVER/HTTP Server/src/server.cpp builds from its configuration,
-- and the request's way through it to the router.
pub mod Chain
pub mod Table
pub mod Limits
pub mod Keys
pub mod Cleanup
pub mod Reuse
pub mod Handles
pub mod Routes
pub mod Defaults
pub mod Lifecycle
pub mod EventLoop
pub mod Idle
pub mod Descriptors
pub mod Startup
pub mod Stopping
pub mod AccessLog
mod Tests
use http_storm.Common.{ℕ, Bool, true, false, Bytes, Option, List, [], ◌∷◌, if◌then◌else◌}
use http_storm.Http.{HttpRequest, HttpResponse}
use http_storm.Router.{Router, dispatch}
use http_storm.Middleware.{
  M, pure, MiddlewareFn, add_middleware, execute, request_logger, rate_limiter, gzip_compression,
  security_headers, request_id,
}
use http_storm.Config.{ServerConfig}

-- `if (enabled) middleware_->use(m)`
abbrev pub use_if : Bool → MiddlewareFn → List MiddlewareFn → List MiddlewareFn
use_if enabled m chain = if enabled then add_middleware chain m else chain

-- The constructor's calls of `use`; zlib's deflate is a parameter, at each level.
unfoldable pub middleware_chain : (ℕ → Bytes → Option Bytes) → ServerConfig → List MiddlewareFn
middleware_chain deflate config =
    add_middleware
      (add_middleware
        (use_if config.enable_gzip (gzip_compression (deflate config.gzip_level)) (
          use_if config.rate_limit.enabled
            (rate_limiter config.rate_limit.requests_per_second config.rate_limit.burst_size)
            (use_if config.log_access request_logger [])))
        security_headers)
      request_id

unfoldable pub dispatch_request :
    List MiddlewareFn → Router (M HttpResponse) → HttpRequest → M HttpResponse
dispatch_request middlewares router request = execute middlewares (dispatch pure router) request
