-- ===== src/Server/Routes.antt =====
-- Server::register_default_routes of HTTP SERVER/HTTP Server/src/server.cpp. The JSON library is a
-- parameter; what the handlers read of the server and of the clocks is a status. A handler that throws
-- answers none.
use mathlib.Core.Option
use http_storm.Common.{
  is_empty, ℕ, Bool, true, Bytes, codes, List, [], ◌∷◌, if◌then◌else◌, Option, none, some,
}
use http_storm.Http.{HttpResponse, empty_response, set_json_body}
use http_storm.Parser.{method_to_string}
use http_storm.Static.{FileSystem, StaticFileServer, serve}
use http_storm.Router.{
  RouteHandler, Router, add_get, add_post, set_not_found_handler, set_method_not_allowed_handler,
}
use http_storm.Config.{ServerConfig}

-- nlohmann::json: its values, and `parse` and `dump`, either of which can throw.
pub record JsonLibrary (J : Type 0) : Type 0 where
  pub text : Bytes → J
  pub number : ℕ → J
  pub boolean : Bool → J
  pub object : List (Bytes × J) → J
  pub parse : Bytes → Option J
  pub dump : J → Option Bytes

-- What the handlers read when they run.
pub record ServerStatus : Type 0 where
  pub uptime_seconds : ℕ
  pub active_connections : ℕ
  pub total_requests : ℕ
  pub thread_pool_size : ℕ
  pub pending_tasks : ℕ
  -- system_clock::now(), in milliseconds
  pub timestamp : ℕ

abbrev pub answered : ℕ → Bytes → Bytes → HttpResponse
answered code message json =
    set_json_body json (record empty_response { status_code = code; status_message = message })

module _ {J : Type 0} (json : JsonLibrary J) where
  -- `resp.set_json_body(body.dump())`
  abbrev pub dumped : ℕ → Bytes → J → Option HttpResponse
  dumped code message body = Option.map (answered code message) (json.dump body)

  abbrev pub root_handler : RouteHandler (Option HttpResponse)
  root_handler request = some (
      answered 200 (codes "OK")
        (codes "{\"message\":\"High Performance HTTP Server\",\"version\":\"1.0.0\"}"))

  abbrev pub health_handler : ServerStatus → RouteHandler (Option HttpResponse)
  health_handler status request = dumped 200 (codes "OK") (
      json.object (
        (codes "status", json.text (codes "ok"))
        ∷ (codes "uptime_seconds", json.number status.uptime_seconds)
        ∷ (codes "active_connections", json.number status.active_connections)
        ∷ (codes "total_requests", json.number status.total_requests)
        ∷ (codes "thread_pool_size", json.number status.thread_pool_size)
        ∷ (codes "pending_tasks", json.number status.pending_tasks)
        ∷ []))

  abbrev pub status_handler : ServerConfig → ServerStatus → RouteHandler (Option HttpResponse)
  status_handler config status request = dumped 200 (codes "OK") (
      json.object (
        (codes "server", json.text (codes "hphttp"))
        ∷ (codes "version", json.text (codes "1.0.0"))
        ∷ (codes "uptime", json.number status.uptime_seconds)
        ∷ (codes "requests", json.number status.total_requests)
        ∷ (
          codes "connections",
          json.object (
              (codes "active", json.number status.active_connections)
              ∷ (codes "max", json.number config.max_connections)
              ∷ []),
        )
        ∷ (codes "tls", json.boolean config.tls.enabled)
        ∷ (codes "gzip", json.boolean config.enable_gzip)
        ∷ []))

  abbrev pub data_handler : ServerStatus → RouteHandler (Option HttpResponse)
  data_handler status request =
      if is_empty request.body
      then some
          (answered 400 (codes "Bad Request") (codes "{\"error\":\"Empty body\",\"code\":400}"))
      else elim (json.parse request.body) [
        | none ↦ some (
            answered 422 (codes "Unprocessable Entity")
              (codes "{\"error\":\"Invalid JSON\",\"code\":422}"))
        | some input ↦ dumped 200 (codes "OK") (
            json.object (
              (codes "received", input)
              ∷ (codes "processed", json.boolean true)
              ∷ (codes "timestamp", json.number status.timestamp)
              ∷ []))
      ]

  abbrev pub static_handler : FileSystem → StaticFileServer → RouteHandler (Option HttpResponse)
  static_handler fs files request = elim (serve fs files request) [
    | some result ↦ some result
    | none ↦
        some
          (answered 404 (codes "Not Found") (codes "{\"error\":\"File not found\",\"code\":404}"))
  ]

  abbrev pub default_not_found : RouteHandler (Option HttpResponse)
  default_not_found request = dumped 404 (codes "Not Found") (
      json.object (
        (codes "error", json.text (codes "Not Found"))
        ∷ (codes "path", json.text request.path)
        ∷ (codes "code", json.number 404)
        ∷ []))

  abbrev pub default_not_allowed : RouteHandler (Option HttpResponse)
  default_not_allowed request = dumped 405 (codes "Method Not Allowed") (
      json.object (
        (codes "error", json.text (codes "Method Not Allowed"))
        ∷ (codes "method", json.text (method_to_string request.method))
        ∷ (codes "code", json.number 405)
        ∷ []))

  -- `none` would be a pattern that std::regex refuses.
  unfoldable pub register_default_routes :
      FileSystem
      → StaticFileServer
      → ServerConfig
      → ServerStatus
      → Router (Option HttpResponse)
      → Option (Router (Option HttpResponse))
  register_default_routes fs files config status router =
      Option.map
        (λ r.
          set_method_not_allowed_handler default_not_allowed
            (set_not_found_handler default_not_found r))
        (Option.bind
          (Option.bind
            (Option.bind
              (Option.bind (add_get (codes "/") root_handler router)
                (add_get (codes "/health") (health_handler status)))
              (add_get (codes "/api/status") (status_handler config status)))
            (add_post (codes "/api/data") (data_handler status)))
          (add_get (codes "/static/*") (static_handler fs files)))
