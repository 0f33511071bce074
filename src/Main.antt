-- ===== src/Main.antt =====
-- main of HTTP SERVER/HTTP Server/src/main.cpp: the command line, the configuration, the logger, and the
-- server with the route /api/echo. What the program finds in its surroundings is a Surroundings.
pub mod Arguments
pub mod Exits
pub mod Echo
mod Tests
use mathlib.Core.Option
use http_storm.Common.{
  ℕ, Bool, true, false, ◌||◌, Bytes, codes, equal, List, [], ◌∷◌, ◌++◌, map, if◌then◌else◌, Option,
  none, some,
}
use http_storm.Http.{HttpRequest, HttpResponse}
use http_storm.Parser.{method_to_string}
use http_storm.Router.{RouteHandler, Router, add_get}
use http_storm.Config.{ServerConfig, defaults}
use http_storm.Config.Loading.{JsonOps, ConfigLoader, new_loader, load}
use http_storm.Tls.{OpenSsl, Setup, ready, thrown}
use http_storm.Logger.{Spdlog, Logger, new_logger, init}
use http_storm.Server.Routes.{JsonLibrary, dumped}
use http_storm.Server.Table.{ConnectionOps}
use http_storm.Server.Lifecycle.{System, Server, construct, destruct}
use http_storm.Server.EventLoop.{
  Round, Loop, left, waits, broken_off, Started, threw, looped, start,
}

abbrev pub default_path : Bytes
default_path = codes "config/server_config.json"

abbrev pub is_config : Bytes → Bool
is_config arg = equal arg (codes "--config") || equal arg (codes "-c")

abbrev pub is_help : Bytes → Bool
is_help arg = equal arg (codes "--help") || equal arg (codes "-h")

-- The loop over argv[1], argv[2], ...: the path, or none where the help is printed.
unfoldable pub parse_args : List Bytes → Bytes → Option Bytes
parse_args [] config_path = some config_path
parse_args (arg ∷ []) config_path = if is_help arg then none else some config_path
parse_args (arg ∷ value ∷ rest) config_path =
    let behind = parse_args rest value in
    let next = parse_args (value ∷ rest) config_path in
    if is_config arg then behind else if is_help arg then none else next

-- the handler of /api/echo; `dump` can throw
abbrev pub echo_handler : {J : Type 0} → JsonLibrary J → RouteHandler (Option HttpResponse)
echo_handler json request = dumped json 200 (codes "OK") (
    json.object (
      (codes "method", json.text (method_to_string request.method))
      ∷ (codes "path", json.text request.path)
      ∷ (
        codes "headers",
        json.object (map (λ (h : Bytes × Bytes). (h.0, json.text h.1)) request.headers),
      )
      ∷ (codes "query", json.text request.query_string)
      ∷ []))

unfoldable pub register_echo :
    {J : Type 0}
    → JsonLibrary J
    → Router (Option HttpResponse)
    → Option (Router (Option HttpResponse))
register_echo json router = add_get (codes "/api/echo") (echo_handler json) router

-- How the program ends.
pub data Ended (C : Type 0) : Type 0 where
  -- the exit code, and the server, if there was one, as its destructor leaves it
  returned : ℕ → Option (Server C) → Ended C
  -- it is in the loop of the server
  serving : Server C → Ended C
  -- an exception has left main
  terminated : Ended C

abbrev pub exit_success : ℕ
exit_success = 0

abbrev pub exit_failure : ℕ
exit_failure = 1

-- std::filesystem::exists, what a file holds, and std::thread::hardware_concurrency
pub record Surroundings : Type 0 where
  pub exists : Bytes → Bool
  pub contents : Bytes → Option Bytes
  pub concurrency : ℕ

-- What the block of the configuration ends with.
pub data Configured : Type 0 where
  configured : ServerConfig → Configured
  -- the error of the loader, which is printed
  config_error : Configured
  -- an exception of the loader
  load_threw : Configured

abbrev loaded_config : ConfigLoader × Option Bool → Configured
loaded_config (loader, none) = load_threw
loaded_config (loader, some ok) = if ok then configured loader.config else config_error

unfoldable pub load_config : {J : Type 0} → JsonOps J → Surroundings → Bytes → Configured
load_config json around config_path =
    if around.exists config_path
    then loaded_config
        (load json around.concurrency config_path (around.contents config_path) new_loader)
    else configured (defaults around.concurrency)

module _ {C J : Type 0} (ops : ConnectionOps C) (json : JsonOps J) (ssl : OpenSsl) (spdlog : Spdlog)
    (around : Surroundings) (system : System) (rounds : List (Round C)) where
  -- behind `start`: the server is destroyed at the end of the block
  abbrev pub after_start : Started C → Ended C
  after_start (threw s message) = returned exit_failure (some (destruct ops s))
  after_start (looped (left s)) = returned exit_success (some (destruct ops s))
  after_start (looped (waits s last_cleanup)) = serving s
  -- `start` gives no other: an exception of the loop is one of `start`
  after_start (looped (broken_off s message)) = returned exit_failure (some (destruct ops s))

  -- the block of `try`; the route that it registers is register_echo, and a Server holds no router
  unfoldable pub run_server : ServerConfig → Ended C
  run_server config = elim (construct ssl around.concurrency config) [
    | thrown message warnings ↦ returned exit_failure none
    | ready s warnings ↦ after_start (start ops system rounds s)
  ]

  -- Logger::init stands before the block.
  abbrev pub logged_run : ServerConfig → Ended C
  logged_run config = elim (init spdlog config.log_level config.log_file new_logger) [
    | none ↦ terminated
    | some logger ↦ run_server config
  ]

  abbrev pub configured_run : Bytes → Ended C
  configured_run config_path = elim (load_config json around config_path) [
    | config_error ↦ returned exit_failure none
    | load_threw ↦ terminated
    | configured config ↦ logged_run config
  ]

  -- `main` on argv[1], argv[2], ...
  unfoldable pub main : List Bytes → Ended C
  main args = elim (parse_args args default_path) [
    | none ↦ returned exit_success none
    | some config_path ↦ configured_run config_path
  ]
