-- ===== src/Main/Exits.antt =====
-- What holds when main has returned.
use http_storm.Common.{
  either_way, ℕ, Bytes, List, [], Option, none, some, Option-cases, inl, inr, ◌⊎◌, ◌≡◌, refl, sym,
}
use http_storm.Config.{ServerConfig}
use http_storm.Config.Loading.{JsonOps}
use http_storm.Tls.{OpenSsl, SslCtx, Setup, ready, thrown, new_context}
use http_storm.Tls.Loading.{Returns, and_then-Returns, returned}
use http_storm.Logger.{Spdlog, new_logger, init}
use http_storm.Server.Table.{ConnectionOps}
use http_storm.Server.Lifecycle.{System, Server, constructed, construct, destruct}
use http_storm.Server.EventLoop.{Round, left, waits, broken_off, Started, threw, looped, start}
use http_storm.Server.Descriptors.{IsReleased}
use http_storm.Server.Startup.{destruct-IsReleased}
use http_storm.Main.{
  Ended, Configured, configured, config_error, load_threw, exit_success, exit_failure, Surroundings,
  default_path, parse_args, load_config, after_start, run_server, logged_run, configured_run, main,
}

construct-constructed :
    {C : Type 0} (ssl : OpenSsl) (concurrency : ℕ) (config : ServerConfig) (s : Server C)
    → Returns (construct ssl concurrency config) s
    → (tls_context : Option SslCtx) × (s ≡ constructed concurrency config tls_context)
unfolding construct
construct-constructed ssl concurrency config s h =
    either_way
      (λ x.
        Returns x s
        → (tls_context : Option SslCtx) × (s ≡ constructed concurrency config tls_context))
      config.tls.enabled _ (ready (constructed concurrency config none) [])
      (λ k.
        let (ctx, first, last) =
          and_then-Returns (new_context ssl config.tls)
            (λ c. ready (constructed concurrency config (some c)) []) s k in
        (some ctx, returned (constructed concurrency config (some ctx)) s last))
      (λ k. (none, returned (constructed concurrency config none) s k)) h

-- The server has given back what `start` has taken.
abbrev pub GaveBack : {C : Type 0} → ConnectionOps C → System → Server C → Type 0
GaveBack ops system s =
    (server_fd epoll_fd : ℕ) × (system.socket ≡ some server_fd)
    × (system.epoll_create1 ≡ some epoll_fd)
    × IsReleased ops server_fd epoll_fd s

module _ {C J : Type 0} (ops : ConnectionOps C) (json : JsonOps J) (ssl : OpenSsl) (spdlog : Spdlog)
    (around : Surroundings) (system : System) (rounds : List (Round C)) where
  -- What a run with a server ends with, if it is a success.
  abbrev Succeeded : Ended C → Type 0
  Succeeded ended =
      (found : Option (Server C))
      → ended ≡ Ended.returned exit_success found
      → (s : Server C) × (found ≡ some s) × GaveBack ops system s

  failed-Succeeded : (found : Option (Server C)) → Succeeded (Ended.returned exit_failure found)
  failed-Succeeded found other e = cc

  returned-injective :
      (code : ℕ) (a b : Option (Server C)) → Ended.returned code a ≡ Ended.returned code b → a ≡ b
  returned-injective code a b e = cc

  after_start-Succeeded :
      (config : ServerConfig) (tls_context : Option SslCtx) (begun : Started C)
      → start ops system rounds (constructed around.concurrency config tls_context) ≡ begun
      → Succeeded (after_start ops json ssl spdlog around system rounds begun)
  after_start-Succeeded config tls_context (threw s message) e found f =
      failed-Succeeded (some (destruct ops s)) found f
  after_start-Succeeded config tls_context (looped (waits s last)) e found f = cc
  after_start-Succeeded config tls_context (looped (broken_off s message)) e found f =
      failed-Succeeded (some (destruct ops s)) found f
  after_start-Succeeded config tls_context (looped (left s)) e found f = (
    destruct ops s,
    sym (returned-injective _ _ _ f),
    destruct-IsReleased ops system rounds around.concurrency config tls_context (left s) e,
  )

  run_server-Succeeded :
      (config : ServerConfig)
      → Succeeded (run_server ops json ssl spdlog around system rounds config)
  unfolding run_server
  run_server-Succeeded config = go (construct ssl around.concurrency config) refl
    where
      go :
          (made : Setup (Server C))
          → construct ssl around.concurrency config ≡ made
          → Succeeded (run_server ops json ssl spdlog around system rounds config)
      go (thrown message ws) e = rw (e, run_server) (failed-Succeeded none)
      go (ready s ws) e =
          let (tls_context, same) = construct-constructed ssl around.concurrency config s (ws, e) in
          rw (e, run_server, same) (after_start-Succeeded config tls_context _ refl)

  logged_run-Succeeded :
      (config : ServerConfig)
      → Succeeded (logged_run ops json ssl spdlog around system rounds config)
  logged_run-Succeeded config found e =
      elim (Option-cases (init spdlog config.log_level config.log_file new_logger)) [
        | inl f ↦ absurd (let k = (rw (f, logged_run) at e) in cc)
        | inr (logger, f) ↦ run_server-Succeeded config found (rw (f, logged_run) at e)
      ]

  configured_run-Succeeded :
      (config_path : Bytes)
      → Succeeded (configured_run ops json ssl spdlog around system rounds config_path)
  configured_run-Succeeded config_path = go (load_config json around config_path) refl
    where
      go :
          (config : Configured)
          → load_config json around config_path ≡ config
          → Succeeded (configured_run ops json ssl spdlog around system rounds config_path)
      go config_error f = rw (f, configured_run) (failed-Succeeded none)
      go load_threw f = rw (f, configured_run) (λ found e. cc)
      go (configured config) f = rw (f, configured_run) (logged_run-Succeeded config)

  -- main returns EXIT_SUCCESS in two cases: it has printed the help, and made no server; or its server's loop has
  -- returned, and the server's destructor has closed the listening socket and the epoll descriptor once each and
  -- joined the pool. An error of the configuration, of the constructor or of `start` never ends in EXIT_SUCCESS.
  pub main-returned :
      (args : List Bytes) (found : Option (Server C))
      → main ops json ssl spdlog around system rounds args ≡ Ended.returned exit_success found
      → ((parse_args args default_path ≡ none) × (found ≡ none))
        ⊎ ((s : Server C) × (found ≡ some s) × GaveBack ops system s)
  unfolding main
  main-returned args found e = elim (Option-cases (parse_args args default_path)) [
    | inl f ↦ inl (f, sym (returned-injective _ none found (rw (f, main) at e)))
    | inr (config_path, f) ↦ inr (configured_run-Succeeded config_path found (rw (f, main) at e))
  ]
