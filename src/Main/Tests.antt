-- ===== src/Main/Tests.antt =====
-- Runs of the program of HTTP SERVER/HTTP Server/src/main.cpp.
use http_storm.Common.{
  Bool, true, false, Bytes, codes, equal, List, [], ◌∷◌, ◌++◌, Option, none, some, ◌⊎◌, ◌≡◌, refl,
}
use http_storm.Http.{head, HttpRequest, HttpResponse, empty_request}
use http_storm.Router.{Router, dispatch}
use http_storm.Static.{FileSystem, StaticFileServer, new_server}
use http_storm.Config.{defaults}
use http_storm.Config.Loading.{JsonOps, parsed}
use http_storm.Tls.{OpenSsl}
use http_storm.Logger.{Spdlog, init}
use http_storm.Server.Routes.{JsonLibrary, ServerStatus}
use http_storm.Server.Table.{ConnectionOps, made, accept_connection}
use http_storm.Server.Lifecycle.{
  System, Server, construct, setup_server_socket, setup_epoll, run_jobs, stop,
}
use http_storm.Server.EventLoop.{
  Round, reported, handle_report, handle_reports, event_round, event_loop, start,
}
use http_storm.Main.{
  Ended, returned, serving, terminated, Surroundings, default_path, parse_args, load_config,
  run_server, main,
}
use http_storm.Main.Arguments.{Argument, path_option, skipped, print_all, parse_args-print_all}
use http_storm.Main.Exits.{GaveBack, main-returned}
use http_storm.Main.Echo.{registered, answers, registered-answers}

abbrev two_paths : List Argument
two_paths =
    path_option true (codes "a.json")
    ∷ skipped (codes "-v")
    ∷ path_option false (codes "b.json")
    ∷ []

parse_args-print_all_example :
    (parse_args (print_all two_paths) default_path ≡ some (codes "b.json"))
    × ((rest : List Bytes)
        → parse_args (print_all two_paths ++ codes "--help" ∷ rest) default_path ≡ none)
unfolding equal
parse_args-print_all_example =
    parse_args-print_all two_paths default_path (tt, ((refl, refl), (tt, tt)))

-- a connection is whether it is alive
abbrev alive : ConnectionOps Bool
alive = record {
  handle_read = λ c. c;
  handle_write = λ c. c;
  close = λ c. false;
  is_alive = λ c. c;
  is_timed_out = λ now c. false;
  close-is_alive = λ c. refl;
}

abbrev no_members : JsonOps Bytes
no_members = record {
  member = λ j key. none;
  get_string = λ j. some j;
  get_number = λ j. none;
  get_bool = λ j. none;
  parse = λ text. parsed text;
  parse_error = λ text. [];
  value_error = λ j. [];
}

abbrev no_tls : OpenSsl
no_tls = record {
  ctx_new = false;
  default_cache_size = 20_480;
  ctx_set_cipher_list = λ c ciphers. true;
  set_ciphersuites = λ c suites. true;
  use_certificate_chain_file = λ c file. true;
  use_private_key_file = λ c file. true;
  check_private_key = λ c. true;
  load_verify_locations = λ c file. true;
  ssl_new = λ c. true;
  error_string = λ c. [];
}

abbrev spdlog : Spdlog
spdlog = record { level_from_str = λ s. 2; opens = λ path. true; print_ms = λ ns. codes "1.00" }

abbrev nowhere : Surroundings
nowhere = record { exists = λ path. false; contents = λ path. none; concurrency = 4 }

abbrev system : System
system = record {
  socket = some 3;
  bind = λ host port. true;
  listen = λ backlog. true;
  epoll_create1 = some 4;
  epoll_add = λ fd. true;
  strerror = [];
  started_at = 0;
}

-- a client comes, and then the signal
abbrev rounds : List (Round Bool)
rounds =
    record {
      jobs_run = 0;
      signalled = false;
      waited = reported (
          record {
            fd = 3;
            events = record { input = true; output = false; broken = false };
            waiting = (5, made true) ∷ [];
          }
          ∷ []);
      now = 7;
      cleanup_now = 0;
    }
    ∷ record { jobs_run = 1; signalled = true; waited = reported []; now = 8; cleanup_now = 0 }
    ∷ []

abbrev final : Ended Bool → Option (Server Bool)
final (returned code found) = found
final (serving s) = none
final terminated = none

abbrev whole : Ended Bool
whole = main alive no_members no_tls spdlog nowhere system rounds []

main-returned_example :
    ((parse_args [] default_path ≡ none) × (final whole ≡ none))
    ⊎ ((s : Server Bool) × (final whole ≡ some s) × GaveBack alive system s)
unfolding main run_server load_config defaults init equal construct start setup_server_socket
    setup_epoll event_loop event_round handle_reports stop run_jobs parse_args handle_report
    accept_connection
main-returned_example =
    main-returned alive no_members no_tls spdlog nowhere system rounds [] (final whole) refl

-- JSON as its text; everything can be dumped
abbrev json : JsonLibrary Bytes
json = record {
  text = λ t. t;
  number = λ n. codes "0";
  boolean = λ b. codes "true";
  object = λ members. codes "{}";
  parse = λ t. some t;
  dump = λ j. some j;
}

abbrev no_files : FileSystem
no_files = record {
  is_directory = λ path. false;
  is_regular_file = λ path. false;
  file_size = λ path. none;
  last_write_time = λ path. none;
  read = λ path. none;
  to_system = λ t. t;
  http_date = λ t. [];
}

abbrev status : ServerStatus
status = record {
  uptime_seconds = 1;
  active_connections = 1;
  total_requests = 1;
  thread_pool_size = 4;
  pending_tasks = 0;
  timestamp = 0;
}

abbrev head_request : HttpRequest
head_request = record empty_request { method = head; path = codes "/static/a.txt" }

abbrev site : StaticFileServer
site = new_server (codes "./static") false

registered-answers_example :
    (router : Router (Option HttpResponse)) × (registered json no_files site (defaults 4) status
      ≡ some router)
    × (dispatch some router head_request
        ≡ answers json no_files site (defaults 4) status head (codes "/static/a.txt") head_request)
registered-answers_example = registered-answers json no_files site (defaults 4) status head_request
