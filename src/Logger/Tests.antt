-- ===== src/Logger/Tests.antt =====
-- Log lines of HTTP SERVER/HTTP Server/src/logger.cpp.
use http_storm.Common.{true, some, codes, [], ◌∷◌, ◌≡◌, refl, equal}
use http_storm.Middleware.{AccessEntry}
use http_storm.Logger.{
  Spdlog, Logger, new_logger, access_stdout, access_file_sink, main_logger, access_of, access_line,
  init, log_access,
}
use http_storm.Logger.Lines.{opens_files, log_access-init}

abbrev spdlog : Spdlog
spdlog = record { level_from_str = λ s. 4; opens = λ path. true; print_ms = λ ns. codes "1.00" }

abbrev entry : AccessEntry
entry = record {
  remote_addr = codes "10.0.0.1:5000";
  method = codes "GET";
  path = codes "/";
  status_code = 200;
  response_size = 61;
  latency = 1_000_000;
}

abbrev ready : Logger
ready = record {
  logger = some (main_logger spdlog (codes "error") (codes "a.log"));
  access_logger = some (access_of (codes "a.log"));
  registered = codes "access" ∷ codes "hphttp" ∷ [];
}

log_access-init_example :
    (opens_files spdlog (codes "error") (codes "a.log") ≡ true)
    × (log_access spdlog entry new_logger ≡ [])
    × (log_access spdlog entry ready
        ≡ (access_stdout, access_line spdlog entry)
          ∷ (access_file_sink (codes "a.log"), access_line spdlog entry)
          ∷ [])
unfolding init equal
log_access-init_example = log_access-init spdlog (codes "error") (codes "a.log") entry ready refl
