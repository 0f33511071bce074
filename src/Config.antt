-- ===== src/Config.antt =====
-- ServerConfig of HTTP SERVER/HTTP Server/include/config_loader.hpp, and ConfigLoader::defaults.
-- The values of type int are not negative.
pub mod Loading
pub mod Outcomes
mod Tests
use http_storm.Common.{ℕ, Bool, true, false, Bytes, codes, [], ◌==◌, if◌then◌else◌}

pub record TlsConfig : Type 0 where
  pub enabled : Bool
  pub cert_file : Bytes
  pub key_file : Bytes
  pub ca_file : Bytes
  pub ciphers : Bytes
  pub verify_client : Bool

pub record RateLimitConfig : Type 0 where
  pub enabled : Bool
  pub requests_per_second : ℕ
  pub burst_size : ℕ

pub record ServerConfig : Type 0 where
  pub host : Bytes
  pub port : ℕ
  pub thread_pool_size : ℕ
  pub max_connections : ℕ
  pub backlog : ℕ
  pub max_request_size : ℕ
  pub connection_timeout_ms : ℕ
  pub keepalive_timeout_ms : ℕ
  pub keepalive_max_requests : ℕ
  pub log_level : Bytes
  pub log_file : Bytes
  pub log_access : Bool
  pub enable_gzip : Bool
  pub gzip_level : ℕ
  pub gzip_min_size : ℕ
  pub static_file_directory : Bytes
  pub enable_directory_listing : Bool
  pub tls : TlsConfig
  pub rate_limit : RateLimitConfig

-- the members' initializers
abbrev pub new_config : ServerConfig
new_config = record {
  host = codes "0.0.0.0";
  port = 8080;
  thread_pool_size = 0;
  max_connections = 10_000;
  backlog = 1024;
  max_request_size = 1_048_576;
  connection_timeout_ms = 30_000;
  keepalive_timeout_ms = 75_000;
  keepalive_max_requests = 1000;
  log_level = codes "info";
  log_file = [];
  log_access = true;
  enable_gzip = true;
  gzip_level = 6;
  gzip_min_size = 1024;
  static_file_directory = codes "./static";
  enable_directory_listing = false;
  tls = record {
    enabled = false;
    cert_file = [];
    key_file = [];
    ca_file = [];
    ciphers = codes "ECDHE-ECDSA-AES256-GCM-SHA384:ECDHE-RSA-AES256-GCM-SHA384";
    verify_client = false;
  };
  rate_limit = record { enabled = false; requests_per_second = 1000; burst_size = 2000 };
}

-- `std::max(1u, std::thread::hardware_concurrency())`
abbrev pub hardware_threads : ℕ → ℕ
hardware_threads concurrency = if concurrency == 0 then 1 else concurrency

unfoldable pub defaults : ℕ → ServerConfig
defaults concurrency = record new_config { thread_pool_size = hardware_threads concurrency }
