-- ===== src/Config/Loading.antt =====
-- ConfigLoader::load of HTTP SERVER/HTTP Server/src/config_loader.cpp, over the JSON library as a
-- parameter: what `contains`, `operator[]`, `get` and the parser answer. A key that is present and of
-- the wrong type throws, and the fields read before it stay changed.
-- A number for a field of type int is below 2 ^ 31.
use http_storm.Common.{
  ℕ, ◌%◌, ◌^◌, Bool, true, false, Bytes, codes, List, [], ◌∷◌, ◌++◌, ◌==◌, if◌then◌else◌, Option,
  none, some, size_mod,
}
use http_storm.Config.{TlsConfig, RateLimitConfig, ServerConfig, new_config, hardware_threads}

-- what `file >> j` ends with
pub data Read (J : Type 0) : Type 0 where
  parsed : J → Read J
  -- a parse_error
  malformed : Read J
  -- another exception of the library, such as out_of_range for a number that is too large
  unreadable : Read J

pub record JsonOps (J : Type 0) : Type 0 where
  -- the member of an object, if it contains the key
  pub member : J → Bytes → Option J
  -- `get`; none is an exception
  pub get_string : J → Option Bytes
  pub get_number : J → Option ℕ
  pub get_bool : J → Option Bool
  pub parse : Bytes → Read J
  -- what the exceptions say
  pub parse_error : Bytes → Bytes
  pub value_error : J → Bytes

-- what a field does with the configuration; false is an exception
abbrev pub Setter : Type 0 → Type 0
Setter A = A → A × Bool

-- `if (j.contains(key)) field = j[key].get<T>();`
abbrev pub set_member : {J A T : Type 0} → Option J → (J → Option T) → (T → A → A) → Setter A
set_member none get set config = (config, true)
set_member (some value) get set config = elim (get value) [
  | none ↦ (config, false)
  | some v ↦ (set v config, true)
]

unfoldable pub set_all : {A : Type 0} → List (Setter A) → Setter A
set_all [] config = (config, true)
set_all (f ∷ fs) config =
    let (config', ok) = f config in
    let rest = set_all fs config' in if ok then rest else (config', false)

-- the fields of a nested object, if it is there
abbrev pub set_nested :
    {J A B : Type 0} → Option J → (J → List (Setter B)) → (A → B) → (B → A → A) → Setter A
set_nested none fields get set config = (config, true)
set_nested (some value) fields get set config =
    let (inner, ok) = set_all (fields value) (get config) in (set inner config, ok)

pub record ConfigLoader : Type 0 where
  pub config : ServerConfig
  pub error_message : Bytes

abbrev pub new_loader : ConfigLoader
new_loader = record { config = new_config; error_message = [] }

module _ {J : Type 0} (json : JsonOps J) where
  abbrev string_at : {A : Type 0} → J → Bytes → (Bytes → A → A) → Setter A
  string_at j key set = set_member (json.member j key) json.get_string set

  abbrev number_at : {A : Type 0} → J → Bytes → ℕ → (ℕ → A → A) → Setter A
  number_at j key modulus set =
      set_member (json.member j key) json.get_number (λ v. set (v % modulus))

  abbrev int_at : {A : Type 0} → J → Bytes → (ℕ → A → A) → Setter A
  int_at j key set = set_member (json.member j key) json.get_number set

  abbrev bool_at : {A : Type 0} → J → Bytes → (Bool → A → A) → Setter A
  bool_at j key set = set_member (json.member j key) json.get_bool set

  unfoldable pub tls_fields : J → List (Setter TlsConfig)
  tls_fields j =
      bool_at j (codes "enabled") (λ v c. record c { enabled = v })
      ∷ string_at j (codes "cert_file") (λ v c. record c { cert_file = v })
      ∷ string_at j (codes "key_file") (λ v c. record c { key_file = v })
      ∷ string_at j (codes "ca_file") (λ v c. record c { ca_file = v })
      ∷ string_at j (codes "ciphers") (λ v c. record c { ciphers = v })
      ∷ bool_at j (codes "verify_client") (λ v c. record c { verify_client = v })
      ∷ []

  unfoldable pub rate_limit_fields : J → List (Setter RateLimitConfig)
  rate_limit_fields j =
      bool_at j (codes "enabled") (λ v c. record c { enabled = v })
      ∷ number_at j (codes "requests_per_second") size_mod
          (λ v c. record c { requests_per_second = v })
      ∷ number_at j (codes "burst_size") size_mod (λ v c. record c { burst_size = v })
      ∷ []

  unfoldable pub fields : J → List (Setter ServerConfig)
  fields j =
      string_at j (codes "host") (λ v c. record c { host = v })
      ∷ number_at j (codes "port") (2 ^ 16) (λ v c. record c { port = v })
      ∷ number_at j (codes "thread_pool_size") size_mod (λ v c. record c { thread_pool_size = v })
      ∷ number_at j (codes "max_connections") size_mod (λ v c. record c { max_connections = v })
      ∷ number_at j (codes "backlog") size_mod (λ v c. record c { backlog = v })
      ∷ number_at j (codes "max_request_size") size_mod (λ v c. record c { max_request_size = v })
      ∷ int_at j (codes "connection_timeout_ms") (λ v c. record c { connection_timeout_ms = v })
      ∷ int_at j (codes "keepalive_timeout_ms") (λ v c. record c { keepalive_timeout_ms = v })
      ∷ int_at j (codes "keepalive_max_requests") (λ v c. record c { keepalive_max_requests = v })
      ∷ string_at j (codes "log_level") (λ v c. record c { log_level = v })
      ∷ string_at j (codes "log_file") (λ v c. record c { log_file = v })
      ∷ bool_at j (codes "log_access") (λ v c. record c { log_access = v })
      ∷ bool_at j (codes "enable_gzip") (λ v c. record c { enable_gzip = v })
      ∷ int_at j (codes "gzip_level") (λ v c. record c { gzip_level = v })
      ∷ number_at j (codes "gzip_min_size") size_mod (λ v c. record c { gzip_min_size = v })
      ∷ string_at j (codes "static_file_directory") (λ v c. record c { static_file_directory = v })
      ∷ bool_at j (codes "enable_directory_listing")
          (λ v c. record c { enable_directory_listing = v })
      ∷ set_nested (json.member j (codes "tls")) tls_fields (λ c. c.tls)
          (λ v c. record c { tls = v })
      ∷ set_nested (json.member j (codes "rate_limit")) rate_limit_fields (λ c. c.rate_limit)
          (λ v c. record c { rate_limit = v })
      ∷ []

  -- after the fields: no number of threads is the hardware's
  abbrev pub with_threads : ℕ → ServerConfig → ServerConfig
  with_threads concurrency config =
      if config.thread_pool_size == 0
      then record config { thread_pool_size = hardware_threads concurrency }
      else config

  unfoldable pub load_json : ℕ → J → ConfigLoader → ConfigLoader × Bool
  load_json concurrency j loader =
      let (config', ok) = set_all (fields j) loader.config in
      if ok then (record loader { config = with_threads concurrency config' }, true) else (
        record {
          config = config';
          error_message = codes "Config value error: " ++ json.value_error j;
        },
        false,
      )

  -- Only a parse_error is caught while the file is read. none is an exception that leaves `load`;
  -- `contents` is what the file holds, none if it does not open.
  unfoldable pub load : ℕ → Bytes → Option Bytes → ConfigLoader → ConfigLoader × Option Bool
  load concurrency filepath contents loader = elim contents [
    | none ↦ (
      record loader { error_message = codes "Cannot open config file: " ++ filepath },
      some false,
    )
    | some text ↦ elim (json.parse text) [
      | malformed ↦ (
        record loader { error_message = codes "JSON parse error: " ++ json.parse_error text },
        some false,
      )
      | unreadable ↦ (loader, none)
      | parsed j ↦ let (loader', ok) = load_json concurrency j loader in (loader', some ok)
    ]
  ]
