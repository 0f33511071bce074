-- ===== src/Tls.antt =====
-- TlsContext of HTTP SERVER/HTTP Server/include/tls_context.hpp and src/tls_context.cpp. OpenSSL is a
-- parameter: what its functions return on a context; a context is what has been set on it.
pub mod Loading
pub mod Contexts
pub mod Successes
mod Tests
use http_storm.Common.{
  is_empty, ℕ, Bool, true, false, Bytes, codes, List, [], ◌∷◌, ◌++◌, if◌then◌else◌, Option, none,
  some,
}
use http_storm.Config.{TlsConfig}

pub data SslOption : Type 0 where
  no_sslv2 no_sslv3 no_tlsv1 no_tlsv1_1 : SslOption
  cipher_server_preference single_dh_use single_ecdh_use : SslOption

pub data SslMode : Type 0 where
  auto_retry accept_moving_write_buffer : SslMode

pub data SslVerify : Type 0 where
  verify_peer fail_if_no_peer_cert : SslVerify

pub data TlsVersion : Type 0 where
  any_version tls1_2 : TlsVersion

pub data SessionCache : Type 0 where
  cache_unset cache_server : SessionCache

-- SSL_CTX
pub record SslCtx : Type 0 where
  pub options : List SslOption
  pub mode : List SslMode
  pub min_proto_version : TlsVersion
  pub cipher_list : Option Bytes
  pub ciphersuites : Option Bytes
  pub certificate : Option Bytes
  pub private_key : Option Bytes
  pub verify_locations : Option Bytes
  pub verify : List SslVerify
  pub session_cache_mode : SessionCache
  pub sess_cache_size : ℕ

-- What the calls answer: true is the return value 1, or a pointer that is not null.
pub record OpenSsl : Type 0 where
  pub ctx_new : Bool
  -- the size of the session cache of a new context
  pub default_cache_size : ℕ
  pub ctx_set_cipher_list : SslCtx → Bytes → Bool
  pub set_ciphersuites : SslCtx → Bytes → Bool
  pub use_certificate_chain_file : SslCtx → Bytes → Bool
  pub use_private_key_file : SslCtx → Bytes → Bool
  pub check_private_key : SslCtx → Bool
  pub load_verify_locations : SslCtx → Bytes → Bool
  pub ssl_new : SslCtx → Bool
  -- ERR_error_string_n(ERR_get_error()), when the calls on this context have failed
  pub error_string : Option SslCtx → Bytes

-- What a function of the class ends with: the context, or the exception's text; and the warnings that it
-- has logged.
pub data Setup (A : Type 0) : Type 0 where
  ready : A → List Bytes → Setup A
  thrown : Bytes → List Bytes → Setup A

abbrev pub warned : {A : Type 0} → List Bytes → Setup A → Setup A
warned ws (ready a later) = ready a (ws ++ later)
warned ws (thrown message later) = thrown message (ws ++ later)

abbrev pub and_then : {A B : Type 0} → Setup A → (A → Setup B) → Setup B
and_then (ready a ws) f = warned ws (f a)
and_then (thrown message ws) f = thrown message ws

-- `SSL_CTX_new(TLS_server_method())`
abbrev pub new_ctx : ℕ → SslCtx
new_ctx cache_size = record {
  options = [];
  mode = [];
  min_proto_version = any_version;
  cipher_list = none;
  ciphersuites = none;
  certificate = none;
  private_key = none;
  verify_locations = none;
  verify = [];
  session_cache_mode = cache_unset;
  sess_cache_size = cache_size;
}

abbrev pub tls_1_3_suites : Bytes
tls_1_3_suites = codes "TLS_AES_256_GCM_SHA384:TLS_CHACHA20_POLY1305_SHA256:TLS_AES_128_GCM_SHA256"

-- the calls before the ciphers
abbrev pub restricted : SslCtx → SslCtx
restricted ctx = record ctx {
  options =
      no_sslv2 ∷ no_sslv3 ∷ no_tlsv1 ∷ no_tlsv1_1 ∷ cipher_server_preference ∷ single_dh_use
      ∷ single_ecdh_use ∷ ctx.options;
  mode = auto_retry ∷ accept_moving_write_buffer ∷ ctx.mode;
  min_proto_version = tls1_2;
}

-- the calls behind the certificates
abbrev pub with_verify : TlsConfig → SslCtx → SslCtx
with_verify config ctx = record ctx {
  verify = if config.verify_client then verify_peer ∷ fail_if_no_peer_cert ∷ [] else ctx.verify;
  session_cache_mode = cache_server;
  sess_cache_size = 1024;
}

module _ (ssl : OpenSsl) where
  -- the first `if` of `set_cipher_list`
  abbrev pub set_list : Bytes → SslCtx → Setup SslCtx
  set_list ciphers ctx =
      if ssl.ctx_set_cipher_list ctx ciphers
      then ready (record ctx { cipher_list = some ciphers }) []
      else ready ctx ((codes "Failed to set cipher list: " ++ ssl.error_string (some ctx)) ∷ [])

  abbrev pub set_suites : SslCtx → Setup SslCtx
  set_suites ctx =
      if ssl.set_ciphersuites ctx tls_1_3_suites
      then ready (record ctx { ciphersuites = some tls_1_3_suites }) []
      else ready ctx (codes "Failed to set TLS 1.3 ciphersuites" ∷ [])

  unfoldable pub set_cipher_list : Bytes → SslCtx → Setup SslCtx
  set_cipher_list ciphers ctx = and_then (set_list ciphers ctx) set_suites

  abbrev pub failed_load : Bytes → SslCtx → Setup SslCtx
  failed_load what ctx =
      thrown (codes "Failed to load " ++ what ++ codes ": " ++ ssl.error_string (some ctx)) []

  abbrev pub load_certificate : Bytes → SslCtx → Setup SslCtx
  load_certificate file ctx =
      if is_empty file
      then ready ctx []
      else if ssl.use_certificate_chain_file ctx file
      then ready (record ctx { certificate = some file }) []
      else failed_load (codes "certificate") ctx

  abbrev pub checked_key : SslCtx → Setup SslCtx
  checked_key ctx =
      if ssl.check_private_key ctx
      then ready ctx []
      else thrown (codes "Private key does not match certificate") []

  abbrev pub load_key : Bytes → SslCtx → Setup SslCtx
  load_key file ctx =
      if is_empty file
      then ready ctx []
      else if ssl.use_private_key_file ctx file
      then checked_key (record ctx { private_key = some file })
      else failed_load (codes "private key") ctx

  abbrev pub load_ca : Bytes → SslCtx → Setup SslCtx
  load_ca file ctx =
      if is_empty file
      then ready ctx []
      else if ssl.load_verify_locations ctx file
      then ready (record ctx { verify_locations = some file }) []
      else failed_load (codes "CA file") ctx

  unfoldable pub load_certificates : TlsConfig → SslCtx → Setup SslCtx
  load_certificates config ctx =
      and_then (and_then (load_certificate config.cert_file ctx) (load_key config.key_file))
        (load_ca config.ca_file)

  unfoldable pub configure_context : TlsConfig → SslCtx → Setup SslCtx
  unfolding set_cipher_list load_certificates
  configure_context config ctx =
      and_then
        (and_then (set_cipher_list config.ciphers (restricted ctx)) (load_certificates config))
        (λ c. ready (with_verify config c) [])

  -- The constructor; the object is its context.
  unfoldable pub new_context : TlsConfig → Setup SslCtx
  unfolding configure_context
  new_context config =
      if ssl.ctx_new
      then configure_context config (new_ctx ssl.default_cache_size)
      else thrown (codes "Failed to create SSL context: " ++ ssl.error_string none) []

  -- an SSL object on a descriptor
  unfoldable pub create_ssl : SslCtx → ℕ → Setup (SslCtx × ℕ)
  create_ssl ctx fd =
      if ssl.ssl_new ctx
      then ready (ctx, fd) []
      else thrown (codes "Failed to create SSL object: " ++ ssl.error_string (some ctx)) []
