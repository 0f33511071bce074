-- ===== src/Tls/Tests.antt =====
-- Contexts of HTTP SERVER/HTTP Server/src/tls_context.cpp with an OpenSSL that refuses the ciphers.
use http_storm.Common.{
  Bool, ◌&&◌, Bytes, Option, none, true, false, codes, [], ◌∷◌, ◌++◌, some, refl,
}
use http_storm.Config.{TlsConfig}
use http_storm.Tls.{
  OpenSsl, SslCtx, with_verify, restricted, new_ctx, set_cipher_list, load_certificates,
  configure_context, new_context,
}
use http_storm.Tls.Contexts.{IsConfigured, new_context-IsConfigured}

-- both are on the context
abbrev has_pair : SslCtx → Bool
has_pair c = is_set c.certificate && is_set c.private_key
  where
    is_set : Option Bytes → Bool
    is_set none = false
    is_set (some file) = true

abbrev no_ciphers : OpenSsl
no_ciphers = record {
  ctx_new = true;
  default_cache_size = 20_480;
  ctx_set_cipher_list = λ c ciphers. false;
  set_ciphersuites = λ c suites. true;
  use_certificate_chain_file = λ c file. true;
  use_private_key_file = λ c file. true;
  check_private_key = has_pair;
  load_verify_locations = λ c file. false;
  ssl_new = λ c. true;
  error_string = λ c. codes "error:0A0000B9";
}

abbrev pair : TlsConfig
pair = record {
  enabled = true;
  cert_file = codes "cert.pem";
  key_file = codes "key.pem";
  ca_file = [];
  ciphers = codes "none";
  verify_client = false;
}

-- the context that comes out
abbrev made : SslCtx
made = with_verify pair (record (restricted (new_ctx 20_480)) {
  ciphersuites =
      some (codes "TLS_AES_256_GCM_SHA384:TLS_CHACHA20_POLY1305_SHA256:TLS_AES_128_GCM_SHA256");
  certificate = some (codes "cert.pem");
  private_key = some (codes "key.pem");
})

new_context-IsConfigured_example : IsConfigured no_ciphers pair made
unfolding new_context configure_context set_cipher_list load_certificates
new_context-IsConfigured_example =
    new_context-IsConfigured no_ciphers pair made
      ((codes "Failed to set cipher list: " ++ codes "error:0A0000B9") ∷ []) refl
