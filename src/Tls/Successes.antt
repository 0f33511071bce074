-- ===== src/Tls/Successes.antt =====
-- When the constructor of TlsContext returns.
use http_storm.Common.{is_empty, true, false, some, ◌≡◌}
use http_storm.Config.{TlsConfig}
use http_storm.Tls.{OpenSsl, SslCtx, Setup}
use http_storm.Tls.Loading.{Returns}

-- A function of the class does return.
abbrev pub Succeeds : {A : Type 0} → Setup A → Type 0
Succeeds {A} s = (a : A) × Returns s a

-- OpenSSL takes the certificate and the CA file that are configured; a key is configured with a certificate, and on a
-- context that has the certificate OpenSSL takes the key, and finds that it fits.
pub record TakesFiles (ssl : OpenSsl) (config : TlsConfig) : Type 0 where
  pub paired : is_empty config.key_file ≡ false → is_empty config.cert_file ≡ false
  pub takes_certificate :
      (c : SslCtx)
      → is_empty config.cert_file ≡ false
      → ssl.use_certificate_chain_file c config.cert_file ≡ true
  pub takes_key :
      (c : SslCtx)
      → c.certificate ≡ some config.cert_file
      → ssl.use_private_key_file c config.key_file ≡ true
  pub key_fits :
      (c : SslCtx)
      → c.certificate ≡ some config.cert_file
      → c.private_key ≡ some config.key_file
      → ssl.check_private_key c ≡ true
  pub takes_ca :
      (c : SslCtx)
      → is_empty config.ca_file ≡ false
      → ssl.load_verify_locations c config.ca_file ≡ true
