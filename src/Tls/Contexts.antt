-- ===== src/Tls/Contexts.antt =====
-- What a context holds when the constructor of TlsContext has returned.
use http_storm.Common.{
  is_empty, true, false, Bytes, List, [], ◌∷◌, if◌then◌else◌, Option, none, some, Bool-cases, inl,
  inr, ◌≡◌, refl, sym, ◌∙◌, ap, subst, ℕ, arith,
}
use http_storm.Config.{TlsConfig}
use http_storm.Tls.{
  OpenSsl, SslCtx, verify_peer, fail_if_no_peer_cert, tls1_2, ready, and_then, new_ctx, restricted,
  with_verify, set_cipher_list, load_certificate, load_key, load_ca, load_certificates,
  configure_context, new_context,
}
use http_storm.Tls.Loading.{
  Returns, with_certificate, with_key, with_ca, with_ciphers, and_then-Returns, returned,
  load_certificate-Returns, load_key-Returns, load_ca-Returns, set_cipher_list-Returns,
}

-- the file that is configured, if any
abbrev pub configured : Bytes → Option Bytes
configured file = if is_empty file then none else some file

-- What is configured on a context, and OpenSSL's word on the key.
pub record IsConfigured (ssl : OpenSsl) (config : TlsConfig) (ctx : SslCtx) : Type 0 where
  pub oldest : ctx.min_proto_version ≡ tls1_2
  pub certificate : ctx.certificate ≡ configured config.cert_file
  pub private_key : ctx.private_key ≡ configured config.key_file
  pub verify_locations : ctx.verify_locations ≡ configured config.ca_file
  pub verify :
      ctx.verify ≡ (if config.verify_client then verify_peer ∷ fail_if_no_peer_cert ∷ [] else [])
  pub key_fits :
      is_empty config.key_file ≡ false
      → (c : SslCtx) × (c.certificate ≡ ctx.certificate)
        × (c.private_key ≡ ctx.private_key)
        × (ssl.check_private_key c ≡ true)

abbrev configured_ctx : TlsConfig → Option Bytes → Option Bytes → SslCtx → SslCtx
configured_ctx config l s ctx = with_verify config (
    with_ca config.ca_file (
      with_key config.key_file
        (with_certificate config.cert_file (with_ciphers l s (restricted ctx)))))

module _ (ssl : OpenSsl) where
  abbrev keyed : TlsConfig → SslCtx → SslCtx
  keyed config ctx = with_key config.key_file (with_certificate config.cert_file ctx)

  load_certificates-Returns :
      (config : TlsConfig) (ctx c : SslCtx)
      → Returns (load_certificates ssl config ctx) c
      → (c ≡ with_ca config.ca_file (keyed config ctx))
        × (is_empty config.key_file ≡ false → ssl.check_private_key (keyed config ctx) ≡ true)
  unfolding load_certificates
  load_certificates-Returns config ctx c h =
      let (c2, before, ca) =
        and_then-Returns
          (and_then (load_certificate ssl config.cert_file ctx) (load_key ssl config.key_file))
          (load_ca ssl config.ca_file) c h in
      let (c1, cert, key) =
        and_then-Returns (load_certificate ssl config.cert_file ctx) (load_key ssl config.key_file)
          c2 before in
      let (e1, _) = load_certificate-Returns ssl config.cert_file ctx c1 cert in
      let (e2, fits) = load_key-Returns ssl config.key_file c1 c2 key in
      let (e3, _) = load_ca-Returns ssl config.ca_file c2 c ca in
      let same : with_key config.key_file c1 ≡ keyed config ctx =
        ap (with_key config.key_file) e1 in
      (
        e3 ∙ ap (with_ca config.ca_file) (e2 ∙ same),
        λ f. ap ssl.check_private_key (sym same) ∙ (fits f).1,
      )

  configured_ctx-IsConfigured :
      (config : TlsConfig) (l s : Option Bytes) (size : ℕ)
      → (is_empty config.key_file ≡ false
          → ssl.check_private_key (keyed config (with_ciphers l s (restricted (new_ctx size))))
            ≡ true)
      → IsConfigured ssl config (configured_ctx config l s (new_ctx size))
  configured_ctx-IsConfigured config l s size fits = record {
    oldest = refl;
    certificate = refl;
    private_key = refl;
    verify_locations = refl;
    verify = refl;
    key_fits =
        λ f. (keyed config (with_ciphers l s (restricted (new_ctx size))), refl, refl, fits f);
  }

  configure_context-Returns :
      (config : TlsConfig) (size : ℕ) (ctx : SslCtx)
      → Returns (configure_context ssl config (new_ctx size)) ctx
      → IsConfigured ssl config ctx
  unfolding configure_context
  configure_context-Returns config size ctx h =
      let start = restricted (new_ctx size) in
      let (c2, before, last) =
        and_then-Returns
          (and_then (set_cipher_list ssl config.ciphers start) (load_certificates ssl config))
          (λ c. ready (with_verify config c) []) ctx h in
      let (c1, ciphers, files) =
        and_then-Returns (set_cipher_list ssl config.ciphers start) (load_certificates ssl config)
          c2 before in
      let (l, s, e1) = set_cipher_list-Returns ssl config.ciphers start c1 ciphers in
      let (e2, fits) = load_certificates-Returns config c1 c2 files in
      let e3 = returned (with_verify config c2) ctx last in
      let whole : ctx ≡ configured_ctx config l s (new_ctx size) =
        e3 ∙ ap (with_verify config) (e2 ∙ ap (λ c. with_ca config.ca_file (keyed config c)) e1) in
      subst (IsConfigured ssl config) (sym whole) (
        configured_ctx-IsConfigured config l s size
          (λ f. ap (λ c. ssl.check_private_key (keyed config c)) (sym e1) ∙ fits f))

  -- Whenever the constructor of TlsContext returns, the context refuses protocols older than TLS 1.2, holds
  -- the certificate, the key and the CA file that are configured and no others, asks for a client's
  -- certificate just if verify_client is set, and if a key is configured, OpenSSL has found that it fits the
  -- certificate; whichever ciphers OpenSSL has refused.
  pub new_context-IsConfigured :
      (config : TlsConfig) (ctx : SslCtx) (warnings : List Bytes)
      → new_context ssl config ≡ ready ctx warnings
      → IsConfigured ssl config ctx
  unfolding new_context
  new_context-IsConfigured config ctx warnings e = elim (Bool-cases ssl.ctx_new) [
    | inl ok ↦ configure_context-Returns config ssl.default_cache_size ctx (warnings, (rw ok at e))
    | inr bad ↦ ground (arith, e, bad)
  ]
