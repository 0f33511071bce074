-- ===== src/Tls/Loading.antt =====
-- What each step of configure_context leaves on a context when it returns.
use http_storm.Common.{
  is_empty, Bool, true, false, Bytes, List, [], if◌then◌else◌, Option, some, Bool-cases, inl, inr,
  ◌≡◌, ◌⊎◌, refl, ◌∙◌, arith,
}
use http_storm.Tls.{
  OpenSsl, SslCtx, Setup, ready, thrown, warned, and_then, set_list, set_suites, set_cipher_list,
  load_certificate, checked_key, load_key, load_ca, tls_1_3_suites,
}

-- A function of the class returns a value, whatever it has logged.
abbrev pub Returns : {A : Type 0} → Setup A → A → Type 0
Returns s a = (ws : List Bytes) × (s ≡ ready a ws)

warned-Returns :
    {A : Type 0} (ws : List Bytes) (s : Setup A) (a : A) → Returns (warned ws s) a → Returns s a
warned-Returns ws (ready b later) a (all, e) = (later, ground arith)
warned-Returns ws (thrown message later) a (all, e) = cc

pub and_then-Returns :
    {A B : Type 0} (s : Setup A) (f : A → Setup B) (b : B)
    → Returns (and_then s f) b
    → (a : A) × Returns s a × Returns (f a) b
and_then-Returns (ready a ws) f b h = (a, (ws, refl), warned-Returns ws (f a) b h)
and_then-Returns (thrown message ws) f b (all, e) = cc

pub returned : {A : Type 0} (a b : A) {ws : List Bytes} → Returns (ready a ws) b → b ≡ a
returned a b (all, e) = ground arith

-- A file that is configured is loaded, or the function throws.
Loaded : {A : Type 0} → Bool → Bool → A → Setup A → A → Type 0
Loaded empty ok ctx next c =
    ((empty ≡ true) × (c ≡ ctx)) ⊎ ((empty ≡ false) × (ok ≡ true) × Returns next c)

load-Loaded :
    {A : Type 0} (empty ok : Bool) (ctx : A) (next : Setup A) (message : Bytes) (c : A)
    → Returns (if empty then ready ctx [] else if ok then next else thrown message []) c
    → Loaded empty ok ctx next c
unfolding Loaded
load-Loaded true ok ctx next message c h = inl (refl, returned ctx c h)
load-Loaded false true ctx next message c h = inr (refl, refl, h)
load-Loaded false false ctx next message c (ws, e) = cc

-- what is on a context behind each file
abbrev pub chosen_file : Bytes → Option Bytes → Option Bytes
chosen_file file before = if is_empty file then before else some file

abbrev pub with_certificate : Bytes → SslCtx → SslCtx
with_certificate file ctx = record ctx { certificate = chosen_file file ctx.certificate }

abbrev pub with_key : Bytes → SslCtx → SslCtx
with_key file ctx = record ctx { private_key = chosen_file file ctx.private_key }

abbrev pub with_ca : Bytes → SslCtx → SslCtx
with_ca file ctx = record ctx { verify_locations = chosen_file file ctx.verify_locations }

abbrev pub with_ciphers : Option Bytes → Option Bytes → SslCtx → SslCtx
with_ciphers ciphers suites ctx = record ctx { cipher_list = ciphers; ciphersuites = suites }

module _ (ssl : OpenSsl) where
  pub load_certificate-Returns :
      (file : Bytes) (ctx c : SslCtx)
      → Returns (load_certificate ssl file ctx) c
      → (c ≡ with_certificate file ctx)
        × (is_empty file ≡ false → ssl.use_certificate_chain_file ctx file ≡ true)
  unfolding Loaded
  load_certificate-Returns file ctx c h =
      elim (load-Loaded (is_empty file) (ssl.use_certificate_chain_file ctx file) ctx
        (ready (record ctx { certificate = some file }) []) _ c h) [
          | inl (e, same) ↦ (rw e same, λ f. ground (arith, e, f))
          | inr (e, ok, next) ↦ (rw e (returned _ c next), λ f. ok)
        ]

  pub load_ca-Returns :
      (file : Bytes) (ctx c : SslCtx)
      → Returns (load_ca ssl file ctx) c
      → (c ≡ with_ca file ctx) × (is_empty file ≡ false → ssl.load_verify_locations ctx file ≡ true)
  unfolding Loaded
  load_ca-Returns file ctx c h =
      elim (load-Loaded (is_empty file) (ssl.load_verify_locations ctx file) ctx
        (ready (record ctx { verify_locations = some file }) []) _ c h) [
          | inl (e, same) ↦ (rw e same, λ f. ground (arith, e, f))
          | inr (e, ok, next) ↦ (rw e (returned _ c next), λ f. ok)
        ]

  checked_key-Returns :
      (ctx c : SslCtx)
      → Returns (checked_key ssl ctx) c
      → (c ≡ ctx) × (ssl.check_private_key ctx ≡ true)
  checked_key-Returns ctx c (ws, e) = elim (Bool-cases (ssl.check_private_key ctx)) [
    | inl ok ↦ (ground (arith, e, ok), ok)
    | inr bad ↦ ground (arith, e, bad)
  ]

  pub load_key-Returns :
      (file : Bytes) (ctx c : SslCtx)
      → Returns (load_key ssl file ctx) c
      → (c ≡ with_key file ctx)
        × (is_empty file ≡ false
            → (ssl.use_private_key_file ctx file ≡ true)
              × (ssl.check_private_key (with_key file ctx) ≡ true))
  unfolding Loaded
  load_key-Returns file ctx c h =
      elim (load-Loaded (is_empty file) (ssl.use_private_key_file ctx file) ctx
        (checked_key ssl (record ctx { private_key = some file })) _ c h) [
          | inl (e, same) ↦ (rw e same, λ f. ground (arith, e, f))
          | inr (e, ok, next) ↦
              let (same, checked) = checked_key-Returns _ c next in
              (rw e same, λ f. (ok, rw e checked))
        ]

  set_list-Returns :
      (ciphers : Bytes) (ctx c : SslCtx)
      → Returns (set_list ssl ciphers ctx) c
      → (l : Option Bytes) × (c ≡ with_ciphers l ctx.ciphersuites ctx)
  set_list-Returns ciphers ctx c (ws, e) = elim (Bool-cases (ssl.ctx_set_cipher_list ctx ciphers)) [
    | inl ok ↦ (some ciphers, ground (arith, e, ok))
    | inr bad ↦ (ctx.cipher_list, ground (arith, e, bad))
  ]

  set_suites-Returns :
      (ctx c : SslCtx)
      → Returns (set_suites ssl ctx) c
      → (s : Option Bytes) × (c ≡ with_ciphers ctx.cipher_list s ctx)
  set_suites-Returns ctx c (ws, e) = elim (Bool-cases (ssl.set_ciphersuites ctx tls_1_3_suites)) [
    | inl ok ↦ (some tls_1_3_suites, ground (arith, e, ok))
    | inr bad ↦ (ctx.ciphersuites, ground (arith, e, bad))
  ]

  pub set_cipher_list-Returns :
      (ciphers : Bytes) (ctx c : SslCtx)
      → Returns (set_cipher_list ssl ciphers ctx) c
      → (l s : Option Bytes) × (c ≡ with_ciphers l s ctx)
  unfolding set_cipher_list
  set_cipher_list-Returns ciphers ctx c h =
      let (c', first, second) = and_then-Returns (set_list ssl ciphers ctx) (set_suites ssl) c h in
      let (l, e) = set_list-Returns ciphers ctx c' first in
      let (s, f) = set_suites-Returns c' c second in (l, s, f ∙ rw e refl)
