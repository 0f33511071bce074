-- ===== src/Middleware/Effects.antt =====
-- What the middlewares of HTTP SERVER/HTTP Server/src/middleware.cpp read and change beside the request
-- and the response: clocks, random numbers, the buckets of the rate limiter, and logs.
use http_storm.Common.{ℕ, ◌+◌, ◌%◌, Bytes, Dict, List, [], ◌∷◌, ◌++◌, size_mod}

-- One line of Logger::log_access; the latency in nanoseconds.
pub record AccessEntry : Type 0 where
  pub remote_addr : Bytes
  pub method : Bytes
  pub path : Bytes
  pub status_code : ℕ
  pub response_size : ℕ
  pub latency : ℕ

-- A bucket of the rate limiter: the count, and window_start.
pub record Bucket : Type 0 where
  pub count : ℕ
  pub window_start : ℕ

pub record World : Type 0 where
  pub now : ℕ
  -- what passes before each coming reading of the clock
  pub delays : List ℕ
  -- what `dist(gen)` returns next
  pub random : List ℕ
  -- RateLimiterState::buckets
  pub buckets : Dict Bucket
  pub access_log : List AccessEntry
  -- path and timeout of each warning
  pub warnings : List (Bytes × ℕ)

abbrev pub M {ℓ} : Type ℓ → Type ℓ
M A = World → A × World

infixl 5 ◌>>=◌ ◌>>◌
abbrev pub ◌>>=◌ {ℓ κ} : {A : Type ℓ} {B : Type κ} → M A → (A → M B) → M B
◌>>=◌ m f w = let (a, w') = m w in f a w'

abbrev pub ◌>>◌ {κ} : {B : Type κ} → M (Unit {0}) → M B → M B
m >> k = m >>= λ _. k

abbrev pub pure {ℓ} : {A : Type ℓ} → A → M A
pure a w = (a, w)

-- steady_clock::now() and high_resolution_clock::now()
unfoldable pub read_clock : M ℕ
read_clock w = elim w.delays [
  | [] ↦ (w.now, w)
  | d ∷ ds ↦ (w.now + d, record w { now = w.now + d; delays = ds })
]

unfoldable pub next_random : M ℕ
next_random w = elim w.random [ [] ↦ (0, w) | r ∷ rs ↦ (r % size_mod, record w { random = rs }) ]

abbrev pub log_access : AccessEntry → M (Unit {0})
log_access entry w = (tt, record w { access_log = w.access_log ++ entry ∷ [] })

abbrev pub warn : Bytes → ℕ → M (Unit {0})
warn path timeout w = (tt, record w { warnings = w.warnings ++ (path, timeout) ∷ [] })
