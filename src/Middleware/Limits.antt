-- ===== src/Middleware/Limits.antt =====
-- The token bucket of rate_limiter, over a series of requests with one key.
use http_storm.Common.{
  ℕ, suc, ◌+◌, ◌-◌, ◌*◌, ◌/◌, ◌<◌, false, List, [], ◌∷◌, if◌then◌else◌, ◌≡◌, refl, arith, All,
}
use http_storm.Middleware.{Bucket, second, take_token}

-- The verdicts on requests that come after these gaps, the clock standing at `now`.
abbrev pub admitted : ℕ → ℕ → ℕ → Bucket → List ℕ → ℕ
admitted rate burst now b [] = 0
admitted rate burst now b (gap ∷ gaps) =
    let (passed, b') = take_token rate burst (now + gap) b in
    let rest = admitted rate burst (now + gap) b' gaps in if passed then suc rest else rest

empty-take_token :
    (rate burst now gap : ℕ) (b : Bucket)
    → b.window_start ≡ now
    → b.count ≡ 0
    → gap * rate < second
    → take_token rate burst (now + gap) b ≡ (false, record { count = 0; window_start = now + gap })
unfolding take_token
empty-take_token rate burst now gap b e c h =
    let f : now + gap - b.window_start ≡ gap = omega arith in
    let z : gap * rate / second ≡ 0 = omega arith in rw (f, c, z) (ground arith)

-- Each request throws away the part of a token that has come since the one before, so a client whose
-- bucket is empty and whose requests come closer together than the rate earns a token is never let
-- through again, for however long it goes on.
pub rate_limit-starves :
    (rate burst now : ℕ) (b : Bucket) (gaps : List ℕ)
    → b.window_start ≡ now
    → b.count ≡ 0
    → All (λ gap. gap * rate < second) gaps
    → admitted rate burst now b gaps ≡ 0
rate_limit-starves rate burst now b [] e c h = refl
rate_limit-starves rate burst now b (gap ∷ gaps) e c (h, hs) =
    rw (empty-take_token rate burst now gap b e c h) (
      rate_limit-starves rate burst (now + gap) (record { count = 0; window_start = now + gap })
        gaps refl refl hs)
