-- ===== src/Middleware/Admissions.antt =====
-- What the limiter of HTTP SERVER/HTTP Server/src/middleware.cpp lets through of the requests of one remote
-- address, those of other addresses coming in between.
use http_storm.Common.{
  ℕ, suc, ◌+◌, ◌-◌, ◌*◌, ◌/◌, ◌≤◌, Bool, true, false, Bytes, lookup-insert, equal, equal_iff, List,
  [], ◌∷◌, if◌then◌else◌, ◌≡◌, refl, sym, ap, subst, ◌∙◌, arith, Bool-cases, inl, inr,
}
use http_storm.Middleware.{Bucket, World, second, take_token, bucket_of, admit}

-- The requests, each with its remote_addr and the time since the one before, as `admit` answers them.
abbrev pub admissions : ℕ → ℕ → Bytes → ℕ → World → List (Bytes × ℕ) → ℕ
admissions rate burst client now w [] = 0
admissions rate burst client now w ((key, gap) ∷ rest) =
    let (passed, w') = admit rate burst key (now + gap) w in
    let later = admissions rate burst client (now + gap) w' rest in
    if passed then (if equal key client then suc later else later) else later

abbrev pub span : List (Bytes × ℕ) → ℕ
span [] = 0
span ((key, gap) ∷ rest) = gap + span rest

-- One request: the token that it takes was in the bucket, or has come since.
take_token-le :
    (rate burst now : ℕ) (b : Bucket)
    → let (passed, b') = take_token rate burst now b in
      ((if passed then 1 else 0) + b'.count ≤ b.count + (now - b.window_start) * rate / second)
      × ((if passed then 1 else 0) + b'.count ≤ burst)
      × (b'.window_start ≡ now)
unfolding take_token
take_token-le rate burst now b = (ground arith, ground arith, ground arith)

-- the bucket of the request's own address, and of another one
admit-own :
    (rate burst now : ℕ) (client : Bytes) (w : World)
    → bucket_of client (admit rate burst client now w).1.buckets
      ≡ (take_token rate burst now (bucket_of client w.buckets)).1
unfolding admit
admit-own rate burst now client w =
    let found =
      lookup-insert client client (take_token rate burst now (bucket_of client w.buckets)).1
        w.buckets in
    rw (found, bucket_of, (equal_iff client client).1 refl) refl

admit-other :
    (rate burst now : ℕ) (key client : Bytes) (w : World)
    → equal key client ≡ false
    → bucket_of client (admit rate burst key now w).1.buckets ≡ bucket_of client w.buckets
unfolding admit
admit-other rate burst now key client w e =
    let found =
      lookup-insert key client (take_token rate burst now (bucket_of key w.buckets)).1 w.buckets in
    rw (found, bucket_of, e) refl

-- What a request adds to the count.
admissions-own :
    (rate burst : ℕ) (client : Bytes) (now : ℕ) (w : World) (gap : ℕ) (rest : List (Bytes × ℕ))
    → admissions rate burst client now w ((client, gap) ∷ rest)
      ≡ (if (take_token rate burst (now + gap) (bucket_of client w.buckets)).0 then 1 else 0)
        + admissions rate burst client (now + gap) (admit rate burst client (now + gap) w).1 rest
unfolding admit
admissions-own rate burst client now w gap rest =
    let same : equal client client ≡ true = (equal_iff client client).1 refl in
    elim (Bool-cases (take_token rate burst (now + gap) (bucket_of client w.buckets)).0) [
      | inl passed ↦ rw (passed, same) (omega arith)
      | inr refused ↦ rw refused (omega arith)
    ]

admissions-other :
    (rate burst : ℕ) (client key : Bytes) (now : ℕ) (w : World) (gap : ℕ) (rest : List (Bytes × ℕ))
    → equal key client ≡ false
    → admissions rate burst client now w ((key, gap) ∷ rest)
      ≡ admissions rate burst client (now + gap) (admit rate burst key (now + gap) w).1 rest
admissions-other rate burst client key now w gap rest e =
    elim (Bool-cases (admit rate burst key (now + gap) w).0) [
      | inl passed ↦ rw (passed, e) refl
      | inr refused ↦ rw refused refl
    ]

-- Tokens that come in two parts of a time also come in the whole of it.
earned_split : (x y rate : ℕ) → x * rate / second + y * rate / second ≤ (x + y) * rate / second
earned_split x y rate = ground arith

earned_more : (x y rate : ℕ) → y * rate / second ≤ (x + y) * rate / second
earned_more x y rate = omega (arith, earned_split x y rate)

module _ (rate burst : ℕ) (client : Bytes) where
  -- the verdict on a request from a bucket, and the bucket that it leaves
  abbrev taken : ℕ → Bucket → Bool × Bucket
  taken now b = take_token rate burst now b

  -- the tokens of a bucket, and those that come up to a time
  abbrev budget : Bucket → ℕ → ℕ
  budget b finish = b.count + (finish - b.window_start) * rate / second

  own-le :
      (now : ℕ) (w : World) (gap : ℕ) (rest : List (Bytes × ℕ)) (b : Bucket)
      → bucket_of client w.buckets ≡ b
      → admissions rate burst client (now + gap) (admit rate burst client (now + gap) w).1 rest
        ≤ budget (taken (now + gap) b).1 (now + gap + span rest)
      → admissions rate burst client now w ((client, gap) ∷ rest)
        ≤ (if (taken (now + gap) b).0 then 1 else 0)
          + ((taken (now + gap) b).1.count + span rest * rate / second)
  own-le now w gap rest b e ih =
      let (_, _, start) = take_token-le rate burst (now + gap) b in
      let elapsed : now + gap + span rest - (taken (now + gap) b).1.window_start ≡ span rest =
        omega (arith, start) in
      let later =
        subst
          (λ t.
            admissions rate burst client (now + gap) (admit rate burst client (now + gap) w).1 rest
            ≤ (taken (now + gap) b).1.count + t * rate / second)
          elapsed ih in
      let counted =
        admissions-own rate burst client now w gap rest
        ∙ ap
            (λ x.
              (if (taken (now + gap) x).0 then 1 else 0)
              + admissions rate burst client (now + gap) (admit rate burst client (now + gap) w).1
                  rest)
            e in
      omega (arith, counted, later)

  left-own :
      (now : ℕ) (w : World) (b : Bucket)
      → bucket_of client w.buckets ≡ b
      → bucket_of client (admit rate burst client now w).1.buckets ≡ (taken now b).1
  left-own now w b e = admit-own rate burst now client w ∙ ap (λ x. (taken now x).1) e

  -- From a bucket that does not lie in the future: its tokens, and those that come up to the last request.
  admissions-le_budget :
      (now : ℕ) (w : World) (events : List (Bytes × ℕ)) (b : Bucket)
      → bucket_of client w.buckets ≡ b
      → b.window_start ≤ now
      → admissions rate burst client now w events ≤ budget b (now + span events)
  admissions-le_budget now w [] b e past = omega arith
  admissions-le_budget now w ((key, gap) ∷ rest) b e past = elim (Bool-cases (equal key client)) [
    | inl own ↦
        let (count_le, _, start) = take_token-le rate burst (now + gap) b in
        let ih =
          admissions-le_budget (now + gap) (admit rate burst client (now + gap) w).1 rest
            (taken (now + gap) b).1 (left-own (now + gap) w b e) (omega (arith, start)) in
        let whole : now + gap - b.window_start + span rest
            ≡ now + (gap + span rest) - b.window_start =
          omega arith in
        let earned =
          subst
            (λ t.
              (now + gap - b.window_start) * rate / second + span rest * rate / second
              ≤ t * rate / second)
            whole (earned_split (now + gap - b.window_start) (span rest) rate) in
        subst
          (λ k.
            admissions rate burst client now w ((k, gap) ∷ rest)
            ≤ budget b (now + (gap + span rest)))
          (sym ((equal_iff key client).0 own))
          (omega (arith, own-le now w gap rest b e ih, count_le, earned))
    | inr other ↦
        let w' = (admit rate burst key (now + gap) w).1 in
        let ih =
          admissions-le_budget (now + gap) w' rest b
            (admit-other rate burst (now + gap) key client w other ∙ e) (omega arith) in
        let f : now + gap + span rest ≡ now + (gap + span rest) = omega arith in
        subst (λ n. n ≤ budget b (now + (gap + span rest)))
          (sym (admissions-other rate burst client key now w gap rest other))
          (subst (λ t. admissions rate burst client (now + gap) w' rest ≤ budget b t) f ih)
  ]

  -- The limiter lets through, of the requests that come from one remote address from a moment on that does not lie
  -- before its bucket, at most the burst and as many as the rate earns up to the last request, whatever requests of
  -- other addresses come in between. The remote address holds the port, so that each connection has
  -- a budget of its own.
  pub admissions-le :
      (now : ℕ) (w : World) (events : List (Bytes × ℕ))
      → (bucket_of client w.buckets).window_start ≤ now
      → admissions rate burst client now w events ≤ burst + span events * rate / second
  admissions-le now w [] past = omega arith
  admissions-le now w ((key, gap) ∷ rest) past = elim (Bool-cases (equal key client)) [
    | inl own ↦
        let b = bucket_of client w.buckets in
        let (_, burst_le, start) = take_token-le rate burst (now + gap) b in
        let ih =
          admissions-le_budget (now + gap) (admit rate burst client (now + gap) w).1 rest
            (taken (now + gap) b).1 (left-own (now + gap) w b refl) (omega (arith, start)) in
        subst
          (λ k.
            admissions rate burst client now w ((k, gap) ∷ rest)
            ≤ burst + (gap + span rest) * rate / second)
          (sym ((equal_iff key client).0 own))
          (omega
            (arith, own-le now w gap rest b refl ih, burst_le, earned_more gap (span rest) rate))
    | inr other ↦
        let w' = (admit rate burst key (now + gap) w).1 in
        let same = admit-other rate burst (now + gap) key client w other in
        let ih =
          admissions-le (now + gap) w' rest
            (subst (λ (b : Bucket). b.window_start ≤ now + gap) (sym same) (omega arith)) in
        subst (λ n. n ≤ burst + (gap + span rest) * rate / second)
          (sym (admissions-other rate burst client key now w gap rest other))
          (omega (arith, ih, earned_more gap (span rest) rate))
  ]
