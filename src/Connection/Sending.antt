-- ===== src/Connection/Sending.antt =====
-- What the rounds of write_data take off the buffer of a connection.
use http_storm.Common.{
  false, subst, ℕ, zero, suc, ◌+◌, ◌-◌, ◌≤◌, min, Bool, true, ◌&&◌, Bytes, length, take, drop, List,
  [], ◌∷◌, ◌++◌, ◌==◌, ltb, ◌≡◌, refl, sym, ap, ◌∙◌, Bool-cases, inl, inr, ◌⊎◌, arith,
  take-append-drop,
}
use mathlib.Core.List.{append_assoc}
use http_storm.Connection.{
  Connection, ConnectionState, reading, writing, closed, processing, closing, keep_alive_wait,
  Socket, Sent, room, no_room, Stepped, write_some, write_round, write_rounds, is_closed,
}

drop-drop : {A : Type 0} (m n : ℕ) (xs : List A) → drop n (drop m xs) ≡ drop (m + n) xs
drop-drop zero n xs = let e : 0 + n ≡ n = omega arith in rw e refl
drop-drop (suc m) zero [] = let e : suc m + 0 ≡ suc m = omega arith in rw e refl
drop-drop (suc m) (suc n) [] = let e : suc m + suc n ≡ suc (m + suc n) = omega arith in rw e refl
drop-drop (suc m) n (x ∷ xs) =
    let e : suc m + n ≡ suc (m + n) = omega arith in rw e (drop-drop m n xs)

pub drop-all : {A : Type 0} (n : ℕ) (xs : List A) → length xs ≤ n → drop n xs ≡ []
drop-all zero [] h = refl
drop-all zero (x ∷ xs) h = elim h [ ]
drop-all (suc n) [] h = refl
drop-all (suc n) (x ∷ xs) h = drop-all n xs (omega arith)

pub is_closed_eq : (state : ConnectionState) → is_closed state ≡ true → state ≡ closed
is_closed_eq closed h = refl
is_closed_eq reading h = ground (arith, h)
is_closed_eq writing h = ground (arith, h)
is_closed_eq processing h = ground (arith, h)
is_closed_eq closing h = ground (arith, h)
is_closed_eq keep_alive_wait h = ground (arith, h)

pub List-cases :
    {A : Type 0} (xs : List A) → (xs ≡ []) ⊎ ((x : A) × (rest : List A) × (xs ≡ x ∷ rest))
List-cases [] = inl refl
List-cases (x ∷ xs) = inr (x, xs, refl)

-- The calls of send, or of SSL_write, up to one that fails: on TLS also a call that takes nothing.
pub data Fails (tls : Bool) : List Sent → List Sent → Type 0 where
  send_fails : (rest : List Sent) → Fails tls (Sent.failed ∷ rest) rest
  tls_fails : (rest : List Sent) → tls ≡ true → Fails tls (room 0 ∷ rest) rest
  later_fails :
      (n : ℕ) (calls rest : List Sent) → Fails tls calls rest → Fails tls (room n ∷ calls) rest

-- The calls up to one that finds no room, and nothing but calls that take bytes before it.
pub data Blocks : List Sent → List Sent → Type 0 where
  no_calls : Blocks [] []
  blocks : (rest : List Sent) → Blocks (no_room ∷ rest) rest
  later_blocks : (n : ℕ) (calls rest : List Sent) → Blocks calls rest → Blocks (room n ∷ calls) rest

module _ {W : Type 0} where
  -- The bytes that the peer has been given, and those that still wait in the buffer.
  abbrev pub promised : Connection → Socket W → Bytes
  promised c s = s.output ++ drop c.write_offset c.write_buffer

  -- Writing moves bytes from the buffer to the output, and changes nothing else.
  pub record Wrote (c : Connection) (s : Socket W) (c' : Connection) (s' : Socket W) : Type 0 where
    pub kept : c' ≡ record c { write_offset = c'.write_offset }
    pub same : s' ≡ record s { sends = s'.sends; output = s'.output }
    pub within : c.write_offset ≤ length c.write_buffer → c'.write_offset ≤ length c.write_buffer
    pub moved : s'.output ++ drop c'.write_offset c.write_buffer ≡ promised c s

  Wrote-refl :
      (c : Connection) (s : Socket W) (sends : List Sent) → Wrote c s c (record s { sends = sends })
  Wrote-refl c s sends = record { kept = refl; same = refl; within = λ h. h; moved = refl }

  write_some-promised :
      (n : ℕ) (c : Connection) (s : Socket W)
      → promised (write_some n c s).0 (write_some n c s).1 ≡ promised c s
  write_some-promised n c s =
      let gone = min n (length c.write_buffer - c.write_offset) in
      append_assoc s.output (take gone (drop c.write_offset c.write_buffer))
        (drop (c.write_offset + gone) c.write_buffer)
      ∙ ap (λ t. s.output ++ t)
          (ap (λ t. take gone (drop c.write_offset c.write_buffer) ++ t)
              (sym (drop-drop c.write_offset gone c.write_buffer))
            ∙ take-append-drop gone (drop c.write_offset c.write_buffer))

  write_some-within :
      (n : ℕ) (c : Connection) (s : Socket W)
      → c.write_offset ≤ length c.write_buffer
      → (write_some n c s).0.write_offset ≤ length c.write_buffer
  write_some-within n c s h = omega arith

  Wrote-some :
      {c : Connection} {s : Socket W} {c' : Connection} {s' : Socket W} (n : ℕ) (rs : List Sent)
      → let (c1, s1) = write_some n c (record s { sends = rs }) in
        Wrote c1 s1 c' s' → Wrote c s c' s'
  Wrote-some {c = c} {s = s} n rs w = record {
    kept = w.kept;
    same = w.same;
    within = λ h. w.within (write_some-within n c (record s { sends = rs }) h);
    moved = w.moved ∙ write_some-promised n c (record s { sends = rs });
  }

  write_round-Wrote :
      (again : Connection → Socket W → Bool × Stepped W)
      (again-Wrote : (c : Connection) (s : Socket W) → Wrote c s (again c s).1.0 (again c s).1.1)
      (r : Sent) (rs : List Sent) (c : Connection) (s : Socket W)
      → let result = write_round again r c (record s { sends = rs }) in
        Wrote c s result.1.0 result.1.1
  unfolding write_round
  write_round-Wrote again again-Wrote no_room rs c s = Wrote-refl c s rs
  write_round-Wrote again again-Wrote Sent.failed rs c s = Wrote-refl c s rs
  write_round-Wrote again again-Wrote (room n) rs c s = elim (Bool-cases (c.ssl && n == 0)) [
    | inl stuck ↦ rw stuck (Wrote-refl c s rs)
    | inr free ↦ rw free (
        Wrote-some n rs (
          again-Wrote (write_some n c (record s { sends = rs })).0
            (write_some n c (record s { sends = rs })).1))
  ]

  pub write_rounds-Wrote :
      (rs : List Sent) (c : Connection) (s : Socket W)
      → Wrote c s (write_rounds rs c s).1.0 (write_rounds rs c s).1.1
  unfolding write_rounds
  write_rounds-Wrote [] c s = Wrote-refl c s []
  write_rounds-Wrote (r ∷ rs) c s = elim (Bool-cases (ltb c.write_offset (length c.write_buffer))) [
    | inr done ↦ rw done (Wrote-refl c s (r ∷ rs))
    | inl more ↦ rw more (write_round-Wrote (write_rounds rs) (write_rounds-Wrote rs) r rs c s)
  ]

  -- How the rounds end: with a failure, without room, or with an empty buffer.
  abbrev pub Ended : Bool → List Sent → Bool × Stepped W → Type 0
  Ended tls calls x =
      ((x.0 ≡ false) × Fails tls calls x.1.1.sends)
      ⊎ ((x.0 ≡ true)
          × (Blocks calls x.1.1.sends
              ⊎ (ltb x.1.0.write_offset (length x.1.0.write_buffer) ≡ false)))

  Ended-room :
      (n : ℕ) (tls : Bool) (calls : List Sent) (x : Bool × Stepped W)
      → Ended tls calls x
      → Ended tls (room n ∷ calls) x
  Ended-room n tls calls x (inl (e, f)) = inl (e, later_fails n _ _ f)
  Ended-room n tls calls x (inr (e, inl b)) = inr (e, inl (later_blocks n _ _ b))
  Ended-room n tls calls x (inr (e, inr done)) = inr (e, inr done)

  write_round-Ended :
      (again : Connection → Socket W → Bool × Stepped W) (r : Sent) (rs : List Sent)
      (c : Connection) (s : Socket W)
      → ((c' : Connection) (s' : Socket W) → Ended c'.ssl rs (again c' s'))
      → Ended c.ssl (r ∷ rs) (write_round again r c (record s { sends = rs }))
  unfolding write_round
  write_round-Ended again no_room rs c s h = inr (refl, inl (blocks rs))
  write_round-Ended again Sent.failed rs c s h = inl (refl, send_fails rs)
  write_round-Ended again (room n) rs c s h = elim (Bool-cases (c.ssl && n == 0)) [
    | inl stuck ↦
        let nothing : n ≡ 0 = ground (arith, stuck) in
        let tls : c.ssl ≡ true = ground (arith, stuck) in
        rw stuck
          (inl (refl, subst (λ k. Fails c.ssl (room k ∷ rs) rs) (sym nothing) (tls_fails rs tls)))
    | inr free ↦
        let (c', s') = write_some n c (record s { sends = rs }) in
        rw free (Ended-room n c.ssl rs (again c' s') (h c' s'))
  ]

  pub write_rounds-Ended :
      (rs : List Sent) (c : Connection) (s : Socket W) → Ended c.ssl rs (write_rounds rs c s)
  unfolding write_rounds
  write_rounds-Ended [] c s = inr (refl, inl no_calls)
  write_rounds-Ended (r ∷ rs) c s = elim (Bool-cases (ltb c.write_offset (length c.write_buffer))) [
    | inr done ↦ rw done (inr (refl, inr done))
    | inl more ↦ rw more (write_round-Ended (write_rounds rs) r rs c s (write_rounds-Ended rs))
  ]
