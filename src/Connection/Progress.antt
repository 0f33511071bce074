-- ===== src/Connection/Progress.antt =====
-- A response is sent whole when the socket has room often enough.
use http_storm.Common.{
  ℕ, suc, ◌+◌, ◌≤◌, Bool, true, length, List, [], ◌∷◌, ltb, ltb→lt, ◌≡◌, refl, sym, ap, subst, ◌∙◌,
  Bool-cases, inl, inr, ◌⊎◌, arith, All,
}
use http_storm.Connection.{
  Connection, reading, writing, closed, Socket, Sent, room, Stepped, write_some, write_round,
  write_rounds, write_data, stays_open, finish_write, after_write, handle_write,
}
use http_storm.Connection.Sending.{promised, write_rounds-Wrote}
use http_storm.Connection.Output.{
  Wrote-all, close-output, close-closed, update_activity_lem, handle_write-writing, written,
}

-- The socket takes at least one byte.
abbrev pub HasRoom : Sent → Type 0
HasRoom r = (n : ℕ) × (r ≡ room (suc n))

module _ {W : Type 0} where
  -- the loop has sent everything
  abbrev Sends : Connection → Bool × Stepped W → Type 0
  Sends c x = (x.0 ≡ true) × (length c.write_buffer ≤ x.1.0.write_offset)

  write_round-room :
      (again : Connection → Socket W → Bool × Stepped W) (n : ℕ) (c : Connection) (s : Socket W)
      → write_round again (room (suc n)) c s
        ≡ again (write_some (suc n) c s).0 (write_some (suc n) c s).1
  unfolding write_round
  write_round-room again n c s = ground arith

  write_rounds-Sends :
      (rs : List Sent) (c : Connection) (s : Socket W)
      → All HasRoom rs
      → length c.write_buffer ≤ c.write_offset + length rs
      → Sends c (write_rounds rs c s)
  unfolding write_rounds
  write_rounds-Sends [] c s _ h = (refl, omega arith)
  write_rounds-Sends (r ∷ rs) c s ((n, e), hs) h =
      elim (Bool-cases (ltb c.write_offset (length c.write_buffer))) [
        | inr done ↦ rw done (refl, ground (arith, done))
        | inl more ↦
            let s1 : Socket W = record s { sends = rs } in
            let lt = ltb→lt c.write_offset (length c.write_buffer) more in
            rw more (
              subst (Sends c)
                (sym (
                  ap (λ x. write_round (write_rounds rs) x c s1) e
                  ∙ write_round-room (write_rounds rs) n c s1))
                (write_rounds-Sends rs (write_some (suc n) c s1).0 (write_some (suc n) c s1).1 hs
                  (omega arith)))
      ]

  after_write-done :
      (c : Connection) (s : Socket W)
      → length c.write_buffer ≤ c.write_offset
      → after_write true c s ≡ finish_write c s
  unfolding after_write
  after_write-done c s h = ground arith

  -- everything is with the peer, and the connection does not write any more
  abbrev SentAll : Connection → Socket W → Stepped W → Type 0
  SentAll c s x = (x.1.output ≡ promised c s) × ((x.0.state ≡ reading) ⊎ (x.0.state ≡ closed))

  finish_write-SentAll :
      (c : Connection) (s : Socket W) (c' : Connection) (s' : Socket W)
      → s'.output ≡ promised c s
      → SentAll c s (finish_write c' s')
  unfolding finish_write
  finish_write-SentAll c s c' s' all =
      let emptied : Connection = record c' { write_buffer = []; write_offset = 0 } in
      elim (Bool-cases (stays_open emptied)) [
        | inl stays ↦ rw stays (all, inl refl)
        | inr last ↦ rw last (close-output emptied s' ∙ all, inr (close-closed emptied s'))
      ]

  written-sends :
      (c : Connection) (s : Socket W)
      → All HasRoom s.sends
      → length c.write_buffer ≤ c.write_offset + length s.sends
      → SentAll c s (written c s)
  written-sends c s rooms h =
      let x = write_data c s in
      let (ok, all) = write_rounds-Sends s.sends c s rooms h in
      let w = write_rounds-Wrote s.sends c s in
      let done : length x.1.0.write_buffer ≤ x.1.0.write_offset =
        subst (λ b. length b ≤ x.1.0.write_offset) (sym (ap (λ y. y.write_buffer) w.kept)) all in
      subst (SentAll c s)
        (sym (ap (λ b. after_write b x.1.0 x.1.1) ok ∙ after_write-done x.1.0 x.1.1 done))
        (finish_write-SentAll c s x.1.0 x.1.1 (Wrote-all w all))

  -- When the socket has room for a byte in each of as many calls as bytes wait, one `handle_write` sends
  -- all of them, and does not leave the connection writing.
  pub handle_write-sends :
      (c : Connection) (s : Socket W)
      → c.state ≡ writing
      → All HasRoom s.sends
      → length c.write_buffer ≤ c.write_offset + length s.sends
      → let (c', s') = handle_write c s in
        (s'.output ≡ promised c s) × ((c'.state ≡ reading) ⊎ (c'.state ≡ closed))
  handle_write-sends c s e rooms h =
      let (t, ds, touched) = update_activity_lem c s in
      subst (SentAll c s) (sym (handle_write-writing c s e ∙ ap (λ x. written x.0 x.1) touched))
        (written-sends (record c { last_activity = t }) (record s { now = t; delays = ds }) rooms h)
