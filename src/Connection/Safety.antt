-- ===== src/Connection/Safety.antt =====
-- How the operations that end or write keep what holds of a connection at rest.
use http_storm.Common.{
  ℕ, ◌≤◌, Bool, true, false, length, [], ltb, ◌≡◌, refl, sym, ap, subst, ◌∙◌, Bool-cases, inl, inr,
  ◌⊎◌, arith,
}
use http_storm.Parser.{reset}
use http_storm.Parser.Framing.{IsValid}
use http_storm.Parser.Validity.{initial-IsValid}
use http_storm.Connection.{
  Connection, ConnectionState, reading, processing, writing, keep_alive_wait, closing, closed,
  Socket, stays_open, finish_write, after_write, handle_write, close, is_writing, is_closed,
  write_data,
}
use http_storm.Connection.Sending.{Wrote, write_rounds-Wrote}
use http_storm.Connection.Output.{update_activity_lem, handle_write-writing, written}
use http_storm.Connection.Rest.{IsHeld, AtRest, RestsSoundly, ReadsSoundly, AtRest-cases}

writing-or : (state : ConnectionState) → (state ≡ writing) ⊎ (is_writing state ≡ false)
writing-or writing = inl refl
writing-or reading = inr refl
writing-or processing = inr refl
writing-or keep_alive_wait = inr refl
writing-or closing = inr refl
writing-or closed = inr refl

module _ {W : Type 0} (n : ℕ) (tls : Bool) where
  abbrev pub IsOpen : Connection → Socket W → Type 0
  IsOpen c s = IsHeld n tls c.fd c.ssl s.endings

  abbrev pub IsSound : Connection → Socket W → Type 0
  IsSound c s = RestsSoundly n tls c s.endings

  abbrev pub IsReadable : Connection → Socket W → Type 0
  IsReadable c s = ReadsSoundly n tls c s.endings

  close-open :
      (c : Connection) (s : Socket W)
      → IsOpen c s
      → is_closed c.state ≡ false
      → IsValid c.parser
      → IsSound (close c s).0 (close c s).1
  unfolding close
  close-open c s o live v =
      rw live
        (record { parser_IsValid = v; rest = (refl, refl, rw (o.going, o.tls_kept, o.held) refl) })

  close-again :
      (c : Connection) (s : Socket W)
      → IsSound c s
      → is_closed c.state ≡ true
      → IsSound (close c s).0 (close c s).1
  unfolding close
  close-again c s sound ended = rw ended sound

  pub close-IsSound :
      (c : Connection) (s : Socket W) → IsSound c s → IsSound (close c s).0 (close c s).1
  close-IsSound c s sound = elim (AtRest-cases n tls c.state c s.endings sound.rest) [
    | inl (o, live) ↦ close-open c s o live sound.parser_IsValid
    | inr ended ↦ close-again c s sound ended
  ]

  finish_write-IsSound :
      (c : Connection) (s : Socket W)
      → IsOpen c s
      → is_closed c.state ≡ false
      → IsValid c.parser
      → IsSound (finish_write c s).0 (finish_write c s).1
  unfolding finish_write reset
  finish_write-IsSound c s o live v =
      let c' : Connection = record c { write_buffer = []; write_offset = 0 } in
      elim (Bool-cases (stays_open c')) [
        | inl stays ↦
            rw stays
              (record { parser_IsValid = initial-IsValid; rest = (o, refl, refl, omega arith) })
        | inr ends ↦ rw ends (close-open c' s o live v)
      ]

  -- a connection that is writing
  abbrev pub IsWriting : Connection → Socket W → Type 0
  IsWriting c s =
      (c.state ≡ writing) × IsOpen c s × IsValid c.parser × (c.write_offset ≤ length c.write_buffer)

  IsWriting-IsSound : (c : Connection) (s : Socket W) → IsWriting c s → IsSound c s
  IsWriting-IsSound c s (e, o, v, h) = record {
    parser_IsValid = v;
    rest = subst (λ st. AtRest n tls st c s.endings) (sym e) (o, h);
  }

  after_write-IsSound :
      (ok : Bool) (c : Connection) (s : Socket W)
      → IsWriting c s
      → IsSound (after_write ok c s).0 (after_write ok c s).1
  unfolding after_write
  after_write-IsSound false c s w = close-IsSound c s (IsWriting-IsSound c s w)
  after_write-IsSound true c s (e, o, v, h) =
      elim (Bool-cases (ltb c.write_offset (length c.write_buffer))) [
        | inl more ↦ rw more (IsWriting-IsSound c s (e, o, v, h))
        | inr done ↦ rw done (finish_write-IsSound c s o (ap is_closed e) v)
      ]

  IsWriting-Wrote :
      {c : Connection} {s : Socket W} {c' : Connection} {s' : Socket W}
      → Wrote c s c' s'
      → IsWriting c s
      → IsWriting c' s'
  IsWriting-Wrote {c = c} {s = s} {c' = c'} {s' = s'} w (e, o, v, h) = (
    ap (λ x. x.state) w.kept ∙ e,
    record {
      held = ap (λ x. x.fd) w.kept ∙ o.held;
      tls_kept = ap (λ x. x.ssl) w.kept ∙ o.tls_kept;
      going = ap (λ x. x.endings) w.same ∙ o.going;
    },
    subst (λ x. IsValid x.parser) (sym w.kept) v,
    subst (λ b. c'.write_offset ≤ length b) (sym (ap (λ x. x.write_buffer) w.kept)) (w.within h),
  )

  written-IsSound :
      (c : Connection) (s : Socket W) → IsWriting c s → IsSound (written c s).0 (written c s).1
  written-IsSound c s w =
      let r = write_data c s in
      after_write-IsSound r.0 r.1.0 r.1.1 (IsWriting-Wrote (write_rounds-Wrote s.sends c s) w)

  pub handle_write-IsWriting :
      (c : Connection) (s : Socket W)
      → IsWriting c s
      → IsSound (handle_write c s).0 (handle_write c s).1
  handle_write-IsWriting c s (e, o, v, h) =
      let (t, ds, touched) = update_activity_lem c s in
      subst (λ x. IsSound x.0 x.1)
        (sym (handle_write-writing c s e ∙ ap (λ x. written x.0 x.1) touched))
        (written-IsSound (record c { last_activity = t }) (record s { now = t; delays = ds })
          (e, o, v, h))

  handle_write-other :
      (c : Connection) (s : Socket W) → is_writing c.state ≡ false → handle_write c s ≡ (c, s)
  unfolding handle_write
  handle_write-other c s e = rw e refl

  IsSound-IsWriting :
      (c : Connection) (s : Socket W) → IsSound c s → c.state ≡ writing → IsWriting c s
  IsSound-IsWriting c s sound e =
      let (o, h) : AtRest n tls writing c s.endings =
        subst (λ st. AtRest n tls st c s.endings) e sound.rest in
      (e, o, sound.parser_IsValid, h)

  pub handle_write-IsSound :
      (c : Connection) (s : Socket W)
      → IsSound c s
      → IsSound (handle_write c s).0 (handle_write c s).1
  handle_write-IsSound c s sound = elim (writing-or c.state) [
    | inl e ↦ handle_write-IsWriting c s (IsSound-IsWriting c s sound e)
    | inr other ↦ subst (λ x. IsSound x.0 x.1) (sym (handle_write-other c s other)) sound
  ]

  pub IsReadable-IsOpen :
      (c : Connection) (s : Socket W) → IsSound c s → is_closed c.state ≡ false → IsReadable c s
  IsReadable-IsOpen c s sound live = elim (AtRest-cases n tls c.state c s.endings sound.rest) [
    | inl (o, _) ↦ record { sound = sound; opened = o; live = live }
    | inr ended ↦ absurd (ground (arith, live, ended))
  ]
