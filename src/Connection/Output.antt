-- ===== src/Connection/Output.antt =====
-- The output of a connection: what handle_write makes of the buffer.
use http_storm.Common.{
  ℕ, ◌+◌, ◌≤◌, ◌<◌, Bool, true, false, not, Bytes, length, drop, List, [], ◌++◌, ltb, ltb→lt,
  if◌then◌else◌, ◌≡◌, refl, sym, ap, subst, ◌∙◌, Bool-cases, inl, inr, arith,
}
use mathlib.Core.List.{append-nil}
use http_storm.Parser.{initial, reset}
use http_storm.Connection.{
  Connection, reading, writing, closed, Socket, Stepped, write_data, stays_open, finish_write,
  after_write, handle_write, close, update_activity, is_writing, is_closed,
}
use http_storm.Connection.Sending.{
  drop-all, is_closed_eq, List-cases, promised, Wrote, write_rounds-Wrote, Fails, Blocks, Ended,
  write_rounds-Ended,
}

module _ {W : Type 0} where
  -- How `handle_write` can leave a connection that it finds writing.
  pub data Written (c : Connection) (s : Socket W) (c' : Connection) (s' : Socket W) : Type 0 where
    -- the socket has said that it has no room
    waits :
        c'.state ≡ writing
        → c'.write_buffer ≡ c.write_buffer
        → c'.write_offset < length c.write_buffer
        → promised c' s' ≡ promised c s
        → Blocks s.sends s'.sends
        → Written c s c' s'
    -- all is sent, and another request can come
    keeps :
        stays_open c ≡ true
        → c'.state ≡ reading
        → c'.parser ≡ initial
        → s'.output ≡ promised c s
        → Written c s c' s'
    -- all is sent, and the connection ends
    ends : stays_open c ≡ false → c'.state ≡ closed → s'.output ≡ promised c s → Written c s c' s'
    -- a call on the socket has failed when some of it is sent
    breaks :
        c'.state ≡ closed
        → (rest : Bytes) → s'.output ++ rest ≡ promised c s
        → Fails c.ssl s.sends s'.sends
        → Written c s c' s'

  pub close-output : (c : Connection) (s : Socket W) → (close c s).1.output ≡ s.output
  unfolding close
  close-output c s = ground arith

  close-sends : (c : Connection) (s : Socket W) → (close c s).1.sends ≡ s.sends
  unfolding close
  close-sends c s = ground arith

  pub close-closed : (c : Connection) (s : Socket W) → (close c s).0.state ≡ closed
  unfolding close
  close-closed c s = elim (Bool-cases (is_closed c.state)) [
    | inl already ↦ rw already (is_closed_eq c.state already)
    | inr live ↦ rw live refl
  ]

  pub Wrote-all :
      {c : Connection} {s : Socket W} {c' : Connection} {s' : Socket W}
      → Wrote c s c' s'
      → length c.write_buffer ≤ c'.write_offset
      → s'.output ≡ promised c s
  Wrote-all {c = c} {s = s} {c' = c'} {s' = s'} w h =
      sym (append-nil s'.output)
      ∙ ap (λ t. s'.output ++ t) (sym (drop-all c'.write_offset c.write_buffer h))
      ∙ w.moved

  stays_open-Wrote :
      {c : Connection} {s : Socket W} {c' : Connection} {s' : Socket W}
      → Wrote c s c' s'
      → stays_open (record c' { write_buffer = []; write_offset = 0 }) ≡ stays_open c
  stays_open-Wrote w =
      ap (λ x. stays_open (record x { write_buffer = []; write_offset = 0 })) w.kept

  finish_write-Written :
      {c : Connection} {s : Socket W} {c' : Connection} {s' : Socket W}
      → Wrote c s c' s'
      → s'.output ≡ promised c s
      → Written c s (finish_write c' s').0 (finish_write c' s').1
  unfolding finish_write reset
  finish_write-Written {c = c} {s = s} {c' = c'} {s' = s'} w all =
      let same = stays_open-Wrote w in
      elim (Bool-cases (stays_open (record c' { write_buffer = []; write_offset = 0 }))) [
        | inl stays ↦ rw stays (keeps (sym same ∙ stays) refl refl all)
        | inr ends_here ↦
            rw ends_here (ends (sym same ∙ ends_here) (close-closed _ s') (close-output _ s' ∙ all))
      ]

  after_write-Written :
      (ok : Bool) {c : Connection} {s : Socket W} {c' : Connection} {s' : Socket W}
      → c.state ≡ writing
      → Wrote c s c' s'
      → Ended c.ssl s.sends (ok, (c', s'))
      → Written c s (after_write ok c' s').0 (after_write ok c' s').1
  unfolding after_write
  after_write-Written false {c = c} {s = s} {c' = c'} {s' = s'} e w ended = elim ended [
    | inr (going, _) ↦ cc
    | inl (_, f) ↦
        breaks (close-closed c' s') (drop c'.write_offset c.write_buffer)
          (ap (λ t. t ++ drop c'.write_offset c.write_buffer) (close-output c' s') ∙ w.moved)
          (subst (Fails c.ssl s.sends) (sym (close-sends c' s')) f)
  ]
  after_write-Written true {c = c} {s = s} {c' = c'} {s' = s'} e w ended =
      let buffer : c'.write_buffer ≡ c.write_buffer = ap (λ x. x.write_buffer) w.kept in
      elim (Bool-cases (ltb c'.write_offset (length c'.write_buffer))) [
        | inl more ↦ rw more (
            waits (ap (λ x. x.state) w.kept ∙ e) buffer
              (subst (λ b. c'.write_offset < length b) buffer (ltb→lt _ _ more))
              (ap (λ b. s'.output ++ drop c'.write_offset b) buffer ∙ w.moved) (blocked more ended))
        | inr done ↦ rw done (
            finish_write-Written w
              (Wrote-all w (subst (λ b. length b ≤ c'.write_offset) buffer (ground (arith, done)))))
      ]
    where
      blocked :
          ltb c'.write_offset (length c'.write_buffer) ≡ true
          → Ended c.ssl s.sends (true, (c', s'))
          → Blocks s.sends s'.sends
      blocked more (inl (going, _)) = cc
      blocked more (inr (_, inl b)) = b
      blocked more (inr (_, inr done)) = absurd (ground (arith, more, done))

  -- `update_activity` changes a time and the clock.
  pub update_activity_lem :
      (c : Connection) (s : Socket W)
      → (t : ℕ) × (ds : List ℕ) × (update_activity c s
          ≡ (record c { last_activity = t }, record s { now = t; delays = ds }))
  unfolding update_activity
  update_activity_lem c s = elim (List-cases s.delays) [
    | inl none_left ↦ (s.now, s.delays, rw none_left refl)
    | inr (d, ds, some_left) ↦ (s.now + d, ds, rw some_left refl)
  ]

  Written-touched :
      {c : Connection} {s : Socket W} {c' : Connection} {s' : Socket W} (t : ℕ) (ds : List ℕ)
      → Written (record c { last_activity = t }) (record s { now = t; delays = ds }) c' s'
      → Written c s c' s'
  Written-touched t ds (waits e b l p k) = waits e b l p k
  Written-touched t ds (keeps k e p o) = keeps k e p o
  Written-touched t ds (ends k e o) = ends k e o
  Written-touched t ds (breaks e rest o f) = breaks e rest o f

  abbrev pub written : Connection → Socket W → Stepped W
  written c s = let (ok, (c', s')) = write_data c s in after_write ok c' s'

  pub handle_write-writing :
      (c : Connection) (s : Socket W)
      → c.state ≡ writing
      → handle_write c s ≡ written (update_activity c s).0 (update_activity c s).1
  unfolding handle_write
  handle_write-writing c s e =
      ap (λ b. if not b then (c, s) else written (update_activity c s).0 (update_activity c s).1)
        (ap is_writing e)

  -- `handle_write` loses no byte of the response, repeats none and keeps their order: what was given to
  -- the peer before and what waits in the buffer are, together, what has been given and what waits
  -- afterwards. It leaves the connection writing only if bytes wait and a call has found no room; it goes
  -- back to READING only when all are sent, the request is complete and keep-alive, and the count of
  -- requests is below the limit; in every other case it closes, either with all sent, or with a part
  -- because a call has failed, on TLS also one that has taken nothing.
  pub handle_write-Written :
      (c : Connection) (s : Socket W)
      → c.state ≡ writing
      → Written c s (handle_write c s).0 (handle_write c s).1
  handle_write-Written c s e =
      let (t, ds, touched) = update_activity_lem c s in
      let c1 : Connection = record c { last_activity = t } in
      let s1 : Socket W = record s { now = t; delays = ds } in
      let r = write_data c1 s1 in
      subst (λ x. Written c s x.0 x.1)
        (sym (handle_write-writing c s e ∙ ap (λ x. written x.0 x.1) touched))
        (Written-touched t ds (
          after_write-Written r.0 {c = c1} {s = s1} {c' = r.1.0} {s' = r.1.1} e
            (write_rounds-Wrote s1.sends c1 s1) (write_rounds-Ended s1.sends c1 s1)))
