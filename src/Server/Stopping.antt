-- ===== src/Server/Stopping.antt =====
-- When the loop of `Server::event_loop` returns.
use http_storm.Common.{
  Option, none, Bytes, All, subst, leb, length, ℕ, ◌*◌, ◌-◌, Bool, true, false, not, ◌||◌, List, [],
  ◌∷◌, ltb, if_true, if_false, either_way, Bool-cases, inl, inr, ◌↔◌, ◌≡◌, refl, sym, ap, ◌∙◌,
  arith,
}
use http_storm.Server.Table.{
  ConnectionOps, Table, Made, made, made_none, add_connection, accept_connection,
}
use http_storm.Server.Lifecycle.{Server, stopping, stop}
use http_storm.Server.EventLoop.{
  Report, Round, Waited, interrupted, failed, reported, Loop, left, waits, go_on, is_server_fd,
  handle_report, handle_reports, cleaning, awake, event_round, event_loop,
}

abbrev pub is_failed : {C : Type 0} → Waited C → Bool
is_failed failed = true
is_failed _ = false

-- the handler of a signal runs, or epoll_wait fails
abbrev pub ends : {C : Type 0} → List (Round C) → Bool
ends [] = false
ends (r ∷ rs) = r.signalled || is_failed r.waited || ends rs

-- No constructor of a connection throws during the round.
abbrev pub IsMade : {C : Type 0} → ℕ × Made C → Type 0
IsMade (fd, made conn) = Unit
IsMade (fd, made_none message) = ⊥

abbrev pub MakesAll : {C : Type 0} → Waited C → Type 0
MakesAll (reported rs) = All (λ (r : Report _). All IsMade r.waiting) rs
MakesAll interrupted = Unit
MakesAll failed = Unit

module _ {C : Type 0} (ops : ConnectionOps C) where
  abbrev pub Leaves : Loop C → Type 0
  Leaves l = (s : Server C) × (l ≡ left s)

  stop-running : (s : Server C) → (stop ops s).running ≡ false
  unfolding stop
  stop-running s = elim (Bool-cases s.running) [
    | inl e ↦ rw e refl
    | inr e ↦ ap (λ (t : Server C). t.running) (if_false s.running (stopping ops s) s e) ∙ e
  ]

  awake-running :
      (r : Round C) (s : Server C) → s.running ≡ true → (awake ops r s).running ≡ not r.signalled
  awake-running r s e = elim (Bool-cases r.signalled) [
    | inl f ↦ rw f (stop-running _)
    | inr f ↦ rw f e
  ]

  accept_connection-returns :
      (max : ℕ) (waiting : List (ℕ × Made C)) (t : Table C)
      → All IsMade waiting
      → (accept_connection ops max waiting t).1 ≡ none
  unfolding accept_connection
  accept_connection-returns max [] t h = refl
  accept_connection-returns max ((fd, made conn) ∷ waiting) t (_, h) =
      either_way (λ (x : Table C × Option Bytes). x.1 ≡ none) (leb max (length t.connections)) _ _
        refl (accept_connection-returns max waiting (add_connection ops fd conn t) h)
  accept_connection-returns max ((fd, made_none message) ∷ waiting) t (h, _) = absurd h

  -- what a handler that returns leaves as it was
  Handled : Server C → Server C × Option Bytes → Type 0
  Handled s x = (x.0.running ≡ s.running) × (x.1 ≡ none)

  handle_report-Handled :
      (r : Report C) (s : Server C) → All IsMade r.waiting → Handled s (handle_report ops r s)
  unfolding handle_report Handled
  handle_report-Handled r s h =
      either_way (λ (x : Server C × Option Bytes). (x.0.running ≡ s.running) × (x.1 ≡ none))
        (is_server_fd r.fd s.server_fd) _ _
        (refl, accept_connection-returns s.config.max_connections r.waiting s.table h) (refl, refl)

  handle_reports-Handled :
      (rs : List (Report C)) (s : Server C)
      → All (λ (r : Report C). All IsMade r.waiting) rs
      → Handled s (handle_reports ops rs s)
  unfolding handle_reports Handled
  handle_reports-Handled [] s h = (refl, refl)
  handle_reports-Handled (r ∷ rs) s (h, hs) =
      let (same, returns) = handle_report-Handled r s h in
      let (later, all) = handle_reports-Handled rs (handle_report ops r s).0 hs in
      rw (returns, handle_reports) (later ∙ same, all)

  -- What a round that does not fail leaves.
  Waits : Bool → Loop C → Type 0
  Waits running l = (s : Server C) × (last : ℕ) × (l ≡ waits s last) × (s.running ≡ running)

  cleaning-Waits : (r : Round C) (last : ℕ) (s : Server C) → Waits s.running (cleaning ops r last s)
  unfolding Waits
  cleaning-Waits r last s =
      either_way (Waits s.running) (ltb (10 * 1_000_000_000) (r.now - last)) _ _ (_, _, refl, refl)
        (s, last, refl, refl)

  event_round-Waits :
      (r : Round C) (last : ℕ) (s : Server C)
      → s.running ≡ true
      → is_failed r.waited ≡ false
      → MakesAll r.waited
      → Waits (not r.signalled) (event_round ops r last s)
  unfolding event_round Waits Handled
  event_round-Waits r last s e f all = go r.waited refl
    where
      go : (w : Waited C) → r.waited ≡ w → Waits (not r.signalled) (event_round ops r last s)
      go interrupted g = (awake ops r s, last, rw (g, event_round) refl, awake-running r s e)
      go failed g = absurd (let k : true ≡ false = ap is_failed (sym g) ∙ f in cc)
      go (reported rs) g =
          let s' = (handle_reports ops rs (awake ops r s)).0 in
          let (kept, returns) =
            handle_reports-Handled rs (awake ops r s) (subst (λ w. MakesAll w) g all) in
          let (t, last', same, run) = cleaning-Waits r last s' in
          let round : event_round ops r last s ≡ cleaning ops r last s' =
            rw (g, event_round, returns) refl in
          (t, last', round ∙ same, run ∙ kept ∙ awake-running r s e)

  event_round-failed :
      (r : Round C) (last : ℕ) (s : Server C)
      → is_failed r.waited ≡ true
      → event_round ops r last s ≡ left (awake ops r s)
  unfolding event_round
  event_round-failed r last s f = go r.waited refl
    where
      go : (w : Waited C) → r.waited ≡ w → event_round ops r last s ≡ left (awake ops r s)
      go interrupted g = absurd (let k : false ≡ true = ap is_failed (sym g) ∙ f in cc)
      go failed g = rw (g, event_round) refl
      go (reported rs) g = absurd (let k : false ≡ true = ap is_failed (sym g) ∙ f in cc)

  event_loop-running :
      (r : Round C) (rs : List (Round C)) (last : ℕ) (s : Server C)
      → s.running ≡ true
      → event_loop ops (r ∷ rs) last s ≡ go_on (event_round ops r last s) (event_loop ops rs)
  unfolding event_loop
  event_loop-running r rs last s e = if_true s.running _ (left s) e

  event_loop-stopped :
      (rounds : List (Round C)) (last : ℕ) (s : Server C)
      → s.running ≡ false
      → event_loop ops rounds last s ≡ left s
  unfolding event_loop
  event_loop-stopped [] last s e = if_false s.running (waits s last) (left s) e
  event_loop-stopped (r ∷ rs) last s e = if_false s.running _ (left s) e

  event_loop-waiting :
      (last : ℕ) (s : Server C) → s.running ≡ true → event_loop ops [] last s ≡ waits s last
  unfolding event_loop
  event_loop-waiting last s e = if_true s.running (waits s last) (left s) e

  -- The loop of a running server in which no constructor of a connection throws returns if, during one of
  -- the rounds, the handler of a signal runs or epoll_wait fails otherwise than by EINTR, and only then.
  pub event_loop-Leaves :
      (rounds : List (Round C)) (last : ℕ) (s : Server C)
      → s.running ≡ true
      → All (λ (r : Round C). MakesAll r.waited) rounds
      → (ends rounds ≡ true) ↔ Leaves (event_loop ops rounds last s)
  unfolding Waits
  event_loop-Leaves [] last s e all =
      (λ f. cc, λ (s', f). absurd (let k = sym (event_loop-waiting last s e) ∙ f in cc))
  event_loop-Leaves (r ∷ rs) last s e (all, later_all) =
      let step = event_loop-running r rs last s e in
      elim (Bool-cases (is_failed r.waited)) [
        | inl f ↦
            let whole =
              step
              ∙ ap (λ (l : Loop C). go_on l (event_loop ops rs)) (event_round-failed r last s f) in
            (λ h. (awake ops r s, whole), λ h. ground (arith, f))
        | inr f ↦
            let (s', last', same, run) = event_round-Waits r last s e f all in
            let whole = step ∙ ap (λ (l : Loop C). go_on l (event_loop ops rs)) same in
            elim (Bool-cases r.signalled) [
              | inl g ↦ (
                λ h. (s', whole ∙ event_loop-stopped rs last' s' (run ∙ ap not g)),
                λ h. ground (arith, g),
              )
              | inr g ↦
                  let later = event_loop-Leaves rs last' s' (run ∙ ap not g) later_all in
                  (
                    λ h. let (t, k) = later.0 (ground (arith, f, g, h)) in (t, whole ∙ k),
                    λ (t, k). ground (arith, later.1 (t, sym whole ∙ k)),
                  )
            ]
      ]
