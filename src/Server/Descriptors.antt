-- ===== src/Server/Descriptors.antt =====
-- What Server does with the listening socket and the epoll descriptor, from `start` to the destructor.
use http_storm.Common.{
  either_way, if_false, ℕ, ◌*◌, ◌-◌, true, false, List, [], ◌∷◌, ltb, none, some, Bool-cases,
  Option-cases, inl, inr, ◌⊎◌, ◌≡◌, refl, sym, subst,
}
use http_storm.Server.Table.{ConnectionOps, Table}
use http_storm.Server.Lifecycle.{Server, run_jobs, stopping, stop}
use http_storm.Server.EventLoop.{
  Report, Round, Waited, interrupted, failed, reported, Loop, left, waits, broken_off, loop_server,
  go_on, is_server_fd, handle_report, handle_reports, cleaning, awake, event_round, event_loop,
}
use http_storm.Server.Idle.{
  IsIdle, run_jobs-IsIdle, stopped_table-IsIdle, handle_connection_event-empty, cleanup-empty,
}

-- A server that does not run is not stopped again.
pub stop-idle :
    {C : Type 0} (ops : ConnectionOps C) (s : Server C) → s.running ≡ false → stop ops s ≡ s
unfolding stop
stop-idle ops s e = if_false s.running (stopping ops s) s e

module _ {C : Type 0} (ops : ConnectionOps C) (server_fd epoll_fd : ℕ) where
  -- The server is running, and holds its descriptors.
  pub record IsLive (s : Server C) : Type 0 where
    pub running : s.running ≡ true
    pub holds_server : s.server_fd ≡ some server_fd
    pub holds_epoll : s.epoll_fd ≡ some epoll_fd
    pub closed : s.closed_fds ≡ []

  -- It has been stopped: each descriptor has been closed once, the table is empty, and the pool is joined.
  pub record IsReleased (s : Server C) : Type 0 where
    pub running : s.running ≡ false
    pub server : s.server_fd ≡ none
    pub epoll : s.epoll_fd ≡ none
    pub closed : s.closed_fds ≡ epoll_fd ∷ server_fd ∷ []
    pub pool : s.pool_shut ≡ true
    pub table : IsIdle ops s.table

  abbrev pub Phase : Server C → Type 0
  Phase s = IsLive s ⊎ IsReleased s

  stopping-IsReleased : (s : Server C) → IsLive s → IsReleased (stopping ops s)
  stopping-IsReleased s h = record {
    running = refl;
    server = refl;
    epoll = refl;
    closed = rw (h.holds_server, h.holds_epoll, h.closed) refl;
    pool = refl;
    table = stopped_table-IsIdle ops s.table;
  }

  pub stop-IsReleased : (s : Server C) → Phase s → IsReleased (stop ops s)
  unfolding stop
  stop-IsReleased s (inl h) = rw h.running (stopping-IsReleased s h)
  stop-IsReleased s (inr h) = subst IsReleased (sym (stop-idle ops s h.running)) h

  with_table-Live : (s : Server C) (t : Table C) → IsLive s → IsLive (record s { table = t })
  with_table-Live s t h = record {
    running = h.running;
    holds_server = h.holds_server;
    holds_epoll = h.holds_epoll;
    closed = h.closed;
  }

  with_table-Released :
      (s : Server C) (t : Table C)
      → IsReleased s
      → IsIdle ops t
      → IsReleased (record s { table = t })
  with_table-Released s t h idle = record {
    running = h.running;
    server = h.server;
    epoll = h.epoll;
    closed = h.closed;
    pool = h.pool;
    table = idle;
  }

  run_jobs-Phase :
      (n : ℕ) (s : Server C) → Phase s → Phase (record s { table = run_jobs ops n s.table })
  run_jobs-Phase n s (inl h) = inl (with_table-Live s _ h)
  run_jobs-Phase n s (inr h) =
      inr (with_table-Released s _ h (run_jobs-IsIdle ops n s.table h.table))

  awake-Phase : (r : Round C) (s : Server C) → Phase s → Phase (awake ops r s)
  awake-Phase r s h =
      let s' : Server C = record s { table = run_jobs ops r.jobs_run s.table } in
      let kept : Phase s' = run_jobs-Phase r.jobs_run s h in
      either_way Phase r.signalled (stop ops s') s' (inr (stop-IsReleased s' kept)) kept

  handle_report-Phase : (r : Report C) (s : Server C) → Phase s → Phase (handle_report ops r s).0
  unfolding handle_report
  handle_report-Phase r s (inl h) = elim (Bool-cases (is_server_fd r.fd s.server_fd)) [
    | inl e ↦ rw e (inl (with_table-Live s _ h))
    | inr e ↦ rw e (inl (with_table-Live s _ h))
  ]
  handle_report-Phase r s (inr h) =
      let same = handle_connection_event-empty ops r.fd r.events s.table h.table.connections in
      let other : is_server_fd r.fd s.server_fd ≡ false = rw h.server refl in
      rw (other, same) (inr h)

  handle_reports-Phase :
      (rs : List (Report C)) (s : Server C) → Phase s → Phase (handle_reports ops rs s).0
  unfolding handle_reports
  handle_reports-Phase [] s h = h
  handle_reports-Phase (r ∷ rs) s h =
      let kept = handle_report-Phase r s h in
      elim (Option-cases (handle_report ops r s).1) [
        | inl e ↦ rw (e, handle_reports) (handle_reports-Phase rs (handle_report ops r s).0 kept)
        | inr (message, e) ↦ rw (e, handle_reports) kept
      ]

  cleaning-Phase :
      (r : Round C) (last : ℕ) (s : Server C)
      → Phase s
      → Phase (loop_server (cleaning ops r last s))
  cleaning-Phase r last s h = elim (Bool-cases (ltb (10 * 1_000_000_000) (r.now - last))) [
    | inr e ↦ rw e h
    | inl e ↦ elim h [
      | inl live ↦ rw e (inl (with_table-Live s _ live))
      | inr gone ↦ rw (e, cleanup-empty ops r.cleanup_now s.table gone.table.connections) (inr gone)
    ]
  ]

  event_round-Phase :
      (r : Round C) (last : ℕ) (s : Server C)
      → Phase s
      → Phase (loop_server (event_round ops r last s))
  unfolding event_round
  event_round-Phase r last s h = go r.waited refl
    where
      go : (w : Waited C) → r.waited ≡ w → Phase (loop_server (event_round ops r last s))
      go interrupted e = rw (e, event_round) (awake-Phase r s h)
      go failed e = rw (e, event_round) (awake-Phase r s h)
      go (reported rs) e =
          let kept = handle_reports-Phase rs (awake ops r s) (awake-Phase r s h) in
          elim (Option-cases (handle_reports ops rs (awake ops r s)).1) [
            | inl f ↦ rw (e, event_round, f) (cleaning-Phase r last _ kept)
            | inr (message, f) ↦ rw (e, event_round, f) kept
          ]

  go_on-Phase :
      (l : Loop C) (next : ℕ → Server C → Loop C)
      → ((last : ℕ) (s : Server C) → Phase s → Phase (loop_server (next last s)))
      → Phase (loop_server l)
      → Phase (loop_server (go_on l next))
  go_on-Phase (left s) next k h = h
  go_on-Phase (broken_off s message) next k h = h
  go_on-Phase (waits s last) next k h = k last s h

  pub event_loop-Phase :
      (rounds : List (Round C)) (last : ℕ) (s : Server C)
      → Phase s
      → Phase (loop_server (event_loop ops rounds last s))
  unfolding event_loop
  event_loop-Phase [] last s h =
      either_way (λ l. Phase (loop_server l)) s.running (waits s last) (left s) h h
  event_loop-Phase (r ∷ rs) last s h =
      let round : Loop C = event_round ops r last s in
      either_way (λ l. Phase (loop_server l)) s.running (go_on round (event_loop ops rs)) (left s)
        (go_on-Phase round (event_loop ops rs) (event_loop-Phase rs) (event_round-Phase r last s h))
        h
