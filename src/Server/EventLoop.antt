-- ===== src/Server/EventLoop.antt =====
-- `start` and `event_loop` of HTTP SERVER/HTTP Server/src/server.cpp. What epoll_wait reports is a list of
-- rounds; a signal's handler runs during epoll_wait.
use http_storm.Common.{
  ℕ, ◌-◌, ◌*◌, Bool, true, false, Bytes, List, [], ◌∷◌, ◌==◌, ltb, if◌then◌else◌, Option, none,
  some,
}
use http_storm.Server.Table.{
  ConnectionOps, Made, Table, Epoll, accept_connection, handle_connection_event,
  cleanup_timed_out_connections,
}
use http_storm.Server.Lifecycle.{System, Server, setup_server_socket, setup_epoll, run_jobs, stop}

-- a descriptor that epoll reports, the connections that wait if it is the listening one
pub record Report (C : Type 0) : Type 0 where
  pub fd : ℕ
  pub events : Epoll
  pub waiting : List (ℕ × Made C)

-- what epoll_wait returns: n < 0 with EINTR, n < 0 with another error, or events
pub data Waited (C : Type 0) : Type 0 where
  interrupted failed : Waited C
  reported : List (Report C) → Waited C

-- One round of the loop: the jobs that workers run in the meantime, and whether the handler of SIGINT and
-- SIGTERM runs during the wait; the clock of the loop, in nanoseconds, and the one of is_timed_out.
pub record Round (C : Type 0) : Type 0 where
  pub jobs_run : ℕ
  pub signalled : Bool
  pub waited : Waited C
  pub now : ℕ
  pub cleanup_now : ℕ

-- Where the loop stands behind a round.
pub data Loop (C : Type 0) : Type 0 where
  -- it has returned
  left : Server C → Loop C
  -- it is about to wait again, with `last_cleanup`
  waits : Server C → ℕ → Loop C
  -- an exception has left it
  broken_off : Server C → Bytes → Loop C

pub data Started (C : Type 0) : Type 0 where
  threw : Server C → Bytes → Started C
  looped : Loop C → Started C

-- what the loop does behind a round
abbrev pub go_on : {C : Type 0} → Loop C → (ℕ → Server C → Loop C) → Loop C
go_on (left s) next = left s
go_on (waits s last_cleanup) next = next last_cleanup s
go_on (broken_off s message) next = broken_off s message

abbrev pub loop_server : {C : Type 0} → Loop C → Server C
loop_server (left s) = s
loop_server (waits s last_cleanup) = s
loop_server (broken_off s message) = s

-- what `start` makes of its loop
abbrev pub started : {C : Type 0} → Loop C → Started C
started (left s) = looped (left s)
started (waits s last_cleanup) = looped (waits s last_cleanup)
started (broken_off s message) = threw s message

-- `fd == server_fd_`
abbrev pub is_server_fd : ℕ → Option ℕ → Bool
is_server_fd fd server_fd = elim server_fd [ none ↦ false | some listener ↦ fd == listener ]

module _ {C : Type 0} (ops : ConnectionOps C) where
  abbrev pub accepted : Table C × Option Bytes → Server C → Server C × Option Bytes
  accepted (table, thrown) s = (record s { table = table }, thrown)

  -- the handler of a report, and the text of the exception that leaves it
  unfoldable pub handle_report : Report C → Server C → Server C × Option Bytes
  handle_report r s =
      if is_server_fd r.fd s.server_fd
      then accepted (accept_connection ops s.config.max_connections r.waiting s.table) s
      else (record s { table = handle_connection_event ops r.fd r.events s.table }, none)

  unfoldable pub handle_reports : List (Report C) → Server C → Server C × Option Bytes
  handle_reports [] s = (s, none)
  handle_reports (r ∷ rs) s =
      let (s', thrown) = handle_report r s in
      elim thrown [ some message ↦ (s', some message) | none ↦ handle_reports rs s' ]

  -- the end of a round
  abbrev pub cleaning : Round C → ℕ → Server C → Loop C
  cleaning r last_cleanup s =
      if ltb (10 * 1_000_000_000) (r.now - last_cleanup)
      then waits (record s { table = cleanup_timed_out_connections ops r.cleanup_now s.table })
          r.now
      else waits s last_cleanup

  -- what has happened when epoll_wait returns
  abbrev pub awake : Round C → Server C → Server C
  awake r s =
      let s' = record s { table = run_jobs ops r.jobs_run s.table } in
      if r.signalled then stop ops s' else s'

  -- The body of the loop.
  unfoldable pub event_round : Round C → ℕ → Server C → Loop C
  event_round r last_cleanup s = elim r.waited [
    | interrupted ↦ waits (awake r s) last_cleanup
    | failed ↦ left (awake r s)
    | reported rs ↦
        let (s', thrown) = handle_reports rs (awake r s) in
        elim thrown [ some message ↦ broken_off s' message | none ↦ cleaning r last_cleanup s' ]
  ]

  -- The loop, as far as the rounds go.
  unfoldable pub event_loop : List (Round C) → ℕ → Server C → Loop C
  event_loop [] last_cleanup s = if s.running then waits s last_cleanup else left s
  event_loop (r ∷ rs) last_cleanup s =
      let next = go_on (event_round r last_cleanup s) (event_loop rs) in
      if s.running then next else left s

  -- `start`: an exception, or the loop
  unfoldable pub start : System → List (Round C) → Server C → Started C
  start system rounds s =
      let (s1, refused1) = setup_server_socket system s in
      elim refused1 [
        | some message ↦ threw s1 message
        | none ↦
            let (s2, refused2) = setup_epoll system s1 in
            elim refused2 [
              | some message ↦ threw s2 message
              | none ↦ started (event_loop rounds system.started_at (record s2 { running = true }))
            ]
      ]
