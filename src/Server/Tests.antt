-- ===== src/Server/Tests.antt =====
-- The chain of HTTP SERVER/HTTP Server/src/server.cpp with the default configuration.
use http_storm.Common.{
  ◌⊎◌, ◌+◌, length, ℕ, Bool, codes, List, ◌↔◌, true, false, none, some, [], ◌∷◌, ◌≡◌, refl, arith,
}
use http_storm.Http.{HttpRequest, HttpResponse, empty_request, empty_response}
use http_storm.Router.{empty_router, dispatch, match, match_from}
use http_storm.Server.AccessLog.{Logs, dispatch_request-Logs}
use http_storm.Middleware.{World, M}
use http_storm.Connection.{Connection, closed, Socket, connect, handle_read}
use http_storm.Config.{defaults}
use http_storm.Server.{middleware_chain, dispatch_request}
use http_storm.Server.Chain.{IsHardened, dispatch_request-IsHardened}
use http_storm.Server.Cleanup.{expired, surviving, cleanup_timed_out_connections-happen_all}
use http_storm.Server.Table.{
  made, cleanup_timed_out_connections, close_listed, ConnectionOps, Job, Table, find_fd, update,
  get_elem?, run_job, accepts, runs_job, stops, happen_all, empty_table, accept_connection,
}
use http_storm.Server.Handles.{connection_ops}
use http_storm.Server.Limits.{IsWithin, happen_all-empty_table}
use http_storm.Server.Lifecycle.{
  System, Server, constructed, setup_server_socket, setup_epoll, destruct, run_jobs, stop,
}
use http_storm.Server.EventLoop.{
  Round, interrupted, reported, event_loop, loop_server, start, event_round, handle_reports,
  handle_report,
}
use http_storm.Server.Descriptors.{IsReleased}
use http_storm.Server.Startup.{Leaks, destruct-IsReleased, destruct_thrown}
use http_storm.Server.Stopping.{ends, Leaves, event_loop-Leaves}
use http_storm.Server.Reuse.{run_job-closes_other}

abbrev quiet_world : World
quiet_world = record {
  now = 0;
  delays = [];
  random = [];
  buckets = [];
  access_log = [];
  warnings = [];
}

dispatch_request-IsHardened_example :
    IsHardened
      (dispatch_request
        (middleware_chain (λ level body. none) (defaults 4))
        (empty_router (M HttpResponse))
        empty_request
        quiet_world).0
unfolding defaults
dispatch_request-IsHardened_example =
    dispatch_request-IsHardened (λ level body. none) (defaults 4) (empty_router (M HttpResponse))
      empty_request quiet_world refl

dispatch_request-Logs_example : Logs (
    dispatch_request
      (middleware_chain (λ level body. none) (defaults 4))
      (empty_router (M HttpResponse)))
unfolding defaults dispatch match match_from
dispatch_request-Logs_example =
    dispatch_request-Logs (λ level body. none) (defaults 4) (empty_router (M HttpResponse)) refl
      (λ request w. refl)

abbrev still : Socket (Unit {0})
still = record {
  now = 0;
  delays = [];
  receives = [];
  sends = [];
  handshakes = [];
  output = [];
  endings = [];
  app = tt;
}

abbrev answers_ok : HttpRequest → Unit {0} → HttpResponse × Unit {0}
answers_ok request app = (empty_response, app)

abbrev ops : ConnectionOps (Connection × Socket (Unit {0}))
ops = connection_ops (λ headers. headers) answers_ok

-- a connection on a descriptor
abbrev on_fd : ℕ → Connection × Socket (Unit {0})
on_fd fd = (connect fd [] false 75000 1000 1048576 0, still)

happen_all-empty_table_example : IsWithin ops 1 (
    happen_all ops 1
      (accepts ((5, made (on_fd 5)) ∷ (6, made (on_fd 6)) ∷ []) ∷ runs_job ∷ stops ∷ [])
      empty_table)
happen_all-empty_table_example =
    happen_all-empty_table ops 1
      (accepts ((5, made (on_fd 5)) ∷ (6, made (on_fd 6)) ∷ []) ∷ runs_job ∷ stops ∷ [])

-- of two idle connections only the first is over its time
abbrev idle_fd : ℕ → Connection × Socket (Unit {0})
idle_fd timeout = (connect 5 [] false timeout 1000 1048576 0, still)

cleanup_timed_out_connections-happen_all_example :
    let t =
      happen_all ops 9
        (accepts ((5, made (idle_fd 1)) ∷ (6, made (idle_fd 75000)) ∷ []) ∷ [])
        empty_table in
    let t' = cleanup_timed_out_connections ops 9000000 t in
    (t'.connections ≡ surviving ops 9000000 t.objects t.connections)
    × (t'.objects ≡ close_listed ops (expired ops 9000000 t.objects t.connections) t.objects)
    × (t'.active_connections + length (expired ops 9000000 t.objects t.connections)
        ≡ t.active_connections)
cleanup_timed_out_connections-happen_all_example =
    cleanup_timed_out_connections-happen_all ops 9
      (accepts ((5, made (idle_fd 1)) ∷ (6, made (idle_fd 75000)) ∷ []) ∷ []) 9000000

-- Descriptor 5 stands for the second object; the first, which had it before, is closed.
abbrev reused : Table (Connection × Socket (Unit {0}))
reused = record {
  objects = (record (on_fd 5).0 { state = closed; fd = none }, still) ∷ on_fd 5 ∷ [];
  connections = (5, 1) ∷ [];
  active_connections = 2;
  total_requests = 1;
  jobs = [];
  dropped = [];
}

abbrev old_job : Job
old_job = record {
  conn = 0;
  fd = 5;
  events = record { input = true; output = false; broken = false };
}

run_job-closes_other_example :
    get_elem? (run_job ops old_job reused).objects 1 ≡ some (ops.close (on_fd 5))
unfolding find_fd update handle_read
run_job-closes_other_example =
    run_job-closes_other ops old_job reused 1 (on_fd 5) refl (λ e. ground arith) refl refl

-- the calls of `start`, with a port that is taken or not
abbrev system : Bool → System
system free = record {
  socket = some 3;
  bind = λ host port. free;
  listen = λ backlog. true;
  epoll_create1 = some 4;
  epoll_add = λ fd. true;
  strerror = codes "Address already in use";
  started_at = 0;
}

-- a client on descriptor 5, and then the signal of a shutdown
abbrev rounds : List (Round (Connection × Socket (Unit {0})))
rounds =
    record {
      jobs_run = 0;
      signalled = false;
      waited = reported (
          record {
            fd = 3;
            events = record { input = true; output = false; broken = false };
            waiting = (5, made (on_fd 5)) ∷ [];
          }
          ∷ []);
      now = 11_000_000_000;
      cleanup_now = 11_000;
    }
    ∷ record {
      jobs_run = 1;
      signalled = true;
      waited = interrupted;
      now = 12_000_000_000;
      cleanup_now = 12_000;
    }
    ∷ []

abbrev fresh : Server (Connection × Socket (Unit {0}))
fresh = constructed 4 (defaults 4) none

-- the server as it is when the loop begins
abbrev begun : Server (Connection × Socket (Unit {0}))
begun = record fresh { server_fd = some 3; epoll_fd = some 4; running = true }

event_loop-Leaves_example : (ends rounds ≡ true) ↔ Leaves ops (event_loop ops rounds 0 begun)
event_loop-Leaves_example = event_loop-Leaves ops rounds 0 begun refl (((tt, tt), tt), (tt, tt))

destruct-IsReleased_example :
    (server_fd epoll_fd : ℕ) × (some 3 ≡ some server_fd)
    × (some 4 ≡ some epoll_fd)
    × IsReleased ops server_fd epoll_fd (destruct ops (loop_server (event_loop ops rounds 0 begun)))
unfolding start setup_server_socket setup_epoll event_loop event_round handle_reports handle_report
    accept_connection defaults run_jobs stop
destruct-IsReleased_example =
    destruct-IsReleased ops (system true) rounds 4 (defaults 4) none (event_loop ops rounds 0 begun)
      refl

abbrev refused : Server (Connection × Socket (Unit {0}))
refused = record fresh { server_fd = some 3 }

destruct_thrown_example :
    Leaks ops (system false) rounds 4 (defaults 4) none refused
    ⊎ ((server_fd epoll_fd : ℕ) × (some 3 ≡ some server_fd)
        × (some 4 ≡ some epoll_fd)
        × IsReleased ops server_fd epoll_fd (destruct ops refused))
unfolding start setup_server_socket
destruct_thrown_example =
    destruct_thrown ops (system false) rounds 4 (defaults 4) none refused
      (codes "bind() failed: Address already in use") refl
