-- ===== src/Server/Lifecycle.antt =====
-- The life of a Server of HTTP SERVER/HTTP Server/src/server.cpp: construction, the listening socket and
-- epoll, stop and the destructor. What the system's calls answer is a System.
-- The options of the sockets, whose results are not looked at, and the router are left out.
use http_storm.Common.{
  ℕ, zero, suc, ◌%◌, ◌^◌, Bool, true, false, Bytes, codes, length, List, [], ◌∷◌, ◌++◌, ltb,
  if◌then◌else◌, Option, none, some,
}
use http_storm.Static.{StaticFileServer, new_server}
use http_storm.Config.{ServerConfig, hardware_threads}
use http_storm.Tls.{OpenSsl, SslCtx, Setup, ready, and_then, new_context}
use http_storm.Server.Table.{ConnectionOps, Table, empty_table, stop_connections, run_next}

-- What the calls that `start` makes answer: a descriptor, or success.
pub record System : Type 0 where
  pub socket : Option ℕ
  pub bind : Bytes → ℕ → Bool
  -- the bits of an int
  pub listen : ℕ → Bool
  pub epoll_create1 : Option ℕ
  pub epoll_add : ℕ → Bool
  -- strerror(errno)
  pub strerror : Bytes
  -- steady_clock::now() before the loop, in nanoseconds
  pub started_at : ℕ

pub record Server (C : Type 0) : Type 0 where
  pub config : ServerConfig
  -- the threads of the pool, and whether shutdown has been called
  pub pool_size : ℕ
  pub pool_shut : Bool
  pub static_server : StaticFileServer
  pub tls_context : Option SslCtx
  pub server_fd : Option ℕ
  pub epoll_fd : Option ℕ
  pub running : Bool
  pub table : Table C
  -- the calls of ::close on server_fd_ and epoll_fd_
  pub closed_fds : List ℕ

-- the members behind the constructor's initializers
abbrev pub constructed : {C : Type 0} → ℕ → ServerConfig → Option SslCtx → Server C
constructed concurrency config tls_context = record {
  config = config;
  pool_size =
      if ltb 0 config.thread_pool_size
      then config.thread_pool_size
      else hardware_threads concurrency;
  pool_shut = false;
  static_server = new_server config.static_file_directory config.enable_directory_listing;
  tls_context = tls_context;
  server_fd = none;
  epoll_fd = none;
  running = false;
  table = empty_table;
  closed_fds = [];
}

-- The constructor, as far as it does not fill the router and the chain.
unfoldable pub construct : {C : Type 0} → OpenSsl → ℕ → ServerConfig → Setup (Server C)
construct ssl concurrency config =
    if config.tls.enabled
    then and_then (new_context ssl config.tls)
        (λ ctx. ready (constructed concurrency config (some ctx)) [])
    else ready (constructed concurrency config none) []

-- none is success, and a text is the exception's
abbrev pub Outcome : Type 0 → Type 0
Outcome C = Server C × Option Bytes

abbrev pub failure : {C : Type 0} → System → Bytes → Server C → Outcome C
failure system call s = (s, some (call ++ codes "() failed: " ++ system.strerror))

abbrev pub listening : {C : Type 0} → System → Server C → Outcome C
listening system s =
    if system.bind s.config.host s.config.port
    then if system.listen (s.config.backlog % 2 ^ 32)
      then (s, none)
      else failure system (codes "listen") s
    else failure system (codes "bind") s

unfoldable pub setup_server_socket : {C : Type 0} → System → Server C → Outcome C
setup_server_socket system s = elim system.socket [
  | none ↦ failure system (codes "socket") (record s { server_fd = none })
  | some fd ↦ listening system (record s { server_fd = some fd })
]

abbrev pub watching : {C : Type 0} → System → Server C → Outcome C
watching system s =
    if elim s.server_fd [ some fd ↦ system.epoll_add fd | none ↦ false ]
    then (s, none)
    else failure system (codes "epoll_ctl") s

unfoldable pub setup_epoll : {C : Type 0} → System → Server C → Outcome C
setup_epoll system s = elim system.epoll_create1 [
  | none ↦ failure system (codes "epoll_create1") (record s { epoll_fd = none })
  | some fd ↦ watching system (record s { epoll_fd = some fd })
]

-- `if (fd >= 0) { ::close(fd); fd = -1; }`
abbrev pub close_fd : Option ℕ → List ℕ → List ℕ
close_fd none closed = closed
close_fd (some fd) closed = closed ++ fd ∷ []

module _ {C : Type 0} (ops : ConnectionOps C) where
  -- the jobs that are in the queue
  unfoldable pub run_jobs : ℕ → Table C → Table C
  run_jobs zero t = t
  run_jobs (suc n) t = run_jobs n (run_next ops t)

  -- behind the test of running_: `shutdown` lets the workers run what is queued, and joins them
  abbrev pub stopping : Server C → Server C
  stopping s = record s {
    running = false;
    table = let t = stop_connections ops s.table in run_jobs (length t.jobs) t;
    server_fd = none;
    epoll_fd = none;
    closed_fds = close_fd s.server_fd (close_fd s.epoll_fd s.closed_fds);
    pool_shut = true;
  }

  unfoldable pub stop : Server C → Server C
  stop s = if s.running then stopping s else s

  -- the destructor
  abbrev pub destruct : Server C → Server C
  destruct s = stop s
