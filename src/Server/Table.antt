-- ===== src/Server/Table.antt =====
-- The table of connections of HTTP SERVER/HTTP Server/src/server.cpp: accept_connection,
-- handle_connection_event, remove_connection and cleanup_timed_out_connections. A shared_ptr is the
-- index of the object that it points to; a closure in the thread pool is a job. The counters stay below
-- 2 ^ 64.
use http_storm.Common.{
  ℕ, zero, suc, ◌+◌, ◌-◌, Bool, false, not, length, List, [], ◌∷◌, ◌++◌, ◌==◌, leb, if◌then◌else◌,
  Option, none, some, ◌≡◌, Bytes,
}

-- What the server calls on a connection.
pub record ConnectionOps (C : Type 0) : Type 0 where
  pub handle_read : C → C
  pub handle_write : C → C
  pub close : C → C
  pub is_alive : C → Bool
  pub is_timed_out : ℕ → C → Bool
  pub close-is_alive : (c : C) → is_alive (close c) ≡ false

-- What the constructor of Connection ends with: create_ssl, which it calls with TLS, can throw.
pub data Made (C : Type 0) : Type 0 where
  made : C → Made C
  made_none : Bytes → Made C

-- EPOLLIN, EPOLLOUT, and any of EPOLLHUP, EPOLLRDHUP and EPOLLERR.
pub record Epoll : Type 0 where
  pub input : Bool
  pub output : Bool
  pub broken : Bool

pub record Job : Type 0 where
  pub conn : ℕ
  pub fd : ℕ
  pub events : Epoll

pub record Table (C : Type 0) : Type 0 where
  -- every connection made so far
  pub objects : List C
  -- descriptors, and the objects that they stand for
  pub connections : List (ℕ × ℕ)
  pub active_connections : ℕ
  pub total_requests : ℕ
  pub jobs : List Job
  -- descriptors closed at the limit
  pub dropped : List ℕ

unfoldable pub find_fd : ℕ → List (ℕ × ℕ) → Option ℕ
find_fd fd [] = none
find_fd fd ((key, i) ∷ rest) = let found = find_fd fd rest in if key == fd then some i else found

-- `connections_[fd] = conn`
unfoldable pub insert_fd : ℕ → ℕ → List (ℕ × ℕ) → List (ℕ × ℕ)
insert_fd fd i [] = (fd, i) ∷ []
insert_fd fd i ((key, j) ∷ rest) =
    let later = insert_fd fd i rest in if key == fd then (key, i) ∷ rest else (key, j) ∷ later

unfoldable pub erase_fd : ℕ → List (ℕ × ℕ) → List (ℕ × ℕ)
erase_fd fd [] = []
erase_fd fd ((key, j) ∷ rest) =
    let later = erase_fd fd rest in if key == fd then rest else (key, j) ∷ later

-- a call on the object that a pointer points to
unfoldable pub update {ℓ} : {C : Type ℓ} → ℕ → (C → C) → List C → List C
update i f [] = []
update zero f (c ∷ cs) = f c ∷ cs
update (suc i) f (c ∷ cs) = c ∷ update i f cs

abbrev pub get_elem? {ℓ} : {C : Type ℓ} → List C → ℕ → Option C
get_elem? [] i = none
get_elem? (c ∷ cs) zero = some c
get_elem? (c ∷ cs) (suc i) = get_elem? cs i

module _ {C : Type 0} (ops : ConnectionOps C) where
  unfoldable pub add_connection : ℕ → C → Table C → Table C
  add_connection fd conn t = record t {
    objects = t.objects ++ conn ∷ [];
    connections = insert_fd fd (length t.objects) t.connections;
    active_connections = t.active_connections + 1;
  }

  -- at the limit the descriptor is closed
  abbrev pub dropping : ℕ → Table C → Table C
  dropping fd t = record t { dropped = t.dropped ++ fd ∷ [] }

  -- `accept_connection` on the connections that wait; it stops at the limit. An exception of the constructor of
  -- Connection leaves it, with its text; the descriptor is then in no table, and is not closed.
  unfoldable pub accept_connection : ℕ → List (ℕ × Made C) → Table C → Table C × Option Bytes
  accept_connection max_connections [] t = (t, none)
  accept_connection max_connections ((fd, made conn) ∷ waiting) t =
      let next = accept_connection max_connections waiting (add_connection fd conn t) in
      if leb max_connections (length t.connections) then (dropping fd t, none) else next
  accept_connection max_connections ((fd, made_none message) ∷ waiting) t =
      if leb max_connections (length t.connections)
      then (dropping fd t, none)
      else (t, some message)

  unfoldable pub remove_connection : ℕ → Table C → Table C
  remove_connection fd t = elim (find_fd fd t.connections) [
    | none ↦ t
    | some i ↦ record t {
      objects = update i ops.close t.objects;
      connections = erase_fd fd t.connections;
      active_connections = t.active_connections - 1;
    }
  ]

  unfoldable pub remove_all : List ℕ → Table C → Table C
  remove_all [] t = t
  remove_all (fd ∷ fds) t = remove_all fds (remove_connection fd t)

  abbrev pub object_timed_out : ℕ → List C → ℕ → Bool
  object_timed_out now objects i = elim (get_elem? objects i) [
    | none ↦ false
    | some conn ↦ ops.is_timed_out now conn
  ]

  -- the descriptors of those that are timed out
  unfoldable pub timed_out_fds : ℕ → List C → List (ℕ × ℕ) → List ℕ
  timed_out_fds now objects [] = []
  timed_out_fds now objects ((fd, i) ∷ rest) =
      let later = timed_out_fds now objects rest in
      if object_timed_out now objects i then fd ∷ later else later

  unfoldable pub cleanup_timed_out_connections : ℕ → Table C → Table C
  cleanup_timed_out_connections now t = remove_all (timed_out_fds now t.objects t.connections) t

  unfoldable pub handle_connection_event : ℕ → Epoll → Table C → Table C
  handle_connection_event fd events t = elim (find_fd fd t.connections) [
    | none ↦ t
    | some i ↦ if events.broken then remove_connection fd t else record t {
      jobs = t.jobs ++ record { conn = i; fd = fd; events = events } ∷ [];
      total_requests = t.total_requests + 1;
    }
  ]

  -- the calls of a job on its connection
  abbrev pub served : Epoll → C → C
  served events conn =
      let after_read = if events.input then ops.handle_read conn else conn in
      if events.output then ops.handle_write after_read else after_read

  abbrev pub object_alive : List C → ℕ → Bool
  object_alive objects i = elim (get_elem? objects i) [
    | none ↦ false
    | some conn ↦ ops.is_alive conn
  ]

  unfoldable pub run_job : Job → Table C → Table C
  run_job job t =
      let t' = record t { objects = update job.conn (served job.events) t.objects } in
      if not (object_alive t'.objects job.conn) then remove_connection job.fd t' else t'

  abbrev pub close_listed : List (ℕ × ℕ) → List C → List C
  close_listed [] objects = objects
  close_listed ((fd, i) ∷ rest) objects = close_listed rest (update i ops.close objects)

  -- the block of `stop` under the lock, which does not reset active_connections_
  unfoldable pub stop_connections : Table C → Table C
  stop_connections t = record t { objects = close_listed t.connections t.objects; connections = [] }

  -- the oldest job of the pool
  unfoldable pub run_next : Table C → Table C
  run_next t = elim t.jobs [ [] ↦ t | job ∷ rest ↦ run_job job (record t { jobs = rest }) ]

-- What happens to the table, one thing at a time: the jobs run in the order of the queue.
pub data Happening (C : Type 0) : Type 0 where
  accepts : List (ℕ × Made C) → Happening C
  reports : ℕ → Epoll → Happening C
  runs_job : Happening C
  cleans_up : ℕ → Happening C
  stops : Happening C

module _ {C : Type 0} (ops : ConnectionOps C) (max_connections : ℕ) where
  unfoldable pub happen : Happening C → Table C → Table C
  happen (accepts waiting) t = (accept_connection ops max_connections waiting t).0
  happen (reports fd events) t = handle_connection_event ops fd events t
  happen runs_job t = run_next ops t
  happen (cleans_up now) t = cleanup_timed_out_connections ops now t
  happen stops t = stop_connections ops t

  abbrev pub happen_all : List (Happening C) → Table C → Table C
  happen_all [] t = t
  happen_all (h ∷ hs) t = happen_all hs (happen h t)

abbrev pub empty_table : {C : Type 0} → Table C
empty_table = record {
  objects = [];
  connections = [];
  active_connections = 0;
  total_requests = 0;
  jobs = [];
  dropped = [];
}
