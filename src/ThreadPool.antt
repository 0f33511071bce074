-- ===== src/ThreadPool.antt =====
-- ThreadPool of HTTP SERVER/HTTP Server/include/thread_pool.hpp and src/thread_pool.cpp, under every
-- interleaving: an action is one step of one thread, and a run is a list of actions. A task is a name
-- for what packaged_task would call.
pub mod Moves
pub mod Runs
pub mod Shutdown
pub mod Joins
pub mod Locks
pub mod Returns
mod Tests
use http_storm.Common.{
  is_empty, ℕ, zero, suc, ◌+◌, ◌-◌, Bool, true, false, not, ◌&&◌, ◌||◌, length, List, [], ◌∷◌, ◌++◌,
  if◌then◌else◌, Option, none, some,
}

-- Where a thread stands in worker_loop.
pub data Worker : Type 0 where
  -- before the lock
  at_top : Worker
  -- the predicate of the wait was false; the mutex is still held
  dozing : Worker
  -- waiting for a notification
  asleep : Worker
  -- the task is popped, but not counted yet
  holding : ℕ → Worker
  running : ℕ → Worker
  -- returned
  exited : Worker

-- What the threads share, and three records of what has happened: the tasks that submit has taken, those
-- that workers have popped, and those that have been run.
pub record Shared : Type 0 where
  pub tasks : List ℕ
  pub locked : Bool
  pub stop : Bool
  pub active_tasks : ℕ
  pub accepted : List ℕ
  pub popped : List ℕ
  pub finished : List ℕ

pub record ThreadPool : Type 0 where
  pub workers : List Worker
  pub shared : Shared

abbrev at_tops : ℕ → List Worker
at_tops zero = []
at_tops (suc n) = at_top ∷ at_tops n

unfoldable pub new_pool : ℕ → ThreadPool
new_pool num_threads = record {
  workers = at_tops num_threads;
  shared = record {
    tasks = [];
    locked = false;
    stop = false;
    active_tasks = 0;
    accepted = [];
    popped = [];
    finished = [];
  };
}

-- The block of `submit` under the lock; none is the exception of a stopped pool.
unfoldable pub submit : ℕ → Shared → Option Shared
submit task s =
    if s.stop
    then none
    else some (record s { tasks = s.tasks ++ task ∷ []; accepted = s.accepted ++ task ∷ [] })

-- the block of `worker_loop` under the lock
unfoldable pub take_task : List ℕ → Shared → Worker × Shared
take_task [] s = if s.stop then (exited, s) else (dozing, record s { locked = true })
take_task (task ∷ tasks) s =
    (holding task, record s { tasks = tasks; popped = s.popped ++ task ∷ [] })

-- The next step of a worker; one that waits for the mutex or for a notification stays where it is.
unfoldable pub worker_step : Worker → Shared → Worker × Shared
worker_step at_top s = if s.locked then (at_top, s) else take_task s.tasks s
worker_step dozing s = (asleep, record s { locked = false })
worker_step asleep s = (asleep, s)
worker_step (holding task) s = (running task, record s { active_tasks = s.active_tasks + 1 })
worker_step (running task) s =
    (at_top, record s { active_tasks = s.active_tasks - 1; finished = s.finished ++ task ∷ [] })
worker_step exited s = (exited, s)

-- a notification, or a spurious wakeup
abbrev pub woken : Worker → Worker
woken asleep = at_top
woken w = w

-- The worker at the index makes a step.
unfoldable pub turn : ℕ → List Worker → Shared → List Worker × Shared
turn i [] s = ([], s)
turn zero (w ∷ ws) s = let (w', s') = worker_step w s in (w' ∷ ws, s')
turn (suc i) (w ∷ ws) s = let (ws', s') = turn i ws s in (w ∷ ws', s')

unfoldable pub wake : ℕ → List Worker → List Worker
wake i [] = []
wake zero (w ∷ ws) = woken w ∷ ws
wake (suc i) (w ∷ ws) = w ∷ wake i ws

unfoldable pub wake_all : List Worker → List Worker
wake_all [] = []
wake_all (w ∷ ws) = woken w ∷ wake_all ws

pub data Action : Type 0 where
  -- a caller of submit gets the mutex
  submits : ℕ → Action
  -- the worker at an index makes a step
  turns : ℕ → Action
  -- notify_one reaches the worker at an index, or it wakes by itself
  wakes : ℕ → Action
  -- the two steps of `shutdown` before it joins: the store, which takes no mutex, and notify_all
  stores_stop : Action
  notifies_all : Action

unfoldable pub act : Action → ThreadPool → ThreadPool
act (submits task) p =
    if p.shared.locked
    then p
    else elim (submit task p.shared) [ none ↦ p | some s ↦ record p { shared = s } ]
act (turns i) p = let (ws, s) = turn i p.workers p.shared in record p { workers = ws; shared = s }
act (wakes i) p = record p { workers = wake i p.workers }
act stores_stop p = record p { shared = record p.shared { stop = true } }
act notifies_all p = record p { workers = wake_all p.workers }

abbrev pub run_actions : List Action → ThreadPool → ThreadPool
run_actions [] p = p
run_actions (a ∷ rest) p = run_actions rest (act a p)

-- the joins of `shutdown` return
abbrev pub is_joined : List Worker → Bool
is_joined [] = true
is_joined (w ∷ ws) = let rest = is_joined ws in elim w [ exited ↦ rest | _ ↦ false ]
