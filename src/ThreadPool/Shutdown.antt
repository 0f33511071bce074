-- ===== src/ThreadPool/Shutdown.antt =====
-- The order of steps in which ThreadPool::shutdown waits for ever: stop_ is stored without the mutex.
use http_storm.Common.{ℕ, zero, suc, Bool, true, false, List, [], ◌∷◌}
use http_storm.ThreadPool.{Worker, dozing, asleep, ThreadPool, Action, submits, turns}

-- A step of a worker or of a caller of submit: no notification, no spurious wakeup, no second shutdown.
abbrev pub is_quiet : Action → Bool
is_quiet (turns i) = true
is_quiet (submits task) = true
is_quiet _ = false

-- What a worker stays that has found the queue empty and the pool running and has not got a notification
-- since it waits.
abbrev pub is_waiting : Worker → Bool
is_waiting dozing = true
is_waiting asleep = true
is_waiting _ = false

-- whether the worker at the index is one
abbrev pub waits_at : ℕ → List Worker → Bool
waits_at i [] = false
waits_at zero (w ∷ ws) = is_waiting w
waits_at (suc i) (w ∷ ws) = waits_at i ws

-- whether the worker at the index is between its test and its wait
abbrev pub dozes_at : ℕ → List Worker → Bool
dozes_at i [] = false
dozes_at zero (w ∷ ws) = elim w [ dozing ↦ true | _ ↦ false ]
dozes_at (suc i) (w ∷ ws) = dozes_at i ws
