-- ===== src/ThreadPool/Locks.antt =====
-- The mutex that a worker keeps between its test and its wait is held by one worker at most.
use http_storm.Common.{
  ℕ, zero, suc, ◌+◌, ◌≤◌, Bool, true, false, List, [], ◌∷◌, inl, inr, ◌≡◌, refl, subst, sym, ◌∙◌,
  arith, Bool-cases,
}
use http_storm.ThreadPool.{
  Worker, at_top, dozing, Shared, ThreadPool, new_pool, at_tops, take_task, worker_step, turn,
  Action, submits, turns, wakes, stores_stop, notifies_all, act, run_actions,
}
use http_storm.ThreadPool.Moves.{count}
use http_storm.ThreadPool.Runs.{submits-cases}
use http_storm.ThreadPool.Joins.{dozes, wake-dozes, wake_all-dozes}

abbrev pub held : Bool → ℕ
held true = 1
held false = 0

-- the worker that dozes holds the mutex
abbrev pub IsHeldOnce : ThreadPool → Type 0
IsHeldOnce p = count dozes p.workers ≡ held p.shared.locked

take_task-held :
    (tasks : List ℕ) (s : Shared)
    → s.locked ≡ false
    → dozes (take_task tasks s).0 ≡ held (take_task tasks s).1.locked
unfolding take_task
take_task-held [] s h = ground (arith, h)
take_task-held (task ∷ tasks) s h = ground (arith, h)

worker_step-held :
    (w : Worker) (s : Shared)
    → dozes w ≤ held s.locked
    → dozes (worker_step w s).0 + held s.locked ≡ dozes w + held (worker_step w s).1.locked
unfolding worker_step
worker_step-held at_top s h = elim (Bool-cases s.locked) [
  | inl waits ↦ ground (arith, waits)
  | inr free ↦ ground (arith, free, take_task-held s.tasks s free)
]
worker_step-held dozing s h = ground (arith, h)
worker_step-held w s h = omega arith

turn-held :
    (i : ℕ) (ws : List Worker) (s : Shared)
    → count dozes ws ≤ held s.locked
    → count dozes (turn i ws s).0 + held s.locked ≡ count dozes ws + held (turn i ws s).1.locked
unfolding turn
turn-held i [] s h = omega arith
turn-held zero (w ∷ ws) s h = omega (arith, worker_step-held w s (omega arith))
turn-held (suc i) (w ∷ ws) s h = omega (arith, turn-held i ws s (omega arith))

act-IsHeldOnce : (a : Action) (p : ThreadPool) → IsHeldOnce p → IsHeldOnce (act a p)
unfolding act
act-IsHeldOnce (submits task) p h = elim (submits-cases task p) [
  | inl same ↦ subst IsHeldOnce (sym same) h
  | inr (going, changed) ↦ subst IsHeldOnce (sym changed) h
]
act-IsHeldOnce (turns i) p h = omega (arith, turn-held i p.workers p.shared (omega arith))
act-IsHeldOnce (wakes i) p h = wake-dozes i p.workers ∙ h
act-IsHeldOnce stores_stop p h = h
act-IsHeldOnce notifies_all p h = wake_all-dozes p.workers ∙ h

run_actions-IsHeldOnce :
    (actions : List Action) (p : ThreadPool) → IsHeldOnce p → IsHeldOnce (run_actions actions p)
run_actions-IsHeldOnce [] p h = h
run_actions-IsHeldOnce (a ∷ rest) p h = run_actions-IsHeldOnce rest (act a p) (act-IsHeldOnce a p h)

at_tops-dozes : (n : ℕ) → count dozes (at_tops n) ≡ 0
at_tops-dozes zero = refl
at_tops-dozes (suc n) = omega (arith, at_tops-dozes n)

pub new_pool-IsHeldOnce :
    (n : ℕ) (actions : List Action) → IsHeldOnce (run_actions actions (new_pool n))
unfolding new_pool
new_pool-IsHeldOnce n actions = run_actions-IsHeldOnce actions (new_pool n) (at_tops-dozes n)
