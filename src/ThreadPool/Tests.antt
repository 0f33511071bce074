-- ===== src/ThreadPool/Tests.antt =====
-- Two workers of HTTP SERVER/HTTP Server/src/thread_pool.cpp that run two tasks and return.
use http_storm.Common.{◌+◌, ℕ, ◌⊎◌, List, [], ◌∷◌, true, ◌≡◌, refl, arith}
use http_storm.ThreadPool.{
  ThreadPool, new_pool, submit, take_task, worker_step, turn, wake_all, Action, submits, turns,
  stores_stop, notifies_all, act, run_actions, is_joined,
}
use http_storm.ThreadPool.Moves.{tally, occurrences}
use http_storm.ThreadPool.Runs.{IsConserving, run_actions-new_pool, is_joined-drained}
use http_storm.ThreadPool.Joins.{can_step_at}
use http_storm.ThreadPool.Returns.{steps_taken, left_of, run_actions-returns}

abbrev two_tasks : List Action
two_tasks =
    submits 7
    ∷ turns 0
    ∷ submits 8
    ∷ turns 1
    ∷ turns 0
    ∷ turns 1
    ∷ turns 1
    ∷ turns 0
    ∷ stores_stop
    ∷ notifies_all
    ∷ turns 0
    ∷ turns 1
    ∷ []

run_actions-new_pool_example :
    IsConserving 8
      (tally 8 (run_actions two_tasks (new_pool 2)).workers)
      (run_actions two_tasks (new_pool 2)).shared
run_actions-new_pool_example = run_actions-new_pool 2 two_tasks 8

is_joined-drained_example :
    ((run_actions two_tasks (new_pool 2)).shared.popped
      ≡ (run_actions two_tasks (new_pool 2)).shared.accepted)
    × (occurrences 8 (run_actions two_tasks (new_pool 2)).shared.finished
        ≡ occurrences 8 (run_actions two_tasks (new_pool 2)).shared.accepted)
    × ((run_actions two_tasks (new_pool 2)).shared.active_tasks ≡ 0)
    × ((run_actions two_tasks (new_pool 2)).shared.stop ≡ true)
unfolding act submit turn worker_step take_task wake_all new_pool
is_joined-drained_example = is_joined-drained 2 two_tasks 8 refl (λ e. ground arith)

-- of two workers the second has found the queue empty
abbrev about_to_wait : ThreadPool
about_to_wait = run_actions (submits 7 ∷ turns 0 ∷ turns 1 ∷ []) (new_pool 2)

-- one worker waits and one runs a task when shutdown begins, and a task is in the queue
abbrev at_work : List Action
at_work = turns 1 ∷ turns 1 ∷ submits 7 ∷ submits 8 ∷ turns 0 ∷ turns 0 ∷ []

run_actions-returns_example :
    let stored = act stores_stop (run_actions at_work (new_pool 2)) in
    let notified = act notifies_all (run_actions (turns 0 ∷ []) stored) in
    let after = turns 1 ∷ turns 0 ∷ turns 1 ∷ submits 9 ∷ turns 1 ∷ [] in
    let q = run_actions after notified in
    (steps_taken after notified + left_of q ≡ left_of notified)
    × ((is_joined q.workers ≡ true) ⊎ ((i : ℕ) × (can_step_at i q.workers ≡ 1)))
unfolding act submit turn worker_step take_task wake_all new_pool
run_actions-returns_example =
    run_actions-returns 2 at_work (turns 0 ∷ [])
      (turns 1 ∷ turns 0 ∷ turns 1 ∷ submits 9 ∷ turns 1 ∷ []) refl
