-- ===== src/ThreadPool/Returns.antt =====
-- ThreadPool::shutdown of HTTP SERVER/HTTP Server/src/thread_pool.cpp returns where no worker is between its
-- test and its wait when stop_ is stored.
use http_storm.Common.{
  ℕ, ◌+◌, true, false, List, [], ◌∷◌, inl, inr, ◌⊎◌, ◌≡◌, refl, sym, ap, subst, ◌∙◌, arith,
}
use http_storm.ThreadPool.{
  ThreadPool, new_pool, Action, submits, turns, wakes, stores_stop, notifies_all, act, run_actions,
  is_joined,
}
use http_storm.ThreadPool.Moves.{count}
use http_storm.ThreadPool.Runs.{submits-cases}
use http_storm.ThreadPool.Locks.{held, new_pool-IsHeldOnce}
use http_storm.ThreadPool.Joins.{
  dozes, sleeps, steps_left, can_step_at, IsStopped, turn-Steps, wake-dozes, wake_all-dozes,
  wake_all-sleeps, wake_same, wake_all_same, is_joined-or_steps,
}

-- the workers' steps of an action that change anything
abbrev pub can_act : Action → ThreadPool → ℕ
can_act (turns i) p = can_step_at i p.workers
can_act _ p = 0

abbrev pub steps_taken : List Action → ThreadPool → ℕ
steps_taken [] p = 0
steps_taken (a ∷ rest) p = can_act a p + steps_taken rest (act a p)

-- A stopped pool refuses a task.
submits-stopped : (task : ℕ) (p : ThreadPool) → IsStopped p.shared → act (submits task) p ≡ p
submits-stopped task p (stop, free) = elim (submits-cases task p) [
  | inl same ↦ same
  | inr (going, _) ↦ absurd (ground (arith, stop, going))
]

-- stop_ is stored, and nobody dozes, nor sleeps where that is said
abbrev IsSettled : ThreadPool → Type 0
IsSettled p = IsStopped p.shared × (count dozes p.workers ≡ 0)

abbrev pub IsAwake : ThreadPool → Type 0
IsAwake p = IsStopped p.shared × (count sleeps p.workers ≡ 0)

act-IsSettled : (a : Action) (p : ThreadPool) → IsSettled p → IsSettled (act a p)
unfolding act
act-IsSettled (submits task) p (h, d) = subst IsSettled (sym (submits-stopped task p h)) (h, d)
act-IsSettled (turns i) p (h, d) =
    let m = turn-Steps i p.workers p.shared h in (m.stopped, omega (arith, m.no_dozing))
act-IsSettled (wakes i) p (h, d) = (h, wake-dozes i p.workers ∙ d)
act-IsSettled stores_stop p ((stop, free), d) = ((refl, free), d)
act-IsSettled notifies_all p (h, d) = (h, wake_all-dozes p.workers ∙ d)

run_actions-IsSettled :
    (actions : List Action) (p : ThreadPool) → IsSettled p → IsSettled (run_actions actions p)
run_actions-IsSettled [] p h = h
run_actions-IsSettled (a ∷ rest) p h = run_actions-IsSettled rest (act a p) (act-IsSettled a p h)

abbrev pub left_of : ThreadPool → ℕ
left_of p = steps_left p.workers p.shared

abbrev Spends : ℕ → ThreadPool → ThreadPool → Type 0
Spends n p q = IsAwake q × (n + left_of q ≡ left_of p)

act-Spends : (a : Action) (p : ThreadPool) → IsAwake p → Spends (can_act a p) p (act a p)
unfolding act
act-Spends (submits task) p h =
    subst (Spends 0 p) (sym (submits-stopped task p h.0)) (h, omega arith)
act-Spends (turns i) p (h, d) =
    let m = turn-Steps i p.workers p.shared h in ((m.stopped, omega (arith, m.no_sleep)), m.spent)
act-Spends (wakes i) p (h, d) =
    subst (λ ws. Spends 0 p (record p { workers = ws })) (sym (wake_same i p.workers d))
      ((h, d), omega arith)
act-Spends stores_stop p ((stop, free), d) = (((refl, free), d), omega arith)
act-Spends notifies_all p (h, d) =
    subst (λ ws. Spends 0 p (record p { workers = ws })) (sym (wake_all_same p.workers d))
      ((h, d), omega arith)

run_actions-Spends :
    (actions : List Action) (p : ThreadPool)
    → IsAwake p
    → Spends (steps_taken actions p) p (run_actions actions p)
run_actions-Spends [] p h = (h, omega arith)
run_actions-Spends (a ∷ rest) p h =
    let (awake, spent) = act-Spends a p h in
    let (awake', spent') = run_actions-Spends rest (act a p) awake in
    (awake', omega (arith, spent, spent'))

stored-IsSettled :
    (num_threads : ℕ) (before : List Action)
    → (run_actions before (new_pool num_threads)).shared.locked ≡ false
    → IsSettled (act stores_stop (run_actions before (new_pool num_threads)))
unfolding act
stored-IsSettled n before free =
    let p = run_actions before (new_pool n) in
    ((refl, free), new_pool-IsHeldOnce n before ∙ ap held free)

notified-IsAwake : (p : ThreadPool) → IsSettled p → IsAwake (act notifies_all p)
unfolding act
notified-IsAwake p (h, d) = (h, wake_all-sleeps p.workers ∙ d)

-- Shutdown returns unless a worker is between its test and its wait at the store of stop_. If then nobody
-- holds the mutex, whatever the threads do before the notification and after it, every step that a worker
-- takes from the notification on, waiting for the mutex aside, uses up one of those that were left (three for each queued
-- task, three for a popped one, two for a running one, and one to return), so that only so many can be
-- taken; and at each moment all workers have returned, or one of them can take a step.
pub run_actions-returns :
    (num_threads : ℕ) (before between after : List Action)
    → (run_actions before (new_pool num_threads)).shared.locked ≡ false
    → let stored = act stores_stop (run_actions before (new_pool num_threads)) in
      let notified = act notifies_all (run_actions between stored) in
      let q = run_actions after notified in
      (steps_taken after notified + left_of q ≡ left_of notified)
      × ((is_joined q.workers ≡ true) ⊎ ((i : ℕ) × (can_step_at i q.workers ≡ 1)))
run_actions-returns n before between after free =
    let stored = act stores_stop (run_actions before (new_pool n)) in
    let settled = run_actions-IsSettled between stored (stored-IsSettled n before free) in
    let notified = act notifies_all (run_actions between stored) in
    let (awake, spent) =
      run_actions-Spends after notified (notified-IsAwake (run_actions between stored) settled) in
    (spent, is_joined-or_steps (run_actions after notified).workers awake.1)
