-- ===== src/ThreadPool/Runs.antt =====
-- What the pool keeps under every interleaving: its tasks, their order and their count.
use mathlib.Core.List.{append_assoc, append-nil}
use http_storm.Common.{
  ℕ, zero, suc, ◌+◌, true, false, length, List, [], ◌∷◌, ◌++◌, Bool-cases, inl, inr, ◌⊎◌, ◌≡◌, refl,
  sym, ap, subst, ◌∙◌, arith, ◌≢◌,
}
use http_storm.ThreadPool.Moves.{
  occurrences, busy, active, gone, count, Tally, tally, tally_of, plus, Moved, turn-Moved,
  wake-tally, wake_all-tally,
}
use http_storm.ThreadPool.{
  Worker, at_top, dozing, asleep, holding, running, exited, Shared, ThreadPool, new_pool, at_tops,
  submit, Action, submits, turns, wakes, stores_stop, notifies_all, act, run_actions, is_joined,
}

-- The task k is not lost, run twice or popped out of order: t counts the workers, for the task k.
pub record IsConserving (k : ℕ) (t : Tally) (s : Shared) : Type 0 where
  pub in_order : s.popped ++ s.tasks ≡ s.accepted
  pub finishing : occurrences k s.finished + t.busies ≡ occurrences k s.popped
  pub metered : s.active_tasks ≡ t.actives
  pub left : (t.gones ≡ 0) ⊎ ((s.tasks ≡ []) × (s.stop ≡ true))

Moved-IsConserving :
    {k : ℕ} {t : Tally} {s : Shared} {t' : Tally} {s' : Shared}
    → Moved k t s t' s'
    → IsConserving k t s
    → IsConserving k t' s'
Moved-IsConserving {s = s} {s' = s'} m c = record {
  in_order = m.fifo ∙ c.in_order ∙ sym m.same.0;
  finishing = omega (arith, m.counted 0 (omega (arith, c.finishing)));
  metered = omega (arith, m.measured 0 (omega (arith, c.metered)));
  left = elim m.drained [
    | inr d ↦ inr d
    | inl e ↦ elim c.left [
      | inl z ↦ inl (e ∙ z)
      | inr (none_left, stopped) ↦ inr (m.emptied none_left, m.same.1 ∙ stopped)
    ]
  ];
}

-- the shared state when submit has taken the task
abbrev pub with_task : ℕ → Shared → Shared
with_task task s = record s { tasks = s.tasks ++ task ∷ []; accepted = s.accepted ++ task ∷ [] }

-- `submit` waits for the mutex, is refused by a stopped pool, or puts the task in the queue.
pub submits-cases :
    (task : ℕ) (p : ThreadPool)
    → (act (submits task) p ≡ p)
      ⊎ ((p.shared.stop ≡ false)
          × (act (submits task) p ≡ record p { shared = with_task task p.shared }))
unfolding act submit
submits-cases task p = elim (Bool-cases p.shared.locked) [
  | inl waits ↦ inl (ground arith)
  | inr free ↦ elim (Bool-cases p.shared.stop) [
    | inl stopped ↦ inl (ground arith)
    | inr going ↦ inr (going, ground arith)
  ]
]

with_task-IsConserving :
    (task : ℕ) {k : ℕ} {t : Tally} (s : Shared)
    → s.stop ≡ false
    → IsConserving k t s
    → IsConserving k t (with_task task s)
with_task-IsConserving task s going c = record {
  in_order = sym (append_assoc s.popped s.tasks (task ∷ [])) ∙ ap (λ l. l ++ task ∷ []) c.in_order;
  finishing = c.finishing;
  metered = c.metered;
  left = elim c.left [ inl z ↦ inl z | inr (_, stopped) ↦ absurd (ground (arith, going, stopped)) ];
}

act-IsConserving :
    (k : ℕ) (a : Action) (p : ThreadPool)
    → IsConserving k (tally k p.workers) p.shared
    → IsConserving k (tally k (act a p).workers) (act a p).shared
unfolding act
act-IsConserving k (submits task) p c = elim (submits-cases task p) [
  | inl same ↦ subst (λ q. IsConserving k (tally k q.workers) q.shared) (sym same) c
  | inr (going, e) ↦
      subst (λ q. IsConserving k (tally k q.workers) q.shared) (sym e)
        (with_task-IsConserving task p.shared going c)
]
act-IsConserving k (turns i) p c = Moved-IsConserving (turn-Moved k i p.workers p.shared) c
act-IsConserving k (wakes i) p c =
    subst (λ t. IsConserving k t p.shared) (sym (wake-tally k i p.workers)) c
act-IsConserving k notifies_all p c =
    subst (λ t. IsConserving k t p.shared) (sym (wake_all-tally k p.workers)) c
act-IsConserving k stores_stop p c = record {
  in_order = c.in_order;
  finishing = c.finishing;
  metered = c.metered;
  left = elim c.left [ inl z ↦ inl z | inr (none_left, _) ↦ inr (none_left, refl) ];
}

run_actions-IsConserving :
    (k : ℕ) (actions : List Action) (p : ThreadPool)
    → IsConserving k (tally k p.workers) p.shared
    → let q = run_actions actions p in IsConserving k (tally k q.workers) q.shared
run_actions-IsConserving k [] p c = c
run_actions-IsConserving k (a ∷ rest) p c =
    run_actions-IsConserving k rest (act a p) (act-IsConserving k a p c)

at_tops-tally : (k n : ℕ) → tally k (at_tops n) ≡ record { busies = 0; actives = 0; gones = 0 }
at_tops-tally k zero = refl
at_tops-tally k (suc n) = ap (plus (tally_of k at_top)) (at_tops-tally k n)

-- Under every interleaving of any number of workers, callers of submit, notifications and shutdown, the
-- tasks that workers have popped are the first of those that submit has taken, in the order in which it
-- took them, and the others are in the queue; each task has been popped as often as it has been run
-- and workers have it in hand; active_tasks_ is the number of workers that are running one; and no
-- worker has returned while a task was left or the pool was not stopped.
pub run_actions-new_pool :
    (num_threads : ℕ) (actions : List Action) (k : ℕ)
    → let q = run_actions actions (new_pool num_threads) in
      IsConserving k (tally k q.workers) q.shared
unfolding new_pool
run_actions-new_pool n actions k = run_actions-IsConserving k actions (new_pool n) (
    subst (λ t. IsConserving k t (new_pool n).shared) (sym (at_tops-tally k n))
      (record { in_order = refl; finishing = refl; metered = refl; left = inl refl }))

is_joined-tally :
    (k : ℕ) (ws : List Worker)
    → is_joined ws ≡ true
    → (count (busy k) ws ≡ 0) × (count active ws ≡ 0) × (count gone ws ≡ length ws)
is_joined-tally k [] h = (refl, refl, refl)
is_joined-tally k (exited ∷ ws) h =
    let (b, a, g) = is_joined-tally k ws h in (omega arith, omega arith, omega arith)
is_joined-tally k (at_top ∷ ws) h = absurd (ground (arith, h))
is_joined-tally k (dozing ∷ ws) h = absurd (ground (arith, h))
is_joined-tally k (asleep ∷ ws) h = absurd (ground (arith, h))
is_joined-tally k (holding task ∷ ws) h = absurd (ground (arith, h))
is_joined-tally k (running task ∷ ws) h = absurd (ground (arith, h))

-- When every worker of a pool that has some has returned, so that the joins of shutdown return, the tasks that
-- submit has taken were popped, all of them and in this order, and each has been run as often as submit has
-- taken it; none is active, and the pool is stopped.
pub is_joined-drained :
    (num_threads : ℕ) (actions : List Action) (k : ℕ)
    → is_joined (run_actions actions (new_pool num_threads)).workers ≡ true
    → length (run_actions actions (new_pool num_threads)).workers ≢ 0
    → let q = run_actions actions (new_pool num_threads) in
      (q.shared.popped ≡ q.shared.accepted)
      × (occurrences k q.shared.finished ≡ occurrences k q.shared.accepted)
      × (q.shared.active_tasks ≡ 0)
      × (q.shared.stop ≡ true)
is_joined-drained n actions k joined some_workers =
    let q = run_actions actions (new_pool n) in
    let c = run_actions-new_pool n actions k in
    let (b, a, g) = is_joined-tally k q.workers joined in
    elim c.left [
      | inl z ↦ absurd (some_workers (sym g ∙ z))
      | inr (none_left, stopped) ↦
          let all =
            sym (append-nil q.shared.popped)
            ∙ ap (λ l. q.shared.popped ++ l) (sym none_left)
            ∙ c.in_order in
          (all, omega (arith, c.finishing, b, ap (occurrences k) all), c.metered ∙ a, stopped)
    ]
