-- ===== src/ThreadPool/Joins.antt =====
-- ThreadPool::shutdown returns where no worker is between its test and its wait: the steps that the workers
-- have left are counted.
use http_storm.Common.{
  ℕ, zero, suc, ◌+◌, ◌*◌, ◌≤◌, true, false, length, List, [], ◌∷◌, if_true, if_false, inl, inr, ◌⊎◌,
  ◌≡◌, refl, sym, ap, subst, ◌∙◌, arith,
}
use http_storm.ThreadPool.{
  Worker, at_top, dozing, asleep, holding, running, exited, Shared, take_task, worker_step, woken,
  turn, wake, wake_all, is_joined,
}
use http_storm.ThreadPool.Moves.{count}

-- the steps up to its return, the queue being empty; a worker that waits makes none
abbrev pub to_go : Worker → ℕ
to_go (holding task) = 3
to_go (running task) = 2
to_go at_top = 1
to_go _ = 0

-- whether its next step changes anything
abbrev pub can_step : Worker → ℕ
can_step exited = 0
can_step asleep = 0
can_step dozing = 0
can_step _ = 1

-- between the test and the wait
abbrev pub dozes : Worker → ℕ
dozes dozing = 1
dozes _ = 0

-- between the test and the notification
abbrev pub sleeps : Worker → ℕ
sleeps dozing = 1
sleeps asleep = 1
sleeps _ = 0

-- the steps that are left: three for each task in the queue
abbrev pub steps_left : List Worker → Shared → ℕ
steps_left ws s = 3 * length s.tasks + count to_go ws

abbrev pub can_step_at : ℕ → List Worker → ℕ
can_step_at i [] = 0
can_step_at zero (w ∷ ws) = can_step w
can_step_at (suc i) (w ∷ ws) = can_step_at i ws

-- stop_ is stored, and nobody holds the mutex
abbrev pub IsStopped : Shared → Type 0
IsStopped s = (s.stop ≡ true) × (s.locked ≡ false)

-- What a step does to some workers, of which one makes n steps, and to what they share.
pub record Steps (n : ℕ) (ws : List Worker) (s : Shared) (ws' : List Worker) (s' : Shared)
    : Type 0 where
  pub stopped : IsStopped s'
  pub spent : n + steps_left ws' s' ≡ steps_left ws s
  pub no_dozing : count dozes ws' ≤ count dozes ws
  pub no_sleep : count sleeps ws' ≤ count sleeps ws

abbrev alone : Worker → List Worker
alone w = w ∷ []

at_top-Steps :
    (tasks : List ℕ) (s : Shared)
    → s.tasks ≡ tasks
    → IsStopped s
    → Steps 1 (alone at_top) s (alone (take_task tasks s).0) (take_task tasks s).1
unfolding take_task
at_top-Steps [] s e (stop, free) =
    subst (λ (x : Worker × Shared). Steps 1 (alone at_top) s (alone x.0) x.1)
      (sym (if_true s.stop (exited, s) (dozing, record s { locked = true }) stop))
      (record {
        stopped = (stop, free);
        spent = omega arith;
        no_dozing = omega arith;
        no_sleep = omega arith;
      })
at_top-Steps (task ∷ tasks) s e (stop, free) = record {
  stopped = (stop, free);
  spent = omega (arith, ap length e);
  no_dozing = omega arith;
  no_sleep = omega arith;
}

worker_step-Steps :
    (w : Worker) (s : Shared)
    → IsStopped s
    → Steps (can_step w) (alone w) s (alone (worker_step w s).0) (worker_step w s).1
unfolding worker_step
worker_step-Steps at_top s (stop, free) =
    subst (λ (x : Worker × Shared). Steps 1 (alone at_top) s (alone x.0) x.1)
      (sym (if_false s.locked (at_top, s) (take_task s.tasks s) free))
      (at_top-Steps s.tasks s refl (stop, free))
worker_step-Steps dozing s (stop, free) = record {
  stopped = (stop, refl);
  spent = omega arith;
  no_dozing = omega arith;
  no_sleep = omega arith;
}
worker_step-Steps w s h = record {
  stopped = h;
  spent = omega arith;
  no_dozing = omega arith;
  no_sleep = omega arith;
}

pub turn-Steps :
    (i : ℕ) (ws : List Worker) (s : Shared)
    → IsStopped s
    → Steps (can_step_at i ws) ws s (turn i ws s).0 (turn i ws s).1
unfolding turn
turn-Steps i [] s h = record {
  stopped = h;
  spent = omega arith;
  no_dozing = omega arith;
  no_sleep = omega arith;
}
turn-Steps zero (w ∷ ws) s h =
    let m = worker_step-Steps w s h in
    record {
      stopped = m.stopped;
      spent = omega (arith, m.spent);
      no_dozing = omega (arith, m.no_dozing);
      no_sleep = omega (arith, m.no_sleep);
    }
turn-Steps (suc i) (w ∷ ws) s h =
    let m = turn-Steps i ws s h in
    record {
      stopped = m.stopped;
      spent = omega (arith, m.spent);
      no_dozing = omega (arith, m.no_dozing);
      no_sleep = omega (arith, m.no_sleep);
    }

dozes-woken : (w : Worker) → dozes (woken w) ≡ dozes w
dozes-woken asleep = refl
dozes-woken w = refl

sleeps-woken : (w : Worker) → sleeps (woken w) ≡ dozes w
sleeps-woken asleep = refl
sleeps-woken w = refl

-- a notification changes nothing in one that does not wait
woken_same : (w : Worker) → sleeps w ≡ 0 → woken w ≡ w
woken_same asleep h = absurd (ground (arith, h))
woken_same w h = refl

pub wake-dozes : (i : ℕ) (ws : List Worker) → count dozes (wake i ws) ≡ count dozes ws
unfolding wake
wake-dozes i [] = refl
wake-dozes zero (w ∷ ws) = omega (arith, dozes-woken w)
wake-dozes (suc i) (w ∷ ws) = omega (arith, wake-dozes i ws)

pub wake_all-dozes : (ws : List Worker) → count dozes (wake_all ws) ≡ count dozes ws
unfolding wake_all
wake_all-dozes [] = refl
wake_all-dozes (w ∷ ws) = omega (arith, dozes-woken w, wake_all-dozes ws)

pub wake_all-sleeps : (ws : List Worker) → count sleeps (wake_all ws) ≡ count dozes ws
unfolding wake_all
wake_all-sleeps [] = refl
wake_all-sleeps (w ∷ ws) = omega (arith, sleeps-woken w, wake_all-sleeps ws)

pub wake_same : (i : ℕ) (ws : List Worker) → count sleeps ws ≡ 0 → wake i ws ≡ ws
unfolding wake
wake_same i [] h = refl
wake_same zero (w ∷ ws) h = ap (λ v. v ∷ ws) (woken_same w (omega arith))
wake_same (suc i) (w ∷ ws) h = ap (◌∷◌ w) (wake_same i ws (omega arith))

pub wake_all_same : (ws : List Worker) → count sleeps ws ≡ 0 → wake_all ws ≡ ws
unfolding wake_all
wake_all_same [] h = refl
wake_all_same (w ∷ ws) h =
    ap (λ v. v ∷ wake_all ws) (woken_same w (omega arith))
    ∙ ap (◌∷◌ w) (wake_all_same ws (omega arith))

-- A pool that nobody waits in is joined, or a worker can make a step.
pub is_joined-or_steps :
    (ws : List Worker)
    → count sleeps ws ≡ 0
    → (is_joined ws ≡ true) ⊎ ((i : ℕ) × (can_step_at i ws ≡ 1))
is_joined-or_steps [] h = inl refl
is_joined-or_steps (dozing ∷ ws) h = absurd (ground (arith, h))
is_joined-or_steps (asleep ∷ ws) h = absurd (ground (arith, h))
is_joined-or_steps (exited ∷ ws) h = elim (is_joined-or_steps ws (omega arith)) [
  | inl joined ↦ inl joined
  | inr (i, steps) ↦ inr (suc i, steps)
]
is_joined-or_steps (w ∷ ws) h = inr (0, refl)
