-- ===== src/ThreadPool/Moves.antt =====
-- What one step of a worker changes, and what it keeps, counted over all of them.
use mathlib.Core.List.{append_assoc}
use http_storm.Common.{
  ◌==◌, if◌then◌else◌, ℕ, zero, suc, ◌+◌, true, false, List, [], ◌∷◌, ◌++◌, Bool-cases, inl, inr,
  ◌⊎◌, ◌≡◌, refl, sym, ap, ◌∙◌, arith,
}
use http_storm.ThreadPool.{
  Worker, at_top, dozing, asleep, holding, running, exited, Shared, take_task, worker_step, woken,
  turn, wake, wake_all,
}

-- one for the task k, none for another
abbrev pub is_task : ℕ → ℕ → ℕ
is_task k task = if task == k then 1 else 0

-- how often the task k is in a list
abbrev pub occurrences : ℕ → List ℕ → ℕ
occurrences k [] = 0
occurrences k (task ∷ tasks) = is_task k task + occurrences k tasks

pub occurrences-append :
    (k : ℕ) (xs ys : List ℕ) → occurrences k (xs ++ ys) ≡ occurrences k xs + occurrences k ys
occurrences-append k [] ys = omega arith
occurrences-append k (x ∷ xs) ys = omega (arith, occurrences-append k xs ys)

-- whether the task k is in the hands of the worker: popped, and not finished yet
abbrev pub busy : ℕ → Worker → ℕ
busy k (holding task) = is_task k task
busy k (running task) = is_task k task
busy k _ = 0

-- one that active_tasks_ counts
abbrev pub active : Worker → ℕ
active (running task) = 1
active _ = 0

abbrev pub gone : Worker → ℕ
gone exited = 1
gone _ = 0

abbrev pub count : (Worker → ℕ) → List Worker → ℕ
count f [] = 0
count f (w ∷ ws) = f w + count f ws

-- The counts of some workers, for one task.
pub record Tally : Type 0 where
  pub busies : ℕ
  pub actives : ℕ
  pub gones : ℕ

abbrev pub tally : ℕ → List Worker → Tally
tally k ws = record { busies = count (busy k) ws; actives = count active ws; gones = count gone ws }

abbrev pub tally_of : ℕ → Worker → Tally
tally_of k w = record { busies = busy k w; actives = active w; gones = gone w }

abbrev pub plus : Tally → Tally → Tally
plus t u = record {
  busies = t.busies + u.busies;
  actives = t.actives + u.actives;
  gones = t.gones + u.gones;
}

-- What a step of some workers changes, for the task k; b and a count those that do not move.
pub record Moved (k : ℕ) (t : Tally) (s : Shared) (t' : Tally) (s' : Shared) : Type 0 where
  pub fifo : s'.popped ++ s'.tasks ≡ s.popped ++ s.tasks
  pub same : (s'.accepted ≡ s.accepted) × (s'.stop ≡ s.stop)
  pub counted :
      (b : ℕ)
      → occurrences k s.finished + (t.busies + b) ≡ occurrences k s.popped
      → occurrences k s'.finished + (t'.busies + b) ≡ occurrences k s'.popped
  pub measured : (a : ℕ) → s.active_tasks ≡ t.actives + a → s'.active_tasks ≡ t'.actives + a
  pub drained : (t'.gones ≡ t.gones) ⊎ ((s'.tasks ≡ []) × (s'.stop ≡ true))
  pub emptied : s.tasks ≡ [] → s'.tasks ≡ []

Moved-refl : (k : ℕ) (t : Tally) (s : Shared) → Moved k t s t s
Moved-refl k t s = record {
  fifo = refl;
  same = (refl, refl);
  counted = λ b h. h;
  measured = λ a h. h;
  drained = inl refl;
  emptied = λ h. h;
}

take_task-Moved :
    (k : ℕ) (tasks : List ℕ) (s : Shared)
    → s.tasks ≡ tasks
    → Moved k (tally_of k at_top) s (tally_of k (take_task tasks s).0) (take_task tasks s).1
unfolding take_task
take_task-Moved k [] s e = elim (Bool-cases s.stop) [
  | inl stopped ↦ rw stopped (record {
    fifo = refl;
    same = (refl, refl);
    counted = λ b h. h;
    measured = λ a h. h;
    drained = inr (e, refl);
    emptied = λ h. h;
  })
  | inr going ↦ rw going (record {
    fifo = refl;
    same = (refl, refl);
    counted = λ b h. h;
    measured = λ a h. h;
    drained = inl refl;
    emptied = λ h. h;
  })
]
take_task-Moved k (task ∷ tasks) s e = record {
  fifo = append_assoc s.popped (task ∷ []) tasks ∙ ap (λ t. s.popped ++ t) (sym e);
  same = (refl, refl);
  counted = λ b h. omega (arith, occurrences-append k s.popped (task ∷ []));
  measured = λ a h. h;
  drained = inl refl;
  emptied = λ h. absurd (ground (arith, e, h));
}

worker_step-Moved :
    (k : ℕ) (w : Worker) (s : Shared)
    → Moved k (tally_of k w) s (tally_of k (worker_step w s).0) (worker_step w s).1
unfolding worker_step
worker_step-Moved k at_top s = elim (Bool-cases s.locked) [
  | inl waits ↦ rw waits (Moved-refl k (tally_of k at_top) (record s { locked = true }))
  | inr free ↦ rw free (take_task-Moved k s.tasks (record s { locked = false }) refl)
]
worker_step-Moved k dozing s = record {
  fifo = refl;
  same = (refl, refl);
  counted = λ b h. h;
  measured = λ a h. h;
  drained = inl refl;
  emptied = λ h. h;
}
worker_step-Moved k asleep s = Moved-refl k (tally_of k asleep) s
worker_step-Moved k exited s = Moved-refl k (tally_of k exited) s
worker_step-Moved k (holding task) s = record {
  fifo = refl;
  same = (refl, refl);
  counted = λ b h. h;
  measured = λ a h. omega arith;
  drained = inl refl;
  emptied = λ h. h;
}
worker_step-Moved k (running task) s = record {
  fifo = refl;
  same = (refl, refl);
  counted = λ b h. omega (arith, occurrences-append k s.finished (task ∷ []));
  measured = λ a h. omega arith;
  drained = inl refl;
  emptied = λ h. h;
}

module _ {k : ℕ} {t : Tally} {s : Shared} {t' : Tally} {s' : Shared} (u : Tally)
    (m : Moved k t s t' s') where
  Moved-right : Moved k (plus t u) s (plus t' u) s'
  Moved-right = record {
    fifo = m.fifo;
    same = m.same;
    counted = λ b h. omega (arith, m.counted (u.busies + b) (omega arith));
    measured = λ a h. omega (arith, m.measured (u.actives + a) (omega arith));
    drained = elim m.drained [ inl e ↦ inl (omega arith) | inr d ↦ inr d ];
    emptied = m.emptied;
  }

  Moved-left : Moved k (plus u t) s (plus u t') s'
  Moved-left = record {
    fifo = m.fifo;
    same = m.same;
    counted = λ b h. omega (arith, m.counted (u.busies + b) (omega arith));
    measured = λ a h. omega (arith, m.measured (u.actives + a) (omega arith));
    drained = elim m.drained [ inl e ↦ inl (omega arith) | inr d ↦ inr d ];
    emptied = m.emptied;
  }

pub turn-Moved :
    (k i : ℕ) (ws : List Worker) (s : Shared)
    → Moved k (tally k ws) s (tally k (turn i ws s).0) (turn i ws s).1
unfolding turn
turn-Moved k i [] s = Moved-refl k (tally k []) s
turn-Moved k zero (w ∷ ws) s = Moved-right (tally k ws) (worker_step-Moved k w s)
turn-Moved k (suc i) (w ∷ ws) s = Moved-left (tally_of k w) (turn-Moved k i ws s)

woken-tally : (k : ℕ) (w : Worker) → tally_of k (woken w) ≡ tally_of k w
woken-tally k at_top = refl
woken-tally k dozing = refl
woken-tally k asleep = refl
woken-tally k (holding task) = refl
woken-tally k (running task) = refl
woken-tally k exited = refl

pub wake-tally : (k i : ℕ) (ws : List Worker) → tally k (wake i ws) ≡ tally k ws
unfolding wake
wake-tally k i [] = refl
wake-tally k zero (w ∷ ws) = ap (λ t. plus t (tally k ws)) (woken-tally k w)
wake-tally k (suc i) (w ∷ ws) = ap (plus (tally_of k w)) (wake-tally k i ws)

pub wake_all-tally : (k : ℕ) (ws : List Worker) → tally k (wake_all ws) ≡ tally k ws
unfolding wake_all
wake_all-tally k [] = refl
wake_all-tally k (w ∷ ws) =
    ap (λ t. plus t (tally k (wake_all ws))) (woken-tally k w)
    ∙ ap (plus (tally_of k w)) (wake_all-tally k ws)
