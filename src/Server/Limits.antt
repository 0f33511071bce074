-- ===== src/Server/Limits.antt =====
-- The size of the table of connections, and what remove_connection removes.
use http_storm.Common.{
  either_way, Option, Bytes, ℕ, ◌+◌, ◌≤◌, ◌<◌, false, length, List, [], ◌∷◌, ◌==◌, leb, some,
  Option-cases, Bool-cases, inl, inr, ◌≡◌, arith,
}
use http_storm.Server.Table.{
  ConnectionOps, Made, made, made_none, Epoll, Job, Table, find_fd, insert_fd, erase_fd, update,
  add_connection, accept_connection, remove_connection, remove_all, cleanup_timed_out_connections,
  handle_connection_event, run_job, object_alive, served, run_next, stop_connections, Happening,
  accepts, reports, runs_job, cleans_up, stops, happen, happen_all, empty_table,
}

length-insert_fd : (fd i : ℕ) (l : List (ℕ × ℕ)) → length (insert_fd fd i l) ≤ length l + 1
unfolding insert_fd
length-insert_fd fd i [] = omega arith
length-insert_fd fd i ((key, j) ∷ rest) = ground (arith, length-insert_fd fd i rest)

length-erase_fd :
    (fd : ℕ) (l : List (ℕ × ℕ)) (i : ℕ)
    → find_fd fd l ≡ some i
    → length (erase_fd fd l) + 1 ≡ length l
unfolding find_fd erase_fd
length-erase_fd fd [] i e = absurd (ground (arith, e))
length-erase_fd fd ((key, j) ∷ rest) i e = elim (Bool-cases (key == fd)) [
  | inl here ↦ rw here (omega arith)
  | inr there ↦ rw there (omega (arith, length-erase_fd fd rest i (ground (arith, e, there))))
]

module _ {C : Type 0} (ops : ConnectionOps C) (max_connections : ℕ) where
  -- No more connections than allowed, and none that is not counted.
  pub record IsWithin (t : Table C) : Type 0 where
    pub bounded : length t.connections ≤ max_connections
    pub covered : length t.connections ≤ t.active_connections

  remove_connection-IsWithin :
      (fd : ℕ) (t : Table C) → IsWithin t → IsWithin (remove_connection ops fd t)
  unfolding remove_connection
  remove_connection-IsWithin fd t h = elim (Option-cases (find_fd fd t.connections)) [
    | inl e ↦ rw (e, remove_connection) h
    | inr (i, e) ↦
        let shorter = length-erase_fd fd t.connections i e in
        rw (e, remove_connection)
          (record {
            bounded = omega (arith, shorter, h.bounded);
            covered = omega (arith, shorter, h.covered);
          })
  ]

  add_connection-IsWithin :
      (fd : ℕ) (conn : C) (t : Table C)
      → leb max_connections (length t.connections) ≡ false
      → IsWithin t
      → IsWithin (add_connection ops fd conn t)
  unfolding add_connection
  add_connection-IsWithin fd conn t free h =
      let longer = length-insert_fd fd (length t.objects) t.connections in
      let room : length t.connections < max_connections = ground (arith, free) in
      record { bounded = omega (arith, longer, room); covered = omega (arith, longer, h.covered) }

  accept_connection-IsWithin :
      (waiting : List (ℕ × Made C)) (t : Table C)
      → IsWithin t
      → IsWithin (accept_connection ops max_connections waiting t).0
  unfolding accept_connection
  accept_connection-IsWithin [] t h = h
  accept_connection-IsWithin ((fd, made_none message) ∷ waiting) t h =
      either_way (λ (x : Table C × Option Bytes). IsWithin x.0)
        (leb max_connections (length t.connections)) _ _
        (record { bounded = h.bounded; covered = h.covered }) h
  accept_connection-IsWithin ((fd, made conn) ∷ waiting) t h =
      elim (Bool-cases (leb max_connections (length t.connections))) [
        | inl full ↦ rw full (record { bounded = h.bounded; covered = h.covered })
        | inr free ↦ rw free (
            accept_connection-IsWithin waiting (add_connection ops fd conn t)
              (add_connection-IsWithin fd conn t free h))
      ]

  remove_all-IsWithin : (fds : List ℕ) (t : Table C) → IsWithin t → IsWithin (remove_all ops fds t)
  unfolding remove_all
  remove_all-IsWithin [] t h = h
  remove_all-IsWithin (fd ∷ fds) t h =
      remove_all-IsWithin fds (remove_connection ops fd t) (remove_connection-IsWithin fd t h)

  handle_connection_event-IsWithin :
      (fd : ℕ) (events : Epoll) (t : Table C)
      → IsWithin t
      → IsWithin (handle_connection_event ops fd events t)
  unfolding handle_connection_event
  handle_connection_event-IsWithin fd events t h = elim (Option-cases (find_fd fd t.connections)) [
    | inl e ↦ rw (e, handle_connection_event) h
    | inr (i, e) ↦ elim (Bool-cases events.broken) [
      | inl broken ↦ rw (e, handle_connection_event, broken) (remove_connection-IsWithin fd t h)
      | inr whole ↦
          rw (e, handle_connection_event, whole)
            (record { bounded = h.bounded; covered = h.covered })
    ]
  ]

  run_job-IsWithin : (job : Job) (t : Table C) → IsWithin t → IsWithin (run_job ops job t)
  unfolding run_job
  run_job-IsWithin job t h =
      let t' : Table C = record t { objects = update job.conn (served ops job.events) t.objects } in
      let h' : IsWithin t' = record { bounded = h.bounded; covered = h.covered } in
      elim (Bool-cases (object_alive ops t'.objects job.conn)) [
        | inl alive ↦ rw alive h'
        | inr dead ↦ rw dead (remove_connection-IsWithin job.fd t' h')
      ]

  run_next-IsWithin : (t : Table C) → IsWithin t → IsWithin (run_next ops t)
  unfolding run_next
  run_next-IsWithin t h =
      elim t.jobs
        as (λ jobs.
          IsWithin
            (elim jobs [ [] ↦ t | job ∷ rest ↦ run_job ops job (record t { jobs = rest }) ])) [
              | [] ↦ h
              | job ∷ rest ↦
                  run_job-IsWithin job (record t { jobs = rest })
                    (record { bounded = h.bounded; covered = h.covered })
            ]

  happen-IsWithin :
      (x : Happening C) (t : Table C) → IsWithin t → IsWithin (happen ops max_connections x t)
  unfolding happen cleanup_timed_out_connections stop_connections
  happen-IsWithin (accepts waiting) t h = accept_connection-IsWithin waiting t h
  happen-IsWithin (reports fd events) t h = handle_connection_event-IsWithin fd events t h
  happen-IsWithin runs_job t h = run_next-IsWithin t h
  happen-IsWithin (cleans_up now) t h = remove_all-IsWithin _ t h
  happen-IsWithin stops t h = record { bounded = omega arith; covered = omega arith }

  happen_all-IsWithin :
      (xs : List (Happening C)) (t : Table C)
      → IsWithin t
      → IsWithin (happen_all ops max_connections xs t)
  happen_all-IsWithin [] t h = h
  happen_all-IsWithin (x ∷ xs) t h =
      happen_all-IsWithin xs (happen ops max_connections x t) (happen-IsWithin x t h)

  -- Whatever is accepted, reported, run, cleaned up and stopped, in whatever order and with whatever
  -- descriptors, the table never holds more than max_connections connections, and active_connections_
  -- is at least their number, so that its decrements never pass 0.
  pub happen_all-empty_table :
      (xs : List (Happening C)) → IsWithin (happen_all ops max_connections xs empty_table)
  happen_all-empty_table xs =
      happen_all-IsWithin xs empty_table (record { bounded = omega arith; covered = omega arith })
