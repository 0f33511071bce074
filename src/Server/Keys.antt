-- ===== src/Server/Keys.antt =====
-- connections_ has one entry for each descriptor, whatever happens to it.
use http_storm.Common.{
  either_way, Option, Bytes, ℕ, true, false, length, List, [], ◌∷◌, ◌++◌, ◌==◌, ==_iff, leb, some,
  Option-cases, Bool-cases, inl, inr, All, ◌≡◌, ◌≢◌, refl, arith,
}
use http_storm.Server.Table.{
  ConnectionOps, Made, made, made_none, Epoll, Job, Table, find_fd, insert_fd, erase_fd, update,
  add_connection, accept_connection, remove_connection, remove_all, cleanup_timed_out_connections,
  handle_connection_event, run_job, object_alive, served, run_next, stop_connections, Happening,
  accepts, reports, runs_job, cleans_up, stops, happen, happen_all,
}

-- The descriptor is no key of the list.
abbrev pub IsUnlisted : ℕ → List (ℕ × ℕ) → Type 0
IsUnlisted fd = All (λ (entry : ℕ × ℕ). entry.0 ≢ fd)

abbrev pub IsKeyed : List (ℕ × ℕ) → Type 0
IsKeyed [] = Unit
IsKeyed ((fd, i) ∷ rest) = IsUnlisted fd rest × IsKeyed rest

All-mid :
    (P : ℕ × ℕ → Type 0) (front rest : List (ℕ × ℕ)) (x : ℕ × ℕ)
    → All P (front ++ x ∷ rest)
    → P x × All P (front ++ rest)
All-mid P [] rest x h = h
All-mid P (y ∷ front) rest x (q, h) = let (p, hs) = All-mid P front rest x h in (p, (q, hs))

-- In a list with an entry for each descriptor, the one that stands in the middle is found and erased.
pub IsKeyed-mid :
    (front rest : List (ℕ × ℕ)) (fd i : ℕ)
    → IsKeyed (front ++ (fd, i) ∷ rest)
    → (find_fd fd (front ++ (fd, i) ∷ rest) ≡ some i)
      × (erase_fd fd (front ++ (fd, i) ∷ rest) ≡ front ++ rest)
      × IsKeyed (front ++ rest)
unfolding find_fd erase_fd
IsKeyed-mid [] rest fd i (h, hs) =
    let same : (fd == fd) ≡ true = (==_iff fd fd).1 refl in (rw same refl, rw same refl, hs)
IsKeyed-mid ((key, j) ∷ front) rest fd i (h, hs) =
    let (apart, free) = All-mid (λ e. e.0 ≢ key) front rest (fd, i) h in
    let (found, erased, keyed) = IsKeyed-mid front rest fd i hs in
    let differs : (key == fd) ≡ false = ground (arith, apart) in
    (rw differs found, rw (differs, erased) refl, (free, keyed))

insert_fd-IsUnlisted :
    (key fd i : ℕ) (l : List (ℕ × ℕ))
    → fd ≢ key
    → IsUnlisted key l
    → IsUnlisted key (insert_fd fd i l)
unfolding insert_fd
insert_fd-IsUnlisted key fd i [] ne h = (ne, tt)
insert_fd-IsUnlisted key fd i ((k, j) ∷ l) ne (h, hs) = elim (Bool-cases (k == fd)) [
  | inl here ↦ rw here (h, hs)
  | inr there ↦ rw there (h, insert_fd-IsUnlisted key fd i l ne hs)
]

insert_fd-IsKeyed : (fd i : ℕ) (l : List (ℕ × ℕ)) → IsKeyed l → IsKeyed (insert_fd fd i l)
unfolding insert_fd
insert_fd-IsKeyed fd i [] h = (tt, tt)
insert_fd-IsKeyed fd i ((k, j) ∷ l) (h, hs) = elim (Bool-cases (k == fd)) [
  | inl here ↦ rw here (h, hs)
  | inr there ↦
      let ne : fd ≢ k = λ e. ground (arith, e, there) in
      rw there (insert_fd-IsUnlisted k fd i l ne h, insert_fd-IsKeyed fd i l hs)
]

erase_fd-IsUnlisted :
    (key fd : ℕ) (l : List (ℕ × ℕ)) → IsUnlisted key l → IsUnlisted key (erase_fd fd l)
unfolding erase_fd
erase_fd-IsUnlisted key fd [] h = tt
erase_fd-IsUnlisted key fd ((k, j) ∷ l) (h, hs) = elim (Bool-cases (k == fd)) [
  | inl here ↦ rw here hs
  | inr there ↦ rw there (h, erase_fd-IsUnlisted key fd l hs)
]

erase_fd-IsKeyed : (fd : ℕ) (l : List (ℕ × ℕ)) → IsKeyed l → IsKeyed (erase_fd fd l)
unfolding erase_fd
erase_fd-IsKeyed fd [] h = tt
erase_fd-IsKeyed fd ((k, j) ∷ l) (h, hs) = elim (Bool-cases (k == fd)) [
  | inl here ↦ rw here hs
  | inr there ↦ rw there (erase_fd-IsUnlisted k fd l h, erase_fd-IsKeyed fd l hs)
]

module _ {C : Type 0} (ops : ConnectionOps C) (max_connections : ℕ) where
  abbrev Keyed : Table C → Type 0
  Keyed t = IsKeyed t.connections

  remove_connection-Keyed : (fd : ℕ) (t : Table C) → Keyed t → Keyed (remove_connection ops fd t)
  unfolding remove_connection
  remove_connection-Keyed fd t h = elim (Option-cases (find_fd fd t.connections)) [
    | inl e ↦ rw (e, remove_connection) h
    | inr (i, e) ↦ rw (e, remove_connection) (erase_fd-IsKeyed fd t.connections h)
  ]

  accept_connection-Keyed :
      (waiting : List (ℕ × Made C)) (t : Table C)
      → Keyed t
      → Keyed (accept_connection ops max_connections waiting t).0
  unfolding accept_connection add_connection
  accept_connection-Keyed [] t h = h
  accept_connection-Keyed ((fd, made_none message) ∷ waiting) t h =
      either_way (λ (x : Table C × Option Bytes). Keyed x.0)
        (leb max_connections (length t.connections)) _ _ h h
  accept_connection-Keyed ((fd, made conn) ∷ waiting) t h =
      elim (Bool-cases (leb max_connections (length t.connections))) [
        | inl full ↦ rw full h
        | inr free ↦ rw free (
            accept_connection-Keyed waiting (add_connection ops fd conn t)
              (insert_fd-IsKeyed fd (length t.objects) t.connections h))
      ]

  remove_all-Keyed : (fds : List ℕ) (t : Table C) → Keyed t → Keyed (remove_all ops fds t)
  unfolding remove_all
  remove_all-Keyed [] t h = h
  remove_all-Keyed (fd ∷ fds) t h =
      remove_all-Keyed fds (remove_connection ops fd t) (remove_connection-Keyed fd t h)

  handle_connection_event-Keyed :
      (fd : ℕ) (events : Epoll) (t : Table C)
      → Keyed t
      → Keyed (handle_connection_event ops fd events t)
  unfolding handle_connection_event
  handle_connection_event-Keyed fd events t h = elim (Option-cases (find_fd fd t.connections)) [
    | inl e ↦ rw (e, handle_connection_event) h
    | inr (i, e) ↦ elim (Bool-cases events.broken) [
      | inl broken ↦ rw (e, handle_connection_event, broken) (remove_connection-Keyed fd t h)
      | inr whole ↦ rw (e, handle_connection_event, whole) h
    ]
  ]

  run_job-Keyed : (job : Job) (t : Table C) → Keyed t → Keyed (run_job ops job t)
  unfolding run_job
  run_job-Keyed job t h =
      let t' : Table C = record t { objects = update job.conn (served ops job.events) t.objects } in
      elim (Bool-cases (object_alive ops t'.objects job.conn)) [
        | inl alive ↦ rw alive h
        | inr dead ↦ rw dead (remove_connection-Keyed job.fd t' h)
      ]

  run_next-Keyed : (t : Table C) → Keyed t → Keyed (run_next ops t)
  unfolding run_next
  run_next-Keyed t h =
      elim t.jobs
        as (λ jobs.
          Keyed (elim jobs [ [] ↦ t | job ∷ rest ↦ run_job ops job (record t { jobs = rest }) ])) [
            | [] ↦ h
            | job ∷ rest ↦ run_job-Keyed job (record t { jobs = rest }) h
          ]

  happen-Keyed : (x : Happening C) (t : Table C) → Keyed t → Keyed (happen ops max_connections x t)
  unfolding happen cleanup_timed_out_connections stop_connections
  happen-Keyed (accepts waiting) t h = accept_connection-Keyed waiting t h
  happen-Keyed (reports fd events) t h = handle_connection_event-Keyed fd events t h
  happen-Keyed runs_job t h = run_next-Keyed t h
  happen-Keyed (cleans_up now) t h = remove_all-Keyed _ t h
  happen-Keyed stops t h = tt

  pub happen_all-IsKeyed :
      (xs : List (Happening C)) (t : Table C)
      → IsKeyed t.connections
      → IsKeyed (happen_all ops max_connections xs t).connections
  happen_all-IsKeyed [] t h = h
  happen_all-IsKeyed (x ∷ xs) t h =
      happen_all-IsKeyed xs (happen ops max_connections x t) (happen-Keyed x t h)
