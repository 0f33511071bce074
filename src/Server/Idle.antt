-- ===== src/Server/Idle.antt =====
-- Tables with no connection and no job, which `stop` leaves behind.
use http_storm.Common.{
  ℕ, zero, suc, length, List, [], ◌∷◌, none, Bool-cases, Option-cases, inl, inr, ◌≡◌, refl,
}
use http_storm.Server.Table.{
  ConnectionOps, Job, Table, Epoll, find_fd, remove_connection, remove_all, timed_out_fds, run_job,
  run_next, served, update, object_alive, stop_connections, handle_connection_event,
  cleanup_timed_out_connections,
}
use http_storm.Server.Lifecycle.{run_jobs}

module _ {C : Type 0} (ops : ConnectionOps C) where
  -- A table that nothing is left in.
  pub record IsIdle (t : Table C) : Type 0 where
    pub connections : t.connections ≡ []
    pub jobs : t.jobs ≡ []

  remove_connection-jobs : (fd : ℕ) (t : Table C) → (remove_connection ops fd t).jobs ≡ t.jobs
  unfolding remove_connection
  remove_connection-jobs fd t = elim (Option-cases (find_fd fd t.connections)) [
    | inl e ↦ rw (e, remove_connection) refl
    | inr (i, e) ↦ rw (e, remove_connection) refl
  ]

  run_job-jobs : (job : Job) (t : Table C) → (run_job ops job t).jobs ≡ t.jobs
  unfolding run_job
  run_job-jobs job t =
      let objects = update job.conn (served ops job.events) t.objects in
      elim (Bool-cases (object_alive ops objects job.conn)) [
        | inl e ↦ rw e refl
        | inr e ↦ rw e (remove_connection-jobs job.fd _)
      ]

  run_jobs-drained :
      (jobs : List Job) (t : Table C) → t.jobs ≡ jobs → (run_jobs ops (length jobs) t).jobs ≡ []
  unfolding run_jobs run_next
  run_jobs-drained [] t e = e
  run_jobs-drained (job ∷ jobs) t e =
      run_jobs-drained jobs (run_next ops t) (rw (e, run_next) (run_job-jobs job _))

  find_fd-empty : (fd : ℕ) (t : Table C) → t.connections ≡ [] → find_fd fd t.connections ≡ none
  unfolding find_fd
  find_fd-empty fd t e = rw e refl

  remove_connection-empty :
      (fd : ℕ) (t : Table C) → t.connections ≡ [] → remove_connection ops fd t ≡ t
  unfolding remove_connection
  remove_connection-empty fd t e = rw (find_fd-empty fd t e, remove_connection) refl

  run_job-empty :
      (job : Job) (t : Table C) → t.connections ≡ [] → (run_job ops job t).connections ≡ []
  unfolding run_job
  run_job-empty job t e =
      let t' : Table C = record t { objects = update job.conn (served ops job.events) t.objects } in
      elim (Bool-cases (object_alive ops t'.objects job.conn)) [
        | inl alive ↦ rw alive e
        | inr dead ↦ rw (dead, remove_connection-empty job.fd t' e) e
      ]

  run_next-empty : (t : Table C) → t.connections ≡ [] → (run_next ops t).connections ≡ []
  unfolding run_next
  run_next-empty t e = go t.jobs refl
    where
      go : (jobs : List Job) → t.jobs ≡ jobs → (run_next ops t).connections ≡ []
      go [] f = rw (f, run_next) e
      go (job ∷ jobs) f = rw (f, run_next) (run_job-empty job _ e)

  run_jobs-empty : (n : ℕ) (t : Table C) → t.connections ≡ [] → (run_jobs ops n t).connections ≡ []
  unfolding run_jobs
  run_jobs-empty zero t e = e
  run_jobs-empty (suc n) t e = run_jobs-empty n (run_next ops t) (run_next-empty t e)

  run_next-no_jobs : (t : Table C) → t.jobs ≡ [] → (run_next ops t).jobs ≡ []
  unfolding run_next
  run_next-no_jobs t e = rw (e, run_next) e

  run_jobs-no_jobs : (n : ℕ) (t : Table C) → t.jobs ≡ [] → (run_jobs ops n t).jobs ≡ []
  unfolding run_jobs
  run_jobs-no_jobs zero t e = e
  run_jobs-no_jobs (suc n) t e = run_jobs-no_jobs n (run_next ops t) (run_next-no_jobs t e)

  pub run_jobs-IsIdle : (n : ℕ) (t : Table C) → IsIdle t → IsIdle (run_jobs ops n t)
  run_jobs-IsIdle n t h = record {
    connections = run_jobs-empty n t h.connections;
    jobs = run_jobs-no_jobs n t h.jobs;
  }

  -- `stop` closes what is in the table and lets the pool run what is in the queue.
  pub stopped_table-IsIdle :
      (t : Table C)
      → IsIdle (run_jobs ops (length (stop_connections ops t).jobs) (stop_connections ops t))
  unfolding stop_connections
  stopped_table-IsIdle t = record {
    connections = run_jobs-empty _ (stop_connections ops t) refl;
    jobs = run_jobs-drained _ (stop_connections ops t) refl;
  }

  pub handle_connection_event-empty :
      (fd : ℕ) (events : Epoll) (t : Table C)
      → t.connections ≡ []
      → handle_connection_event ops fd events t ≡ t
  unfolding handle_connection_event
  handle_connection_event-empty fd events t e =
      rw (find_fd-empty fd t e, handle_connection_event) refl

  pub cleanup-empty :
      (now : ℕ) (t : Table C) → t.connections ≡ [] → cleanup_timed_out_connections ops now t ≡ t
  unfolding cleanup_timed_out_connections timed_out_fds remove_all
  cleanup-empty now t e =
      let none_out : timed_out_fds ops now t.objects t.connections ≡ [] = rw e refl in
      rw none_out refl
