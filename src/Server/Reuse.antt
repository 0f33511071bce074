-- ===== src/Server/Reuse.antt =====
-- What a job does when its descriptor has come to stand for another connection.
use http_storm.Common.{ℕ, zero, suc, false, List, [], ◌∷◌, some, ◌≡◌, ◌≢◌, refl, ap, ◌∙◌, arith}
use http_storm.Server.Table.{
  ConnectionOps, Job, Table, find_fd, update, get_elem?, remove_connection, run_job, object_alive,
  served,
}

module _ {C : Type 0} (f : C → C) where
  update-get_elem? :
      (i : ℕ) (l : List C) (c : C)
      → get_elem? l i ≡ some c
      → get_elem? (update i f l) i ≡ some (f c)
  unfolding update
  update-get_elem? i [] c e = absurd (ground (arith, e))
  update-get_elem? zero (x ∷ l) c e = ground (arith, e)
  update-get_elem? (suc i) (x ∷ l) c e = update-get_elem? i l c e

  update-other : (i j : ℕ) (l : List C) → i ≢ j → get_elem? (update j f l) i ≡ get_elem? l i
  unfolding update
  update-other i j [] ne = refl
  update-other zero zero (x ∷ l) ne = absurd (ne refl)
  update-other zero (suc j) (x ∷ l) ne = refl
  update-other (suc i) zero (x ∷ l) ne = refl
  update-other (suc i) (suc j) (x ∷ l) ne = update-other i j l (λ e. ne (ap suc e))

module _ {C : Type 0} (ops : ConnectionOps C) where
  remove_connection-objects :
      (fd i : ℕ) (t : Table C)
      → find_fd fd t.connections ≡ some i
      → (remove_connection ops fd t).objects ≡ update i ops.close t.objects
  unfolding remove_connection
  remove_connection-objects fd i t e = rw (e, remove_connection) refl

  -- A job that finds its own connection dead removes whatever connection its descriptor stands for by
  -- then. When close has given the descriptor back and a new connection has got it in the meantime, it
  -- is the new one that the job closes.
  pub run_job-closes_other :
      (job : Job) (t : Table C) (i : ℕ) (other : C)
      → find_fd job.fd t.connections ≡ some i
      → i ≢ job.conn
      → get_elem? t.objects i ≡ some other
      → object_alive ops (update job.conn (served ops job.events) t.objects) job.conn ≡ false
      → get_elem? (run_job ops job t).objects i ≡ some (ops.close other)
  unfolding run_job
  run_job-closes_other job t i other found ne e dead =
      let t' : Table C = record t { objects = update job.conn (served ops job.events) t.objects } in
      rw dead (
        ap (λ l. get_elem? l i) (remove_connection-objects job.fd i t' found)
        ∙ update-get_elem? ops.close i t'.objects other
            (update-other (served ops job.events) i job.conn t.objects ne ∙ e))
