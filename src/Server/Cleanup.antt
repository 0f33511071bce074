-- ===== src/Server/Cleanup.antt =====
-- What cleanup_timed_out_connections makes of the table of connections.
use mathlib.Core.List.{append_assoc}
use http_storm.Common.{
  ℕ, suc, ◌+◌, ◌-◌, ◌≤◌, length-append, true, length, List, [], ◌∷◌, ◌++◌, if◌then◌else◌,
  Bool-cases, inl, inr, some, ◌≡◌, refl, sym, ap, subst, ◌∙◌, arith,
}
use http_storm.Server.Table.{
  ConnectionOps, Table, find_fd, erase_fd, update, remove_connection, remove_all, close_listed,
  object_timed_out, timed_out_fds, cleanup_timed_out_connections, Happening, happen_all,
  empty_table,
}
use http_storm.Server.Limits.{happen_all-empty_table}
use http_storm.Server.Keys.{IsKeyed, IsKeyed-mid, happen_all-IsKeyed}

module _ {C : Type 0} (ops : ConnectionOps C) (now : ℕ) (objects : List C) where
  -- The entries whose connections are timed out, and the others, each in the order of the table.
  abbrev pub expired : List (ℕ × ℕ) → List (ℕ × ℕ)
  expired [] = []
  expired ((fd, i) ∷ rest) =
      let later = expired rest in
      if object_timed_out ops now objects i then (fd, i) ∷ later else later

  abbrev pub surviving : List (ℕ × ℕ) → List (ℕ × ℕ)
  surviving [] = []
  surviving ((fd, i) ∷ rest) =
      let later = surviving rest in
      if object_timed_out ops now objects i then later else (fd, i) ∷ later

  -- the table when some entries are gone
  record Cleaned (kept gone : List (ℕ × ℕ)) (t t' : Table C) : Type 0 where
    connections : t'.connections ≡ kept
    closed : t'.objects ≡ close_listed ops gone t.objects
    counted :
        length t.connections ≤ t.active_connections
        → t'.active_connections + length gone ≡ t.active_connections

  removed-same :
      (t : Table C) (fd i : ℕ)
      → find_fd fd t.connections ≡ some i
      → remove_connection ops fd t ≡ record t {
        objects = update i ops.close t.objects;
        connections = erase_fd fd t.connections;
        active_connections = t.active_connections - 1;
      }
  unfolding remove_connection
  removed-same t fd i e = rw (e, remove_connection) refl

  expired-Cleaned :
      (front rest : List (ℕ × ℕ)) (fd i : ℕ) (t : Table C)
      → IsKeyed (front ++ (fd, i) ∷ rest)
      → t.connections ≡ front ++ (fd, i) ∷ rest
      → object_timed_out ops now objects i ≡ true
      → ((u : Table C)
          → IsKeyed (front ++ rest)
          → u.connections ≡ front ++ rest
          → Cleaned
              (front ++ surviving rest)
              (expired rest)
              u
              (remove_all ops (timed_out_fds ops now objects rest) u))
      → Cleaned
          (front ++ surviving ((fd, i) ∷ rest))
          (expired ((fd, i) ∷ rest))
          t
          (remove_all ops (timed_out_fds ops now objects ((fd, i) ∷ rest)) t)
  unfolding remove_all timed_out_fds
  expired-Cleaned front rest fd i t k e out again =
      let (found, erased, keyed) = IsKeyed-mid front rest fd i k in
      let same = removed-same t fd i (ap (find_fd fd) e ∙ found) in
      let left : erase_fd fd t.connections ≡ front ++ rest = ap (erase_fd fd) e ∙ erased in
      let t1 : Table C = record t {
        objects = update i ops.close t.objects;
        connections = erase_fd fd t.connections;
        active_connections = t.active_connections - 1;
      } in
      let c = again t1 keyed left in
      let shorter : length t.connections ≡ suc (length t1.connections) = omega (
        arith,
        ap length e,
        ap length left,
        length-append front ((fd, i) ∷ rest),
        length-append front rest,
      ) in
      rw out (
        subst
          (λ u.
            Cleaned (front ++ surviving rest) ((fd, i) ∷ expired rest) t
              (remove_all ops (timed_out_fds ops now objects rest) u))
          (sym same)
          (record {
            connections = c.connections;
            closed = c.closed;
            counted = λ h. omega (arith, shorter, c.counted (omega (arith, shorter, h)), h);
          }))

  remove_all-Cleaned :
      (rest front : List (ℕ × ℕ)) (t : Table C)
      → IsKeyed (front ++ rest)
      → t.connections ≡ front ++ rest
      → Cleaned
          (front ++ surviving rest)
          (expired rest)
          t
          (remove_all ops (timed_out_fds ops now objects rest) t)
  unfolding remove_all timed_out_fds
  remove_all-Cleaned [] front t k e = record {
    connections = e;
    closed = refl;
    counted = λ h. omega arith;
  }
  remove_all-Cleaned ((fd, i) ∷ rest) front t k e =
      elim (Bool-cases (object_timed_out ops now objects i)) [
        | inl out ↦ expired-Cleaned front rest fd i t k e out (remove_all-Cleaned rest front)
        | inr stays ↦
            let moved = append_assoc front ((fd, i) ∷ []) rest in
            let c =
              remove_all-Cleaned rest (front ++ (fd, i) ∷ []) t (subst IsKeyed (sym moved) k)
                (e ∙ sym moved) in
            rw stays (record {
              connections = c.connections ∙ append_assoc front ((fd, i) ∷ []) (surviving rest);
              closed = c.closed;
              counted = c.counted;
            })
      ]

module _ {C : Type 0} (ops : ConnectionOps C) (max_connections : ℕ) where
  -- After any accepting, reporting, running, cleaning up and stopping, a cleanup leaves in the table just the
  -- entries whose connections are not timed out, in their order, closes the connections of the others and
  -- those alone, and takes their number off active_connections_.
  pub cleanup_timed_out_connections-happen_all :
      (xs : List (Happening C)) (now : ℕ)
      → let t = happen_all ops max_connections xs empty_table in
        let t' = cleanup_timed_out_connections ops now t in
        (t'.connections ≡ surviving ops now t.objects t.connections)
        × (t'.objects ≡ close_listed ops (expired ops now t.objects t.connections) t.objects)
        × (t'.active_connections + length (expired ops now t.objects t.connections)
            ≡ t.active_connections)
  unfolding cleanup_timed_out_connections
  cleanup_timed_out_connections-happen_all xs now =
      let t = happen_all ops max_connections xs empty_table in
      let keyed = happen_all-IsKeyed ops max_connections xs empty_table tt in
      let c = remove_all-Cleaned ops now t.objects t.connections [] t keyed refl in
      (c.connections, c.closed, c.counted (happen_all-empty_table ops max_connections xs).covered)
