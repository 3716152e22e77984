-- ===== src/Daemon/Storage/RoundTrip.antt =====
-- What was saved is loaded: projects and idempotency entries.
use mathlib.Core.Path.{subst}
use kesharon.Prelude.{
  ◌≡◌, refl, ap, ◌∙◌, String, Bool, true, false, Option, some, [], ◌∷◌, arith, Result, ok, err,
  map_err,
}
use kesharon.Application.Error.{ApplicationError}
use kesharon.Domain.Project.{Project, new_project_id, new}
use kesharon.Daemon.Session.State.{Mutex}
use kesharon.Daemon.Storage.Sql.{
  Row, done, row, Statement, upsert_project, upsert_last_active, select_project, select_last_active,
  upsert_idempotency, select_idempotency, Connection, IsSql, execute_on, text, integer, text_at,
  integer_at, first_text,
}
use kesharon.Daemon.Storage.Projects.{
  i64_of_bool, then_execute, save_project, project_of_row, next_parsed, load_project,
  load_last_active_project,
}
use kesharon.Daemon.Storage.Records.{record_idempotency, find_idempotency}

module _ {C : Type 0} (conn : Connection C) where
  -- A statement that succeeded ran on the connection, and the lock is as it was.
  pub execute_on-ok :
      (lock : Mutex C) (s : Statement) {lock' : Mutex C}
      → execute_on conn lock s ≡ (ok tt, lock')
      → (conn.run lock.inner s ≡ (ok tt, lock'.inner)) × (lock'.poisoned ≡ lock.poisoned)
  unfolding execute_on
  execute_on-ok lock s h = ground (arith, h)

  then_execute-ok :
      (r : Result (Unit {0}) ApplicationError) (lock : Mutex C) (s : Statement) {lock' : Mutex C}
      → then_execute conn (r, lock) s ≡ (ok tt, lock')
      → (r ≡ ok tt) × (execute_on conn lock s ≡ (ok tt, lock'))
  unfolding then_execute
  then_execute-ok (ok _) lock s h = (refl, h)
  then_execute-ok (err e) lock s h = cc

  row_of_project :
      (p : Project) (b : Bool)
      → p.trusted ≡ b
      → new_project_id p.id.as_str ≡ ok p.id
      → new p.id p.display_name p.canonical_root p.trusted ≡ ok p
      → project_of_row conn (
          text p.id.as_str
          ∷ text p.display_name
          ∷ text p.canonical_root
          ∷ integer (i64_of_bool b)
          ∷ [])
        ≡ ok p
  unfolding project_of_row text_at integer_at
  row_of_project p true t i n =
      rw i (ap (map_err _) (subst (λ b. new p.id p.display_name p.canonical_root b ≡ ok p) t n))
  row_of_project p false t i n =
      rw i (ap (map_err _) (subst (λ b. new p.id p.display_name p.canonical_root b ≡ ok p) t n))

  load_found :
      (lock : Mutex C) (id : String) (r : Row) (p : Project)
      → lock.poisoned ≡ false
      → conn.query lock.inner (select_project id) ≡ row r done
      → project_of_row conn r ≡ ok p
      → load_project conn lock id ≡ ok (some p)
  unfolding load_project next_parsed
  load_found lock id r p open_lock q e =
      rw (open_lock, load_project) (rw (q, load_project) (rw (e, next_parsed) refl))

  load_last_found :
      (lock : Mutex C) (id : String) (r : Result (Option Project) ApplicationError)
      → lock.poisoned ≡ false
      → conn.query lock.inner select_last_active ≡ row (text id ∷ []) done
      → load_project conn lock id ≡ r
      → load_last_active_project conn lock ≡ r
  unfolding load_last_active_project first_text text_at
  load_last_found lock id r open_lock q e =
      rw (open_lock, load_last_active_project) (rw (q, load_last_active_project) e)

  save_project-ok :
      (lock : Mutex C) (p : Project) {lock' : Mutex C}
      → save_project conn lock p ≡ (ok tt, lock')
      → (lock.poisoned ≡ false)
        × (then_execute conn
              (execute_on conn lock (
                upsert_project p.id.as_str p.display_name p.canonical_root (i64_of_bool p.trusted)))
              (upsert_last_active p.id.as_str)
            ≡ (ok tt, lock'))
  unfolding save_project
  save_project-ok lock p h = ground (arith, h)

  -- A valid project that was saved without an error is the one that is loaded as the last active
  -- project, and by its identifier, over a database that does what the SQL says.
  pub save_project-load_last_active_project :
      (lock : Mutex C) (p : Project) (lock' : Mutex C)
      → IsSql conn
      → new_project_id p.id.as_str ≡ ok p.id
      → new p.id p.display_name p.canonical_root p.trusted ≡ ok p
      → save_project conn lock p ≡ (ok tt, lock')
      → (load_last_active_project conn lock' ≡ ok (some p))
        × (load_project conn lock' p.id.as_str ≡ ok (some p))
  save_project-load_last_active_project lock p lock' sql i n saved =
      let written =
        upsert_project p.id.as_str p.display_name p.canonical_root (i64_of_bool p.trusted) in
      let first = execute_on conn lock written in
      let (e, steps) = save_project-ok lock p saved in
      let (done1, second) =
        then_execute-ok first.0 first.1 (upsert_last_active p.id.as_str) steps in
      let (ran1, kept1) = execute_on-ok lock written (ap (λ r. (r, first.1)) done1) in
      let (ran2, kept2) = execute_on-ok first.1 (upsert_last_active p.id.as_str) second in
      let open_lock = kept2 ∙ kept1 ∙ e in
      let loaded =
        load_found lock' p.id.as_str _ p open_lock
          (sql.project_kept first.1.inner p.id.as_str p.id.as_str ran2
            ∙ sql.project_written lock.inner p.id.as_str p.display_name p.canonical_root _ ran1)
          (row_of_project p p.trusted refl i n) in
      (
        load_last_found lock' p.id.as_str (ok (some p)) open_lock
            (sql.last_active_written first.1.inner p.id.as_str ran2) loaded,
        loaded,
      )

  record_idempotency-ok :
      (lock : Mutex C) (key payload_hash response_json : String) {lock' : Mutex C}
      → record_idempotency conn lock key payload_hash response_json ≡ (ok tt, lock')
      → (lock.poisoned ≡ false)
        × (execute_on conn lock (upsert_idempotency key payload_hash response_json)
            ≡ (ok tt, lock'))
  unfolding record_idempotency
  record_idempotency-ok lock key payload_hash response_json h = ground (arith, h)

  found_entry :
      (lock : Mutex C) (key response_json : String)
      → lock.poisoned ≡ false
      → conn.query lock.inner (select_idempotency key) ≡ row (text response_json ∷ []) done
      → find_idempotency conn lock key ≡ ok (some response_json)
  unfolding find_idempotency next_parsed text_at
  found_entry lock key response_json open_lock q =
      rw (open_lock, find_idempotency) (rw (q, find_idempotency) refl)

  -- An idempotency entry that was recorded without an error is found with its response.
  pub record_idempotency-find_idempotency :
      (lock : Mutex C) (key payload_hash response_json : String) (lock' : Mutex C)
      → IsSql conn
      → record_idempotency conn lock key payload_hash response_json ≡ (ok tt, lock')
      → find_idempotency conn lock' key ≡ ok (some response_json)
  record_idempotency-find_idempotency lock key payload_hash response_json lock' sql saved =
      let (e, done1) = record_idempotency-ok lock key payload_hash response_json saved in
      let (ran, kept) = execute_on-ok lock _ done1 in
      found_entry lock' key response_json (kept ∙ e)
        (sql.idempotency_written lock.inner key payload_hash response_json ran)
