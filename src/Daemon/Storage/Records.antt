-- ===== src/Daemon/Storage/Records.antt =====
-- Checkpoints and idempotency entries of crates/kesharon-daemon/src/storage.rs.
use kesharon.Prelude.{String, Option, List, [], ◌∷◌, if◌then◌else◌, Result, ok, err, ◌>>=◌, map_err}
use kesharon.Application.Error.{ApplicationError, storage}
use kesharon.Application.Ports.{StateRepository}
use kesharon.Domain.Task.Error.{to_string}
use kesharon.Domain.Task.Parts.{TaskCheckpoint, new_checkpoint}
use kesharon.Daemon.Session.State.{Mutex}
use kesharon.Daemon.Storage.Convert.{ℤ, i64_from_u64, u64_from_i64}
use kesharon.Daemon.Storage.Sql.{
  Row, Rows, done, failed, row, upsert_checkpoint, upsert_idempotency, select_checkpoints,
  select_idempotency, Connection, execute_on, text_at, integer_at, poisoned_error,
}
use kesharon.Daemon.Storage.Projects.{
  save_project, load_project, load_last_active_project, next_parsed,
}
use kesharon.Daemon.Storage.Tasks.{save_task, load_task, load_active_task}

module _ {C : Type 0} (conn : Connection C) where
  unfoldable pub write_checkpoint :
      Mutex C
      → String
      → TaskCheckpoint
      → Result ℤ ApplicationError
      → Result (Unit {0}) ApplicationError × Mutex C
  unfolding execute_on
  write_checkpoint lock task_id c (ok timestamp) =
      execute_on conn lock (upsert_checkpoint c.id task_id c.description c.git_ref timestamp)
  write_checkpoint lock task_id c (err e) = (err e, lock)

  unfoldable pub save_checkpoint :
      Mutex C → String → TaskCheckpoint → Result (Unit {0}) ApplicationError × Mutex C
  unfolding write_checkpoint i64_from_u64
  save_checkpoint lock task_id checkpoint =
      if lock.poisoned
      then (err poisoned_error, lock)
      else write_checkpoint lock task_id checkpoint (i64_from_u64 checkpoint.timestamp_millis)

  unfoldable pub checkpoint_of_row : Row → Result TaskCheckpoint ApplicationError
  unfolding text_at integer_at u64_from_i64
  checkpoint_of_row r = do
    id ← text_at conn r 0
    description ← text_at conn r 1
    git_ref ← text_at conn r 2
    ts ← integer_at conn r 3
    ts_u64 ← u64_from_i64 ts
    map_err (λ e. storage (to_string e)) (new_checkpoint id description git_ref ts_u64)

  unfoldable pub collect : Rows → Result (List TaskCheckpoint) ApplicationError
  unfolding checkpoint_of_row
  collect done = ok []
  collect (failed message) = err (storage message)
  collect (row r rest) = do
    checkpoint ← checkpoint_of_row r
    checkpoints ← collect rest
    ok (checkpoint ∷ checkpoints)

  unfoldable pub list_checkpoints : Mutex C → String → Result (List TaskCheckpoint) ApplicationError
  unfolding collect
  list_checkpoints lock task_id =
      if lock.poisoned
      then err poisoned_error
      else collect (conn.query lock.inner (select_checkpoints task_id))

  unfoldable pub record_idempotency :
      Mutex C
      → (key payload_hash response_json : String) → Result (Unit {0}) ApplicationError × Mutex C
  unfolding execute_on
  record_idempotency lock key payload_hash response_json =
      if lock.poisoned
      then (err poisoned_error, lock)
      else execute_on conn lock (upsert_idempotency key payload_hash response_json)

  unfoldable pub find_idempotency : Mutex C → String → Result (Option String) ApplicationError
  unfolding next_parsed text_at
  find_idempotency lock key =
      if lock.poisoned
      then err poisoned_error
      else next_parsed conn (λ r. text_at conn r 0) (conn.query lock.inner (select_idempotency key))

  -- `impl StateRepository for SqliteStateRepository`
  abbrev pub sqlite : StateRepository (Mutex C)
  sqlite = record {
    save_project = save_project conn;
    load_project = load_project conn;
    load_last_active_project = load_last_active_project conn;
    save_task = save_task conn;
    load_task = load_task conn;
    load_active_task = load_active_task conn;
    save_checkpoint = save_checkpoint;
    list_checkpoints = list_checkpoints;
    record_idempotency = record_idempotency;
    find_idempotency = find_idempotency;
  }
