-- ===== src/Daemon/Storage/Projects.antt =====
-- `save_project`, `load_project` and `load_last_active_project` of
-- crates/kesharon-daemon/src/storage.rs.
use kesharon.Prelude.{
  ◌==◌, String, Bool, true, not, Option, none, some, if◌then◌else◌, Result, ok, err, ◌>>=◌, map_err,
}
use kesharon.Application.Error.{ApplicationError, invalid_project, storage}
use kesharon.Domain.Project.{Project, new_project_id, new, to_string}
use kesharon.Daemon.Session.State.{Mutex}
use kesharon.Daemon.Storage.Convert.{ℤ, pos, negsuc}
use kesharon.Daemon.Storage.Sql.{
  Row, Rows, done, failed, row, Statement, upsert_project, upsert_last_active, select_project,
  select_last_active, Connection, execute_on, text_at, integer_at, first_text, poisoned_error,
}

-- `i64::from(bool)`, and the test `trusted != 0`.
abbrev pub i64_of_bool : Bool → ℤ
i64_of_bool b = if b then pos 1 else pos 0

abbrev pub is_nonzero : ℤ → Bool
is_nonzero (pos n) = not (n == 0)
is_nonzero (negsuc n) = true

module _ {C : Type 0} (conn : Connection C) where
  -- A statement that runs only if the one before it succeeded.
  unfoldable pub then_execute :
      Result (Unit {0}) ApplicationError × Mutex C
      → Statement
      → Result (Unit {0}) ApplicationError × Mutex C
  unfolding execute_on
  then_execute (ok _, lock) s = execute_on conn lock s
  then_execute (err e, lock) s = (err e, lock)

  unfoldable pub save_project : Mutex C → Project → Result (Unit {0}) ApplicationError × Mutex C
  unfolding execute_on then_execute
  save_project lock project =
      if lock.poisoned
      then (err poisoned_error, lock)
      else then_execute
          (execute_on conn lock (
            upsert_project project.id.as_str project.display_name project.canonical_root
              (i64_of_bool project.trusted)))
          (upsert_last_active project.id.as_str)

  unfoldable pub project_of_row : Row → Result Project ApplicationError
  unfolding text_at integer_at
  project_of_row r = do
    id_str ← text_at conn r 0
    display_name ← text_at conn r 1
    canonical_root ← text_at conn r 2
    trusted ← integer_at conn r 3
    project_id ← map_err (λ e. invalid_project (to_string e)) (new_project_id id_str)
    map_err (λ e. invalid_project (to_string e))
        (new project_id display_name canonical_root (is_nonzero trusted))

  -- `rows.next()?`, and the row parsed if there is one.
  unfoldable pub next_parsed {ℓ} :
      {A : Type ℓ} → (Row → Result A ApplicationError) → Rows → Result (Option A) ApplicationError
  next_parsed parse done = ok none
  next_parsed parse (failed message) = err (storage message)
  next_parsed parse (row r rest) = parse r >>= λ a. ok (some a)

  unfoldable pub load_project : Mutex C → String → Result (Option Project) ApplicationError
  unfolding project_of_row next_parsed
  load_project lock id =
      if lock.poisoned
      then err poisoned_error
      else next_parsed project_of_row (conn.query lock.inner (select_project id))

  unfoldable pub load_last_active_project : Mutex C → Result (Option Project) ApplicationError
  unfolding load_project first_text
  load_last_active_project lock =
      if lock.poisoned
      then err poisoned_error
      else elim (first_text conn (conn.query lock.inner select_last_active)) [
        | none ↦ ok none
        | some project_id ↦ load_project lock project_id
      ]
