-- ===== src/Daemon/Storage/Sql.antt =====
-- The database as the storage uses it: `rusqlite` is not under the source, so a connection is a
-- parameter. Each SQL text of crates/kesharon-daemon/src/storage.rs is a constructor with its
-- parameters.
use kesharon.Prelude.{
  ℕ, ◌≡◌, String, Option, none, some, List, [], ◌∷◌, get_elem?, Result, ok, err, map_err,
}
use kesharon.Application.Error.{ApplicationError, storage}
use kesharon.Daemon.Session.State.{Mutex}
use kesharon.Daemon.Storage.Convert.{ℤ}

pub data Value : Type 0 where
  text : String → Value
  integer : ℤ → Value
  null : Value

abbrev pub Row : Type 0
Row = List Value

-- What a query yields: the rows up to the end, or up to a failure with its text.
pub data Rows : Type 0 where
  done : Rows
  failed : String → Rows
  row : Row → Rows → Rows

-- The columns of a task.
pub record TaskRow : Type 0 where
  pub id : String
  pub project_id : String
  pub goal : String
  pub state : String
  pub execution_mode : String
  pub max_memory_bytes : ℤ
  pub max_disk_write_bytes : ℤ
  pub max_concurrent_tools : ℤ
  pub max_prompt_tokens : Option ℤ
  pub max_completion_tokens : Option ℤ
  pub max_cost_micros : Option ℤ
  pub is_active : ℤ

pub data Statement : Type 0 where
  upsert_project : (id display_name canonical_root : String) (trusted : ℤ) → Statement
  upsert_last_active : (id : String) → Statement
  upsert_task : TaskRow → Statement
  upsert_checkpoint : (id task_id description git_ref : String) (timestamp_millis : ℤ) → Statement
  upsert_idempotency : (key payload_hash response_json : String) → Statement

pub data Query : Type 0 where
  select_project select_task_project select_task select_active_task : String → Query
  select_checkpoints select_idempotency : String → Query
  select_last_active select_latest_project : Query

pub record Connection (C : Type 0) : Type 0 where
  pub run : C → Statement → Result (Unit {0}) String × C
  pub query : C → Query → Rows
  -- the text of the error when a column has another type
  pub column_error : Row → ℕ → String

abbrev pub optional : Option ℤ → Value
optional none = null
optional (some i) = integer i

-- The nine columns that `load_task` selects.
abbrev pub selected : TaskRow → Row
selected t =
    text t.id
    ∷ text t.goal
    ∷ text t.execution_mode
    ∷ integer t.max_memory_bytes
    ∷ integer t.max_disk_write_bytes
    ∷ integer t.max_concurrent_tools
    ∷ optional t.max_prompt_tokens
    ∷ optional t.max_completion_tokens
    ∷ optional t.max_cost_micros
    ∷ []

-- What the SQL texts mean where their statement succeeded: `INSERT … ON CONFLICT DO UPDATE` leaves one
-- row under its key, and no statement touches another table.
pub record IsSql {C : Type 0} (conn : Connection C) : Type 0 where
  pub project_written :
      (c : C) (id display_name canonical_root : String) (trusted : ℤ) {c' : C}
      → conn.run c (upsert_project id display_name canonical_root trusted) ≡ (ok tt, c')
      → conn.query c' (select_project id)
        ≡ row (text id ∷ text display_name ∷ text canonical_root ∷ integer trusted ∷ []) done
  pub project_kept :
      (c : C) (active id : String) {c' : C}
      → conn.run c (upsert_last_active active) ≡ (ok tt, c')
      → conn.query c' (select_project id) ≡ conn.query c (select_project id)
  pub last_active_written :
      (c : C) (id : String) {c' : C}
      → conn.run c (upsert_last_active id) ≡ (ok tt, c')
      → conn.query c' select_last_active ≡ row (text id ∷ []) done
  pub task_written :
      (c : C) (t : TaskRow) {c' : C}
      → conn.run c (upsert_task t) ≡ (ok tt, c')
      → conn.query c' (select_task t.id) ≡ row (selected t) done
  pub idempotency_written :
      (c : C) (key payload_hash response_json : String) {c' : C}
      → conn.run c (upsert_idempotency key payload_hash response_json) ≡ (ok tt, c')
      → conn.query c' (select_idempotency key) ≡ row (text response_json ∷ []) done

abbrev pub poisoned_error : ApplicationError
poisoned_error = storage "mutex poisoned"

module _ {C : Type 0} (conn : Connection C) where
  -- `conn.execute(…).map_err(…)?` on the locked connection.
  unfoldable pub execute_on : Mutex C → Statement → Result (Unit {0}) ApplicationError × Mutex C
  execute_on lock s =
      let (r, c) = conn.run lock.inner s in (map_err storage r, record lock { inner = c })

  -- `row.get(i)` at the types that the program reads.
  unfoldable pub text_at : Row → ℕ → Result String ApplicationError
  text_at r i = elim (get_elem? r i) [
    | some (text s) ↦ ok s
    | _ ↦ err (storage (conn.column_error r i))
  ]

  unfoldable pub integer_at : Row → ℕ → Result ℤ ApplicationError
  integer_at r i = elim (get_elem? r i) [
    | some (integer n) ↦ ok n
    | _ ↦ err (storage (conn.column_error r i))
  ]

  unfoldable pub optional_at : Row → ℕ → Result (Option ℤ) ApplicationError
  optional_at r i = elim (get_elem? r i) [
    | some (integer n) ↦ ok (some n)
    | some null ↦ ok none
    | _ ↦ err (storage (conn.column_error r i))
  ]

  -- `query_row(…, |row| row.get(0)).ok()`
  unfoldable pub first_text : Rows → Option String
  unfolding text_at
  first_text (row r rest) = elim (text_at r 0) [ ok s ↦ some s | err e ↦ none ]
  first_text _ = none
