-- ===== src/Daemon/Storage/Tasks.antt =====
-- `save_task`, `load_task`, `load_active_task` and what they use of
-- crates/kesharon-daemon/src/storage.rs.
use kesharon.Prelude.{
  ℕ, String, Option, none, some, if◌then◌else◌, str_eq, Result, ok, err, ◌>>=◌, map_err,
}
use kesharon.Application.Error.{ApplicationError, storage}
use kesharon.Domain.Budget.{ResourceBudget, with_token_limits}
use kesharon.Domain.Budget
use kesharon.Domain.Task.Error.{TaskError, to_string}
use kesharon.Domain.Task.State.{ExecutionMode, plan, act, state_debug}
use kesharon.Domain.Task.Parts.{new_task_id}
use kesharon.Domain.Task.Machine.{Task, new, set_execution_mode, is_active}
use kesharon.Daemon.Session.State.{Mutex}
use kesharon.Daemon.Storage.Convert.{ℤ, pos, i64_from_u64, u64_from_i64, u16_from_i64}
use kesharon.Daemon.Storage.Sql.{
  Row, TaskRow, upsert_task, select_task_project, select_task, select_active_task,
  select_last_active, select_latest_project, Connection, execute_on, text_at, integer_at,
  optional_at, first_text, poisoned_error,
}
use kesharon.Daemon.Storage.Projects.{i64_of_bool, next_parsed}

unfoldable pub mode_text : ExecutionMode → String
mode_text plan = "plan"
mode_text act = "act"

-- `.map(i64_from_u64).transpose()`
unfoldable pub transpose : Option ℕ → Result (Option ℤ) ApplicationError
unfolding i64_from_u64
transpose none = ok none
transpose (some n) = i64_from_u64 n >>= λ i. ok (some i)

abbrev to_storage_err : TaskError → ApplicationError
to_storage_err e = storage (to_string e)

unfoldable pub task_row : Task → String → Result TaskRow ApplicationError
unfolding mode_text transpose i64_from_u64
task_row t project_id = do
  memory ← i64_from_u64 t.budget.max_memory_bytes
  disk ← i64_from_u64 t.budget.max_disk_write_bytes
  prompt ← transpose t.budget.max_prompt_tokens
  completion ← transpose t.budget.max_completion_tokens
  cost ← transpose t.budget.max_cost_micros
  ok (record {
    id = t.id.as_str;
    project_id = project_id;
    goal = t.goal;
    state = state_debug t.state;
    execution_mode = mode_text t.execution_mode;
    max_memory_bytes = memory;
    max_disk_write_bytes = disk;
    max_concurrent_tools = pos t.budget.max_concurrent_tools;
    max_prompt_tokens = prompt;
    max_completion_tokens = completion;
    max_cost_micros = cost;
    is_active = i64_of_bool (is_active t);
  })

pub record RawTaskBudget : Type 0 where
  pub max_mem : ℤ
  pub max_disk : ℤ
  pub max_tools : ℤ
  pub max_prompt : Option ℤ
  pub max_completion : Option ℤ
  pub max_cost : Option ℤ

-- The limits are set only if all three columns are there.
unfoldable pub with_limits :
    ResourceBudget → Option ℤ → Option ℤ → Option ℤ → Result ResourceBudget ApplicationError
unfolding u64_from_i64
with_limits budget (some p) (some c) (some cost) = do
  p_u64 ← u64_from_i64 p
  c_u64 ← u64_from_i64 c
  cost_u64 ← u64_from_i64 cost
  map_err to_storage_err (with_token_limits budget p_u64 c_u64 cost_u64)
with_limits budget _ _ _ = ok budget

unfoldable pub into_resource_budget : RawTaskBudget → Result ResourceBudget ApplicationError
unfolding u64_from_i64 u16_from_i64 with_limits
into_resource_budget raw = do
  mem ← u64_from_i64 raw.max_mem
  disk ← u64_from_i64 raw.max_disk
  tools ← u16_from_i64 raw.max_tools
  budget ← map_err to_storage_err (Budget.new mem disk tools)
  with_limits budget raw.max_prompt raw.max_completion raw.max_cost

module _ {C : Type 0} (conn : Connection C) where
  -- The task's own project if it was saved before, else the last active one, else the newest.
  unfoldable pub project_for : C → String → Option String
  unfolding first_text
  project_for c task_id = elim (first_text conn (conn.query c (select_task_project task_id))) [
    | some pid ↦ some pid
    | none ↦ elim (first_text conn (conn.query c select_last_active)) [
      | some pid ↦ some pid
      | none ↦ first_text conn (conn.query c select_latest_project)
    ]
  ]

  unfoldable pub write_task :
      Mutex C → Result TaskRow ApplicationError → Result (Unit {0}) ApplicationError × Mutex C
  unfolding execute_on
  write_task lock (ok t) = execute_on conn lock (upsert_task t)
  write_task lock (err e) = (err e, lock)

  unfoldable pub save_task : Mutex C → Task → Result (Unit {0}) ApplicationError × Mutex C
  unfolding project_for task_row write_task
  save_task lock t =
      if lock.poisoned
      then (err poisoned_error, lock)
      else elim (project_for lock.inner t.id.as_str) [
        | none ↦ (err (storage "Cannot save task without an associated project"), lock)
        | some project_id ↦ write_task lock (task_row t project_id)
      ]

  unfoldable pub parse_task_row : Row → Result Task ApplicationError
  unfolding text_at integer_at optional_at into_resource_budget
  parse_task_row r = do
    id_str ← text_at conn r 0
    goal ← text_at conn r 1
    mode_str ← text_at conn r 2
    max_mem ← integer_at conn r 3
    max_disk ← integer_at conn r 4
    max_tools ← integer_at conn r 5
    max_prompt ← optional_at conn r 6
    max_completion ← optional_at conn r 7
    max_cost ← optional_at conn r 8
    budget ← into_resource_budget (record {
      max_mem = max_mem;
      max_disk = max_disk;
      max_tools = max_tools;
      max_prompt = max_prompt;
      max_completion = max_completion;
      max_cost = max_cost;
    })
    task_id ← map_err to_storage_err (new_task_id id_str)
    task ← map_err to_storage_err (new task_id goal budget)
    ok (set_execution_mode task (if str_eq mode_str "act" then act else plan))

  unfoldable pub load_task : Mutex C → String → Result (Option Task) ApplicationError
  unfolding parse_task_row next_parsed
  load_task lock id =
      if lock.poisoned
      then err poisoned_error
      else next_parsed conn parse_task_row (conn.query lock.inner (select_task id))

  unfoldable pub load_active_task : Mutex C → String → Result (Option Task) ApplicationError
  unfolding load_task first_text
  load_active_task lock project_id =
      if lock.poisoned
      then err poisoned_error
      else elim (first_text conn (conn.query lock.inner (select_active_task project_id))) [
        | none ↦ ok none
        | some id ↦ load_task lock id
      ]
