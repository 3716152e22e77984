-- ===== src/Daemon/Storage/Restart.antt =====
-- What is left of a task that was saved when it is loaded again.
use mathlib.Core.Path.{subst}
use kesharon.Prelude.{
  ℕ, ◌≤◌, ◌≡◌, refl, ◌∙◌, ◌==◌, ◌||◌, String, false, Option, none, some, arith, if◌then◌else◌,
  is_blank, str_eq, get_elem?, Result, ok, err, bind-ok,
}
use kesharon.Application.Error.{ApplicationError}
use kesharon.Domain.Budget.{ResourceBudget}
use kesharon.Domain.Budget
use kesharon.Domain.Task.State.{draft, ExecutionMode, plan, act, state_debug}
use kesharon.Domain.Task.Parts.{new_task_id}
use kesharon.Domain.Task.Machine.{Task, new, is_active, set_execution_mode}
use kesharon.Daemon.Session.State.{Mutex}
use kesharon.Daemon.Storage.Convert.{
  ℤ, pos, u16_max, i64_from_u64, i64_from_u64-ok, u64_from_i64, u16_from_i64,
}
use kesharon.Daemon.Storage.Sql.{
  Row, done, row, TaskRow, selected, optional, Connection, IsSql, upsert_task, select_task,
  execute_on, text_at, integer_at, optional_at,
}
use kesharon.Daemon.Storage.Projects.{i64_of_bool, next_parsed}
use kesharon.Daemon.Storage.Tasks.{
  mode_text, transpose, task_row, with_limits, into_resource_budget, project_for, write_task,
  save_task, parse_task_row, load_task,
}
use kesharon.Daemon.Storage.RoundTrip.{execute_on-ok}

-- The token limits of a budget: all three, none of them 0, or none at all.
abbrev pub AreLimits : Option ℕ → Option ℕ → Option ℕ → Type 0
AreLimits none none none = Unit
AreLimits (some p) (some c) (some cost) = (p == 0 || c == 0 || cost == 0) ≡ false
AreLimits _ _ _ = ⊥

-- What the constructors of the domain make sure of.
pub record IsSound (t : Task) : Type 0 where
  pub id : is_blank t.id.as_str ≡ false
  pub goal : is_blank t.goal ≡ false
  pub amounts :
      (t.budget.max_memory_bytes == 0
        || t.budget.max_disk_write_bytes == 0
        || t.budget.max_concurrent_tools == 0)
      ≡ false
  pub tools : t.budget.max_concurrent_tools ≤ u16_max
  pub limits :
      AreLimits t.budget.max_prompt_tokens t.budget.max_completion_tokens t.budget.max_cost_micros

abbrev to_column : Option ℕ → Option ℤ
to_column none = none
to_column (some n) = some (pos n)

transpose-ok : (o : Option ℕ) {i : Option ℤ} → transpose o ≡ ok i → i ≡ to_column o
unfolding transpose
transpose-ok none h = ground (arith, h)
transpose-ok (some n) h =
    let (a, first, last) = bind-ok (i64_from_u64 n) _ h in
    ground (arith, i64_from_u64-ok n first, last)

-- The row that a task is written as.
abbrev row_of : Task → String → TaskRow
row_of t project_id = record {
  id = t.id.as_str;
  project_id = project_id;
  goal = t.goal;
  state = state_debug t.state;
  execution_mode = mode_text t.execution_mode;
  max_memory_bytes = pos t.budget.max_memory_bytes;
  max_disk_write_bytes = pos t.budget.max_disk_write_bytes;
  max_concurrent_tools = pos t.budget.max_concurrent_tools;
  max_prompt_tokens = to_column t.budget.max_prompt_tokens;
  max_completion_tokens = to_column t.budget.max_completion_tokens;
  max_cost_micros = to_column t.budget.max_cost_micros;
  is_active = i64_of_bool (is_active t);
}

task_row-ok :
    (t : Task) (project_id : String) {r : TaskRow}
    → task_row t project_id ≡ ok r
    → r ≡ row_of t project_id
unfolding task_row
task_row-ok t project_id h =
    let (memory, m, h1) = bind-ok (i64_from_u64 t.budget.max_memory_bytes) _ h in
    let (disk, d, h2) = bind-ok (i64_from_u64 t.budget.max_disk_write_bytes) _ h1 in
    let (prompt, p, h3) = bind-ok (transpose t.budget.max_prompt_tokens) _ h2 in
    let (completion, c, h4) = bind-ok (transpose t.budget.max_completion_tokens) _ h3 in
    let (cost, k, h5) = bind-ok (transpose t.budget.max_cost_micros) _ h4 in
    cc (
      h5,
      (i64_from_u64-ok t.budget.max_memory_bytes m).0,
      (i64_from_u64-ok t.budget.max_disk_write_bytes d).0,
      transpose-ok t.budget.max_prompt_tokens p,
      transpose-ok t.budget.max_completion_tokens c,
      transpose-ok t.budget.max_cost_micros k,
    )

budget_read :
    (mem disk tools : ℕ) (p c cost : Option ℕ)
    → (mem == 0 || disk == 0 || tools == 0) ≡ false
    → tools ≤ u16_max
    → AreLimits p c cost
    → into_resource_budget (record {
      max_mem = pos mem;
      max_disk = pos disk;
      max_tools = pos tools;
      max_prompt = to_column p;
      max_completion = to_column c;
      max_cost = to_column cost;
    })
      ≡ ok (record {
        max_memory_bytes = mem;
        max_disk_write_bytes = disk;
        max_concurrent_tools = tools;
        max_prompt_tokens = p;
        max_completion_tokens = c;
        max_cost_micros = cost;
      })
unfolding into_resource_budget u64_from_i64 u16_from_i64 with_limits Budget.new
    Budget.with_token_limits
budget_read mem disk tools none none none a t l = ground arith
budget_read mem disk tools (some p) (some c) (some cost) a t l = ground arith
budget_read mem disk tools none none (some cost) a t l = absurd l
budget_read mem disk tools none (some c) cost a t l = absurd l
budget_read mem disk tools (some p) none cost a t l = absurd l
budget_read mem disk tools (some p) (some c) none a t l = absurd l

-- The task that comes back: its identifier, goal, budget and mode, in a new lifecycle.
abbrev pub restarted : Task → Task
restarted t = record t { state = draft; plan = none }

id_read : (t : Task) → is_blank t.id.as_str ≡ false → new_task_id t.id.as_str ≡ ok t.id
unfolding new_task_id
id_read t h = rw h refl

task_read :
    (t : Task)
    → is_blank t.goal ≡ false
    → new t.id t.goal t.budget ≡ ok (record t { state = draft; execution_mode = plan; plan = none })
unfolding new
task_read t h = rw h refl

mode_read : (m : ExecutionMode) → (if str_eq (mode_text m) "act" then act else plan) ≡ m
unfolding mode_text
mode_read plan = refl
mode_read act = refl

module _ {C : Type 0} (conn : Connection C) where
  column_read :
      (o : Option ℕ) (r : Row) (i : ℕ)
      → get_elem? r i ≡ some (optional (to_column o))
      → optional_at conn r i ≡ ok (to_column o)
  unfolding optional_at
  column_read none r i h = rw (h, optional_at) refl
  column_read (some n) r i h = rw (h, optional_at) refl

  row_read :
      (t : Task) (project_id : String)
      → IsSound t
      → parse_task_row conn (selected (row_of t project_id)) ≡ ok (restarted t)
  unfolding parse_task_row text_at integer_at set_execution_mode
  row_read t project_id s =
      let r = selected (row_of t project_id) in
      rw
        (
          column_read t.budget.max_prompt_tokens r 6 refl,
          column_read t.budget.max_completion_tokens r 7 refl,
          column_read t.budget.max_cost_micros r 8 refl,
          budget_read _ _ _ _ _ _ s.amounts s.tools s.limits,
          id_read t s.id,
          task_read t s.goal,
          mode_read t.execution_mode,
        )
        refl

  task_found :
      (lock : Mutex C) (id : String) (r : Row) (t : Task)
      → lock.poisoned ≡ false
      → conn.query lock.inner (select_task id) ≡ row r done
      → parse_task_row conn r ≡ ok t
      → load_task conn lock id ≡ ok (some t)
  unfolding load_task next_parsed
  task_found lock id r t open_lock q e =
      rw (open_lock, load_task) (rw (q, load_task) (rw (e, next_parsed) refl))

  write_task-ok :
      (lock : Mutex C) (r : Result TaskRow ApplicationError) {lock' : Mutex C}
      → write_task conn lock r ≡ (ok tt, lock')
      → (row' : TaskRow) × (r ≡ ok row')
        × (execute_on conn lock (upsert_task row') ≡ (ok tt, lock'))
  unfolding write_task
  write_task-ok lock (ok r) h = (r, refl, h)
  write_task-ok lock (err e) h = cc

  after_project :
      (lock : Mutex C) (t : Task) (o : Option String) {lock' : Mutex C}
      → project_for conn lock.inner t.id.as_str ≡ o
      → lock.poisoned ≡ false
      → save_task conn lock t ≡ (ok tt, lock')
      → (project_id : String) × (write_task conn lock (task_row t project_id) ≡ (ok tt, lock'))
  unfolding save_task
  after_project lock t none p e h = absurd (ground (arith, p, e, h))
  after_project lock t (some project_id) p e h = (project_id, ground (arith, p, e, h))

  save_task-ok :
      (lock : Mutex C) (t : Task) {lock' : Mutex C}
      → save_task conn lock t ≡ (ok tt, lock')
      → (lock.poisoned ≡ false)
  unfolding save_task
  save_task-ok lock t h = ground (arith, h)

  -- A sound task that was saved without an error is loaded with its identifier, goal, budget and
  -- execution mode, but as a draft without a plan, whatever its state and plan were.
  pub save_task-load_task :
      (lock : Mutex C) (t : Task) (lock' : Mutex C)
      → IsSql conn
      → IsSound t
      → save_task conn lock t ≡ (ok tt, lock')
      → load_task conn lock' t.id.as_str ≡ ok (some (record t { state = draft; plan = none }))
  save_task-load_task lock t lock' sql sound saved =
      let e = save_task-ok lock t saved in
      let (project_id, written) =
        after_project lock t (project_for conn lock.inner t.id.as_str) refl e saved in
      let (r, made, executed) = write_task-ok lock (task_row t project_id) written in
      let columns = task_row-ok t project_id made in
      let (ran, kept) = execute_on-ok conn lock (upsert_task r) executed in
      task_found lock' t.id.as_str (selected (row_of t project_id)) (restarted t) (kept ∙ e)
        (subst (λ (x : TaskRow). conn.query lock'.inner (select_task x.id) ≡ row (selected x) done)
          columns (sql.task_written lock.inner r ran))
        (row_read t project_id sound)
