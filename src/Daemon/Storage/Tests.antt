-- ===== src/Daemon/Storage/Tests.antt =====
-- The theorems on the storage over a database of three maps in memory.
use kesharon.Prelude.{
  ◌≡◌, refl, sym, ap, ◌∙◌, is_blank, String, true, false, Option, none, some, [], ◌∷◌, arith,
  eq_refl, Result, ok, err,
}
use kesharon.HashMap.{HashMap, empty, get, insert, get-insert}
use kesharon.Domain.Project.{Project, new_project_id, new}
use kesharon.Domain.Task.State.{draft, executing, act}
use kesharon.Domain.Task.Machine.{Task}
use kesharon.Daemon.Session.State.{Mutex, World, new_state, open_project as fp_open}
use kesharon.Daemon.Session.Reply.{snapshot_of}
use kesharon.Daemon.Session.Open.{finish}
use kesharon.Daemon.Session.Restore.{with_storage, world_of}
use kesharon.Daemon.Storage.Convert.{i64_from_u64}
use kesharon.Daemon.Storage.Sql.{
  Row, Rows, done, row, selected, Statement, upsert_project, upsert_last_active, upsert_task,
  upsert_checkpoint, upsert_idempotency, Query, select_project, select_task, select_idempotency,
  select_last_active, text, integer, Connection, IsSql, execute_on, first_text, text_at,
}
use kesharon.Daemon.Storage.Projects.{
  then_execute, save_project, load_project, load_last_active_project,
}
use kesharon.Daemon.Storage.Tasks.{
  transpose, task_row, write_task, project_for, save_task, load_task, load_active_task,
}
use kesharon.Daemon.Storage.Records.{sqlite, record_idempotency}
use kesharon.Daemon.Storage.RoundTrip.{save_project-load_last_active_project}
use kesharon.Daemon.Storage.Restart.{IsSound, save_task-load_task}
use kesharon.Daemon.Storage.Open.{Opening}
use kesharon.Daemon.Storage.Recovery.{finish-with_storage}

record Tables : Type 0 where
  projects : HashMap Row
  tasks : HashMap Row
  entries : HashMap Row
  last_active : Rows

abbrev found : Option Row → Rows
found none = done
found (some r) = row r done

unfoldable run_on_tables : Tables → Statement → Result (Unit {0}) String × Tables
run_on_tables c (upsert_project id display_name canonical_root trusted) = (
  ok tt,
  record c {
    projects =
        insert c.projects id
          (text id ∷ text display_name ∷ text canonical_root ∷ integer trusted ∷ []);
  },
)
run_on_tables c (upsert_last_active id) =
    (ok tt, record c { last_active = row (text id ∷ []) done })
run_on_tables c (upsert_task t) = (ok tt, record c { tasks = insert c.tasks t.id (selected t) })
run_on_tables c (upsert_checkpoint id task_id description git_ref timestamp_millis) =
    (err "no such table", c)
run_on_tables c (upsert_idempotency key payload_hash response_json) =
    (ok tt, record c { entries = insert c.entries key (text response_json ∷ []) })

unfoldable query_tables : Tables → Query → Rows
query_tables c (select_project id) = found (get c.projects id)
query_tables c (select_task id) = found (get c.tasks id)
query_tables c (select_idempotency key) = found (get c.entries key)
query_tables c select_last_active = c.last_active
query_tables c _ = done

abbrev conn : Connection Tables
conn = record { run = run_on_tables; query = query_tables; column_error = λ r i. "wrong type" }

-- A map that was written answers with what was written.
found-insert : (m : HashMap Row) (k : String) (r : Row) → found (get (insert m k r) k) ≡ row r done
found-insert m k r =
    let written : get (insert m k r) k ≡ some r = get-insert m k r k ∙ simp eq_refl in
    ap found written

abbrev tables_of : Result (Unit {0}) String × Tables → Tables
tables_of r = r.1

conn-IsSql : IsSql conn
unfolding run_on_tables query_tables
conn-IsSql = record {
  project_written = λ c id d r t h.
      sym (ap (λ x. found (get (tables_of x).projects id)) h) ∙ found-insert c.projects id _;
  project_kept = λ c active id h. sym (ap (λ x. found (get (tables_of x).projects id)) h);
  last_active_written = λ c id h. sym (ap (λ x. (tables_of x).last_active) h);
  task_written =
      λ c t h. sym (ap (λ x. found (get (tables_of x).tasks t.id)) h) ∙ found-insert c.tasks t.id _;
  idempotency_written = λ c k p r h.
      sym (ap (λ x. found (get (tables_of x).entries k)) h) ∙ found-insert c.entries k _;
}

abbrev nothing : Mutex Tables
nothing = record {
  poisoned = false;
  inner = record { projects = empty; tasks = empty; entries = empty; last_active = done };
}

abbrev project : Project
project = record {
  id = record { as_str = "p1" };
  display_name = "work";
  canonical_root = "/work";
  trusted = true;
}

abbrev with_project : Mutex Tables
with_project = (save_project conn nothing project).1

project_saved : save_project conn nothing project ≡ (ok tt, with_project)
unfolding save_project then_execute execute_on run_on_tables
project_saved = refl

id_valid : new_project_id "p1" ≡ ok project.id
unfolding new_project_id is_blank
id_valid = refl

project_valid : new project.id "work" "/work" true ≡ ok project
unfolding new is_blank
project_valid = refl

save_project-load_last_active_project_example :
    (load_last_active_project conn with_project ≡ ok (some project))
    × (load_project conn with_project "p1" ≡ ok (some project))
save_project-load_last_active_project_example =
    save_project-load_last_active_project conn nothing project with_project conn-IsSql id_valid
      project_valid project_saved

abbrev with_entry : Mutex Tables
with_entry = (record_idempotency conn nothing "k1" "h" "{}").1

entry_saved : record_idempotency conn nothing "k1" "h" "{}" ≡ (ok tt, with_entry)
unfolding record_idempotency execute_on run_on_tables
entry_saved = refl

abbrev task : Task
task = record {
  id = record { as_str = "t1" };
  goal = "tidy";
  budget = record {
    max_memory_bytes = 1;
    max_disk_write_bytes = 2;
    max_concurrent_tools = 3;
    max_prompt_tokens = some 4;
    max_completion_tokens = some 5;
    max_cost_micros = some 6;
  };
  state = executing;
  execution_mode = act;
  plan = none;
}

abbrev with_task : Mutex Tables
with_task = (save_task conn with_project task).1

task_saved : save_task conn with_project task ≡ (ok tt, with_task)
unfolding save_task save_project then_execute execute_on run_on_tables query_tables write_task
    task_row project_for first_text transpose i64_from_u64 text_at get insert
task_saved = refl

task-IsSound : IsSound task
unfolding is_blank
task-IsSound = record { id = refl; goal = refl; amounts = refl; tools = omega arith; limits = refl }

save_task-load_task_example :
    load_task conn with_task "t1" ≡ ok (some (record task { state = draft; plan = none }))
save_task-load_task_example =
    save_task-load_task conn with_project task with_task conn-IsSql task-IsSound task_saved

abbrev outer : Mutex (Mutex Tables)
outer = record { poisoned = false; inner = nothing }

abbrev world : World (Mutex Tables)
world = record {
  memory = record { state = new_state; flags = []; channels = [] };
  poisoned = false;
  storage = some outer;
}

no_task : load_active_task conn with_project "p1" ≡ ok none
unfolding load_active_task save_project then_execute execute_on run_on_tables query_tables
    first_text
no_task = refl

finish-with_storage_example :
    let (response, w') = finish "s" (sqlite conn) world "r1" "k1" (fp_open "/work") (ok project) in
    with_storage (sqlite conn) w'.storage
    ≡ ok
        (world_of (some (snapshot_of project), none) (some (record outer { inner = with_project })))
finish-with_storage_example =
    finish-with_storage conn "s" world outer "r1" "k1" (fp_open "/work") project with_project none
      conn-IsSql refl refl refl id_valid project_valid project_saved no_task

-- A file that holds the tables with the project.
abbrev opening : Opening String Tables
opening = record {
  open_path = λ path. ok with_project.inner;
  open_in_memory = ok nothing.inner;
  create_tables = λ tables. (ok tt, tables);
}
