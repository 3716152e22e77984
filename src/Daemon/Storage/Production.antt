-- ===== src/Daemon/Storage/Production.antt =====
-- The session that the daemon's process starts with, over the database of an earlier process.
use kesharon.Prelude.{◌≡◌, false, Option, some, []}
use kesharon.Domain.Project.{Project}
use kesharon.Domain.Task.Machine.{Task}
use kesharon.Daemon.Session.State.{Mutex, World}
use kesharon.Daemon.Session.Threads.Coherent.{IsCoherent}
use kesharon.Daemon.Storage.Sql.{Connection}
use kesharon.Daemon.Storage.Open.{Opening}

module _ {P C : Type 0} (opening : Opening P C) (conn : Connection C) where
  -- A session of the process with a project and a task, over a database.
  pub record IsRecovered (w : World (Mutex C)) (p : Project) (o : Option Task) (repo : Mutex C)
      : Type 0 where
    pub project :
        w.memory.project
        ≡ some (record {
          id = p.id.as_str;
          display_name = p.display_name;
          canonical_root = p.canonical_root;
          trusted = p.trusted;
        })
    pub active_task : w.memory.active_task ≡ o
    pub unlocked : w.poisoned ≡ false
    pub storage : w.storage ≡ some (record { inner = repo; poisoned = false })
    pub coherent : IsCoherent w.memory []
