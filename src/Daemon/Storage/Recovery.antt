-- ===== src/Daemon/Storage/Recovery.antt =====
-- A session that is started again over the storage of an earlier one.
use kesharon.Prelude.{◌≡◌, refl, ap, ◌∙◌, String, false, Option, some, Result, ok}
use kesharon.Application.Error.{ApplicationError}
use kesharon.Application.Recovery.{recover, active_task_of}
use kesharon.Domain.Project.{Project, new_project_id, new}
use kesharon.Domain.Task.Machine.{Task}
use kesharon.Daemon.Session.State.{Memory, Mutex, World, MutationFingerprint}
use kesharon.Daemon.Session.Reply.{snapshot_of}
use kesharon.Daemon.Session.Open.{settle, finish}
use kesharon.Daemon.Session.Open.Retry.{finish_lem, cleared}
use kesharon.Daemon.Session.Restore.{with_storage, recovered_start, world_of}
use kesharon.Daemon.Storage.Sql.{Connection, IsSql}
use kesharon.Daemon.Storage.Projects.{save_project, load_last_active_project}
use kesharon.Daemon.Storage.Tasks.{load_active_task}
use kesharon.Daemon.Storage.Records.{sqlite}
use kesharon.Daemon.Storage.RoundTrip.{save_project-load_last_active_project}

module _ {C : Type 0} (conn : Connection C) where
  pub started_again :
      (lock : Mutex (Mutex C)) (p : Project) (o : Option Task)
      → lock.poisoned ≡ false
      → load_last_active_project conn lock.inner ≡ ok (some p)
      → load_active_task conn lock.inner p.id.as_str ≡ ok o
      → with_storage (sqlite conn) (some lock) ≡ ok (world_of (some (snapshot_of p), o) (some lock))
  unfolding with_storage recovered_start recover active_task_of
  started_again lock p o e l a =
      rw (e, with_storage) (rw (l, with_storage) (rw (a, with_storage) refl))

  stored :
      (id : String) (m : Memory) (lock : Mutex (Mutex C)) (request_id : String) (p : Project)
      {inner : Mutex C}
      → lock.poisoned ≡ false
      → save_project conn lock.inner p ≡ (ok tt, inner)
      → (settle id (sqlite conn) m (some lock) request_id (ok p)).1
        ≡ some (record lock { inner = inner })
  unfolding settle
  stored id m lock request_id p e s =
      rw (e, settle)
        (ap
          (λ (r : Result (Unit {0}) ApplicationError × Mutex C).
            some (record { poisoned = false; inner = r.1 }))
          s)

  -- If an operation ends with a valid project that the storage takes, then a session that is started
  -- over what the storage holds afterwards has this project, and the active task that is loaded for it.
  pub finish-with_storage :
      (id : String) (w : World (Mutex C)) (lock : Mutex (Mutex C)) (request_id key : String)
      (fingerprint : MutationFingerprint) (p : Project) (inner : Mutex C) (o : Option Task)
      → IsSql conn
      → w.poisoned ≡ false
      → w.storage ≡ some lock
      → lock.poisoned ≡ false
      → new_project_id p.id.as_str ≡ ok p.id
      → new p.id p.display_name p.canonical_root p.trusted ≡ ok p
      → save_project conn lock.inner p ≡ (ok tt, inner)
      → load_active_task conn inner p.id.as_str ≡ ok o
      → let (response, w') = finish id (sqlite conn) w request_id key fingerprint (ok p) in
        with_storage (sqlite conn) w'.storage
        ≡ ok (world_of (some (snapshot_of p), o) (some (record lock { inner = inner })))
  finish-with_storage id w lock request_id key fingerprint p inner o sql open_lock at lock_free i n
        saved task =
      let w' = (finish id (sqlite conn) w request_id key fingerprint (ok p)).1 in
      let here : w'.storage ≡ some (record lock { inner = inner }) =
        ap (λ r. r.1.storage)
          (finish_lem id (sqlite conn) w request_id key fingerprint (ok p) open_lock)
        ∙ rw at (
            stored id (cleared id (sqlite conn) w request_id key fingerprint (ok p) open_lock) lock
              request_id p lock_free saved) in
      rw here (
        started_again (record lock { inner = inner }) p o lock_free
          (save_project-load_last_active_project conn lock.inner p inner sql i n saved).0 task)
