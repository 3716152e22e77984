-- ===== src/Daemon/Storage/Open.antt =====
-- The constructors of `SqliteStateRepository`, crates/kesharon-daemon/src/storage.rs, and
-- `DaemonSession::try_production` of crates/kesharon-daemon/src/session.rs over them. What `rusqlite`
-- answers to the opening of a database is a parameter.
use kesharon.Prelude.{String, false, Option, none, some, Result, ok, err, ◌>>=◌, map_err}
use kesharon.Application.Error.{ApplicationError, storage}
use kesharon.Daemon.Session.State.{Mutex, World}
use kesharon.Daemon.Session.Restore.{with_storage}
use kesharon.Daemon.Storage.Sql.{Connection}
use kesharon.Daemon.Storage.Records.{sqlite}

-- `Connection::open`, `Connection::open_in_memory` and `execute_batch` with the batch of `initialize`,
-- over the paths `P`.
pub record Opening (P C : Type 0) : Type 0 where
  pub open_path : P → Result C String
  pub open_in_memory : Result C String
  pub create_tables : C → Result (Unit {0}) String × C

abbrev pub free : {A : Type 0} → A → Mutex A
free inner = record { inner = inner; poisoned = false }

-- `expect`; `none` is its panic.
abbrev pub expected : {A : Type 0} → Result A ApplicationError → Option A
expected (ok a) = some a
expected (err e) = none

module _ {P C : Type 0} (opening : Opening P C) where
  abbrev pub initialized : Result (Unit {0}) String × C → Result (Mutex C) ApplicationError
  initialized (ok _, conn) = ok (free conn)
  initialized (err e, conn) = err (storage e)

  unfoldable pub initialize : C → Result (Mutex C) ApplicationError
  initialize conn = initialized (opening.create_tables conn)

  unfoldable pub open_database : P → Result (Mutex C) ApplicationError
  unfolding initialize
  open_database path = map_err storage (opening.open_path path) >>= initialize

  unfoldable pub in_memory_database : Result (Mutex C) ApplicationError
  unfolding initialize
  in_memory_database = map_err storage opening.open_in_memory >>= initialize

  -- The database that the variable `KESHARON_STATE_DB` names, or one in memory.
  abbrev pub state_database : (state_db : Option P) → Result (Mutex C) ApplicationError
  state_database none = in_memory_database
  state_database (some path) = open_database path

  module _ (conn : Connection C) where
    unfoldable pub try_production :
        (state_db : Option P) → Result (World (Mutex C)) ApplicationError
    unfolding open_database in_memory_database with_storage
    try_production state_db =
        state_database state_db >>= λ repo. with_storage (sqlite conn) (some (free repo))

    -- `DaemonSession::production`
    unfoldable pub production : (state_db : Option P) → Option (World (Mutex C))
    unfolding try_production
    production state_db = expected (try_production state_db)
