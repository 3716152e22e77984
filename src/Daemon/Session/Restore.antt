-- ===== src/Daemon/Session/Restore.antt =====
-- The constructors of the session, and `active_task`, of crates/kesharon-daemon/src/session.rs.
use kesharon.Prelude.{Option, false, none, some, [], if◌then◌else◌, Result, ok, err, ◌>>=◌}
use kesharon.Application.Error.{ApplicationError, storage}
use kesharon.Application.Ports.{StateRepository}
use kesharon.Application.Recovery.{recover}
use kesharon.Domain.Project.{Project}
use kesharon.Domain.Task.Machine.{Task}
use kesharon.Protocol.Response.{ProjectSnapshot}
use kesharon.Daemon.Session.State.{SessionError, state_unavailable, Mutex, World, new_state}
use kesharon.Daemon.Session.Reply.{snapshot_of}

-- What a session starts with: no flags and no channels, and its lock free.
abbrev pub world_of :
    {S : Type 0} → Option ProjectSnapshot × Option Task → Option (Mutex S) → World S
world_of (project, active_task) state_repository = record {
  memory = record {
    state = record new_state { project = project; active_task = active_task };
    flags = [];
    channels = [];
  };
  poisoned = false;
  storage = state_repository;
}

abbrev pub project_snapshot : Option Project → Option ProjectSnapshot
project_snapshot none = none
project_snapshot (some p) = some (snapshot_of p)

module _ {S : Type 0} where
  -- `DaemonSession::new`
  abbrev pub new_session : World S
  new_session = world_of (none, none) none

  unfoldable pub active_task : World S → Result (Option Task) SessionError
  active_task w = if w.poisoned then err state_unavailable else ok w.memory.active_task

  module _ (repository : StateRepository S) where
    unfoldable pub recovered_start :
        Option (Mutex S) → Result (Option ProjectSnapshot × Option Task) ApplicationError
    unfolding recover
    recovered_start none = ok (none, none)
    recovered_start (some lock) =
        if lock.poisoned
        then err (storage "State repository lock poisoned")
        else recover repository lock.inner >>= λ recovered.
            ok (project_snapshot recovered.project, recovered.active_task)

    unfoldable pub with_storage : Option (Mutex S) → Result (World S) ApplicationError
    unfolding recovered_start
    with_storage state_repository =
        recovered_start state_repository >>= λ start. ok (world_of start state_repository)
