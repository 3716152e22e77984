-- ===== src/Application/Ports.antt =====
-- The traits of crates/kesharon-application/src/lib.rs as records of operations. An operation on
-- `&mut self` returns the new state beside its result. A port that asks the outside world, as the
-- file system or a clock, is its answer at the call.
use kesharon.Prelude.{ℕ, String, Bool, Option, List, Result}
use kesharon.Application.Error.{ApplicationError}
use kesharon.Domain.Project.{Project}
use kesharon.Domain.Task.Machine.{Task}
use kesharon.Domain.Task.Parts.{TaskCheckpoint}

pub record RepositoryInspection : Type 0 where
  pub canonical_root : String
  pub display_name : String

pub record RepositoryService : Type 0 where
  pub inspect : String → Result RepositoryInspection ApplicationError

pub record IdGenerator : Type 0 where
  pub next_id : String

-- The answers to the readings of a signal, which another thread may set between two of them.
pub record CancellationSignal : Type 0 where
  pub is_cancelled : (reading : ℕ) → Bool

pub record StateRepository (S : Type 0) : Type 0 where
  pub save_project : S → Project → Result (Unit {0}) ApplicationError × S
  pub load_project : S → String → Result (Option Project) ApplicationError
  pub load_last_active_project : S → Result (Option Project) ApplicationError
  pub save_task : S → Task → Result (Unit {0}) ApplicationError × S
  pub load_task : S → String → Result (Option Task) ApplicationError
  pub load_active_task : S → String → Result (Option Task) ApplicationError
  pub save_checkpoint : S → String → TaskCheckpoint → Result (Unit {0}) ApplicationError × S
  pub list_checkpoints : S → String → Result (List TaskCheckpoint) ApplicationError
  pub record_idempotency : S → String → String → String → Result (Unit {0}) ApplicationError × S
  pub find_idempotency : S → String → Result (Option String) ApplicationError

pub record CredentialVault (S : Type 0) : Type 0 where
  pub get_secret : S → String → Result (Option String) ApplicationError
  pub set_secret : S → String → String → Result (Unit {0}) ApplicationError × S
  pub delete_secret : S → String → Result Bool ApplicationError × S
