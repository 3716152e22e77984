-- ===== src/Daemon/Session/State.antt =====
-- What the threads of the daemon share (crates/kesharon-daemon/src/session.rs). An `Arc` is an
-- address: cancellation flags and channels stand in a memory beside the locked state, so that a
-- running operation and the session see the same flag. A mutex carries whether it is poisoned.
use kesharon.Prelude.{ℕ, ◌^◌, ◌-◌, String, Bool, false, Option, none, List, [], str_eq}
use kesharon.HashMap.{HashMap, HashSet, empty}
use kesharon.Domain.Task.Machine.{Task}
use kesharon.Protocol.Response.{ServerResponse, ProjectSnapshot}
use kesharon.Protocol.Event.{StreamMessage}

abbrev pub idempotency_limit : ℕ
idempotency_limit = 256

abbrev pub subscriber_capacity : ℕ
subscriber_capacity = 64

abbrev pub u64_max : ℕ
u64_max = 2 ^ 64 - 1

pub record ActiveOperation : Type 0 where
  -- the address of the flag
  pub cancellation : ℕ

pub data MutationFingerprint : Type 0 where
  open_project : (path : String) → MutationFingerprint
  cancel_request : (target_request_id : String) → MutationFingerprint

-- The derived `PartialEq`.
unfoldable pub fingerprint_eq : MutationFingerprint → MutationFingerprint → Bool
fingerprint_eq (open_project p) (open_project q) = str_eq p q
fingerprint_eq (cancel_request s) (cancel_request t) = str_eq s t
fingerprint_eq _ _ = false

pub record CompletedMutation : Type 0 where
  pub fingerprint : MutationFingerprint
  pub response : ServerResponse

pub record SessionState : Type 0 where
  pub project : Option ProjectSnapshot
  pub active_task : Option Task
  pub active : HashMap ActiveOperation
  pub in_flight : HashMap MutationFingerprint
  pub completed : HashMap CompletedMutation
  pub completed_order : List String
  pub completed_requests : HashSet
  pub completed_request_order : List String
  pub sequence : ℕ
  -- the address of the channel
  pub subscriber : Option ℕ

-- `SessionState::new`
abbrev pub new_state : SessionState
new_state = record {
  project = none;
  active_task = none;
  active = empty;
  in_flight = empty;
  completed = empty;
  completed_order = [];
  completed_requests = empty;
  completed_request_order = [];
  sequence = 0;
  subscriber = none;
}

pub data SessionError : Type 0 where
  state_unavailable sequence_exhausted : SessionError

-- A `sync_channel`: what was sent and not yet received, and whether the receiver is alive.
pub record Channel : Type 0 where
  pub queue : List StreamMessage
  pub connected : Bool

pub record Memory : Type 0 where
  pub state : SessionState
  pub open state use *
  pub flags : List Bool
  pub channels : List Channel

pub record Mutex {ℓ} (A : Type ℓ) : Type ℓ where
  pub poisoned : Bool
  pub inner : A

-- All that a handler reads and writes: the session's mutex guards `memory.state`.
pub record World (S : Type 0) : Type 0 where
  pub memory : Memory
  pub poisoned : Bool
  pub storage : Option (Mutex S)
