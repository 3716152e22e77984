-- ===== src/Daemon/Session/Cancel.antt =====
-- `cancel`, `subscribe` and `dispatch` of crates/kesharon-daemon/src/session.rs.
pub mod Subscribe
use kesharon.Prelude.{
  String, true, none, some, [], ◌∷◌, ◌++◌, map, if◌then◌else◌, length, set, Result, ok, err,
}
use kesharon.HashMap.{get, contains_key, keys}
use kesharon.Application.Ports.{RepositoryService, IdGenerator, StateRepository}
use kesharon.Protocol.Request.{
  ClientRequest, RequestMethod, protocol_version, health, open_project as method_open,
  cancel_request as method_cancel, subscribe_events,
}
use kesharon.Protocol.Response.{
  ServerResponse, CancellationOutcome, accepted, already_finished, not_found, success, cancellation,
  ready, subscription_ready,
}
use kesharon.Protocol.Response
use kesharon.Protocol.Event.{OperationSnapshot, WorkspaceSnapshot, running}
use kesharon.Protocol.Event
use kesharon.Daemon.Session.State.{
  SessionState, SessionError, state_unavailable, Memory, World, cancel_request,
}
use kesharon.Daemon.Session.Reply.{internal_error}
use kesharon.Daemon.Session.Ledger.{remember_completed}
use kesharon.Daemon.Session.Open.{replay, still_running, open_project}

-- The search for the target: the flag of a running operation is set.
unfoldable pub find_target : Memory → String → CancellationOutcome × Memory
find_target m target = elim (get m.active target) [
  | some operation ↦ (accepted, record m { flags = set m.flags operation.cancellation true })
  | none ↦ (if contains_key m.completed_requests target then already_finished else not_found, m)
]

unfoldable pub cancel_target : Memory → (request_id key target : String) → ServerResponse × Memory
unfolding find_target
cancel_target m request_id key target =
    let (outcome, m') = find_target m target in
    let response = success request_id (cancellation target outcome) in
    (
      response,
      record m' {
        state = remember_completed m'.state key (cancel_request target) request_id response;
      },
    )

-- `cancel` under the lock.
unfoldable pub cancel_locked : Memory → (request_id key target : String) → ServerResponse × Memory
unfolding replay still_running cancel_target
cancel_locked m request_id key target = elim (get m.completed key) [
  | some c ↦ (replay c (cancel_request target) request_id, m)
  | none ↦ elim (get m.in_flight key) [
    | some other ↦ (still_running other (cancel_request target) request_id, m)
    | none ↦ cancel_target m request_id key target
  ]
]

unfoldable pub snapshot_locked : String → SessionState → WorkspaceSnapshot
snapshot_locked stream_id s = record {
  stream_id = stream_id;
  last_sequence = s.sequence;
  project = s.project;
  active_operations =
      map
        (λ request_id. record {
          request_id = request_id;
          kind = Event.open_project;
          status = running;
        })
        (keys s.active);
}

-- `subscribe` under the lock: the snapshot, and the memory with a fresh channel for the receiver.
unfoldable pub subscribe_locked : String → Memory → WorkspaceSnapshot × Memory
unfolding snapshot_locked
subscribe_locked stream_id m = (
  snapshot_locked stream_id m.state,
  record m {
    state = record m.state { subscriber = some (length m.channels) };
    channels = m.channels ++ record { queue = []; connected = true } ∷ [];
  },
)

module _ {S : Type 0} where
  unfoldable pub cancel : World S → ClientRequest → (target : String) → ServerResponse × World S
  unfolding cancel_locked
  cancel w request target = elim request.idempotency_key [
    | none ↦ (internal_error request.request_id, w)
    | some key ↦
        if w.poisoned
        then (internal_error request.request_id, w)
        else let (response, m) = cancel_locked w.memory request.request_id key target in
          (response, record w { memory = m })
  ]

  unfoldable pub subscribe : String → World S → Result WorkspaceSnapshot SessionError × World S
  unfolding subscribe_locked
  subscribe stream_id w =
      if w.poisoned
      then (err state_unavailable, w)
      else let (snapshot, m) = subscribe_locked stream_id w.memory in
        (ok snapshot, record w { memory = m })

  module _ (stream_id : String) (repository : StateRepository S) (service : RepositoryService)
      (ids : IdGenerator) where
    unfoldable pub dispatch_method :
        World S → ClientRequest → RequestMethod → ServerResponse × World S
    unfolding open_project cancel
    dispatch_method w request health =
        (success request.request_id (Response.health ready protocol_version), w)
    dispatch_method w request (method_open path) =
        open_project stream_id repository service ids w request path
    dispatch_method w request (method_cancel target) = cancel w request target
    dispatch_method w request subscribe_events =
        (success request.request_id (subscription_ready stream_id), w)

    unfoldable pub dispatch : World S → ClientRequest → ServerResponse × World S
    unfolding dispatch_method
    dispatch w request = dispatch_method w request request.method
