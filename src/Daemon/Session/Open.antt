-- ===== src/Daemon/Session/Open.antt =====
-- `open_project` of crates/kesharon-daemon/src/session.rs, in its two critical sections: `begin` up to
-- the release of the lock, and `finish` from where it is taken again. Between them
-- `OpenProject::execute` runs without the lock.
pub mod Settle
pub mod Retry
use kesharon.Prelude.{
  ℕ, String, Bool, true, false, not, Option, none, some, List, [], ◌∷◌, ◌++◌, if◌then◌else◌, length,
  get_elem?, Result, ok, err,
}
use kesharon.HashMap.{get, contains_key, insert, remove}
use kesharon.Application.Error.{ApplicationError, cancelled}
use kesharon.Application.OpenProject.{OpenProjectCommand}
use kesharon.Application.OpenProject
use kesharon.Application.Ports.{RepositoryService, IdGenerator, CancellationSignal, StateRepository}
use kesharon.Domain.Project.{Project}
use kesharon.Protocol.Request.{ClientRequest}
use kesharon.Protocol.Response.{
  ServerResponse, operation_cancelled, success, failure, with_request_id,
}
use kesharon.Protocol.Response
use kesharon.Protocol.Event.{
  operation_started, operation_cancelled as event_cancelled, operation_failed,
}
use kesharon.Protocol.Event
use kesharon.Daemon.Session.State.{
  SessionState, SessionError, Memory, Mutex, World, MutationFingerprint, CompletedMutation,
  open_project as fp_open, fingerprint_eq,
}
use kesharon.Daemon.Session.Reply.{
  classify_application_error, idempotency_conflict, internal_error, key_in_progress,
  request_id_in_progress, snapshot_of,
}
use kesharon.Daemon.Session.Ledger.{remember_completed}
use kesharon.Daemon.Session.Emit.{emit_locked}

-- What the first critical section leads to: a reply, or an operation with the address of its flag.
pub data Begun : Type 0 where
  replied : ServerResponse → Begun
  started : (cancellation : ℕ) → Begun

-- The replies for a key that is known already, which both mutations look for first.
unfoldable pub replay : CompletedMutation → MutationFingerprint → String → ServerResponse
replay c fingerprint request_id =
    if not (fingerprint_eq c.fingerprint fingerprint)
    then idempotency_conflict request_id
    else with_request_id c.response request_id

unfoldable pub still_running : MutationFingerprint → MutationFingerprint → String → ServerResponse
still_running running fingerprint request_id =
    if not (fingerprint_eq running fingerprint)
    then idempotency_conflict request_id
    else key_in_progress request_id

unfoldable pub remove_operation : SessionState → String → String → SessionState
remove_operation s request_id key = record s {
  active = remove s.active request_id;
  in_flight = remove s.in_flight key;
}

-- The memory with the new operation and a fresh flag, before the event.
unfoldable pub register : Memory → String → String → MutationFingerprint → Memory
register m request_id key fingerprint = record m {
  state = record m.state {
    in_flight = insert m.in_flight key fingerprint;
    active = insert m.active request_id (record { cancellation = length m.flags });
  };
  flags = m.flags ++ false ∷ [];
}

-- The end of the first critical section, after `emit_locked`.
unfoldable pub started_or_undone :
    (address : ℕ) (request_id key : String)
    → Result (Unit {0}) SessionError × Memory
    → Begun × Memory
unfolding remove_operation
started_or_undone address request_id key (ok _, m) = (started address, m)
started_or_undone address request_id key (err e, m) = (
  replied (internal_error request_id),
  record m { state = remove_operation m.state request_id key },
)

-- The reply after an event, or the internal error if the event could not be numbered.
abbrev pub reply_after :
    String → ServerResponse → Result (Unit {0}) SessionError × Memory → ServerResponse × Memory
reply_after request_id response (ok _, m) = (response, m)
reply_after request_id response (err e, m) = (internal_error request_id, m)

abbrev pub opened_after :
    String → Project → Result (Unit {0}) SessionError × Memory → ServerResponse × Memory
opened_after request_id p (ok _, m) = (
  success request_id (Response.project_opened (snapshot_of p)),
  record m { state = record m.state { project = some (snapshot_of p) } },
)
opened_after request_id p (err e, m) = (internal_error request_id, m)

-- The flag at an address, as a reading finds it.
unfoldable pub is_set : Memory → ℕ → Bool
is_set m address = elim (get_elem? m.flags address) [ none ↦ false | some flag ↦ flag ]

module _ (stream_id : String) where
  unfoldable pub start : Memory → String → String → MutationFingerprint → Begun × Memory
  unfolding register started_or_undone
  start m request_id key fingerprint = started_or_undone (length m.flags) request_id key (
      emit_locked stream_id (register m request_id key fingerprint)
        (operation_started request_id Event.open_project))

  unfoldable pub begin : Memory → (request_id key path : String) → Begun × Memory
  unfolding replay still_running
  begin m request_id key path = elim (get m.completed key) [
    | some c ↦ (replied (replay c (fp_open path) request_id), m)
    | none ↦ elim (get m.in_flight key) [
      | some running ↦ (replied (still_running running (fp_open path) request_id), m)
      | none ↦
          if contains_key m.active request_id
          then (replied (request_id_in_progress request_id), m)
          else start m request_id key (fp_open path)
    ]
  ]

  unfoldable pub complete_success : Memory → String → Project → ServerResponse × Memory
  complete_success m request_id p =
      opened_after request_id p
        (emit_locked stream_id m (Event.project_opened request_id (snapshot_of p)))

  unfoldable pub complete_cancellation : Memory → String → ServerResponse × Memory
  complete_cancellation m request_id =
      reply_after request_id
        (failure request_id operation_cancelled "Project opening was cancelled")
        (emit_locked stream_id m (event_cancelled request_id))

  unfoldable pub complete_failure : Memory → String → ApplicationError → ServerResponse × Memory
  complete_failure m request_id error =
      let (code, message) = classify_application_error error in
      reply_after request_id (failure request_id code message)
        (emit_locked stream_id m (operation_failed request_id code message))

  module _ {S : Type 0} (repository : StateRepository S) where
    -- `repo.save_project(&project)` has returned.
    unfoldable pub after_save :
        Memory → String → Project → Result (Unit {0}) ApplicationError → ServerResponse × Memory
    unfolding complete_success complete_failure
    after_save m request_id p (ok _) = complete_success m request_id p
    after_save m request_id p (err e) = complete_failure m request_id e

    -- The reply, the memory and the storage after the result of `execute` is known.
    unfoldable pub settle :
        Memory
        → Option (Mutex S)
        → String
        → Result Project ApplicationError
        → (ServerResponse × Memory) × Option (Mutex S)
    unfolding after_save complete_cancellation
    settle m none request_id (ok p) = (complete_success m request_id p, none)
    settle m (some lock) request_id (ok p) =
        if lock.poisoned
        then ((internal_error request_id, m), some lock)
        else let (saved, inner) = repository.save_project lock.inner p in
          (after_save m request_id p saved, some (record lock { inner = inner }))
    settle m storage request_id (err cancelled) = (complete_cancellation m request_id, storage)
    settle m storage request_id (err e) = (complete_failure m request_id e, storage)

    unfoldable pub finish :
        World S
        → (request_id key : String) → MutationFingerprint
        → Result Project ApplicationError
        → ServerResponse × World S
    unfolding settle remove_operation
    finish w request_id key fingerprint result =
        if w.poisoned
        then (internal_error request_id, w)
        else let settled =
            settle (record w.memory { state = remove_operation w.memory.state request_id key })
              w.storage request_id result in
          let response = settled.0.0 in
          let m = settled.0.1 in
          (
            response,
            record w {
              memory = record m {
                state = remember_completed m.state key fingerprint request_id response;
              };
              storage = settled.1;
            },
          )

    -- The rest of a call whose first critical section is over, with no other thread in between.
    unfoldable pub run_on :
        RepositoryService
        → IdGenerator
        → World S
        → (request_id key path : String) → Begun × Memory
        → ServerResponse × World S
    unfolding finish
    run_on service ids w request_id key path (replied response, m) =
        (response, record w { memory = m })
    run_on service ids w request_id key path (started address, m) =
        finish (record w { memory = m }) request_id key (fp_open path)
          (OpenProject.execute service ids (record { requested_path = path; trusted = false })
            (record { is_cancelled = λ reading. is_set m address }))

    unfoldable pub open_project :
        RepositoryService
        → IdGenerator
        → World S
        → ClientRequest
        → (path : String) → ServerResponse × World S
    unfolding begin run_on
    open_project service ids w request path = elim request.idempotency_key [
      | none ↦ (internal_error request.request_id, w)
      | some key ↦
          if w.poisoned
          then (internal_error request.request_id, w)
          else run_on service ids w request.request_id key path
              (begin w.memory request.request_id key path)
    ]
