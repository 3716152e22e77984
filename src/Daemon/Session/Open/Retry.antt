-- ===== src/Daemon/Session/Open/Retry.antt =====
-- A mutation that is sent again: what the ledger and the running operations answer.
use kesharon.Prelude.{
  ◌≡◌, refl, ap, ◌∙◌, String, false, Option, none, some, arith, Result, if◌then◌else◌, str_eq,
  eq_refl,
}
use kesharon.HashMap.{get}
use kesharon.Application.Error.{ApplicationError}
use kesharon.Application.Ports.{StateRepository}
use kesharon.Domain.Project.{Project}
use kesharon.Protocol.Response.{ServerResponse, with_request_id}
use kesharon.Daemon.Session.State.{
  Memory, Mutex, World, MutationFingerprint, CompletedMutation, open_project as fp_open,
  fingerprint_eq,
}
use kesharon.Daemon.Session.Reply.{idempotency_conflict}
use kesharon.Daemon.Session.Ledger.{remember_completed}
use kesharon.Daemon.Session.Ledger.Invariant.{
  IsLedger, remember_completed-IsLedger, get-remember_completed,
}
use kesharon.Daemon.Session.Open.{replied, replay, remove_operation, settle, begin, finish}
use kesharon.Daemon.Session.Open.Settle.{SameLedger, settle-SameLedger}

pub SameLedger-IsLedger : {m m' : Memory} → SameLedger m m' → IsLedger m.state → IsLedger m'.state
SameLedger-IsLedger c l = record {
  completed = rw (c.completed, c.completed_order) l.completed;
  completed_fits = rw c.completed_order l.completed_fits;
  requests = rw (c.completed_requests, c.completed_request_order) l.requests;
  requests_fit = rw c.completed_request_order l.requests_fit;
}

begin_known :
    (stream_id : String) (m : Memory) (request_id key path : String) {c : CompletedMutation}
    → get m.completed key ≡ some c
    → begin stream_id m request_id key path ≡ (replied (replay c (fp_open path) request_id), m)
unfolding begin
begin_known stream_id m request_id key path e = rw (e, begin) refl

replay_open :
    (path path' : String) (response : ServerResponse) (request_id : String)
    → replay (record { fingerprint = fp_open path; response = response }) (fp_open path') request_id
      ≡ (if str_eq path path'
          then with_request_id response request_id
          else idempotency_conflict request_id)
unfolding replay fingerprint_eq
replay_open path path' response request_id = ground arith

module _ {S : Type 0} (stream_id : String) (ports : StateRepository S) where
  module _ (w : World S) (request_id key : String) (fingerprint : MutationFingerprint)
      (result : Result Project ApplicationError) (open_lock : w.poisoned ≡ false) where
    -- The memory without the operation, and what `settle` makes of it.
    abbrev pub cleared : Memory
    cleared = record w.memory { state = remove_operation w.memory.state request_id key }

    abbrev pub settled : (ServerResponse × Memory) × Option (Mutex S)
    settled = settle stream_id ports cleared w.storage request_id result

    pub finish_lem : finish stream_id ports w request_id key fingerprint result ≡ (
      settled.0.0,
      record w {
        memory = record settled.0.1 {
          state = remember_completed settled.0.1.state key fingerprint request_id settled.0.0;
        };
        storage = settled.1;
      },
    )
    unfolding finish
    finish_lem = rw open_lock refl

    cleared-IsLedger : IsLedger w.memory.state → IsLedger cleared.state
    unfolding remove_operation
    cleared-IsLedger l = record {
      completed = l.completed;
      completed_fits = l.completed_fits;
      requests = l.requests;
      requests_fit = l.requests_fit;
    }

    -- The end of an operation keeps the ledgers well-formed and within their limit.
    pub finish-IsLedger :
        IsLedger w.memory.state
        → IsLedger (finish stream_id ports w request_id key fingerprint result).1.memory.state
    finish-IsLedger l = rw finish_lem (
        remember_completed-IsLedger _ key fingerprint request_id settled.0.0 (
          SameLedger-IsLedger
            (settle-SameLedger stream_id cleared request_id ports w.storage result)
            (cleared-IsLedger l)))

    cleared-completed : cleared.completed ≡ w.memory.completed
    unfolding remove_operation
    cleared-completed = refl

    pub get-finish :
        IsLedger w.memory.state
        → get w.memory.completed key ≡ none
        → get (finish stream_id ports w request_id key fingerprint result).1.memory.completed key
          ≡ some (record {
            fingerprint = fingerprint;
            response = (finish stream_id ports w request_id key fingerprint result).0;
          })
    get-finish l n =
        let same = settle-SameLedger stream_id cleared request_id ports w.storage result in
        rw finish_lem (
          get-remember_completed settled.0.1.state key fingerprint request_id settled.0.0 key
            (SameLedger-IsLedger same (cleared-IsLedger l))
            (rw (same.completed, cleared-completed) n)
          ∙ simp eq_refl)

  -- An operation that has ended is not run again: whatever its result was, a request with its key
  -- gets the stored response under the new request's identifier if it opens the same path, and a
  -- conflict if it opens another, and the memory stays as it is.
  pub begin-finish :
      (w : World S) (request_id key path : String) (result : Result Project ApplicationError)
      (again path' : String)
      → w.poisoned ≡ false
      → IsLedger w.memory.state
      → get w.memory.completed key ≡ none
      → let (response, w') = finish stream_id ports w request_id key (fp_open path) result in
        begin stream_id w'.memory again key path' ≡ (
          replied (
              if str_eq path path'
              then with_request_id response again
              else idempotency_conflict again),
          w'.memory,
        )
  begin-finish w request_id key path result again path' open_lock l n =
      let (response, w') = finish stream_id ports w request_id key (fp_open path) result in
      begin_known stream_id w'.memory again key path'
        (get-finish w request_id key (fp_open path) result open_lock l n)
      ∙ ap (λ r. (replied r, w'.memory)) (replay_open path path' response again)
