-- ===== src/Daemon/Session/Again.antt =====
-- A request to open a project that is sent again after its reply, to the session as a whole.
use mathlib.Core.Path.{subst}
use kesharon.Prelude.{◌≡◌, ap, ℕ, String, false, none, some, Result, if◌then◌else◌, str_eq}
use kesharon.HashMap.{get}
use kesharon.Application.Error.{ApplicationError}
use kesharon.Application.Ports.{RepositoryService, IdGenerator, StateRepository}
use kesharon.Domain.Project.{Project}
use kesharon.Protocol.Request.{ClientRequest, open_project as method_open}
use kesharon.Protocol.Response.{with_request_id}
use kesharon.Daemon.Session.State.{Memory, World, open_project as fp_open}
use kesharon.Daemon.Session.Reply.{idempotency_conflict}
use kesharon.Daemon.Session.Ledger.Invariant.{IsLedger}
use kesharon.Daemon.Session.Open.{Begun, started, begin, finish, run_on, open_project}
use kesharon.Daemon.Session.Open.Retry.{finish_lem, begin-finish}
use kesharon.Daemon.Session.Cancel.{dispatch, dispatch_method}
use kesharon.Daemon.Session.Threads.Begin.{IsStarted, Begins, begin_lem}

-- The request of `DaemonClient::open_project`.
abbrev pub opening : (request_id key path : String) → ClientRequest
opening request_id key path = record {
  protocol_version = 1;
  request_id = request_id;
  method = method_open path;
  idempotency_key = some key;
}

IsStarted-IsLedger :
    {m m' : Memory} {request_id key path : String} {a : ℕ}
    → IsStarted m request_id key path a m'
    → IsLedger m.state
    → IsLedger m'.state
IsStarted-IsLedger s l = record {
  completed = rw (s.completed, s.completed_order) l.completed;
  completed_fits = rw s.completed_order l.completed_fits;
  requests = rw (s.completed_requests, s.completed_request_order) l.requests;
  requests_fit = rw s.completed_request_order l.requests_fit;
}

module _ {S : Type 0} (stream_id : String) (ports : StateRepository S) (service : RepositoryService)
    (ids : IdGenerator) where
  -- A request whose first critical section has the given result.
  dispatch-run_on :
      (w : World S) (request_id key path : String) (r : Begun × Memory)
      → w.poisoned ≡ false
      → begin stream_id w.memory request_id key path ≡ r
      → dispatch stream_id ports service ids w (opening request_id key path)
        ≡ run_on stream_id ports service ids w request_id key path r
  unfolding dispatch dispatch_method open_project
  dispatch-run_on w request_id key path r free e =
      rw (free, open_project)
        (ap
          (run_on stream_id ports service ids
            (record { memory = w.memory; poisoned = false; storage = w.storage }) request_id key
            path)
          e)

  -- A call of `open_project` with the second call for its key, on the result of the first.
  again :
      (w : World S) (id1 id2 key path path' : String) (r : Result Project ApplicationError)
      → w.poisoned ≡ false
      → IsLedger w.memory.state
      → get w.memory.completed key ≡ none
      → let (response, w1) = finish stream_id ports w id1 key (fp_open path) r in
        dispatch stream_id ports service ids w1 (opening id2 key path')
        ≡ (if str_eq path path' then with_request_id response id2 else idempotency_conflict id2, w1)
  unfolding run_on
  again w id1 id2 key path path' r free l n =
      dispatch-run_on (finish stream_id ports w id1 key (fp_open path) r).1 id2 key path' _
        (rw (finish_lem stream_id ports w id1 key (fp_open path) r free) free)
        (begin-finish stream_id ports w id1 key path r id2 path' free l n)

  -- Where a request to open a project has been taken on by an unpoisoned session with well-formed
  -- ledgers, the whole of `dispatch` answers it and leaves a session in which a second request with its
  -- idempotency key is not run again: `dispatch` answers the second with the reply to the first under
  -- the second's identifier if it opens the same path, with a conflict if it opens another, and the
  -- session, its storage included, stays as it is.
  pub dispatch-opening :
      (w : World S) (id1 id2 key path path' : String) (a : ℕ) (m : Memory)
      → w.poisoned ≡ false
      → IsLedger w.memory.state
      → begin stream_id w.memory id1 key path ≡ (started a, m)
      → let (response, w1) = dispatch stream_id ports service ids w (opening id1 key path) in
        dispatch stream_id ports service ids w1 (opening id2 key path')
        ≡ (if str_eq path path' then with_request_id response id2 else idempotency_conflict id2, w1)
  unfolding run_on
  dispatch-opening w id1 id2 key path path' a m free l e =
      let s : IsStarted w.memory id1 key path a m =
        subst (Begins w.memory id1 key path) e (begin_lem w.memory id1 key path stream_id) in
      rw (dispatch-run_on w id1 key path _ free e) (
        again (record w { memory = m }) id1 id2 key path path' _ free (IsStarted-IsLedger s l)
          (rw s.completed s.not_done))
