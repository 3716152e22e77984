-- ===== src/Daemon/Session/Ledger/Invariant.antt =====
-- The ledger's invariant, and what `remember_completed` leaves in it.
use kesharon.Prelude.{◌≤◌, ◌≡◌, String, none, some, arith, length, if◌then◌else◌, str_eq}
use kesharon.HashMap.{get, contains_key-get}
use kesharon.HashMap.Tracks.{Tracks}
use kesharon.Protocol.Response.{ServerResponse}
use kesharon.Daemon.Session.State.{
  SessionState, MutationFingerprint, CompletedMutation, idempotency_limit,
}
use kesharon.Daemon.Session.Ledger.{remember_completed}
use kesharon.Daemon.Session.Ledger.Eviction.{
  evict-Tracks, evict-le-limit, note-Tracks, get-noted, pushed_out,
}

-- Each of the two ledgers holds the keys of its order, once each, and 256 at most.
pub record IsLedger (s : SessionState) : Type 0 where
  pub completed : Tracks s.completed s.completed_order
  pub completed_fits : length s.completed_order ≤ idempotency_limit
  pub requests : Tracks s.completed_requests s.completed_request_order
  pub requests_fit : length s.completed_request_order ≤ idempotency_limit

module _ (s : SessionState) (key : String) (fingerprint : MutationFingerprint) (request_id : String)
    (response : ServerResponse) where
  abbrev after : SessionState
  after = remember_completed s key fingerprint request_id response

  abbrev entry : CompletedMutation
  entry = record { fingerprint = fingerprint; response = response }

  -- `remember_completed` keeps the ledgers well-formed and within 256 entries.
  pub remember_completed-IsLedger : IsLedger s → IsLedger after
  unfolding remember_completed
  remember_completed-IsLedger l = record {
    completed = evict-Tracks _ _ (note-Tracks _ _ key entry l.completed);
    completed_fits = evict-le-limit _ _;
    requests = evict-Tracks _ _ (note-Tracks _ _ request_id tt l.requests);
    requests_fit = evict-le-limit _ _;
  }

  -- A key that was not in the ledger is then found with its entry. If the ledger was full, the oldest
  -- key is forgotten, and every other key keeps its entry.
  pub get-remember_completed :
      (j : String)
      → IsLedger s
      → get s.completed key ≡ none
      → get after.completed j ≡ (
          if str_eq key j
          then some entry
          else if pushed_out s.completed_order j
          then none
          else get s.completed j)
  unfolding remember_completed
  get-remember_completed j l n =
      get-noted s.completed s.completed_order key entry j l.completed l.completed_fits
        (ground (arith, contains_key-get s.completed key))
