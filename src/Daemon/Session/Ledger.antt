-- ===== src/Daemon/Session/Ledger.antt =====
-- The ledger of completed mutations, `remember_completed` of crates/kesharon-daemon/src/session.rs.
pub mod Eviction
pub mod Invariant
use kesharon.Prelude.{
  ℕ, ◌+◌, String, Bool, not, Option, none, some, List, [], ◌∷◌, ◌++◌, ltb, if◌then◌else◌, length,
}
use kesharon.HashMap.{HashMap, contains_key, insert, remove}
use kesharon.Protocol.Response.{ServerResponse}
use kesharon.Daemon.Session.State.{SessionState, MutationFingerprint, idempotency_limit}

-- `while order.len() > limit { if let Some(expired) = order.pop_front() { map.remove(&expired); } }`
unfoldable pub evict {ℓ} : {V : Type ℓ} → HashMap V → List String → HashMap V × List String
evict m [] = (m, [])
evict m (k ∷ ks) =
    let rest = evict (remove m k) ks in
    if ltb idempotency_limit (length (k ∷ ks)) then rest else (m, k ∷ ks)

-- An insertion that notes a new key at the back of the order.
unfoldable pub note {ℓ} :
    {V : Type ℓ} → HashMap V → List String → String → V → HashMap V × List String
note m order k v = (insert m k v, if not (contains_key m k) then order ++ k ∷ [] else order)

unfoldable pub remember_completed :
    SessionState → String → MutationFingerprint → String → ServerResponse → SessionState
remember_completed s key fingerprint request_id response =
    let (completed, order) =
      note s.completed s.completed_order key
        (record { fingerprint = fingerprint; response = response }) in
    let (requests, request_order) =
      note s.completed_requests s.completed_request_order request_id tt in
    let (completed', order') = evict completed order in
    let (requests', request_order') = evict requests request_order in
    record s {
      completed = completed';
      completed_order = order';
      completed_requests = requests';
      completed_request_order = request_order';
    }
