-- ===== src/Daemon/Session/Threads/Maps.antt =====
-- The session's maps when an operation comes, when one goes, and when a reply is remembered.
use mathlib.Core.List.{map-append}
use kesharon.Prelude.{
  ◌≡◌, refl, sym, ◌∙◌, String, false, none, List, [], ◌∷◌, ◌++◌, arith, length-append, eq_iff,
  eq_refl,
}
use kesharon.HashMap.{
  get, contains_key, contains_key-get, get-insert, get-remove, contains_key-insert,
  contains_key-remove,
}
use kesharon.HashMap.Tracks.{Tracks, Tracks-insert_new, Tracks-remove, Distinct-middle}
use kesharon.Protocol.Response.{ServerResponse}
use kesharon.Daemon.Session.State.{Memory, MutationFingerprint, open_project as fp_open}
use kesharon.Daemon.Session.Ledger.{remember_completed}
use kesharon.Daemon.Session.Ledger.Invariant.{remember_completed-IsLedger, get-remember_completed}
use kesharon.Daemon.Session.Open.{remove_operation}
use kesharon.Daemon.Session.Threads.{Operation}
use kesharon.Daemon.Session.Threads.Coherent.{
  ids, keys, IsCoherent, AllOwn-append, AllOwn-split, AllOwn-elsewhere, AllOwn-same,
}
use kesharon.Daemon.Session.Threads.Begin.{IsQuiet, IsStarted}

pub IsCoherent-quiet :
    (m m' : Memory) (ops : List Operation) → IsQuiet m m' → IsCoherent m ops → IsCoherent m' ops
IsCoherent-quiet m m' ops q c = record {
  active = rw q.active c.active;
  in_flight = rw q.in_flight c.in_flight;
  owned = AllOwn-same m m' ops q.active q.in_flight q.flags c.owned;
  ledger = record {
    completed = rw (q.completed, q.completed_order) c.ledger.completed;
    completed_fits = rw q.completed_order c.ledger.completed_fits;
    requests = rw (q.completed_requests, q.completed_request_order) c.ledger.requests;
    requests_fit = rw q.completed_request_order c.ledger.requests_fit;
  };
  apart = rw (q.in_flight, q.completed) c.apart;
}

-- The new operation comes last.
pub IsCoherent-started :
    (m m' : Memory) (ops : List Operation) (op : Operation)
    → IsStarted m op.request_id op.key op.path op.cancellation m'
    → IsCoherent m ops
    → IsCoherent m' (ops ++ op ∷ [])
IsCoherent-started m m' ops op s c =
    let free : contains_key m.in_flight op.key ≡ false =
      contains_key-get m.in_flight op.key ∙ rw s.not_running refl in
    record {
      active =
          rw (s.active, map-append (λ (o : Operation). o.request_id) ops (op ∷ []))
            (Tracks-insert_new m.active (ids ops) op.request_id _ s.not_active c.active);
      in_flight =
          rw (s.in_flight, map-append (λ (o : Operation). o.key) ops (op ∷ []))
            (Tracks-insert_new m.in_flight (keys ops) op.key _ free c.in_flight);
      owned =
          AllOwn-append m' ops (op ∷ [])
            (AllOwn-elsewhere m m' op.request_id op.key ops
              (λ j n. rw s.active (get-insert m.active op.request_id _ j ∙ simp n))
              (λ j n. rw s.in_flight (get-insert m.in_flight op.key _ j ∙ simp n))
              (rw s.flags (omega (arith, length-append m.flags (false ∷ []))))
              (sym (c.active.same op.request_id) ∙ s.not_active)
              (sym (c.in_flight.same op.key) ∙ free) c.owned)
            (
              (
                rw s.active (get-insert m.active op.request_id _ op.request_id ∙ simp eq_refl),
                rw s.in_flight (get-insert m.in_flight op.key _ op.key ∙ simp eq_refl),
                rw s.flags (omega (arith, s.address, length-append m.flags (false ∷ []))),
              ),
              tt,
            );
      ledger = record {
        completed = rw (s.completed, s.completed_order) c.ledger.completed;
        completed_fits = rw s.completed_order c.ledger.completed_fits;
        requests = rw (s.completed_requests, s.completed_request_order) c.ledger.requests;
        requests_fit = rw s.completed_request_order c.ledger.requests_fit;
      };
      apart =
          rw (s.in_flight, s.completed)
            (λ k h. ground (
              arith,
              contains_key-insert m.in_flight op.key (fp_open op.path) k,
              eq_iff op.key k,
              contains_key-get m.completed k,
              s.not_done,
              c.apart k,
            ));
    }

-- The memory without an operation.
abbrev pub without : Memory → Operation → Memory
without m op = record m { state = remove_operation m.state op.request_id op.key }

module _ (m : Memory) (before after : List Operation) (op : Operation)
    (c : IsCoherent m (before ++ op ∷ after)) where
  in_active : Tracks m.active (ids before ++ op.request_id ∷ ids after)
  in_active = rw (sym (map-append (λ (o : Operation). o.request_id) before (op ∷ after))) c.active

  in_keys : Tracks m.in_flight (keys before ++ op.key ∷ keys after)
  in_keys = rw (sym (map-append (λ (o : Operation). o.key) before (op ∷ after))) c.in_flight

  pub IsCoherent-without : IsCoherent (without m op) (before ++ after)
  unfolding remove_operation
  IsCoherent-without = record {
    active =
        rw (map-append (λ (o : Operation). o.request_id) before after)
          (Tracks-remove m.active (ids before) op.request_id (ids after) in_active);
    in_flight =
        rw (map-append (λ (o : Operation). o.key) before after)
          (Tracks-remove m.in_flight (keys before) op.key (keys after) in_keys);
    owned =
        let (l, r) = AllOwn-split m before (op ∷ after) c.owned in
        AllOwn-elsewhere m (without m op) op.request_id op.key (before ++ after)
          (λ j n. get-remove m.active op.request_id j ∙ simp n)
          (λ j n. get-remove m.in_flight op.key j ∙ simp n) (omega arith)
          (rw (map-append (λ (o : Operation). o.request_id) before after)
            (Distinct-middle (ids before) op.request_id (ids after) in_active.distinct).0)
          (rw (map-append (λ (o : Operation). o.key) before after)
            (Distinct-middle (keys before) op.key (keys after) in_keys.distinct).0)
          (AllOwn-append m before after l r.1);
    ledger = record {
      completed = c.ledger.completed;
      completed_fits = c.ledger.completed_fits;
      requests = c.ledger.requests;
      requests_fit = c.ledger.requests_fit;
    };
    apart = λ k h. ground (arith, contains_key-remove m.in_flight op.key k, c.apart k);
  }

  pub without-free : contains_key (without m op).in_flight op.key ≡ false
  unfolding remove_operation
  without-free = contains_key-remove m.in_flight op.key op.key ∙ simp eq_refl

  pub without-not_done : get (without m op).completed op.key ≡ none
  unfolding remove_operation
  without-not_done =
      let owns = (AllOwn-split m before (op ∷ after) c.owned).1.0 in
      ground (
        arith,
        contains_key-get m.in_flight op.key,
        owns.1,
        c.apart op.key,
        contains_key-get m.completed op.key,
      )

-- A reply remembered under a key that is neither running nor known.
module _ (m : Memory) (ops : List Operation) (key : String) (fingerprint : MutationFingerprint)
    (request_id : String) (response : ServerResponse) where
  abbrev pub remembering : Memory
  remembering = record m { state = remember_completed m.state key fingerprint request_id response }

  same_maps : (remembering.active ≡ m.active) × (remembering.in_flight ≡ m.in_flight)
  unfolding remember_completed
  same_maps = (refl, refl)

  pub IsCoherent-remembering :
      contains_key m.in_flight key ≡ false
      → get m.completed key ≡ none
      → IsCoherent m ops
      → IsCoherent remembering ops
  IsCoherent-remembering free not_done c = record {
    active = rw same_maps.0 c.active;
    in_flight = rw same_maps.1 c.in_flight;
    owned = AllOwn-same m remembering ops same_maps.0 same_maps.1 (omega arith) c.owned;
    ledger = remember_completed-IsLedger m.state key fingerprint request_id response c.ledger;
    apart = rw same_maps.1 (λ k h. ground (
      arith,
      get-remember_completed m.state key fingerprint request_id response k c.ledger not_done,
      contains_key-get remembering.completed k,
      contains_key-get m.completed k,
      eq_iff key k,
      free,
      c.apart k,
    ));
  }
