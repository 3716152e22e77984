-- ===== src/Daemon/Session/Stored.antt =====
-- The responses that the session keeps, and so each reply of `dispatch`, are sound.
use kesharon.Prelude.{
  ◌≡◌, refl, String, false, some, List, [], ◌∷◌, arith, length, ltb, str_eq, Result, Bool-cases,
  Option-cases, inl, inr,
}
use kesharon.HashMap.{HashMap, get, remove, get-insert, get-remove}
use kesharon.Application.Error.{ApplicationError}
use kesharon.Application.Ports.{RepositoryService, IdGenerator, StateRepository}
use kesharon.Domain.Project.{Project}
use kesharon.Protocol.Frame.{check_response}
use kesharon.Protocol.Request.{
  ClientRequest, RequestMethod, health, open_project as method_open,
  cancel_request as method_cancel, subscribe_events,
}
use kesharon.Protocol.Response.{ServerResponse, success, failure}
use kesharon.Daemon.Session.State.{
  SessionState, Memory, World, MutationFingerprint, CompletedMutation, idempotency_limit,
}
use kesharon.Daemon.Session.Reply.{internal_error}
use kesharon.Daemon.Session.Ledger.{evict, note, remember_completed}
use kesharon.Daemon.Session.Open.{
  Begun, replied, started, remove_operation, begin, finish, run_on, open_project,
}
use kesharon.Daemon.Session.Open.Retry.{cleared, settled, finish_lem}
use kesharon.Daemon.Session.Open.Settle.{settle-SameLedger}
use kesharon.Daemon.Session.Cancel.{
  find_target, cancel_target, cancel_locked, cancel, dispatch_method, dispatch,
}
use kesharon.Daemon.Session.Threads.Begin.{Begins, begin_lem}
use kesharon.Daemon.Session.Answers.{
  IsSound, IsReply, AllSound, Answers, begin-Answers, settle-IsReply, finish-IsReply,
  cancel_target-IsReply, cancel_locked-IsReply,
}

evict-AllSound :
    (m : HashMap CompletedMutation) (ks : List String) → AllSound m → AllSound (evict m ks).0
unfolding evict
evict-AllSound m [] s = s
evict-AllSound m (k ∷ ks) s = elim (Bool-cases (ltb idempotency_limit (length (k ∷ ks)))) [
  | inl e ↦
      rw e (evict-AllSound (remove m k) ks (λ j c h. s j c (ground (arith, get-remove m k j, h))))
  | inr e ↦ rw e s
]

note-AllSound :
    (m : HashMap CompletedMutation) (ks : List String) (k : String) (v : CompletedMutation)
    → IsSound v.response
    → AllSound m
    → AllSound (note m ks k v).0
unfolding note
note-AllSound m ks k v sound s j c h = elim (Bool-cases (str_eq k j)) [
  | inl e ↦
      let same : some v ≡ some c = ground (arith, get-insert m k v j, h, e) in
      ground (arith, same, sound)
  | inr e ↦ s j c (ground (arith, get-insert m k v j, h, e))
]

remember_completed-AllSound :
    (s : SessionState) (key : String) (fingerprint : MutationFingerprint) (id : String)
    (response : ServerResponse)
    → IsSound response
    → AllSound s.completed
    → AllSound (remember_completed s key fingerprint id response).completed
unfolding remember_completed
remember_completed-AllSound s key fingerprint id response sound h =
    evict-AllSound _ _ (note-AllSound s.completed s.completed_order key _ sound h)

find_target-AllSound :
    (m : Memory) (target : String)
    → AllSound m.completed
    → AllSound (find_target m target).1.completed
unfolding find_target
find_target-AllSound m target s = elim (Option-cases (get m.active target)) [
  | inl e ↦ rw (e, find_target) s
  | inr (o, e) ↦ rw (e, find_target) s
]

cancel_target-AllSound :
    (m : Memory) (id key target : String)
    → AllSound m.completed
    → AllSound (cancel_target m id key target).1.completed
unfolding cancel_target
cancel_target-AllSound m id key target s =
    remember_completed-AllSound _ key _ id (cancel_target m id key target).0
      (cancel_target-IsReply m id key target).1 (find_target-AllSound m target s)

cancel_locked-AllSound :
    (m : Memory) (id key target : String)
    → AllSound m.completed
    → AllSound (cancel_locked m id key target).1.completed
unfolding cancel_locked
cancel_locked-AllSound m id key target s = elim (Option-cases (get m.completed key)) [
  | inr (c, e) ↦ rw (e, cancel_locked) s
  | inl e ↦ elim (Option-cases (get m.in_flight key)) [
    | inr (c, f) ↦ rw (e, f, cancel_locked) s
    | inl f ↦ rw (e, f, cancel_locked) (cancel_target-AllSound m id key target s)
  ]
]

begun-AllSound :
    (m : Memory) (id key path : String) (r : Begun × Memory)
    → Begins m id key path r
    → AllSound m.completed
    → AllSound r.1.completed
begun-AllSound m id key path (replied response, m') b s = rw b.completed s
begun-AllSound m id key path (started a, m') b s = rw b.completed s

-- A reply to a request, and a session whose stored responses are sound.
abbrev pub Keeps : {S : Type 0} → String → ServerResponse × World S → Type 0
Keeps id (response, w) = IsReply id response × AllSound w.memory.completed

module _ {S : Type 0} (stream_id : String) (ports : StateRepository S) where
  finish-AllSound :
      (w : World S) (id key : String) (fingerprint : MutationFingerprint)
      (r : Result Project ApplicationError)
      → w.poisoned ≡ false
      → AllSound w.memory.completed
      → AllSound (finish stream_id ports w id key fingerprint r).1.memory.completed
  unfolding remove_operation
  finish-AllSound w id key fingerprint r e s =
      let m = cleared stream_id ports w id key fingerprint r e in
      let done = settled stream_id ports w id key fingerprint r e in
      rw (finish_lem stream_id ports w id key fingerprint r e) (
        remember_completed-AllSound done.0.1.state key fingerprint id done.0.0
          (settle-IsReply stream_id ports m w.storage id r).1
          (rw (settle-SameLedger stream_id m id ports w.storage r).completed s))

  finish-Keeps :
      (w : World S) (id key : String) (fingerprint : MutationFingerprint)
      (r : Result Project ApplicationError)
      → w.poisoned ≡ false
      → AllSound w.memory.completed
      → Keeps id (finish stream_id ports w id key fingerprint r)
  finish-Keeps w id key fingerprint r e s = (
    finish-IsReply stream_id ports w id key fingerprint r,
    finish-AllSound w id key fingerprint r e s,
  )

  module _ (service : RepositoryService) (ids : IdGenerator) where
    run_on-Keeps :
        (w : World S) (id key path : String) (r : Begun × Memory)
        → w.poisoned ≡ false
        → Answers id r.0
        → AllSound r.1.completed
        → Keeps id (run_on stream_id ports service ids w id key path r)
    unfolding run_on
    run_on-Keeps w id key path (replied response, m) e h s = (h, s)
    run_on-Keeps w id key path (started a, m) e h s =
        finish-Keeps (record w { memory = m }) id key _ _ e s

    module _ (w : World S) (request : ClientRequest) (sound : AllSound w.memory.completed) where
      open_project-Keeps :
          (path : String)
          → Keeps request.request_id (open_project stream_id ports service ids w request path)
      unfolding open_project internal_error failure check_response
      open_project-Keeps path = elim (Option-cases request.idempotency_key) [
        | inl e ↦ rw (e, open_project) ((refl, refl), sound)
        | inr (key, e) ↦ elim (Bool-cases w.poisoned) [
          | inl p ↦ rw (e, p, open_project) ((refl, refl), sound)
          | inr p ↦
              rw (e, p, open_project)
                (run_on-Keeps (record { memory = w.memory; poisoned = false; storage = w.storage })
                  request.request_id key path (begin stream_id w.memory request.request_id key path)
                  refl (begin-Answers stream_id w.memory request.request_id key path sound)
                  (begun-AllSound w.memory request.request_id key path _
                    (begin_lem w.memory request.request_id key path stream_id) sound))
        ]
      ]

      cancel-Keeps : (target : String) → Keeps request.request_id (cancel w request target)
      unfolding cancel internal_error failure check_response
      cancel-Keeps target = elim (Option-cases request.idempotency_key) [
        | inl e ↦ rw (e, cancel) ((refl, refl), sound)
        | inr (key, e) ↦ elim (Bool-cases w.poisoned) [
          | inl p ↦ rw (e, p, cancel) ((refl, refl), sound)
          | inr p ↦
              rw (e, p, cancel)
                (
                  cancel_locked-IsReply w.memory request.request_id key target sound,
                  cancel_locked-AllSound w.memory request.request_id key target sound,
                )
        ]
      ]

      by_method :
          (method : RequestMethod)
          → Keeps request.request_id (dispatch_method stream_id ports service ids w request method)
      unfolding dispatch_method success check_response
      by_method health = ((refl, refl), sound)
      by_method (method_open path) = open_project-Keeps path
      by_method (method_cancel target) = cancel-Keeps target
      by_method subscribe_events = ((refl, refl), sound)

      -- In a session whose stored responses each hold a result or an error but not both, the reply of
      -- `dispatch` to any request carries the identifier of that request and a result or an error but
      -- not both, also where it is the stored reply to an earlier one; and the responses that the
      -- session then stores are again such.
      pub dispatch-Keeps : Keeps request.request_id (dispatch stream_id ports service ids w request)
      unfolding dispatch
      dispatch-Keeps = by_method request.method
