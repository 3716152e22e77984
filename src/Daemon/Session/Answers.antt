-- ===== src/Daemon/Session/Answers.antt =====
-- Every reply carries the identifier of its request, and either a result or an error.
use kesharon.Prelude.{
  ℕ, ◌≡◌, refl, String, Option, none, some, arith, Result, ok, err, Bool-cases, Option-cases, inl,
  inr,
}
use kesharon.HashMap.{HashMap, get, contains_key}
use kesharon.Application.Error.{ApplicationError, cancelled}
use kesharon.Application.Ports.{StateRepository}
use kesharon.Domain.Project.{Project}
use kesharon.Protocol.Frame.{check_response}
use kesharon.Protocol.Response.{ServerResponse, success, failure, with_request_id}
use kesharon.Daemon.Session.State.{
  SessionError, Memory, Mutex, World, MutationFingerprint, CompletedMutation,
}
use kesharon.Daemon.Session.Reply.{
  idempotency_conflict, internal_error, key_in_progress, request_id_in_progress,
}
use kesharon.Daemon.Session.Emit.{emit_locked}
use kesharon.Daemon.Session.Open.{
  Begun, replied, started, replay, still_running, started_or_undone, reply_after, opened_after,
  start, begin, complete_success, complete_cancellation, complete_failure, after_save, settle,
  finish,
}
use kesharon.Daemon.Session.Cancel.{cancel_target, cancel_locked}

-- A response that the host's decoder takes, and one to a request.
abbrev pub IsSound : ServerResponse → Type 0
IsSound r = check_response r ≡ ok r

abbrev pub IsReply : String → ServerResponse → Type 0
IsReply id r = (r.request_id ≡ id) × IsSound r

-- All responses that are kept are sound.
abbrev pub AllSound : HashMap CompletedMutation → Type 0
AllSound completed =
    (k : String) (c : CompletedMutation) → get completed k ≡ some c → IsSound c.response

replay-IsReply :
    (c : CompletedMutation) (fingerprint : MutationFingerprint) (id : String)
    → IsSound c.response
    → IsReply id (replay c fingerprint id)
unfolding replay with_request_id idempotency_conflict failure check_response
replay-IsReply c fingerprint id sound = ground (arith, sound)

still_running-IsReply :
    (running fingerprint : MutationFingerprint) (id : String)
    → IsReply id (still_running running fingerprint id)
unfolding still_running idempotency_conflict key_in_progress failure check_response
still_running-IsReply running fingerprint id = ground arith

reply_after-IsReply :
    (id : String) (response : ServerResponse) (r : Result (Unit {0}) SessionError × Memory)
    → IsReply id response
    → IsReply id (reply_after id response r).0
unfolding internal_error failure check_response
reply_after-IsReply id response (ok _, m) h = h
reply_after-IsReply id response (err e, m) h = (refl, refl)

opened_after-IsReply :
    (id : String) (p : Project) (r : Result (Unit {0}) SessionError × Memory)
    → IsReply id (opened_after id p r).0
unfolding internal_error failure success check_response
opened_after-IsReply id p (ok _, m) = (refl, refl)
opened_after-IsReply id p (err e, m) = (refl, refl)

-- The reply of a first critical section, where there is one.
abbrev pub Answers : String → Begun → Type 0
Answers id (replied response) = IsReply id response
Answers id (started a) = Unit

started_or_undone-Answers :
    (a : ℕ) (id key : String) (r : Result (Unit {0}) SessionError × Memory)
    → Answers id (started_or_undone a id key r).0
unfolding started_or_undone internal_error failure check_response
started_or_undone-Answers a id key (ok _, m) = tt
started_or_undone-Answers a id key (err e, m) = (refl, refl)

module _ (stream_id : String) where
  pub begin-Answers :
      (m : Memory) (id key path : String)
      → AllSound m.completed
      → Answers id (begin stream_id m id key path).0
  unfolding begin start request_id_in_progress failure check_response
  begin-Answers m id key path sound = elim (Option-cases (get m.completed key)) [
    | inr (c, e) ↦ rw (e, begin) (replay-IsReply c _ id (sound key c e))
    | inl e ↦ elim (Option-cases (get m.in_flight key)) [
      | inr (c, f) ↦ rw (e, f, begin) (still_running-IsReply c _ id)
      | inl f ↦ elim (Bool-cases (contains_key m.active id)) [
        | inl g ↦ rw (e, f, g, begin) (refl, refl)
        | inr g ↦
            rw (e, f, g, begin) (started_or_undone-Answers _ id key (emit_locked stream_id _ _))
      ]
    ]
  ]

  complete_failure-IsReply :
      (m : Memory) (id : String) (e : ApplicationError)
      → IsReply id (complete_failure stream_id m id e).0
  unfolding complete_failure failure check_response
  complete_failure-IsReply m id e =
      reply_after-IsReply id _ (emit_locked stream_id m _) (refl, refl)

  complete_cancellation-IsReply :
      (m : Memory) (id : String) → IsReply id (complete_cancellation stream_id m id).0
  unfolding complete_cancellation failure check_response
  complete_cancellation-IsReply m id =
      reply_after-IsReply id _ (emit_locked stream_id m _) (refl, refl)

  complete_success-IsReply :
      (m : Memory) (id : String) (p : Project) → IsReply id (complete_success stream_id m id p).0
  unfolding complete_success
  complete_success-IsReply m id p = opened_after-IsReply id p (emit_locked stream_id m _)

  module _ {S : Type 0} (ports : StateRepository S) where
    after_save-IsReply :
        (m : Memory) (id : String) (p : Project) (r : Result (Unit {0}) ApplicationError)
        → IsReply id (after_save stream_id ports m id p r).0
    unfolding after_save
    after_save-IsReply m id p (ok _) = complete_success-IsReply m id p
    after_save-IsReply m id p (err e) = complete_failure-IsReply m id e

    pub settle-IsReply :
        (m : Memory) (store : Option (Mutex S)) (id : String) (r : Result Project ApplicationError)
        → IsReply id (settle stream_id ports m store id r).0.0
    unfolding settle internal_error failure check_response
    settle-IsReply m none id (ok p) = complete_success-IsReply m id p
    settle-IsReply m (some lock) id (ok p) = elim (Bool-cases lock.poisoned) [
      | inl e ↦ rw e (refl, refl)
      | inr e ↦ rw e (after_save-IsReply m id p (ports.save_project lock.inner p).0)
    ]
    settle-IsReply m store id (err cancelled) = complete_cancellation-IsReply m id
    settle-IsReply m store id (err e) = complete_failure-IsReply m id e

    pub finish-IsReply :
        (w : World S) (id key : String) (fingerprint : MutationFingerprint)
        (r : Result Project ApplicationError)
        → IsReply id (finish stream_id ports w id key fingerprint r).0
    unfolding finish internal_error failure check_response
    finish-IsReply w id key fingerprint r = elim (Bool-cases w.poisoned) [
      | inl e ↦ rw (e, finish) (refl, refl)
      | inr e ↦ rw (e, finish) (settle-IsReply _ w.storage id r)
    ]

pub cancel_target-IsReply :
    (m : Memory) (id key target : String) → IsReply id (cancel_target m id key target).0
unfolding cancel_target success check_response
cancel_target-IsReply m id key target = (refl, refl)

pub cancel_locked-IsReply :
    (m : Memory) (id key target : String)
    → AllSound m.completed
    → IsReply id (cancel_locked m id key target).0
unfolding cancel_locked
cancel_locked-IsReply m id key target sound = elim (Option-cases (get m.completed key)) [
  | inr (c, e) ↦ rw (e, cancel_locked) (replay-IsReply c _ id (sound key c e))
  | inl e ↦ elim (Option-cases (get m.in_flight key)) [
    | inr (c, f) ↦ rw (e, f, cancel_locked) (still_running-IsReply c _ id)
    | inl f ↦ rw (e, f, cancel_locked) (cancel_target-IsReply m id key target)
  ]
]
