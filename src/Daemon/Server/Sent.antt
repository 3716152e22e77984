-- ===== src/Daemon/Server/Sent.antt =====
-- What a connection is sent: frames in their order, or a prefix of them.
use mathlib.Core.List.{append_assoc}
use kesharon.Prelude.{
  ℕ, ◌≡◌, refl, ap, sym, ◌∙◌, String, Bool, Option, none, some, List, [], ◌∷◌, ◌++◌, Result, ok,
  err, Bool-cases, inl, inr,
}
use kesharon.Ipc.{Taking, write_all}
use kesharon.Ipc.Write.{IsPrefix, IsOutcome, write_all-IsWritten}
use kesharon.Protocol.Error.{ProtocolError}
use kesharon.Protocol.Event.{StreamMessage}
use kesharon.Protocol.Frame.{Json, encode_frame}
use kesharon.Daemon.Server.Serve.{
  Serving, Ending, over, blocked, broken, after_outcome, after_write, after_frame, nothing_more,
  stream_events, write_subscription,
}

-- A prefix of some bytes has been sent, and all of them if the thread ends without an error.
abbrev pub IfDone : Ending → Type 0 → Type 0
IfDone (over (ok _)) A = A
IfDone (over (err e)) A = Unit
IfDone blocked A = Unit
IfDone broken A = Unit

abbrev pub IsSent : List ℕ → Serving → Type 0
IsSent all s = IsPrefix s.sent all × IfDone s.ending (s.sent ≡ all)

IfDone-map : {A B : Type 0} (ending : Ending) → (A → B) → IfDone ending A → IfDone ending B
IfDone-map (over (ok _)) f a = f a
IfDone-map (over (err e)) f a = tt
IfDone-map blocked f a = tt
IfDone-map broken f a = tt

-- A frame and what comes behind it, or nothing where there is no frame.
abbrev pub framed_before : Result (List ℕ) ProtocolError → List ℕ → List ℕ
framed_before (err e) bytes = []
framed_before (ok frame) bytes = frame ++ bytes

-- The frames of messages, up to one that cannot be encoded.
abbrev pub frames : Json StreamMessage → List StreamMessage → List ℕ
frames messages [] = []
frames messages (m ∷ ms) = framed_before (encode_frame messages m) (frames messages ms)

append-IsPrefix : (xs bytes all : List ℕ) → IsPrefix bytes all → IsPrefix (xs ++ bytes) (xs ++ all)
append-IsPrefix xs bytes all (rest, h) =
    (rest, ap (λ ys. xs ++ ys) h ∙ sym (append_assoc xs bytes rest))

longer-IsPrefix :
    (bytes buffer all : List ℕ) → IsPrefix bytes buffer → IsPrefix bytes (buffer ++ all)
longer-IsPrefix bytes buffer all (rest, h) =
    (rest ++ all, ap (λ ys. ys ++ all) h ∙ append_assoc bytes rest all)

after_outcome-IsSent :
    (takings : List Taking) (buffer bytes all : List ℕ)
    (outcome : Option (Result (Unit {0}) String)) (rest : Serving)
    → IsOutcome takings buffer bytes outcome
    → IsSent all rest
    → IsSent (buffer ++ all) (after_outcome outcome bytes rest)
after_outcome-IsSent takings buffer bytes all none rest (p, _, _) s =
    (longer-IsPrefix bytes buffer all p, tt)
after_outcome-IsSent takings buffer bytes all (some (err m)) rest (p, _) s =
    (longer-IsPrefix bytes buffer all p, tt)
after_outcome-IsSent takings buffer bytes all (some (ok _)) rest h (p, w) =
    rw h
      (append-IsPrefix buffer rest.sent all p, IfDone-map rest.ending (ap (λ ys. buffer ++ ys)) w)

after_write-IsSent :
    (takings : List Taking) (buffer all : List ℕ) (f : List Taking → Serving)
    → ((takings' : List Taking) → IsSent all (f takings'))
    → IsSent (buffer ++ all) (after_write (write_all takings buffer) f)
after_write-IsSent takings buffer all f h =
    after_outcome-IsSent takings buffer (write_all takings buffer).bytes all _ _
      (write_all-IsWritten takings buffer) (h (write_all takings buffer).rest)

pub after_frame-IsSent :
    (takings : List Taking) (r : Result (List ℕ) ProtocolError) (all : List ℕ)
    (f : List Taking → Serving)
    → ((takings' : List Taking) → IsSent all (f takings'))
    → IsSent (framed_before r all) (after_frame takings r f)
after_frame-IsSent takings (err e) all f h = (([], refl), tt)
after_frame-IsSent takings (ok frame) all f h = after_write-IsSent takings frame all f h

pub nothing_more-IsSent : (takings : List Taking) → IsSent [] (nothing_more takings)
nothing_more-IsSent takings = (([], refl), refl)

-- What a subscription writes in all.
abbrev pub subscription_bytes :
    Json StreamMessage → (ready first : Result (List ℕ) ProtocolError) → List StreamMessage → List ℕ
subscription_bytes messages (err e) first ms = []
subscription_bytes messages (ok ready) (err e) ms = []
subscription_bytes messages (ok ready) (ok first) ms = ready ++ (first ++ frames messages ms)

module _ (messages : Json StreamMessage) (closed : Bool) where
  stream_events-IsSent :
      (takings : List Taking) (ms : List StreamMessage)
      → IsSent (frames messages ms) (stream_events messages closed takings ms)
  unfolding stream_events
  stream_events-IsSent takings [] = elim (Bool-cases closed) [
    | inl e ↦ rw e (nothing_more-IsSent takings)
    | inr e ↦ rw e (([], refl), tt)
  ]
  stream_events-IsSent takings (m ∷ ms) =
      after_frame-IsSent takings (encode_frame messages m) (frames messages ms)
        (λ takings'. stream_events messages closed takings' ms)
        (λ takings'. stream_events-IsSent takings' ms)

  pub write_subscription-IsSent :
      (takings : List Taking) (ms : List StreamMessage)
      (ready first : Result (List ℕ) ProtocolError)
      → IsSent
          (subscription_bytes messages ready first ms)
          (write_subscription messages closed takings ms ready first)
  unfolding write_subscription
  write_subscription-IsSent takings ms (err e) first = (([], refl), tt)
  write_subscription-IsSent takings ms (ok ready) (err e) = (([], refl), tt)
  write_subscription-IsSent takings ms (ok ready) (ok first) =
      after_write-IsSent takings ready (first ++ frames messages ms) _ (λ takings'.
        after_write-IsSent takings' first (frames messages ms) _
          (λ takings''. stream_events-IsSent takings'' ms))
