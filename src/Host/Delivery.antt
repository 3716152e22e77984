-- ===== src/Host/Delivery.antt =====
-- A subscription of the host and the daemon that serves it, up to the view.
use mathlib.Core.Path.{subst}
use kesharon.Prelude.{
  ℕ, suc, ◌+◌, ◌≡◌, refl, ap, String, Bool, true, false, none, List, [], ◌∷◌, ◌++◌, map, length,
  Result, ok,
}
use kesharon.Application.Ports.{RepositoryService, IdGenerator, StateRepository}
use kesharon.Ipc.{Answer, Taking, Call}
use kesharon.Protocol.Event.{DaemonEvent, StreamMessage, snapshot, event, WorkspaceSnapshot}
use kesharon.Protocol.Frame.{Json, encode_frame}
use kesharon.Protocol.Request.{
  ClientRequest, subscribe_events, new_request, requires_idempotency_key,
}
use kesharon.Protocol.Response.{ServerResponse, success, subscription_ready}
use kesharon.Protocol.Token.{LaunchToken}
use kesharon.Daemon.Session.Cancel.{subscribe, subscribe_locked}
use kesharon.Daemon.Session.Emit.Sequence.{Numbered}
use kesharon.Daemon.Session.State.{World}
use kesharon.Daemon.Server.Sent.{frames}
use kesharon.Daemon.Server.Serve.{
  Serving, after_subscribe, serve_subscription, serve_method, serve_read, serve_local_stream,
}
use kesharon.Daemon.Server.Transport.{read_authenticated_request-encode_frame}
use kesharon.Host.{message, following}
use kesharon.Host.Client.{DaemonClient, LocalStream}
use kesharon.Host.Error.{HostError}
use kesharon.Host.Follow.{behind, accept_message-event}
use kesharon.Host.Loop.{
  Effect, sends, InnerTurn, Turn, Standing, at_inner, read, handle_read, inner_step, step,
  run_rounds,
}
use kesharon.Host.Received.{Brings, Takes, Gives, over_stream-ok}
use kesharon.Host.Remote.{IsAccepted}
use kesharon.Host.Streamed.{
  AllEncoded, AllRead, Numbered-AllChecked, rests, write_subscription-whole, frames-AllRead,
  receive_subscription-encode_frame,
}
use kesharon.Host.Subscribe.{
  DaemonSubscription, receive_subscription, subscribe_made, client_subscribe,
}

-- The rounds in which the messages are read, the view takes them, and nobody cancels.
abbrev pub Reads : List StreamMessage → List Turn → Type 0
Reads [] [] = Unit
Reads [] (turn ∷ turns) = ⊥
Reads (m ∷ ms) [] = ⊥
Reads (m ∷ ms) (turn ∷ turns) =
    (turn.inner.set_before ≡ false)
    × (turn.inner.result ≡ read m true)
    × (turn.inner.set_after ≡ false)
    × Reads ms turns

inner_step-read :
    (id : String) (n : ℕ) (e : DaemonEvent) (turn : InnerTurn)
    → e.stream_id ≡ id
    → e.sequence ≡ suc n
    → turn.set_before ≡ false
    → turn.result ≡ read (event e) true
    → turn.set_after ≡ false
    → inner_step (behind id n) turn ≡ (sends (message (event e)) ∷ [], at_inner (behind id (suc n)))
unfolding inner_step handle_read
inner_step-read id n e turn i s b r a =
    rw (b, a, r, inner_step) (rw (accept_message-event id n e i s, handle_read) refl)

-- The messages of a channel, numbered without a gap, are all sent to the view, and nothing else is.
run_rounds-Numbered :
    (id : String) (first last : ℕ) (ms : List StreamMessage) (turns : List Turn)
    → Numbered id first last ms
    → Reads ms turns
    → run_rounds (at_inner (behind id first)) turns
      ≡ (map (λ m. sends (message m)) ms, at_inner (behind id last))
unfolding run_rounds step
run_rounds-Numbered id first last [] [] n r = ap (λ k. ([], at_inner (behind id k))) n
run_rounds-Numbered id first last [] (turn ∷ turns) n r = absurd r
run_rounds-Numbered id first last (m ∷ ms) [] n r = absurd r
run_rounds-Numbered id first last (snapshot s ∷ ms) (turn ∷ turns) n r = absurd n
run_rounds-Numbered id first last (event e ∷ ms) (turn ∷ turns) (v, i, s, n) (b, k, a, r) =
    rw (inner_step-read id first e turn.inner i s b k a, run_rounds)
      (ap (λ (effects : List Effect × Standing). (sends (message (event e)) ∷ effects.0, effects.1))
        (run_rounds-Numbered id (suc first) last ms turns n r))

-- The request of `DaemonClient::subscribe`.
abbrev pub subscribing : String → ClientRequest
subscribing id = record {
  protocol_version = 1;
  request_id = id;
  method = subscribe_events;
  idempotency_key = none;
}

subscribing-made : (id : String) → new_request id subscribe_events none ≡ ok (subscribing id)
unfolding new_request requires_idempotency_key
subscribing-made id = refl

-- The snapshot that the session gives, and the session afterwards.
abbrev pub given : {S : Type 0} → String → World S → WorkspaceSnapshot
given stream_id w = (subscribe_locked stream_id w.memory).0

abbrev pub subscribed_world : {S : Type 0} → String → World S → World S
subscribed_world stream_id w = (subscribe stream_id w).1

-- What a subscription gives the host: the stream and the snapshot, then the messages, and an inner
-- loop that passes them all on.
abbrev pub IsDelivered :
    {S : Type 0}
    → Json StreamMessage
    → (stream_id : String) → World S
    → (coming : List StreamMessage) → (last : ℕ) → List Turn
    → Call (Result DaemonSubscription HostError)
    → Type 0
IsDelivered messages stream_id w coming last turns call =
    (g : Gives (record { stream_id = stream_id; initial_snapshot = given stream_id w })
      (frames messages coming) call)
    × AllRead messages coming g.0
    × (run_rounds (at_inner (following stream_id (given stream_id w))) turns
        ≡ (map (λ m. sends (message m)) coming, at_inner (behind stream_id last)))

module _ {S : Type 0} (stream_id : String) (repository : StateRepository S)
    (service : RepositoryService) (ids : IdGenerator) (requests : Json ClientRequest)
    (responses : Json ServerResponse) (messages : Json StreamMessage) (token : LaunchToken)
    (client : DaemonClient) (w : World S) (id : String) (frame ready first : List ℕ)
    (host : LocalStream) (answers : List Answer) (closed : Bool) (takings : List Taking)
    (coming : List StreamMessage) where
  module _ (free : w.poisoned ≡ false) (framed : encode_frame requests (subscribing id) ≡ ok frame)
      (readied : encode_frame responses (success id (subscription_ready stream_id)) ≡ ok ready)
      (snapped : encode_frame messages (snapshot (given stream_id w)) ≡ ok first)
      (encoded : AllEncoded messages coming) where
    subscribe_open :
        subscribe stream_id w ≡ (ok (given stream_id w), (subscribed_world stream_id w))
    unfolding subscribe
    subscribe_open = rw free refl

    after_subscribe-whole :
        (w' : World S)
        → Takes (length ready + (length first + length (frames messages coming))) takings
        → after_subscribe stream_id repository service ids responses messages closed takings coming
            (subscribing id)
            (ok (given stream_id w), w')
          ≡ (
            record { ending = rests closed; sent = ready ++ (first ++ frames messages coming) },
            w',
          )
    unfolding after_subscribe
    after_subscribe-whole w' t =
        rw (readied, snapped)
          (ap (λ (s : Serving). (s, w'))
            (write_subscription-whole messages closed takings coming ready first encoded t))

    serve_subscription-whole :
        Takes (length ready + (length first + length (frames messages coming))) takings
        → serve_subscription stream_id repository service ids responses messages closed takings
            coming w
            (subscribing id)
          ≡ (
            record { ending = rests closed; sent = ready ++ (first ++ frames messages coming) },
            (subscribed_world stream_id w),
          )
    unfolding serve_subscription
    serve_subscription-whole t =
        rw (subscribe_open, serve_subscription)
          (after_subscribe-whole (subscribed_world stream_id w) t)

    pub served_whole :
        IsAccepted token client.launch_token
        → Takes (length ready + (length first + length (frames messages coming))) takings
        → Brings (client.launch_token ++ (frame ++ [])) answers
        → serve_local_stream stream_id repository service ids responses messages requests token
            answers closed takings coming w
          ≡ (
            record { ending = rests closed; sent = ready ++ (first ++ frames messages coming) },
            (subscribed_world stream_id w),
          )
    unfolding serve_local_stream serve_read serve_method
    served_whole a t (c, e) =
        let (rest, r) =
          read_authenticated_request-encode_frame requests token client.launch_token id
            subscribe_events none (subscribing id) frame [] answers (subscribing-made id) framed
            a.full a.text a.matched c e in
        rw (r, serve_local_stream) (serve_subscription-whole t)

    pub asked :
        Takes (length client.launch_token + length frame) host.takings
        → client_subscribe requests responses messages client id (ok host) ≡ record {
          result = receive_subscription requests responses messages host.answers;
          sent = client.launch_token ++ (frame ++ []);
        }
    unfolding client_subscribe subscribe_made
    asked t =
        rw (subscribing-made id, client_subscribe)
          (rw (framed, subscribe_made)
            (over_stream-ok client frame host (receive_subscription requests responses messages) t))

    -- A subscription of the client, served by a daemon that accepts its token: if the messages of the
    -- channel are numbered without a gap behind the snapshot, as the session numbers them, each side
    -- reads just what the other has written, and no call of the system fails or ends past its
    -- deadline, then the client gets the session's snapshot and can read each message, in order; the
    -- host's loop, while the view takes them and nobody cancels, sends the view all of them and no
    -- `Reconnecting`; and the session is as `subscribe` leaves it.
    pub client_subscribe-serve_local_stream :
        (last : ℕ) (turns : List Turn)
        → IsAccepted token client.launch_token
        → Numbered stream_id (given stream_id w).last_sequence last coming
        → Reads coming turns
        → Takes (length client.launch_token + length frame) host.takings
        → Takes (length ready + (length first + length (frames messages coming))) takings
        → let call = client_subscribe requests responses messages client id (ok host) in
          let (thread, w') =
            serve_local_stream stream_id repository service ids responses messages requests token
              answers closed takings coming w in
          Brings call.sent answers
          → Brings thread.sent host.answers
          → IsDelivered messages stream_id w coming last turns call.result
            × (w' ≡ (subscribed_world stream_id w))
    client_subscribe-serve_local_stream last turns a n r t t' b b' =
        let asks = asked t in
        let serves = served_whole a t' (subst (λ x. Brings x.sent answers) asks b) in
        let g =
          receive_subscription-encode_frame messages requests responses id stream_id
            (given stream_id w) (frames messages coming) host.answers readied snapped
            (subst (λ x. Brings x.0.sent host.answers) serves b') in
        rw (asks, serves)
          (
            (
              g,
              frames-AllRead messages coming g.0 encoded
                  (Numbered-AllChecked stream_id (given stream_id w).last_sequence last coming n)
                  g.2,
              run_rounds-Numbered stream_id (given stream_id w).last_sequence last coming turns n r,
            ),
            refl,
          )
