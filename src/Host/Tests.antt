-- ===== src/Host/Tests.antt =====
-- The theorems on the host and the daemon together, with codecs for two messages each.
use mathlib.Core.List.{append-nil}
use kesharon.Prelude.{
  ℕ, zero, suc, ◌+◌, ◌≡◌, ◌≢◌, refl, ap, true, false, none, List, [], ◌∷◌, ◌++◌, arith, length, ok,
}
use kesharon.Ipc.{Answer, Taking, takes, unread}
use kesharon.Protocol.Event.{StreamMessage, snapshot, event, operation_cancelled}
use kesharon.Protocol.Frame.{Json, encode_frame}
use kesharon.Protocol.Frame.Tests.{
  codec, first_frame, second_frame, ClientRequest-discrete, ServerResponse-discrete,
  StreamMessage-discrete,
}
use kesharon.Protocol.Request.{ClientRequest, health, new_request}
use kesharon.Protocol.Response.{ServerResponse, ready, success, subscription_ready}
use kesharon.Protocol.Response
use kesharon.Protocol.Token.{to_hex}
use kesharon.Protocol.Token.Tests.{token}
use kesharon.Daemon.Session.Cancel.{dispatch, snapshot_locked, subscribe_locked}
use kesharon.Daemon.Session.Emit.Sequence.{Numbered}
use kesharon.Daemon.Session.Restore.{new_session}
use kesharon.Daemon.Session.State.{World}
use kesharon.Daemon.Session.Tests.{ports}
use kesharon.Daemon.Session.Threads.Tests.{service, gen}
use kesharon.Daemon.Server.Tests.{new_session-AllSound}
use kesharon.Daemon.Server.Sent.{frames}
use kesharon.Daemon.Server.Serve.{over, serve_local_stream}
use kesharon.Daemon.Start.Launch.{to_hex-IsAccepted}
use kesharon.Host.Client.{DaemonClient, LocalStream, send_request}
use kesharon.Host.Delivery.{
  given, subscribed_world, subscribing, Reads, IsDelivered, client_subscribe-serve_local_stream,
}
use kesharon.Host.Delivery
use kesharon.Host.Loop.{Turn, without_client, read}
use kesharon.Host.Received.{Brings, Takes, Gives}
use kesharon.Host.Remote.{IsAccepted, served, send_request-serve_local_stream}
use kesharon.Host.Remote
use kesharon.Host.Subscribe.{client_subscribe}

abbrev each : ℕ → List Taking
each zero = []
each (suc n) = takes 0 ∷ each n

abbrev client : DaemonClient
client = record {
  endpoint = record { as_str = "/run/k.sock" };
  launch_token = to_hex token.bytes;
  io_timeout = 2000;
}

client-IsAccepted : IsAccepted token client.launch_token
client-IsAccepted = to_hex-IsAccepted token.bytes (omega arith) refl

abbrev frame_of : ℕ → List ℕ
frame_of n = 0 ∷ 0 ∷ 0 ∷ 1 ∷ n ∷ []

abbrev checking : ClientRequest
checking = record {
  protocol_version = 1;
  request_id = "r2";
  method = health;
  idempotency_key = none;
}

-- All requests and responses that the two calls use.
abbrev requests : Json ClientRequest
requests = codec ClientRequest-discrete checking (subscribing "r3")

abbrev responses : Json ServerResponse
responses =
    codec ServerResponse-discrete (success "r2" (Response.health ready 1))
      (success "r3" (subscription_ready "s"))

abbrev happened : StreamMessage
happened = event (record {
  protocol_version = 1;
  stream_id = "s";
  sequence = 1;
  payload = operation_cancelled "r1";
})

abbrev world : World (Unit {0})
world = new_session

abbrev messages : Json StreamMessage
messages = codec StreamMessage-discrete happened (snapshot (snapshot_locked "s" world.memory.state))

checking_made : new_request "r2" health none ≡ ok checking
unfolding new_request
checking_made = refl

checking_framed : encode_frame requests checking ≡ ok (frame_of 1)
checking_framed = first_frame ClientRequest-discrete checking (subscribing "r3")

checking_answered :
    encode_frame responses (dispatch "s" ports service gen world checking).0 ≡ ok (frame_of 1)
unfolding dispatch
checking_answered =
    first_frame ServerResponse-discrete (success "r2" (Response.health ready 1))
      (success "r3" (subscription_ready "s"))

brings : (bytes : List ℕ) → Brings bytes (unread bytes [])
brings [] = (refl, refl)
brings (b ∷ bytes) = (ap (λ ys. b ∷ ys) (append-nil bytes), refl)

abbrev asked_bytes : List ℕ
asked_bytes = client.launch_token ++ (frame_of 1 ++ [])

abbrev to_daemon : List Answer
to_daemon = unread asked_bytes []

abbrev host : LocalStream
host = record { takings = each 69; answers = unread (frame_of 1 ++ []) [] }

room_for_call : Takes (length client.launch_token + length (frame_of 1)) host.takings
room_for_call = (omega (arith, client-IsAccepted.full), refl)

room_for_reply : Takes 5 (each 5)
room_for_reply = (omega arith, refl)

call_arrives : Brings (send_request requests responses client checking (ok host)).sent to_daemon
call_arrives =
    rw
      (Remote.asked "s" ports service gen requests responses messages token client world checking
        (frame_of 1) (frame_of 1) host to_daemon false (each 5) [] checking_framed checking_answered
        room_for_call)
      (brings asked_bytes)

reply_arrives :
    Brings
      (serve_local_stream "s" ports service gen responses messages requests token to_daemon false
        (each 5)
        []
        world).0.sent
      host.answers
reply_arrives =
    rw
      (Remote.served_whole "s" ports service gen requests responses messages token client world
        checking (frame_of 1) (frame_of 1) host to_daemon false (each 5) [] checking_framed
        checking_answered "r2" none client-IsAccepted checking_made refl room_for_reply
        (brings asked_bytes))
      (brings (frame_of 1 ++ []))

send_request-serve_local_stream_example :
    let call = send_request requests responses client checking (ok host) in
    let (thread, w') =
      serve_local_stream "s" ports service gen responses messages requests token to_daemon false
        (each 5)
        []
        world in
    Gives (dispatch "s" ports service gen world checking).0 [] call.result
    × (thread.ending ≡ over (ok tt))
    × (w' ≡ (dispatch "s" ports service gen world checking).1)
send_request-serve_local_stream_example =
    send_request-serve_local_stream "s" ports service gen requests responses messages token client
      world checking (frame_of 1) (frame_of 1) host to_daemon false (each 5) [] checking_framed
      checking_answered "r2" none client-IsAccepted new_session-AllSound checking_made refl
      room_for_call room_for_reply call_arrives reply_arrives

-- The same for a subscription, over which one event comes.
methods_differ : checking ≢ subscribing "r3"
methods_differ p = cc (ap (λ (r : ClientRequest). r.method) p)

replies_differ : success "r2" (Response.health ready 1) ≢ success "r3" (subscription_ready "s")
unfolding success
replies_differ p = cc (ap (λ (r : ServerResponse). r.result) p)

messages_differ : happened ≢ snapshot (snapshot_locked "s" world.memory.state)
messages_differ p = cc p

subscribing_framed : encode_frame requests (subscribing "r3") ≡ ok (frame_of 2)
subscribing_framed = second_frame ClientRequest-discrete checking (subscribing "r3") methods_differ

ready_framed : encode_frame responses (success "r3" (subscription_ready "s")) ≡ ok (frame_of 2)
ready_framed =
    second_frame ServerResponse-discrete (success "r2" (Response.health ready 1))
      (success "r3" (subscription_ready "s")) replies_differ

snapshot_framed : encode_frame messages (snapshot (given "s" world)) ≡ ok (frame_of 2)
unfolding subscribe_locked
snapshot_framed =
    second_frame StreamMessage-discrete happened (snapshot (snapshot_locked "s" world.memory.state))
      messages_differ

happened_framed : encode_frame messages happened ≡ ok (frame_of 1)
happened_framed =
    first_frame StreamMessage-discrete happened (snapshot (snapshot_locked "s" world.memory.state))

abbrev coming : List StreamMessage
coming = happened ∷ []

happened_bytes : frames messages coming ≡ frame_of 1
happened_bytes = rw happened_framed refl

coming-Numbered : Numbered "s" (given "s" world).last_sequence 1 coming
unfolding subscribe_locked snapshot_locked
coming-Numbered = (refl, refl, refl, refl)

abbrev turns : List Turn
turns =
    record {
      outer = without_client false false;
      inner = record { set_before = false; result = read happened true; set_after = false };
    }
    ∷ []

abbrev subscribed_bytes : List ℕ
subscribed_bytes = client.launch_token ++ (frame_of 2 ++ [])

abbrev daemon_bytes : List ℕ
daemon_bytes = frame_of 2 ++ (frame_of 2 ++ frames messages coming)

abbrev subscription_host : LocalStream
subscription_host = record { takings = each 69; answers = unread daemon_bytes [] }

room_for_frames :
    Takes (length (frame_of 2) + (length (frame_of 2) + length (frames messages coming))) (each 15)
room_for_frames = (omega (arith, ap length happened_bytes), refl)

subscription_arrives :
    Brings
      (client_subscribe requests responses messages client "r3" (ok subscription_host)).sent
      (unread subscribed_bytes [])
subscription_arrives =
    rw
      (Delivery.asked "s" ports service gen requests responses messages token client world "r3"
        (frame_of 2) (frame_of 2) (frame_of 2) subscription_host (unread subscribed_bytes []) false
        (each 15) coming refl subscribing_framed ready_framed snapshot_framed
        (frame_of 1, happened_framed, tt) room_for_call)
      (brings subscribed_bytes)

frames_arrive :
    Brings
      (serve_local_stream "s" ports service gen responses messages requests token
        (unread subscribed_bytes [])
        false
        (each 15)
        coming
        world).0.sent
      subscription_host.answers
frames_arrive =
    rw
      (Delivery.served_whole "s" ports service gen requests responses messages token client world
        "r3" (frame_of 2) (frame_of 2) (frame_of 2) subscription_host (unread subscribed_bytes [])
        false (each 15) coming refl subscribing_framed ready_framed snapshot_framed
        (frame_of 1, happened_framed, tt) client-IsAccepted room_for_frames
        (brings subscribed_bytes))
      (brings daemon_bytes)

client_subscribe-serve_local_stream_example :
    IsDelivered messages "s" world coming 1 turns
      (client_subscribe requests responses messages client "r3" (ok subscription_host)).result
    × ((serve_local_stream "s" ports service gen responses messages requests token
          (unread subscribed_bytes [])
          false
          (each 15)
          coming
          world).1
        ≡ subscribed_world "s" world)
client_subscribe-serve_local_stream_example =
    client_subscribe-serve_local_stream "s" ports service gen requests responses messages token
      client world "r3" (frame_of 2) (frame_of 2) (frame_of 2) subscription_host
      (unread subscribed_bytes []) false (each 15) coming refl subscribing_framed ready_framed
      snapshot_framed (frame_of 1, happened_framed, tt) 1 turns client-IsAccepted coming-Numbered
      (refl, refl, refl, tt) room_for_call room_for_frames subscription_arrives frames_arrive
