-- ===== src/Host/Streamed.antt =====
-- A subscription whose frames arrive whole.
use kesharon.Prelude.{
  ℕ, suc, ◌+◌, ◌≡◌, refl, ap, ◌∙◌, String, Bool, List, [], ◌∷◌, ◌++◌, arith, length, length-append,
  if◌then◌else◌, ok, Bool-cases, inl, inr,
}
use kesharon.Ipc.{Answer, Taking, write_all}
use kesharon.Ipc.Deliver.{write_all-IsWhole}
use kesharon.Protocol.Event.{StreamMessage, snapshot, event, WorkspaceSnapshot}
use kesharon.Protocol.Frame.{Json, encode_frame, check_response, check_message}
use kesharon.Protocol.Request.{ClientRequest}
use kesharon.Protocol.Response.{ServerResponse, success, subscription_ready}
use kesharon.Daemon.Session.Emit.Sequence.{Numbered}
use kesharon.Daemon.Server.Sent.{frames}
use kesharon.Daemon.Server.Serve.{
  Serving, Ending, over, blocked, after_write, stream_events, write_subscription,
}
use kesharon.Host.Client.{read_next_message}
use kesharon.Host.Received.{
  Brings, Takes, Gives, read_frame-encode_frame, read_next_message-encode_frame, decoded_response,
}
use kesharon.Host.Subscribe.{receive_snapshot, receive_subscription}

-- Every message has a frame.
abbrev pub AllEncoded : Json StreamMessage → List StreamMessage → Type 0
AllEncoded messages [] = Unit
AllEncoded messages (m ∷ ms) =
    (frame : List ℕ) × (encode_frame messages m ≡ ok frame) × AllEncoded messages ms

-- The messages can be read one after the other.
abbrev pub AllRead : Json StreamMessage → List StreamMessage → List Answer → Type 0
AllRead messages [] answers = Unit
AllRead messages (m ∷ ms) answers =
    (bytes : List ℕ) × (g : Gives m bytes (read_next_message messages answers)) × AllRead messages
      ms g.0

abbrev pub AllChecked : List StreamMessage → Type 0
AllChecked [] = Unit
AllChecked (m ∷ ms) = (check_message m ≡ ok m) × AllChecked ms

pub Numbered-AllChecked :
    (id : String) (first last : ℕ) (ms : List StreamMessage)
    → Numbered id first last ms
    → AllChecked ms
unfolding check_message
Numbered-AllChecked id first last [] n = tt
Numbered-AllChecked id first last (snapshot s ∷ ms) n = absurd n
Numbered-AllChecked id first last (event e ∷ ms) (v, i, s, n) =
    (ground (arith, v, s), Numbered-AllChecked id (suc first) last ms n)

-- The end of a thread that has written all it could.
abbrev pub rests : Bool → Ending
rests closed = if closed then over (ok tt) else blocked

after_write-whole :
    (takings : List Taking) (frame : List ℕ) (left : ℕ) (f : List Taking → Serving)
    (ending : Ending) (bytes : List ℕ)
    → Takes (length frame + left) takings
    → ((takings' : List Taking)
        → Takes left takings'
        → f takings' ≡ record { ending = ending; sent = bytes })
    → after_write (write_all takings frame) f ≡ record { ending = ending; sent = frame ++ bytes }
after_write-whole takings frame left f ending bytes (n, e) h =
    let (w, n', e') = write_all-IsWhole takings frame left n e in
    rw (w, h (write_all takings frame).rest (n', e')) refl

module _ (messages : Json StreamMessage) where
  frames_left :
      (m : StreamMessage) (ms : List StreamMessage) (takings : List Taking) (frame : List ℕ)
      → encode_frame messages m ≡ ok frame
      → Takes (length (frames messages (m ∷ ms))) takings
      → Takes (length frame + length (frames messages ms)) takings
  frames_left m ms takings frame e (n, k) =
      let all : frames messages (m ∷ ms) ≡ frame ++ frames messages ms = rw e refl in
      (omega (arith, n, ap length all, length-append frame (frames messages ms)), k)

  stream_events-whole :
      (closed : Bool) (takings : List Taking) (ms : List StreamMessage)
      → AllEncoded messages ms
      → Takes (length (frames messages ms)) takings
      → stream_events messages closed takings ms
        ≡ record { ending = rests closed; sent = frames messages ms }
  unfolding stream_events
  stream_events-whole closed takings [] a t = elim (Bool-cases closed) [
    | inl e ↦ rw e refl
    | inr e ↦ rw e refl
  ]
  stream_events-whole closed takings (m ∷ ms) (frame, e, a) t =
      rw (e, stream_events)
        (after_write-whole takings frame (length (frames messages ms)) _ (rests closed)
          (frames messages ms) (frames_left m ms takings frame e t)
          (λ takings' t'. stream_events-whole closed takings' ms a t'))

  pub write_subscription-whole :
      (closed : Bool) (takings : List Taking) (ms : List StreamMessage) (ready first : List ℕ)
      → AllEncoded messages ms
      → Takes (length ready + (length first + length (frames messages ms))) takings
      → write_subscription messages closed takings ms (ok ready) (ok first)
        ≡ record { ending = rests closed; sent = ready ++ (first ++ frames messages ms) }
  unfolding write_subscription
  write_subscription-whole closed takings ms ready first a t =
      after_write-whole takings ready (length first + length (frames messages ms)) _ (rests closed)
        (first ++ frames messages ms) t
        (λ takings' t'.
          after_write-whole takings' first (length (frames messages ms)) _ (rests closed)
            (frames messages ms) t'
            (λ takings'' t''. stream_events-whole closed takings'' ms a t''))

  pub frames-AllRead :
      (ms : List StreamMessage) (answers : List Answer)
      → AllEncoded messages ms
      → AllChecked ms
      → Brings (frames messages ms) answers
      → AllRead messages ms answers
  frames-AllRead [] answers a c b = tt
  frames-AllRead (m ∷ ms) answers (frame, e, a) (k, c) (b, q) =
      let all : frames messages (m ∷ ms) ≡ frame ++ frames messages ms = rw e refl in
      let g =
        read_next_message-encode_frame messages m (frames messages ms) answers e k (b ∙ all, q) in
      (frames messages ms, g, frames-AllRead ms g.0 a c g.2)

  receive_snapshot-encode_frame :
      (requests : Json ClientRequest) (responses : Json ServerResponse) (id : String)
      (s : WorkspaceSnapshot) {first : List ℕ} (more : List ℕ) (answers : List Answer)
      → encode_frame messages (snapshot s) ≡ ok first
      → Brings (first ++ more) answers
      → Gives
          (record { stream_id = id; initial_snapshot = s })
          more
          (receive_snapshot requests responses messages id answers)
  unfolding receive_snapshot check_message
  receive_snapshot-encode_frame requests responses id s more answers e b =
      let (rest, r, b') =
        read_next_message-encode_frame messages (snapshot s) more answers e refl b in
      (rest, rw (r, receive_snapshot) refl, b')

  -- The client gets the stream and the snapshot out of the first two frames.
  pub receive_subscription-encode_frame :
      (requests : Json ClientRequest) (responses : Json ServerResponse) (request_id id : String)
      (s : WorkspaceSnapshot) {ready first : List ℕ} (more : List ℕ) (answers : List Answer)
      → encode_frame responses (success request_id (subscription_ready id)) ≡ ok ready
      → encode_frame messages (snapshot s) ≡ ok first
      → Brings (ready ++ (first ++ more)) answers
      → Gives
          (record { stream_id = id; initial_snapshot = s })
          more
          (receive_subscription requests responses messages answers)
  unfolding receive_subscription check_response success
  receive_subscription-encode_frame requests responses request_id id s {ready} {first} more answers
        e f b =
      let reply = success request_id (subscription_ready id) in
      let (rest, r, b') = read_frame-encode_frame responses reply (first ++ more) answers e b in
      let (rest', h, b'') = receive_snapshot-encode_frame requests responses id s more rest f b' in
      (
        rest',
        rw (r, receive_subscription)
            (rw (decoded_response responses reply e refl, receive_subscription) h),
        b'',
      )
