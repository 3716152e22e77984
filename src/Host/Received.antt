-- ===== src/Host/Received.antt =====
-- What the client makes of frames that arrive whole, in whatever pieces their bytes come.
use mathlib.Core.List.{append_assoc}
use kesharon.Prelude.{
  ℕ, ◌+◌, ◌≤◌, ◌≡◌, refl, ap, sym, ◌∙◌, false, List, [], ◌++◌, arith, length, Result, ok,
}
use kesharon.Ipc.{Answer, Call, returned, Taking, write_all}
use kesharon.Ipc.Deliver.{calls, write_all-IsWhole}
use kesharon.Ipc.Read.{content, has_end}
use kesharon.Ipc.Whole.{read_exact-content}
use kesharon.Ipc.Write
use kesharon.Protocol.Event.{StreamMessage}
use kesharon.Protocol.Frame.{
  Json, max_frame_bytes, encode_frame, check_response, check_message, decode_server_response_frame,
  decode_stream_message_frame,
}
use kesharon.Protocol.Frame.RoundTrip.{decode_frame-encode_frame}
use kesharon.Protocol.Frame.Words.{to_be_bytes, from_be_bytes-to_be_bytes}
use kesharon.Protocol.Request.{ClientRequest}
use kesharon.Protocol.Response.{ServerResponse}
use kesharon.Daemon.Server.Connection.{declared_in}
use kesharon.Daemon.Server.Transport.{encode_frame-ok}
use kesharon.Host.Client.{
  DaemonClient, LocalStream, read_frame_body, read_frame, over_stream, receive_response,
  read_next_message,
}
use kesharon.Host.Error.{HostError}

-- Bytes come, and then nothing more, with no failure and no end past the deadline.
abbrev pub Brings : List ℕ → List Answer → Type 0
Brings bytes answers = (content answers ≡ bytes) × (has_end answers ≡ false)

-- Writes meet enough calls that take something, with no failure and no end past the deadline.
abbrev pub Takes : ℕ → List Taking → Type 0
Takes n takings = (n ≤ calls takings) × (Write.has_end takings ≡ false)

-- A call has returned a value, and the bytes behind it still come.
abbrev pub Gives : {A : Type 0} → A → (more : List ℕ) → Call (Result A HostError) → Type 0
Gives a more call = (rest : List Answer) × (call ≡ returned (ok a) rest) × Brings more rest

body_arrives :
    (prefix payload more : List ℕ) (answers : List Answer)
    → length payload ≤ max_frame_bytes
    → Brings (payload ++ more) answers
    → Gives (prefix ++ payload) more (read_frame_body prefix (length payload) answers)
unfolding read_frame_body
body_arrives prefix payload more answers l (c, e) =
    let (rest, r, c', e') = read_exact-content answers payload more c e in
    (rest, ground (arith, r), (c', e'))

prefix_arrives :
    (payload more : List ℕ) (answers : List Answer)
    → length payload ≤ max_frame_bytes
    → Brings (to_be_bytes (length payload) ++ (payload ++ more)) answers
    → Gives (to_be_bytes (length payload) ++ payload) more (read_frame answers)
unfolding read_frame to_be_bytes
prefix_arrives payload more answers l (c, e) =
    let (rest, r, c', e') =
      read_exact-content answers (to_be_bytes (length payload)) (payload ++ more) c e in
    let (rest', h, b) = body_arrives (to_be_bytes (length payload)) payload more rest l (c', e') in
    let size : declared_in (to_be_bytes (length payload)) ≡ length payload =
      from_be_bytes-to_be_bytes (length payload) (omega (arith, l)) in
    (rest', rw (r, read_frame) (rw size h), b)

pub read_frame-encode_frame :
    {A : Type 0} (json : Json A) (a : A) {frame : List ℕ} (more : List ℕ) (answers : List Answer)
    → encode_frame json a ≡ ok frame
    → Brings (frame ++ more) answers
    → Gives frame more (read_frame answers)
read_frame-encode_frame json a {frame} more answers made (c, e) =
    let (payload, shape, fits) = encode_frame-ok json a made in
    let whole : frame ++ more ≡ to_be_bytes (length payload) ++ (payload ++ more) =
      ap (λ f. f ++ more) shape ∙ append_assoc (to_be_bytes (length payload)) payload more in
    let (rest, r, b) = prefix_arrives payload more answers fits (c ∙ whole, e) in
    (rest, r ∙ ap (λ f. returned (ok f) rest) (sym shape), b)

pub decoded_response :
    (json : Json ServerResponse) (response : ServerResponse) {frame : List ℕ}
    → encode_frame json response ≡ ok frame
    → check_response response ≡ ok response
    → decode_server_response_frame json frame ≡ ok response
unfolding decode_server_response_frame
decoded_response json response {frame} made sound =
    rw (decode_frame-encode_frame json response frame made) sound

decoded_message :
    (json : Json StreamMessage) (m : StreamMessage) {frame : List ℕ}
    → encode_frame json m ≡ ok frame
    → check_message m ≡ ok m
    → decode_stream_message_frame json frame ≡ ok m
unfolding decode_stream_message_frame
decoded_message json m {frame} made sound = rw (decode_frame-encode_frame json m frame made) sound

pub receive_response-encode_frame :
    (requests : Json ClientRequest) (responses : Json ServerResponse) (response : ServerResponse)
    {frame : List ℕ} (more : List ℕ) (answers : List Answer)
    → encode_frame responses response ≡ ok frame
    → check_response response ≡ ok response
    → Brings (frame ++ more) answers
    → Gives response more (receive_response requests responses answers)
unfolding receive_response
receive_response-encode_frame requests responses response more answers made sound b =
    let (rest, r, b') = read_frame-encode_frame responses response more answers made b in
    (rest, rw (r, receive_response) (rw (decoded_response responses response made sound) refl), b')

-- A message whose frame arrives is read, and what comes behind it can still be read.
pub read_next_message-encode_frame :
    (messages : Json StreamMessage) (m : StreamMessage) {frame : List ℕ} (more : List ℕ)
    (answers : List Answer)
    → encode_frame messages m ≡ ok frame
    → check_message m ≡ ok m
    → Brings (frame ++ more) answers
    → Gives m more (read_next_message messages answers)
unfolding read_next_message
read_next_message-encode_frame messages m more answers made sound b =
    let (rest, r, b') = read_frame-encode_frame messages m more answers made b in
    (rest, rw (r, read_next_message) (rw (decoded_message messages m made sound) refl), b')

-- The client writes its token and the frame, and then goes on to read.
pub over_stream-ok :
    {A : Type 0} (client : DaemonClient) (frame : List ℕ) (stream : LocalStream)
    (f : List Answer → Call (Result A HostError))
    → Takes (length client.launch_token + length frame) stream.takings
    → over_stream client (ok frame) (ok stream) f
      ≡ record { result = f stream.answers; sent = client.launch_token ++ (frame ++ []) }
unfolding over_stream
over_stream-ok client frame stream f (n, e) =
    let (w, n', e') = write_all-IsWhole stream.takings client.launch_token (length frame) n e in
    let (w', _, _) =
      write_all-IsWhole (write_all stream.takings client.launch_token).rest frame 0
        (omega (arith, n')) e' in
    rw (w, over_stream) (rw w' refl)
