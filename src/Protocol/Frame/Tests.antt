-- ===== src/Protocol/Frame/Tests.antt =====
-- The theorems on frames at concrete messages, with a codec that writes one message.
use native.Mathlib.Decide.{ℕ_discrete}
use kesharon.Prelude.{
  ℕ, ◌≡◌, ◌≢◌, refl, sym, inl, inr, String, some, List, [], ◌∷◌, arith, Result, ok, err, str_eq,
  eq_iff, Bool-cases, if◌then◌else◌, ◌==◌,
}
use kesharon.Protocol.Request.{ClientRequest, open_project, new_request}
use kesharon.Protocol.Response.{ServerResponse}
use kesharon.Protocol.Event.{StreamMessage}
use kesharon.Protocol.Frame.{Json, encode_frame, decode_client_request_frame}
use kesharon.Protocol.Frame.Words.{to_be_bytes}
use kesharon.Protocol.Frame.RoundTrip.{request_round_trip}
use kesharon.Protocol.Frame.Bounds.{encode_frame_lem}

String-discrete : Discrete String
String-discrete s t = elim (Bool-cases (str_eq s t)) [
  | inl e ↦ yes ((eq_iff s t).0 e)
  | inr e ↦ no (λ p. cc (e, (eq_iff s t).1 p))
]

pub ClientRequest-discrete : Discrete ClientRequest
ClientRequest-discrete = hlevel (String-discrete, ℕ_discrete)

pub StreamMessage-discrete : Discrete StreamMessage
StreamMessage-discrete = hlevel (String-discrete, ℕ_discrete)

pub ServerResponse-discrete : Discrete ServerResponse
ServerResponse-discrete = hlevel (String-discrete, ℕ_discrete)

module _ {A : Type 0} (d : Discrete A) (a b : A) where
  pub write_by : (x : A) → Dec (x ≡ a) → Dec (x ≡ b) → Result (List ℕ) String
  write_by x (yes p) e = ok (1 ∷ [])
  write_by x (no p) (yes q) = ok (2 ∷ [])
  write_by x (no p) (no q) = err "not in the table"

  pub read : List ℕ → Result A String
  read (n ∷ []) = if n == 1 then ok a else ok b
  read _ = err "not in the table"

  pub read-write_by :
      (x : A) (e : Dec (x ≡ a)) (f : Dec (x ≡ b)) (bytes : List ℕ)
      → write_by x e f ≡ ok bytes
      → read bytes ≡ ok x
  unfolding write_by read
  read-write_by x (yes p) e bytes h = ground arith
  read-write_by x (no p) (yes q) bytes h = ground arith
  read-write_by x (no p) (no q) bytes h = cc

  -- A codec for two messages, that writes a byte for each.
  abbrev pub codec : Json A
  codec = record {
    to_vec = λ x. write_by x (d x a) (d x b);
    from_slice = read;
    from_slice-to_vec = λ x bytes h. read-write_by x (d x a) (d x b) bytes h;
  }

  framed_by :
      (x : A) (n : ℕ)
      → codec.to_vec x ≡ ok (n ∷ [])
      → encode_frame codec x ≡ ok (0 ∷ 0 ∷ 0 ∷ 1 ∷ n ∷ [])
  unfolding to_be_bytes
  framed_by x n h = rw (encode_frame_lem codec x) (rw h refl)

  write_first : (e : Dec (a ≡ a)) (f : Dec (a ≡ b)) → write_by a e f ≡ ok (1 ∷ [])
  unfolding write_by
  write_first (yes p) f = refl
  write_first (no p) f = absurd (p refl)

  write_second : a ≢ b → (e : Dec (b ≡ a)) (f : Dec (b ≡ b)) → write_by b e f ≡ ok (2 ∷ [])
  unfolding write_by
  write_second n (yes p) f = absurd (n (sym p))
  write_second n (no p) (yes q) = refl
  write_second n (no p) (no q) = absurd (q refl)

  pub first_frame : encode_frame codec a ≡ ok (0 ∷ 0 ∷ 0 ∷ 1 ∷ 1 ∷ [])
  first_frame = framed_by a 1 (write_first (d a a) (d a b))

  pub second_frame : a ≢ b → encode_frame codec b ≡ ok (0 ∷ 0 ∷ 0 ∷ 1 ∷ 2 ∷ [])
  second_frame n = framed_by b 2 (write_second n (d b a) (d b b))

abbrev first : List ℕ
first = 0 ∷ 0 ∷ 0 ∷ 1 ∷ 1 ∷ []

abbrev second : List ℕ
second = 0 ∷ 0 ∷ 0 ∷ 1 ∷ 2 ∷ []

abbrev request : ClientRequest
request = record {
  protocol_version = 1;
  request_id = "r1";
  method = open_project "/work";
  idempotency_key = some "k1";
}

abbrev requests : Json ClientRequest
requests = codec ClientRequest-discrete request request

made : new_request "r1" (open_project "/work") (some "k1") ≡ ok request
unfolding new_request
made = refl

sent : encode_frame requests request ≡ ok first
sent = first_frame ClientRequest-discrete request request

decodes : decode_client_request_frame requests first ≡ ok request
decodes =
    request_round_trip requests "r1" (open_project "/work") (some "k1") {request = request} first
      made sent
