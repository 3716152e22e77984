-- ===== src/Daemon/Server/Connection.antt =====
-- Reading a request from a local stream, `read_authenticated_request` of
-- crates/kesharon-daemon/src/lib.rs.
use kesharon.Prelude.{
  ℕ, zero, suc, String, Bool, true, false, ◌&&◌, Option, none, some, List, [], ◌∷◌, ◌++◌, leb, ltb,
  if◌then◌else◌, Result, ok, err, map_err,
}
use kesharon.Ipc.{Answer, Call, returned, waiting, read_exact}
use kesharon.Protocol.Frame.{Json, decode_client_request_frame}
use kesharon.Protocol.Frame.Words.{from_be_bytes}
use kesharon.Protocol.Request.{ClientRequest}
use kesharon.Protocol.Token.{LaunchToken, matches_hex}
use kesharon.Daemon.Server.{DaemonError, authentication_failed, io, protocol, validate_frame_size}

-- The state of a check for UTF-8: how many continuation bytes must come, and the range of the next.
pub record Expected : Type 0 where
  pub count : ℕ
  pub low : ℕ
  pub high : ℕ

abbrev pub expect : ℕ → ℕ → ℕ → Option Expected
expect count low high = some (record { count = count; low = low; high = high })

-- The first byte of a character.
unfoldable pub first_byte : ℕ → Option Expected
first_byte b =
    if ltb b 0x80
    then expect 0 0 0
    else if leb 0xc2 b && leb b 0xdf
    then expect 1 0x80 0xbf
    else if leb 0xe0 b && leb b 0xe0
    then expect 2 0xa0 0xbf
    else if leb 0xed b && leb b 0xed
    then expect 2 0x80 0x9f
    else if leb 0xe1 b && leb b 0xef
    then expect 2 0x80 0xbf
    else if leb 0xf0 b && leb b 0xf0
    then expect 3 0x90 0xbf
    else if leb 0xf1 b && leb b 0xf3
    then expect 3 0x80 0xbf
    else if leb 0xf4 b && leb b 0xf4
    then expect 3 0x80 0x8f
    else none

unfoldable pub next_byte : Expected → ℕ → Option Expected
unfolding first_byte
next_byte e b = elim e.count [
  | zero ↦ first_byte b
  | suc n ↦ if leb e.low b && leb b e.high then expect n 0x80 0xbf else none
]

unfoldable pub utf8_from : Expected → List ℕ → Bool
unfolding next_byte
utf8_from e [] = elim e.count [ zero ↦ true | suc n ↦ false ]
utf8_from e (b ∷ bytes) = elim (next_byte e b) [ none ↦ false | some e' ↦ utf8_from e' bytes ]

-- `std::str::from_utf8` succeeds.
unfoldable pub is_utf8 : List ℕ → Bool
unfolding utf8_from
is_utf8 bytes = utf8_from (record { count = 0; low = 0; high = 0 }) bytes

-- What becomes of the thread: it has its result and the answers that are left, it still waits, or it
-- has panicked.
pub data Reading (A : Type 0) : Type 0 where
  finished : Result A DaemonError → List Answer → Reading A
  waits panicked : Reading A

-- A read of `n` bytes, and what comes after it if it succeeded.
abbrev pub after_read :
    {A : Type 0} → Call (Result (List ℕ) String) → (List ℕ → List Answer → Reading A) → Reading A
after_read (returned (ok bytes) rest) f = f bytes rest
after_read (returned (err message) rest) f = finished (err (io message)) rest
after_read waiting f = waits

-- `u32::from_be_bytes(prefix)`, of the four bytes that were read.
abbrev pub declared_in : List ℕ → ℕ
declared_in (a ∷ b ∷ c ∷ d ∷ bytes) = from_be_bytes a b c d
declared_in _ = 0

module _ (requests : Json ClientRequest) (launch_token : LaunchToken) where
  unfoldable pub check_token :
      (token frame : List ℕ) → List Answer → Option Bool → Reading ClientRequest
  check_token token frame rest none = panicked
  check_token token frame rest (some false) = finished (err authentication_failed) rest
  check_token token frame rest (some true) =
      finished (map_err protocol (decode_client_request_frame requests frame)) rest

  -- The length of the frame is known.
  unfoldable pub read_body :
      (token prefix : List ℕ)
      → ℕ
      → Result (Unit {0}) DaemonError
      → List Answer
      → Reading ClientRequest
  unfolding check_token
  read_body token prefix declared (err e) answers = finished (err e) answers
  read_body token prefix declared (ok _) answers =
      after_read (read_exact answers declared)
        (λ body rest. check_token token (prefix ++ body) rest (matches_hex launch_token token))

  unfoldable pub read_prefix : (token : List ℕ) → List Answer → Reading ClientRequest
  unfolding read_body
  read_prefix token answers = after_read (read_exact answers 4) (λ prefix rest.
      read_body token prefix (declared_in prefix) (validate_frame_size (declared_in prefix)) rest)

  unfoldable pub read_authenticated_request : List Answer → Reading ClientRequest
  unfolding read_prefix is_utf8
  read_authenticated_request answers = after_read (read_exact answers 64) (λ token rest.
      if is_utf8 token then read_prefix token rest else finished (err authentication_failed) rest)
