-- ===== src/Daemon/Runtime/Accepting/Tests.antt =====
-- The accept loop at concrete turns: a connection is served, one gets no thread, and one panics.
use kesharon.Prelude.{ℕ, ◌≡◌, refl, true, false, none, List, [], ◌∷◌, ◌++◌, arith, ok}
use kesharon.Ipc.{arrives}
use kesharon.Ipc.Accept.{
  other, Stream, accept_with_timeout, connects, not_ready, interrupted, failed,
}
use kesharon.Protocol.Frame.Words.{to_be_bytes}
use kesharon.Protocol.Token.{parse_hex, to_hex, hex_digit}
use kesharon.Protocol.Token.Parse.{parse_hex-panics}
use kesharon.Protocol.Token.Tests.{token, repeat}
use kesharon.Daemon.Runtime.{Runtime, acquire, release}
use kesharon.Daemon.Server.{io}
use kesharon.Daemon.Server.Connection.{is_utf8}
use kesharon.Daemon.Server.Tests.{requests, responses}
use kesharon.Daemon.Runtime.Accepting.{
  new_runtime, Turn, stopped, panicked, remove_at, leave, admit, after_accept, run,
}
use kesharon.Daemon.Runtime.Accepting.Stops.{run-panics}

abbrev silent : ℕ → Stream
silent connection = record { connection = connection; answers = []; takings = [] }

abbrev turns : List Turn
turns =
    record {
      ended = [];
      nonblocking = ok tt;
      answers = interrupted ∷ not_ready false ∷ connects (silent 7) (ok tt) ∷ [];
      spawned = true;
    }
    ∷ record {
      ended = 0 ∷ [];
      nonblocking = ok tt;
      answers = not_ready true ∷ connects (silent 8) (ok tt) ∷ [];
      spawned = true;
    }
    ∷ record { ended = []; nonblocking = ok tt; answers = []; spawned = false }
    ∷ record {
      ended = [];
      nonblocking = ok tt;
      answers = failed (record { kind = other; message = "gone" }) ∷ [];
      spawned = false;
    }
    ∷ []

-- The first thread has ended, the second could not be started, and the loop stops at the failure.
stops :
    let c = run requests responses token new_runtime [] turns in
    (c.looping ≡ stopped (io "gone")) × (c.runtime ≡ new_runtime)
unfolding run acquire release leave after_accept accept_with_timeout admit remove_at
stops = (refl, refl)

abbrev full : Runtime
full = record { active_connections = 8; served = 0 ∷ 1 ∷ 2 ∷ 3 ∷ 4 ∷ 5 ∷ 6 ∷ 7 ∷ [] }

-- The byte 0x0f, then `x` and the two bytes of `é`.
abbrev presented : List ℕ
presented = to_hex (0x0f ∷ []) ++ b'x' ∷ 0xc3 ∷ 0xa9 ∷ repeat 59 (b'0' ∷ [])

presented_panics : parse_hex presented ≡ none
unfolding to_hex hex_digit
presented_panics =
    parse_hex-panics (0x0f ∷ []) b'x' 0xc3 0xa9 (repeat 59 (b'0' ∷ [])) (omega arith) (omega arith)
      (omega arith) (omega arith) refl

abbrev peer : Stream
peer = record {
  connection = 8;
  answers =
      arrives b'0' (b'f' ∷ b'x' ∷ 0xc3 ∷ 0xa9 ∷ repeat 59 (b'0' ∷ []) ++ 0 ∷ 0 ∷ 0 ∷ 1 ∷ 1 ∷ [])
      ∷ [];
  takings = [];
}

run-panics_example :
    (run requests responses token full [] (
      record {
        ended = [];
        nonblocking = ok tt;
        answers = connects peer (ok tt) ∷ [];
        spawned = true;
      }
      ∷ [])).looping
    ≡ panicked
unfolding to_hex hex_digit is_utf8 to_be_bytes
run-panics_example =
    run-panics requests responses token full peer true [] [] presented (1 ∷ []) [] refl
      presented_panics refl refl refl refl (omega arith)
