-- ===== src/Ipc/Accept.antt =====
-- `LocalServer::accept_with_timeout` of crates/kesharon-ipc/src/lib.rs. What the listener answers to
-- `accept` is a list; a call beyond it has not been answered yet.
pub mod Decided
use kesharon.Prelude.{ℕ, zero, suc, String, Bool, List, [], ◌∷◌, Result, ok, err}
use kesharon.Ipc.{Answer, Taking, wait_for_io, timed_out as deadline_message}

-- The kinds of an `io::Error` that the program tells apart.
pub data ErrorKind : Type 0 where
  timed_out invalid_input other : ErrorKind

pub record IoError : Type 0 where
  pub kind : ErrorKind
  pub message : String

-- A stream that `accept` gives, with what its reads and writes meet.
pub record Stream : Type 0 where
  pub connection : ℕ
  pub answers : List Answer
  pub takings : List Taking

-- What the next `accept` meets: a stream, with the result of making it nonblocking; `WouldBlock`, with
-- the deadline passed or not when the clock is read; an interruption; or another failure.
pub data Accepting (A : Type 0) : Type 0 where
  connects : A → (nonblocking : Result (Unit {0}) IoError) → Accepting A
  not_ready : (late : Bool) → Accepting A
  interrupted : Accepting A
  failed : IoError → Accepting A

-- A call that has returned, with the answers that it left, or one that still waits.
pub data Accepted (A : Type 0) : Type 0 where
  returned : Result A IoError → List (Accepting A) → Accepted A
  waiting : Accepted A

abbrev pub deadline_error : IoError
deadline_error = record { kind = timed_out; message = deadline_message }

abbrev pub made_nonblocking : {A : Type 0} → A → Result (Unit {0}) IoError → Result A IoError
made_nonblocking stream (ok _) = ok stream
made_nonblocking stream (err e) = err e

-- The loop, once the deadline is set.
unfoldable pub accept_loop : {A : Type 0} → List (Accepting A) → Accepted A
unfolding wait_for_io
accept_loop [] = waiting
accept_loop (connects stream nonblocking ∷ answers) =
    returned (made_nonblocking stream nonblocking) answers
accept_loop (not_ready late ∷ answers) =
    let rest = accept_loop answers in wait_for_io late (returned (err deadline_error) answers) rest
accept_loop (interrupted ∷ answers) = accept_loop answers
accept_loop (failed e ∷ answers) = returned (err e) answers

-- `nonblocking` is the result of making the listener nonblocking.
unfoldable pub accept_with_timeout :
    {A : Type 0}
    → (timeout : ℕ) → (nonblocking : Result (Unit {0}) IoError) → List (Accepting A)
    → Accepted A
unfolding accept_loop
accept_with_timeout zero nonblocking answers =
    returned (err (record { kind = invalid_input; message = "I/O timeout must be positive" }))
      answers
accept_with_timeout (suc n) (err e) answers = returned (err e) answers
accept_with_timeout (suc n) (ok _) answers = accept_loop answers
