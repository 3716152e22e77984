-- ===== src/Ipc.antt =====
-- The timed reads and writes of crates/kesharon-ipc/src/lib.rs over a local socket. What the operating
-- system answers to the calls is a list; a call beyond it has not been answered yet.
pub mod Read
pub mod Write
pub mod Whole
pub mod Deliver
pub mod Accept
pub mod Tests
use kesharon.Prelude.{
  ℕ, zero, suc, ◌+◌, ◌-◌, String, Bool, true, false, Option, none, some, List, [], ◌∷◌, ◌++◌, leb,
  if◌then◌else◌, length, take, drop, is_blank, Result, ok, err,
}

pub data EndpointError : Type 0 where
  blank : EndpointError

pub record LocalEndpoint : Type 0 where
  pub as_str : String

unfoldable pub new_endpoint : String → Result LocalEndpoint EndpointError
new_endpoint value = if is_blank value then err blank else ok (record { as_str = value })

-- What the next reads meet: bytes that have come, nothing (`Ok(0)` or `WouldBlock`), with the deadline
-- passed or not when the clock is read, an interruption, or a failure. A read takes as many of the
-- bytes as its buffer has room for, and the others stay for the next.
pub data Answer : Type 0 where
  arrives : (first : ℕ) (others : List ℕ) → Answer
  not_ready : (late : Bool) → Answer
  interrupted : Answer
  failed : (message : String) → Answer

abbrev pub timed_out : String
timed_out = "local IPC operation exceeded its deadline"

-- A call that has returned, with the answers that it left, or one that still waits.
pub data Call (A : Type 0) : Type 0 where
  returned : A → List Answer → Call A
  waiting : Call A

abbrev pub prepended : List ℕ → Call (Result (List ℕ) String) → Call (Result (List ℕ) String)
prepended bytes (returned (ok rest) answers) = returned (ok (bytes ++ rest)) answers
prepended bytes (returned (err e) answers) = returned (err e) answers
prepended bytes waiting = waiting

abbrev pub unread : List ℕ → List Answer → List Answer
unread [] answers = answers
unread (b ∷ bytes) answers = arrives b bytes ∷ answers

-- `wait_for_io`
unfoldable pub wait_for_io {ℓ} : {A : Type ℓ} → Bool → A → A → A
wait_for_io late over again = if late then over else again

-- `read_exact_with_timeout` for a buffer of `n` bytes.
unfoldable pub read_exact : List Answer → ℕ → Call (Result (List ℕ) String)
unfolding wait_for_io
read_exact answers zero = returned (ok []) answers
read_exact [] (suc n) = waiting
read_exact (arrives first others ∷ answers) (suc n) =
    let rest = read_exact answers (n - length others) in
    if leb (length others) n
    then prepended (first ∷ others) rest
    else returned (ok (first ∷ take n others)) (unread (drop n others) answers)
read_exact (not_ready late ∷ answers) (suc n) =
    let rest = read_exact answers (suc n) in
    wait_for_io late (returned (err timed_out) answers) rest
read_exact (interrupted ∷ answers) (suc n) = read_exact answers (suc n)
read_exact (failed message ∷ answers) (suc n) = returned (err message) answers

-- What the next call of `write` meets: it takes a byte and some more, or it does as a read.
pub data Taking : Type 0 where
  takes : (more : ℕ) → Taking
  not_ready : (late : Bool) → Taking
  interrupted : Taking
  failed : (message : String) → Taking

-- A write of a buffer: its result unless the call still waits, what has been written of the buffer,
-- and what later calls meet.
pub record Written : Type 0 where
  pub outcome : Option (Result (Unit {0}) String)
  pub bytes : List ℕ
  pub rest : List Taking

abbrev pub and_before : List ℕ → Written → Written
and_before bytes w = record w { bytes = bytes ++ w.bytes }

abbrev pub ended : Option (Result (Unit {0}) String) → List Taking → Written
ended outcome takings = record { outcome = outcome; bytes = []; rest = takings }

-- `write_all_with_timeout`
unfoldable pub write_all : List Taking → List ℕ → Written
unfolding wait_for_io
write_all takings [] = ended (some (ok tt)) takings
write_all [] (b ∷ buffer) = ended none []
write_all (takes more ∷ takings) (b ∷ buffer) =
    and_before (b ∷ take more buffer) (write_all takings (drop more buffer))
write_all (not_ready late ∷ takings) (b ∷ buffer) =
    let rest = write_all takings (b ∷ buffer) in
    wait_for_io late (ended (some (err timed_out)) takings) rest
write_all (interrupted ∷ takings) (b ∷ buffer) = write_all takings (b ∷ buffer)
write_all (failed message ∷ takings) (b ∷ buffer) = ended (some (err message)) takings
