-- ===== src/Daemon/Runtime/Accepting.antt =====
-- `ServerRuntime::run` of crates/kesharon-daemon/src/runtime.rs: the accept loop, with what becomes of
-- each connection. The threads of the connections end between its turns.
pub mod Taken
pub mod Leaves
pub mod Admitted
pub mod Completed
pub mod Stops
pub mod Tests
use kesharon.Prelude.{
  ℕ, zero, suc, String, Bool, true, false, Option, none, some, List, [], ◌∷◌, ◌++◌, ltb,
  if◌then◌else◌, length, Result, ok, err,
}
use kesharon.Ipc.Accept.{
  ErrorKind, timed_out, IoError, Stream, Accepting, Accepted, returned, waiting,
  accept_with_timeout,
}
use kesharon.Protocol.Frame.{Json}
use kesharon.Protocol.Request.{ClientRequest}
use kesharon.Protocol.Response.{ServerResponse}
use kesharon.Protocol.Token.{LaunchToken}
use kesharon.Daemon.Runtime.{Runtime, acquire, release}
use kesharon.Daemon.Server.{DaemonError, io}
use kesharon.Daemon.Server.Serve.{Ending, over, blocked, broken, Serving, reject_busy_connection}

-- `ServerRuntime::new`
abbrev pub new_runtime : Runtime
new_runtime = record { active_connections = 0; served = [] }

-- What a turn of the loop meets: the positions of the connections whose threads end before it, the
-- result of making the listener nonblocking, what the listener answers behind the answers that are
-- left, and whether a thread can be started.
pub record Turn : Type 0 where
  pub ended : List ℕ
  pub nonblocking : Result (Unit {0}) IoError
  pub answers : List (Accepting Stream)
  pub spawned : Bool

-- What becomes of a connection.
pub data Fate : Type 0 where
  in_thread without_thread : Fate
  turned_away : Serving → Fate

pub record Admission : Type 0 where
  pub stream : Stream
  pub before : Runtime
  pub fate : Fate

-- The loop has returned an error; its thread has panicked; it waits in a rejection, or in
-- `accept_with_timeout`; or it has gone through all the turns.
pub data Looping : Type 0 where
  stopped : DaemonError → Looping
  panicked rejecting accepting running : Looping

-- A course of the loop, with the number of calls of `accept_with_timeout` that have returned.
pub record Course : Type 0 where
  pub looping : Looping
  pub runtime : Runtime
  pub admissions : List Admission
  pub calls : ℕ

abbrev pub at_rest : Looping → Runtime → Course
at_rest looping x = record { looping = looping; runtime = x; admissions = []; calls = 0 }

abbrev pub called : Course → Course
called c = record c { calls = suc c.calls }

abbrev pub and_then : Admission → Course → Course
and_then a c = record c { admissions = a ∷ c.admissions }

unfoldable pub remove_at : ℕ → List ℕ → List ℕ
remove_at i [] = []
remove_at zero (x ∷ xs) = xs
remove_at (suc i) (x ∷ xs) = x ∷ remove_at i xs

-- A thread ends and drops its permit.
unfoldable pub leave : Runtime → ℕ → Runtime
leave x i =
    if ltb i (length x.served)
    then record { active_connections = release x.active_connections; served = remove_at i x.served }
    else x

unfoldable pub leave_all : Runtime → List ℕ → Runtime
leave_all x [] = x
leave_all x (i ∷ is) = leave_all (leave x i) is

abbrev pub is_timed_out : ErrorKind → Bool
is_timed_out timed_out = true
is_timed_out _ = false

-- The loop goes on after a rejection that has returned; its error is only printed.
abbrev pub after_rejection : Ending → Runtime → Course → Course
after_rejection (over r) x c = c
after_rejection blocked x c = at_rest rejecting x
after_rejection broken x c = at_rest panicked x

module _ (requests : Json ClientRequest) (responses : Json ServerResponse)
    (token : LaunchToken) where
  abbrev pub rejection : Stream → Serving
  rejection stream = reject_busy_connection requests responses token stream.answers stream.takings

  -- A connection, with the result of `ConnectionPermit::acquire`.
  unfoldable pub admit : Runtime → Stream → Bool → Option ℕ → (Runtime → Course) → Course
  unfolding reject_busy_connection
  admit x stream true (some active) f =
      and_then (record { stream = stream; before = x; fate = in_thread })
        (f (record { active_connections = active; served = stream.connection ∷ x.served }))
  admit x stream false (some active) f =
      and_then (record { stream = stream; before = x; fate = without_thread })
        (f (record x { active_connections = release active }))
  admit x stream spawned none f =
      and_then (record { stream = stream; before = x; fate = turned_away (rejection stream) })
        (after_rejection (rejection stream).ending x (f x))

  unfoldable pub after_accept :
      Runtime
      → (spawned : Bool) → Accepted Stream
      → (Runtime → List (Accepting Stream) → Course)
      → Course
  unfolding acquire
  after_accept x spawned waiting f = at_rest accepting x
  after_accept x spawned (returned (err e) left) f =
      called (if is_timed_out e.kind then f x left else at_rest (stopped (io e.message)) x)
  after_accept x spawned (returned (ok stream) left) f =
      called (admit x stream spawned (acquire x.active_connections) (λ y. f y left))

  -- The loop, with the answers of the listener that earlier turns have left.
  unfoldable pub run : Runtime → List (Accepting Stream) → List Turn → Course
  unfolding leave_all
  run x left [] = at_rest running x
  run x left (t ∷ turns) =
      after_accept (leave_all x t.ended) t.spawned
        (accept_with_timeout 100 t.nonblocking (left ++ t.answers)) (λ y left'. run y left' turns)
