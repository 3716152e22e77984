-- ===== src/Daemon/Runtime/Accepting/Completed.antt =====
-- A course of the accept loop as a whole: no connection is lost.
use kesharon.Prelude.{List}
use kesharon.Ipc.Accept.{Accepting}
use kesharon.Daemon.Runtime.{Runtime}
