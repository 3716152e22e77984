-- ===== src/Lib.antt =====
-- Kesharon, a local desktop agent: the Rust daemon and its desktop host.
--
-- The parts and how they interact. The domain crate (crates/kesharon-domain) holds identifiers,
-- budgets, projects and the task with its state machine. The application crate
-- (crates/kesharon-application) states the ports and the use cases that the daemon runs. The protocol
-- crate (crates/kesharon-protocol) is the wire format: requests, responses, events, frames and the
-- launch token. The daemon (crates/kesharon-daemon) authenticates a connection, decodes a request and
-- dispatches it to its session, which runs `OpenProject`, keeps a ledger of completed mutations and
-- numbers the events for one subscriber.
--
-- Which file models which part.
--   * Prelude and its children: numbers, lists, `Result` and text as the other files share them.
--   * HashMap: `HashMap<String, V>` and `HashSet<String>` as association lists, with their laws;
--     HashMap/Tracks relates a map to the list of its keys.
--   * Domain/Budget, Domain/Project, Domain/Task: crates/kesharon-domain/src. A method on `&mut self`
--     returns its result and the new value. Domain/Task/Lifecycle has histories of method calls.
--   * Protocol/Request, Response, Event, Error: the message types. Protocol/Frame: `encode_frame` and
--     the `decode_*_frame` functions over bytes. Protocol/Token: `LaunchToken`, over the bytes of a
--     `&str`; a slice inside a character panics, which is the result `none`.
--   * Application/Ports: the traits as records. Application/OpenProject, Application/Recovery: the use
--     cases `OpenProject::execute` and `SessionRecovery::execute`.
--   * Daemon/Session: crates/kesharon-daemon/src/session.rs. State has the shared memory, with flags
--     and channels behind addresses; Emit is `emit_locked`, Ledger is `remember_completed`, Open is
--     `open_project` in its two critical sections, Cancel is `cancel`, `subscribe` and `dispatch`.
--     Threads has the interleavings of several calls as a step relation: `OpenProject::execute` runs
--     in steps of its own between the critical sections. Restore has the constructors of a session.
--   * Daemon/Storage: crates/kesharon-daemon/src/storage.rs. Sql has a constructor for each SQL text
--     and the connection as a parameter; Convert, Projects, Tasks and Records are the functions, and
--     Open opens the database and has the sessions that stand on it.
--   * Daemon/Server: crates/kesharon-daemon/src/lib.rs. Connection reads an authenticated request,
--     Serve is `serve_local_stream`, `serve_subscription` and `reject_busy_connection`; a stream is
--     what its reads and writes meet. Busy is about rejections, Once is `serve_local_connection`, and
--     Piped is `serve_connection` over a reader and a writer. Daemon/Start: the `run` of
--     crates/kesharon-daemon/src/main.rs up to the choice of how it serves. Daemon/Runtime: the permits
--     of runtime.rs, and in Accepting its accept loop, whose turns say what the listener answers and
--     which threads end. Daemon/Vault: vault.rs. Daemon/Repository: the inspection of repository.rs,
--     over a file system as parameter.
--   * Host: apps/desktop/src-tauri/src/lib.rs. Client and Subscribe are `DaemonClient` and
--     `DaemonSubscription`, Launch is `LaunchConfiguration`, State is `DaemonState` with the commands
--     that read it, Process is `start_daemon` with the task that watches the process, and Loop is the
--     task of `execute_subscribe_daemon_events` as a state machine whose rounds are its steps.
--     Remote and Delivery put the client and the daemon together over one connection.
--   * Ipc: the timed loops of crates/kesharon-ipc/src/lib.rs, over what the operating system answers;
--     Accept is `accept_with_timeout`.
--
-- Bounds. A u16, u64 or usize is a natural number. Where the source could leave the range of its type
-- the model writes out what it does: `checked_add` on the event sequence, the conversions to and from
-- the i64 of a column, the `fetch_sub` of a permit, which wraps around, and the cut at a second of the
-- backoff. The sequence number that the host expects next is not bounded: its `+ 1` is unchecked, and
-- behind the last u64 a debug build panics and a release build expects 0, which no event has. Loops
-- recur on their list or on the number of rounds left, so no fuel is used but for the decimal digits of
-- a number, where the number itself is enough; an accept, a read or a write recurs on the answers of the
-- operating system, and a theorem says when it returns.
--
-- Not under the source: `serde_json` is the parameter `Json`, of which it is assumed that a message
-- that was written is read back; the file system, the identifier generator and the storage are the
-- records of Application/Ports, and `rusqlite` is the parameter `Connection` of Daemon/Storage/Sql, of
-- which `IsSql` states what the SQL texts mean, and `Opening` of Daemon/Storage/Open. No theorem relies
-- on an order in which a `HashMap` is iterated.
--
-- Not modelled: binding and connecting of sockets, which are calls of the operating system, `Debug`
-- texts but that of a session's error, the test barrier of the repository, the texts of the tables and
-- pragmas, the desktop window, tray and directory dialog, the exit of the application, which kills the
-- child, and the TypeScript packages.
pub mod Prelude
pub mod Domain
pub mod HashMap
pub mod Protocol
pub mod Application
pub mod Daemon
pub mod Ipc
pub mod Host
