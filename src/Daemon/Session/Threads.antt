-- ===== src/Daemon/Session/Threads.antt =====
-- Several calls at once (crates/kesharon-daemon/src/session.rs): each `open_project` runs between its
-- two critical sections without the lock, in steps of its own, and any other call may come in between.
pub mod Execute
pub mod Flags
pub mod Coherent
pub mod Begin
pub mod Maps
pub mod Preserve
pub mod Steps
pub mod Cancels
pub mod Rest
pub mod Tests
use kesharon.Prelude.{
  ℕ, ◌≡◌, String, Bool, true, false, Option, none, some, List, [], ◌∷◌, ◌++◌, if◌then◌else◌,
  get_elem?, set, Result, ok, err,
}
use kesharon.Application.Error.{ApplicationError, cancelled}
use kesharon.Application.OpenProject.{OpenProjectCommand, build}
use kesharon.Application.Ports.{
  RepositoryInspection, RepositoryService, IdGenerator, StateRepository,
}
use kesharon.Domain.Project.{Project}
use kesharon.Protocol.Response.{ServerResponse}
use kesharon.Protocol.Event.{StreamMessage}
use kesharon.Daemon.Session.State.{SessionState, Memory, Channel, World, open_project as fp_open}
use kesharon.Daemon.Session.Open.{Begun, replied, started, is_set, begin, finish}
use kesharon.Daemon.Session.Cancel.{cancel_locked, subscribe_locked}

-- Where a running `OpenProject::execute` stands: before its first reading of the signal, before the
-- inspection, before the second reading, or at its result.
pub data Stage : Type 0 where
  checking inspecting : Stage
  inspected : RepositoryInspection → Stage
  settled : Result Project ApplicationError → Stage

-- The local variables of a call of `open_project` that does not hold the lock.
pub record Operation : Type 0 where
  pub request_id : String
  pub key : String
  pub path : String
  pub cancellation : ℕ
  pub stage : Stage

abbrev pub command_of : Operation → OpenProjectCommand
command_of op = record { requested_path = op.path; trusted = false }

abbrev after_inspection : Result RepositoryInspection ApplicationError → Stage
after_inspection (ok inspection) = inspected inspection
after_inspection (err e) = settled (err e)

-- One step of `execute`, with what the memory's flag and the ports answer at that moment.
unfoldable pub advance_stage :
    Bool → RepositoryService → IdGenerator → OpenProjectCommand → Stage → Stage
advance_stage flag service ids command checking =
    if flag then settled (err cancelled) else inspecting
advance_stage flag service ids command inspecting =
    after_inspection (service.inspect command.requested_path)
advance_stage flag service ids command (inspected inspection) =
    if flag then settled (err cancelled) else settled (build ids command inspection)
advance_stage flag service ids command (settled result) = settled result

unfoldable pub advance : Memory → RepositoryService → IdGenerator → Operation → Operation
unfolding advance_stage
advance m service ids op = record op {
  stage = advance_stage (is_set m op.cancellation) service ids (command_of op) op.stage;
}

-- The receiver takes the oldest message, or goes away.
unfoldable pub receive : Memory → ℕ → List StreamMessage → Memory
receive m address rest = elim (get_elem? m.channels address) [
  | none ↦ m
  | some c ↦ record m { channels = set m.channels address (record c { queue = rest }) }
]

unfoldable pub hang_up : Memory → ℕ → Memory
hang_up m address = elim (get_elem? m.channels address) [
  | none ↦ m
  | some c ↦ record m { channels = set m.channels address (record c { connected = false }) }
]

pub record Machine (S : Type 0) : Type 0 where
  pub world : World S
  pub operations : List Operation

module _ {S : Type 0} (stream_id : String) (ports : StateRepository S) where
  -- One step of some thread.
  pub data Step (x y : Machine S) : Type 0 where
    -- a first critical section that ends in a running operation
    opens :
        (op : Operation) (m : Memory)
        → x.world.poisoned ≡ false
        → op.stage ≡ checking
        → begin stream_id x.world.memory op.request_id op.key op.path ≡ (started op.cancellation, m)
        → y ≡ record { world = record x.world { memory = m }; operations = x.operations ++ op ∷ [] }
        → Step x y
    -- one that ends in a reply
    answers :
        (request_id key path : String) (response : ServerResponse) (m : Memory)
        → x.world.poisoned ≡ false
        → begin stream_id x.world.memory request_id key path ≡ (replied response, m)
        → y ≡ record x { world = record x.world { memory = m } }
        → Step x y
    -- a step between the critical sections
    advances :
        (before after : List Operation) (op : Operation) (service : RepositoryService)
        (ids : IdGenerator)
        → x.operations ≡ before ++ op ∷ after
        → y ≡ record x { operations = before ++ advance x.world.memory service ids op ∷ after }
        → Step x y
    -- a second critical section
    finishes :
        (before after : List Operation) (op : Operation) (result : Result Project ApplicationError)
        → x.world.poisoned ≡ false
        → op.stage ≡ settled result
        → x.operations ≡ before ++ op ∷ after
        → y ≡ record {
          world = (finish stream_id ports x.world op.request_id op.key (fp_open op.path) result).1;
          operations = before ++ after;
        }
        → Step x y
    cancels :
        (request_id key target : String)
        → x.world.poisoned ≡ false
        → y ≡ record x {
          world = record x.world {
            memory = (cancel_locked x.world.memory request_id key target).1;
          };
        }
        → Step x y
    subscribes :
        x.world.poisoned ≡ false
        → y ≡ record x {
          world = record x.world { memory = (subscribe_locked stream_id x.world.memory).1 };
        }
        → Step x y
    receives :
        (address : ℕ) (c : Channel) (message : StreamMessage) (rest : List StreamMessage)
        → get_elem? x.world.memory.channels address ≡ some c
        → c.queue ≡ message ∷ rest
        → y ≡ record x { world = record x.world { memory = receive x.world.memory address rest } }
        → Step x y
    hangs_up :
        (address : ℕ)
        → y ≡ record x { world = record x.world { memory = hang_up x.world.memory address } }
        → Step x y

  -- What the threads can reach from a machine.
  pub data Reach (x : Machine S) : Machine S → Type 0 where
    here : Reach x x
    next : {y z : Machine S} → Reach x y → Step y z → Reach x z
