-- ===== src/Domain/Task.antt =====
-- crates/kesharon-domain/src/task.rs and id.rs: identifiers, plans, checkpoints and the task with
-- its state machine. A method on `&mut self` returns its result and the new task.
pub mod Error
pub mod State
pub mod Parts
pub mod Machine
pub mod Lifecycle
