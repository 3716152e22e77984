-- ===== src/Domain.antt =====
-- The domain crate, crates/kesharon-domain: identifiers, budgets, projects and tasks.
pub mod Budget
pub mod Project
pub mod Task
