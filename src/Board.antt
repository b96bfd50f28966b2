-- ===== src/Board.antt =====
-- The task board: class TaskDB of db.ts.
pub mod Task
pub mod Create
pub mod Transitions
pub mod Finalizer
pub mod Heartbeat
pub mod Hygiene
pub mod Subagents
pub mod Lineage
pub mod Statement
pub mod Claims
pub mod Holding
pub mod Closing
pub mod Completion
pub mod Lifecycle
pub mod Beats
pub mod Hiring
pub mod Ancestry
