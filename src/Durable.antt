-- ===== src/Durable.antt =====
-- orchestration/durable_repository.py: the queue of durable workflows. A method is an action on the
-- database within a transaction, which a raise rolls back.
pub mod Rows
pub mod Session
pub mod Lease
pub mod Control
pub mod Work
pub mod Save
pub mod Receipts
pub mod Enqueue
pub mod Recovery
pub mod Integrity
pub mod Fencing
pub mod Generations
pub mod Claims
pub mod Saved
pub mod Submitted
pub mod Uncertain
pub mod Expecting
pub mod Cancels
pub mod Approved
pub mod Approvals
