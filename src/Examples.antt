-- ===== src/Examples.antt =====
-- The theorems at concrete inputs, a module for each component.
mod Requests
mod Plans
mod Queues
mod Operations
mod Documents
mod Rankings
mod Costs
mod Workers
mod Revisions
mod Recoveries
