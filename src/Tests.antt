-- ===== src/Tests.antt =====
-- Concrete parameters and inputs, on which the theorems are applied.
mod Json
mod Concrete
mod Wire
mod Calls
mod Tasks
mod Streams
mod Runs
mod Outcomes
mod Systems
mod Pipelines
mod Renewals
mod Sets
mod Batches
mod Params
