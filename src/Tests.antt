-- ===== src/Tests.antt =====
-- Runs of the modelled code on small inputs, and the theorems at such inputs.
mod Samples
mod Caching
mod Scoring
mod Filling
mod Spreading
mod Rolling
mod Queues
mod Selecting
mod Filters
mod Events
mod Accounts
mod Cycles
mod Portal
mod Controlling
mod Limiting
