-- ===== src/Tests.antt =====
-- Runs of the programs on small inputs.
mod Warehouse
mod Stock
mod Batches
mod Publisher
mod Demo
mod Accepts
mod Orders
mod Lifetime
mod Messages
mod Delivery
mod Interleave
mod Commits
mod Movies
mod Engine
mod Aggregation
mod Health
