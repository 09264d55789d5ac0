-- ===== src/Consumer.antt =====
-- hm6/consumer: one message after another is read from Kafka, decoded, handled, marked and written,
-- or sent to the dead letter queue.
pub mod World
pub mod Deserialize
pub mod Dlq
pub mod Process
pub mod Loop
pub mod Outcome
pub mod Safety
pub mod Idempotence
pub mod Replay
pub mod EventWrites
pub mod New
pub mod Interleave
pub mod Steps
pub mod Inventory
pub mod Redelivery
pub mod Written
pub mod Commits
pub mod Letters
pub mod Lag
pub mod Lags
pub mod Main
pub mod Degraded
pub mod Times
