-- ===== src/Movies.antt =====
-- hm5/producer: synthetic events of people who watch movies, sent to Kafka.
pub mod Events
pub mod Producer
pub mod Generator
pub mod Follows
pub mod Protocol
pub mod Retries
pub mod Api
pub mod Published
