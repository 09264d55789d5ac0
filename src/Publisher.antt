-- ===== src/Publisher.antt =====
-- hm6/producer: schemas that are registered, and events that are sent to the topic of the warehouse.
pub mod Registry
pub mod Latest
pub mod Registered
pub mod Demo
pub mod Sends
pub mod Arrivals
pub mod Consumed
pub mod Stages
pub mod Events
pub mod Deliveries
pub mod EndToEnd
