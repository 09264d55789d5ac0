-- ===== src/Aggregation.antt =====
-- hm5/aggregation: the daily figures of the movies.
pub mod Ranking
pub mod Order
pub mod Scheduler
pub mod Runs
pub mod Queries
pub mod Totals
pub mod Counts
pub mod Top
pub mod Unwatched
pub mod Upserts
pub mod Stored
pub mod EndToEnd
pub mod Export
pub mod Routes
pub mod Answers
