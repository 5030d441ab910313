-- ===== src/Publisher.antt =====
-- engine/publisher: the retrying HTTP client of the ingestors, and the scheduler that runs them.
pub mod Httpx
pub mod Scheduler
