-- ===== src/Ingest.antt =====
-- crates/reader-ingest/src: the collection of sources: their records, the batches that a poll
-- commits, and the jobs that do it.
pub mod Error
pub mod Record
pub mod Source
pub mod Batch
pub mod Poll
pub mod Worker
pub mod Cycle
pub mod Content
pub mod Delivery
