-- ===== src/Core.antt =====
-- The domain values of crates/reader-core.
pub mod Reason
pub mod Workspace
pub mod Subscription
pub mod Jobs
pub mod Article
pub mod Publication
pub mod Rules
pub mod WebFeed
