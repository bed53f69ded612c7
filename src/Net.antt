-- ===== src/Net.antt =====
-- Outbound requests of crates/reader-web-runtime: which URLs and addresses may be reached.
pub mod Error
pub mod Address
pub mod Limits
pub mod Policy
pub mod Redirect
pub mod Body
pub mod Health
