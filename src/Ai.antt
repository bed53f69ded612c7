-- ===== src/Ai.antt =====
-- crates/reader-ai/src: the parts of the account-owned conversations that are modelled.
pub mod Pricing
pub mod Stream
