-- ===== src/Attachment.antt =====
-- crates/wf-observer-cli/src/provider_host: a provider that is attached to a process.
pub mod Session
pub mod Schedule
pub mod Polling
pub mod Protocol
pub mod Failure
pub mod Examples
