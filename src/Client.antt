-- ===== src/Client.antt =====
-- crates/wf-observer-sdk/src/subscription: the client's side of a subscription's stream.
pub mod Error
pub mod Validation
pub mod Reader
pub mod Keeping
pub mod Phases
pub mod Listener
pub mod Buffer
pub mod Feed
pub mod Agreement
pub mod Patches
pub mod Lockstep
pub mod Stream
mod Examples
