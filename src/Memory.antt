-- ===== src/Memory.antt =====
-- crates/provider-sdk/src/memory and crates/provider-sdk/src/pe: bounded reads of a game's memory.
pub mod Bytes
pub mod Address
pub mod Record
pub mod Reader
pub mod Budget
pub mod Giving
pub mod Headers
pub mod RoundTrip
mod Examples
