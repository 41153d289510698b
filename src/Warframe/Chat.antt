-- ===== src/Warframe/Chat.antt =====
-- crates/games/warframe/provider/src/topics/chat and crates/games/warframe/model/src/chat.rs: the chat
-- that is read from the game's memory, and the updates that it gives.
pub mod Model
pub mod Layout
pub mod History
pub mod Acquisition
pub mod Cursor
pub mod Bounds
pub mod Emission
pub mod Continuity
mod Examples
