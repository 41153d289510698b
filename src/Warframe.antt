-- ===== src/Warframe.antt =====
-- crates/games/warframe: the provider of one game, as far as it is modelled.
pub mod Text
pub mod Chat
