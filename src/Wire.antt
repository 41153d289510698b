-- ===== src/Wire.antt =====
-- The wire types of protocol/src/v1, by the file that declares them.
mod Identity
mod Health
mod Data
mod Stream
mod Error
unfoldable pub use Identity.*
unfoldable pub use Health.*
unfoldable pub use Data.*
unfoldable pub use Stream.*
unfoldable pub use Error.*
