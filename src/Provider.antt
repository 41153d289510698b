-- ===== src/Provider.antt =====
-- crates/provider-sdk/src: the contract between providers and the host.
mod Contract
unfoldable pub use Contract.*
