-- ===== src/Transport.antt =====
-- crates/wf-observer-cli/src/transport: what the service sends on a subscription's stream.
pub mod Delivery
