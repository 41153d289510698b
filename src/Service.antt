-- ===== src/Service.antt =====
-- crates/wf-observer-cli/src/service: the memory-free state of the service.
pub mod Queue
pub mod Catalog
pub mod Subscriber
pub mod Inner
pub mod Settle
pub mod Sync
pub mod Operation
pub mod Batch
pub mod Ticket
pub mod Publication
pub mod Discard
pub mod Commit
pub mod Subscription
pub mod View
pub mod Invariant
pub mod Fence
pub mod Reading
pub mod Bootstrap
pub mod Staging
pub mod Content
pub mod Listing
pub mod Examples
