-- ===== src/Lib.antt =====
-- A model of the observer: its service, which holds the state of every attached game session,
-- follows the lifecycle of the game's processes, takes what providers publish, and serves snapshots
-- and subscriptions; the stream from the service to a client, at both ends; and the bounded reads
-- of a game's memory that providers are written with, with one game's chat.
--
-- The parts and the files that model them:
--   Wire, Wire/*            crates/protocol/src/v1: the types of the protocol, by the file that
--                           declares them, and the result of a request with its bind
--   Runtime                 crates/wf-observer-cli/src/runtime/record.rs: the lifecycle status
--   Provider, Provider/*    crates/provider-sdk/src/contract: manifests, health, dependencies
--   Service/Queue           crates/wf-observer-cli/src/service/queue.rs: `Queue`
--   Service/Catalog         service/catalog.rs: the catalog and the checks that requests share
--   Service/Subscriber      service/subscriptions.rs: what a subscription asks for
--   Service/Inner           service/inner.rs: `Inner`, the sequence counter, delivery, `close`
--   Service/Settle          service/inner.rs: `settle` and `expire`
--   Service/Sync            service/inner.rs: `sync_runtime` and `add_session`
--   Service/Operation,      service/batch.rs: the provider's sinks and what they stage
--   Service/Batch
--   Service/Ticket,         service/publication.rs: tickets, staging and validation of a poll, its
--   Service/Publication,    commit, and the polls whose data is discarded
--   Service/Commit,
--   Service/Discard
--   Service/Subscription    service/subscriptions.rs: `subscribe`, `capture`, `next`, `drop`
--   Service/View            service/state.rs: `new`, `shutdown`, and the reads of `ServiceView`
--   Service/Invariant/*     what a state is at all times, by the operation that keeps it; Reach puts
--                           the operations together as the steps of one transition system
--   Service/Queue/*, Service/Fence, Service/Reading, Service/Bootstrap, Service/Staging,
--   Service/Content, Service/Listing
--                           what single components promise
--   Delta                   crates/protocol/src/v1/delta.rs, payload.rs: snapshots sent as patches
--   Transport/Delivery      crates/wf-observer-cli/src/transport/delivery.rs: `Delivery`, `serve`
--   Client/Error            crates/wf-observer-sdk/src/error.rs
--   Client/Validation       crates/wf-observer-sdk/src/subscription/validation.rs: `Validation`
--   Client/Reader           subscription/reader.rs: `Reader`, without its connection
--   Client/Listener         subscription/listener.rs: `Queue`, `Listener`, `Subscription`
--   Client/Feed             subscription/feed.rs: `Feed`, in a store of feeds and listeners
--   Client/Keeping,         the order of a stream's items as a state machine
--   Client/Phases
--   Client/Agreement,       the service's and the client's baselines, and what is received of what
--   Client/Patches,         is sent
--   Client/Lockstep,
--   Client/Stream
--   Client/Buffer,          what a listener holds and is shown
--   Client/Feed/Shown
--   Memory/Bytes            slices and little-endian integers
--   Memory/Address,         crates/provider-sdk/src/memory/address.rs, record.rs
--   Memory/Record
--   Memory/Reader           memory/reader.rs, error.rs, coherence.rs: `TargetReader`
--   Memory/Headers          crates/provider-sdk/src/pe/headers.rs
--   Memory/Budget,          what is asked of the memory, and that fields hold what was written
--   Memory/RoundTrip
--   Memory/Giving           what holds of the values that a chain of reads gives
--   Warframe/Text           crates/games/warframe/provider/src/native_string.rs
--   Warframe/Chat/Model     crates/games/warframe/model/src/chat.rs
--   Warframe/Chat/Layout,   crates/games/warframe/provider/src/topics/chat/layout.rs,
--   Warframe/Chat/History,  acquisition.rs and facts.rs, cursor.rs
--   Warframe/Chat/Acquisition,
--   Warframe/Chat/Cursor
--   Warframe/Chat/Bounds,   how much is read and published, and that nothing is lost
--   Warframe/Chat/Emission,
--   Warframe/Chat/Continuity
--   Client/Examples, Memory/Examples, Warframe/Chat/Examples
--                           concrete streams, listeners, readers and conversations
--   Service/Examples        a concrete run, on which the theorems are applied
--   Attachment/Session      crates/wf-observer-cli/src/provider_host/session.rs: the polls of an
--                           attached provider
--   Attachment/{Schedule,Polling,Failure,Protocol,Examples}
--                           when it is polled, what errors leave, the provider's calls, and a run
--   Common, Common/*        Boolean tests, equality and order as instances, ordered maps, list
--                           helpers and the 64-bit counters
--
-- How they interact: a provider's poll publishes into a batch outside the lock; `commit_poll` takes
-- the batch with a ticket of the generations and epochs that the poll began with, and commits it
-- as a whole or refuses it. Each change is numbered and offered to the queues of the subscriptions
-- that match. A queue that lags ends, and `settle` drops its subscription and the demand that only
-- it held. Every method runs under one lock, so an interleaving of the workers and the clients is a
-- sequence of steps.
--
-- The service's `Delivery` keeps, of each topic that is sent as patches, the last snapshot sent and
-- whether the client has acknowledged it; the client's `Reader` keeps the last that it received. A
-- frame is put together against that, validated, and handed to the feed, which shows its state to
-- the listeners. Acknowledgements travel on their own, so the service hears them at any time.
--
-- A host polls its attached provider when the demand has changed or the poll is due, hands the batch
-- to `commit_poll` with the ticket, and tells the provider whether it was kept.
--
-- A provider reads through a `TargetReader`, which checks each span and counts it against budgets.
-- The chat's acquisition walks the game's linked lists with it; the cursor compares what was read
-- with what was published and gives the updates of one poll.
--
-- Choices. The queues, which the service and the reader share, are a map from subscription identity
-- to queue in the state, so both see one queue. A `BTreeMap` is a list in the order of its keys
-- with no key twice. Instants are natural numbers of nanoseconds; each method takes as an argument
-- the clock's reading, or one for each time it reads the clock. 64-bit counters are natural numbers
-- with the tests of `checked_add` and `saturating_add` written out. The loop of `settle` runs on
-- fuel, one round more than there are subscribers; each further round drops one, so this is enough.
--
-- Parameters: the size of an encoded frame or request (`postcard`), the text of a JSON value
-- (`serde_json`), the size of `Operation`, the printed random run identity, the clock, and the
-- memory of a game. What other threads do to the service while a host polls is a function of its
-- state for each of the moments at which the host takes the lock again. Nothing is assumed of the
-- sizes. JSON values, JSON Patch and the hash are the record `Json`; of them `PatchLaws` assumes
-- that the difference of two values, applied to the first, gives the second by additions, removals
-- and replacements. The weak references between feeds and listeners are numbers in a store, from
-- which a dropped listener is absent. The walks of the game's lists recurse on how many nodes are
-- still admitted. The offsets in the game's objects and `String::from_utf8` are parameters.
--
-- Not modelled: the condition variable and the wake-ups, which hold no data; the caches of a
-- payload's hash and patch, which hold what would be computed; connections, authorisation prompts,
-- the operating system's processes and memory, which are I/O; the manager that chooses a feed for a
-- request; the worker that attaches to processes and the host's start; and the game's provider but
-- for its chat.
pub mod Common
pub mod Wire
pub mod Runtime
pub mod Provider
pub mod Service
pub mod Attachment
pub mod Delta
pub mod Transport
pub mod Client
pub mod Memory
pub mod Warframe
