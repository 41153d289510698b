-- ===== src/Service/Examples.antt =====
-- crates/wf-observer-cli/src/service: a run of the service with one provider, one session and one
-- subscription, on which the theorems are applied.
use wf_observer.Common.{
  ℕ, suc, ◌+◌, ◌≤◌, ◌≡◌, length, All, refl, String, Bool, true, false, Option, none, some, List, [],
  ◌∷◌, ◌++◌, done, arith,
}
use wf_observer.Wire.{
  TopicRef, TopicSource, SessionRef, SubscriptionItem, SubscriptionEnd, Subscribe, SessionSelector,
  SessionInfo, CapabilityHealth, Catalog, JsonPayload, DataEnvelope, ServiceStatus, Result, ok, err,
}
use wf_observer.Runtime
use wf_observer.Runtime.{HostStatus, Activity}
use wf_observer.Provider
use wf_observer.Service.Catalog.{catalog}
use wf_observer.Service.Listing.{all_providers, IsProviderListing, catalog-IsProviderListing}
use wf_observer.Service.Inner.{Inner, Topic}
use wf_observer.Service.Operation.{Operation}
use wf_observer.Service.Batch.{Pending}
use wf_observer.Service.Ticket.{PollTicket, current}
use wf_observer.Service.Settle.{settle, settle_loop, expire}
use wf_observer.Service.Sync.{sync_runtime}
use wf_observer.Service.Commit.{commit_poll}
use wf_observer.Service.Discard.{discard_poll}
use wf_observer.Service.Subscription.{Readings, capture, subscribe}
use wf_observer.Service.View
use wf_observer.Service.View.{GetSnapshot, snapshot}
use wf_observer.Service.Queue
use wf_observer.Service.Queue.{Queue}
use wf_observer.Service.Queue.Order.{
  contents, delivered, first, rest, Offers, Finishes, delivered-contents, pop-contents,
  offer-contents, finish-contents,
}
use wf_observer.Service.Queue.Bounds.{Use, QueueIsValid, used, used-IsValid}
use wf_observer.Service.Fence.{IsAsBefore, Leaves, Accepts, commit_poll-Leaves, accepted-IsFresh}
use wf_observer.Service.Reading.{IsCurrent, snapshot-IsCurrent}
use wf_observer.Service.Bootstrap.{IsBootstrap, capture-IsBootstrap}
use wf_observer.Service.Staging.{Emission, PendingIsValid, polled}
use wf_observer.Service.Content.{Holds, polled_lem}
use wf_observer.Service.Invariant.{InnerIsValid, InnerIsSettled}
use wf_observer.Service.Invariant.Settle.{settle_settles, settle_terminates, expire_settles}
use wf_observer.Service.Invariant.Sync.{sync_runtime-IsValid, sync_runtime-IsSettled}
use wf_observer.Service.Invariant.Stage.{IsPublished}
use wf_observer.Service.Invariant.Poll.{Stands, commit_poll-Stands}
use wf_observer.Service.Invariant.Discard.{discard_poll-Stands}
use wf_observer.Service.Invariant.Subscribe.{subscribe-Stands}
use wf_observer.Service.Invariant.Reach.{Call, run, MayCall, Reaches, reached-Stands}

abbrev declared_chat : Provider.CapabilityDescriptor
declared_chat = record {
  topic = "chat";
  schema_version = 1;
  snapshots = some Provider.SnapshotDelivery.full;
  events = true;
}

abbrev pub manifest : Provider.ProviderManifest
manifest = record {
  id = "warframe";
  name = "Warframe";
  version = "1";
  game = record { id = "warframe"; name = "Warframe" };
  capabilities = declared_chat ∷ [];
}

abbrev listed : Catalog
listed = record {
  providers =
      record {
        id = "warframe";
        name = "Warframe";
        version = "1";
        game = record { id = "warframe"; name = "Warframe" };
        capabilities =
            record { topic = "chat"; schema_version = 1; snapshots = true; events = true } ∷ [];
      }
      ∷ [];
}

abbrev chat : TopicRef
chat = record { provider_id = "warframe"; topic = "chat"; schema_version = 1 }

abbrev host : HostStatus
host = record {
  discovery_error = none;
  targets =
      record {
        target = record {
          process = record { pid = 7; start_marker = 1 };
          executable = "Warframe.x64.exe";
          provider_id = "warframe";
          game_id = "warframe";
        };
        activity = Activity.observing "a";
      }
      ∷ [];
}

abbrev selection : Subscribe
selection = record { sessions = SessionSelector.all; topics = chat ∷ [] }

abbrev ticket : PollTicket
ticket = record { session_id = "a"; topics = record { key = chat; generation = 2; epoch = 1 } ∷ [] }

abbrev stale : PollTicket
stale = record { session_id = "a"; topics = record { key = chat; generation = 1; epoch = 1 } ∷ [] }

abbrev pending : Pending
pending = record {
  ops = Operation.snapshot chat (record { text = "[]" }) ∷ [];
  resets = [];
  game_build = none;
  bytes = 100;
  failed = false;
}

abbrev pub item_size : SubscriptionItem → Option ℕ
item_size item = some 10

abbrev request_size : Subscribe → Option ℕ
request_size request = some 10

abbrev status_size : ServiceStatus → Option ℕ
status_size status = some 10

abbrev all_at : ℕ → Readings
all_at now = record { expired = now; registered = now; dropped = now }

abbrev step : Call → Inner → Inner
step = run item_size request_size status_size

abbrev idle_state : Inner
idle_state = View.started listed "run" 1000

abbrev attached : Inner
attached = step (Call.sync_runtime host 0) idle_state

abbrev pub watched : Inner
watched = step (Call.subscribe selection (all_at 0)) attached

abbrev sampled : Inner
sampled = step (Call.commit_poll ticket pending 100 1) watched

starts : View.new (manifest ∷ []) "run" 1000 ≡ done idle_state
unfolding View.new wf_observer.Service.Catalog.catalog wf_observer.Service.Catalog.add_providers
    wf_observer.Service.Catalog.add_provider wf_observer.Common.any
    wf_observer.Service.Catalog.add_capabilities wf_observer.Service.Catalog.add_capability
starts = refl

accepted : (sync_runtime item_size host 0 idle_state).1 ≡ ok tt
unfolding sync_runtime Runtime.HostStatus-discrete wf_observer.Service.Sync.add_sessions
    wf_observer.Service.Sync.incoming wf_observer.Common.fold wf_observer.Common.insert
    wf_observer.Common.retain wf_observer.Service.Sync.add_session wf_observer.Common.find
    wf_observer.Service.Inner.ensure_sequences wf_observer.Common.checked_add
accepted = refl

pending-IsPublished : All IsPublished pending.ops
pending-IsPublished = (tt, tt)

abbrev Reached : Inner → Type 0
Reached = Reaches item_size request_size status_size (manifest ∷ []) "run" 1000

idle-Reached : Reached idle_state
idle-Reached = Reaches.starts starts

attached-Reached : Reached attached
unfolding MayCall
attached-Reached = Reaches.steps (Call.sync_runtime host 0) idle-Reached accepted

watched-Reached : Reached watched
unfolding MayCall
watched-Reached = Reaches.steps (Call.subscribe selection (all_at 0)) attached-Reached tt

sampled-Reached : Reached sampled
unfolding MayCall
sampled-Reached =
    Reaches.steps (Call.commit_poll ticket pending 100 1) watched-Reached pending-IsPublished

reached-Stands_example : Stands sampled
reached-Stands_example =
    reached-Stands item_size request_size status_size (manifest ∷ []) "run" 1000 sampled
      sampled-Reached

stands : (s : Inner) → Reached s → Stands s
stands s r = reached-Stands item_size request_size status_size (manifest ∷ []) "run" 1000 s r

commit_poll-Leaves_example : Leaves sampled (commit_poll item_size stale pending 100 1 sampled)
commit_poll-Leaves_example = commit_poll-Leaves item_size stale pending 100 1 sampled

abbrev source : TopicSource
source = record {
  session = record { run_id = "run"; session_id = "a" };
  game_id = "warframe";
  topic = chat;
}

abbrev data_read : DataEnvelope
data_read = record {
  metadata = record { source = source; generation = 2; sequence = 5 };
  payload = record { text = "[]" };
}

abbrev request : GetSnapshot
request = record { session = source.session; topic = chat }

abbrev info : SessionInfo
info = record {
  session = source.session;
  provider_id = "warframe";
  game_id = "warframe";
  target = record { pid = 7; executable = "Warframe.x64.exe" };
  game_build = none;
}

abbrev topic : Topic
topic = record {
  state = record {
    source = source;
    generation = 2;
    health = CapabilityHealth.available;
    snapshot = some data_read;
  };
  demanded = true;
  epoch = 1;
  deadline = some 100;
}

-- The same state, written out.
abbrev held : Inner
held = record {
  catalog = listed;
  message_bytes = 1000;
  run_id = "run";
  sequence = 5;
  runtime = host;
  sessions = ("a", record { info = info; topics = (chat, topic) ∷ [] }) ∷ [];
  subscribers = (1, record { selection = selection; active = true }) ∷ [];
  next_subscription = 1;
  revision = 1;
  stopped = false;
  queues = λ _. Queue.new 1000;
}

held-IsValid : InnerIsValid held
held-IsValid = record {
  sessions = (
    record {
      named = refl;
      topics = (
        record {
          sound = record {
            owned = refl;
            numbered = omega arith;
            generation_fits = omega arith;
            epoch_fits = omega arith;
            carries = (refl, refl, refl, omega arith, omega arith);
          };
          rests = λ e. ground arith;
        },
        tt,
      );
    },
    tt,
  );
  sequence_fits = omega arith;
}

answered : (snapshot item_size request 2 held).1 ≡ ok data_read
unfolding snapshot wf_observer.Service.Inner.session expire wf_observer.Service.Settle.sweep
    wf_observer.Service.Settle.sweep_topics wf_observer.Service.Settle.expire_topic
    wf_observer.Service.Settle.deadline_passed settle settle_loop
    wf_observer.Service.Settle.any_ended wf_observer.Service.Settle.settle_round
    wf_observer.Service.Settle.publish wf_observer.Service.Settle.prune
    wf_observer.Service.Settle.settle_topic wf_observer.Service.Settle.demanded_by
    wf_observer.Common.any wf_observer.Common.retain wf_observer.Common.contains
    wf_observer.Common.filter wf_observer.Common.find wf_observer.Common.get
    wf_observer.Service.Catalog.identifier wf_observer.Service.Inner.capability
    wf_observer.Service.Inner.capability_of Queue.new Queue.ended
    wf_observer.Service.Subscriber.matches wf_observer.Service.Subscriber.matches_session
    wf_observer.Service.Subscriber.selects View.answer View.read wf_observer.Wire.TopicRef-discrete
    native.Mathlib.Decide.ℕ_discrete
answered = refl

snapshot-IsCurrent_example : IsCurrent (snapshot item_size request 2 held).0 request data_read
snapshot-IsCurrent_example =
    snapshot-IsCurrent item_size request 2 held data_read held-IsValid answered

settle_settles_example :
    InnerIsValid (settle item_size 3 sampled) × InnerIsSettled (settle item_size 3 sampled)
settle_settles_example = settle_settles item_size 3 sampled (stands sampled sampled-Reached).valid

settle_terminates_example :
    settle_loop item_size (suc (length sampled.subscribers) + 5) 3 sampled
    ≡ settle item_size 3 sampled
settle_terminates_example = settle_terminates item_size 3 sampled 5

expire_settles_example :
    InnerIsValid (expire item_size 200 sampled) × InnerIsSettled (expire item_size 200 sampled)
expire_settles_example = expire_settles item_size 200 sampled (stands sampled sampled-Reached).valid

abbrev frames : List SubscriptionItem
frames =
    SubscriptionItem.begin (record { run_id = "run"; sequence = 5 })
    ∷ SubscriptionItem.session info
    ∷ SubscriptionItem.topic topic.state
    ∷ SubscriptionItem.ready (record { run_id = "run"; sequence = 5 })
    ∷ []

captured : capture item_size request_size held 1 ≡ ok frames
unfolding capture wf_observer.Service.Subscription.push wf_observer.Service.Catalog.message_fits
    wf_observer.Common.checked_add wf_observer.Common.get
    wf_observer.Service.Subscription.push_sessions wf_observer.Service.Subscriber.matches_info
    wf_observer.Common.any wf_observer.Service.Subscriber.matches wf_observer.Common.contains
    wf_observer.Wire.TopicRef-discrete native.Mathlib.Decide.ℕ_discrete
    wf_observer.Service.Inner.cursor
captured = refl

capture-IsBootstrap_example : IsBootstrap item_size request_size held 1 frames
capture-IsBootstrap_example = capture-IsBootstrap item_size request_size held 1 frames captured

subscribe-Stands_example : Stands (subscribe item_size request_size selection (all_at 4) sampled).0
subscribe-Stands_example =
    subscribe-Stands item_size request_size selection (all_at 4) sampled
      (stands sampled sampled-Reached)

commit_poll-Stands_example : Stands (commit_poll item_size ticket pending 100 1 watched).0
commit_poll-Stands_example =
    commit_poll-Stands item_size ticket pending 100 1 watched pending-IsPublished
      (stands watched watched-Reached)

discard_poll-Stands_example : Stands (discard_poll item_size ticket (chat ∷ []) true 2 sampled).0
discard_poll-Stands_example =
    discard_poll-Stands item_size 2 ticket (chat ∷ []) true sampled (stands sampled sampled-Reached)

sync_runtime-IsValid_example : InnerIsValid (sync_runtime item_size host 0 idle_state).0
sync_runtime-IsValid_example =
    sync_runtime-IsValid item_size host 0 idle_state (stands idle_state idle-Reached).valid

sync_runtime-IsSettled_example : InnerIsSettled (sync_runtime item_size host 0 idle_state).0
sync_runtime-IsSettled_example =
    sync_runtime-IsSettled item_size host 0 idle_state (stands idle_state idle-Reached).valid
      (stands idle_state idle-Reached).settled accepted

abbrev queue : Queue
queue = record {
  initial = SubscriptionItem.begin (record { run_id = "run"; sequence = 4 }) ∷ [];
  updates = (SubscriptionItem.session info, 10) ∷ [];
  bytes = 10;
  terminal = none;
  completed = false;
  message_bytes = 100;
}

delivered-contents_example : delivered 3 queue ≡ contents queue
delivered-contents_example = delivered-contents 3 queue (omega arith)

pop-contents_example :
    ((Queue.pop queue).0 ≡ first (contents queue))
    × (contents (Queue.pop queue).2 ≡ rest (contents queue))
pop-contents_example = pop-contents queue

offer-contents_example : Offers item_size queue (SubscriptionItem.session info)
offer-contents_example = offer-contents item_size queue (SubscriptionItem.session info)

finish-contents_example : Finishes queue SubscriptionEnd.service_stopped true
finish-contents_example = finish-contents queue SubscriptionEnd.service_stopped true

abbrev uses : List Use
uses =
    Use.pop
    ∷ Use.offer (SubscriptionItem.session info)
    ∷ Use.finish SubscriptionEnd.session_ended false
    ∷ Use.offer (SubscriptionItem.session info)
    ∷ []

used-IsValid_example : QueueIsValid item_size (used item_size 100 uses)
used-IsValid_example = used-IsValid item_size 100 uses

abbrev emissions : List (Emission String)
emissions =
    Emission.reset declared_chat
    ∷ Emission.snapshot declared_chat "[]"
    ∷ Emission.update declared_chat Provider.CapabilityHealth.available
    ∷ []

polled_lem_example :
    Holds 64
      (λ text. some text)
      manifest
      emissions
      (polled 64 (λ text. some text) manifest emissions)
    × PendingIsValid 64
        (λ text. some text)
        manifest
        (polled 64 (λ text. some text) manifest emissions)
polled_lem_example = polled_lem 64 (λ text. some text) manifest emissions

catalog_done : catalog (manifest ∷ []) ≡ done listed
unfolding catalog wf_observer.Service.Catalog.add_providers wf_observer.Service.Catalog.add_provider
    wf_observer.Common.any wf_observer.Service.Catalog.add_capabilities
    wf_observer.Service.Catalog.add_capability
catalog_done = refl

catalog-IsProviderListing_example :
    (listed.providers ≡ all_providers (manifest ∷ [])) × IsProviderListing listed.providers
catalog-IsProviderListing_example = catalog-IsProviderListing (manifest ∷ []) listed catalog_done

committed : (commit_poll item_size ticket pending 100 1 held).1 ≡ ok true
unfolding commit_poll wf_observer.Common.get wf_observer.Common.any
    wf_observer.Service.Commit.is_stale wf_observer.Wire.TopicRef-discrete
    native.Mathlib.Decide.ℕ_discrete wf_observer.Service.Commit.resets_at_limit
    wf_observer.Service.Commit.check_poll wf_observer.Service.Publication.prepare
    wf_observer.Service.Publication.prepare_from wf_observer.Service.Publication.stage
    wf_observer.Service.Publication.validate wf_observer.Service.Publication.validate_topics
    wf_observer.Common.insert wf_observer.Service.Publication.validate_topic
    wf_observer.Service.Inner.capability wf_observer.Common.find wf_observer.Common.filter
    wf_observer.Service.Catalog.identifier wf_observer.Service.Inner.capability_of
    wf_observer.Service.Publication.apply wf_observer.Service.Publication.staged_or_current
    wf_observer.Common.contains_key wf_observer.Common.place
    wf_observer.Service.Publication.update_fits wf_observer.Service.Catalog.message_fits
    wf_observer.Service.Publication.validate_events wf_observer.Service.Publication.retained_bytes
    wf_observer.Service.Publication.topics_bytes wf_observer.Service.Publication.snapshot_bytes
    wf_observer.Service.Publication.replaced_bytes wf_observer.Service.Publication.widest
    wf_observer.Service.Commit.changed_info wf_observer.Service.Commit.info_fits
    wf_observer.Service.Commit.apply_poll wf_observer.Service.Commit.commit_checked
    wf_observer.Service.Inner.ensure_sequences wf_observer.Common.checked_add
    wf_observer.Service.Commit.OptionString-discrete wf_observer.Service.Operation.operation_key
    wf_observer.Common.fold
committed = refl

held_ticket : current held "a" ≡ some ticket
unfolding current wf_observer.Common.get
held_ticket = refl

accepted-IsFresh_example : Accepts held ticket pending (ok true) × IsAsBefore held "a" chat topic
unfolding wf_observer.Common.get wf_observer.Wire.TopicRef-discrete native.Mathlib.Decide.ℕ_discrete
accepted-IsFresh_example =
    accepted-IsFresh item_size "a" ticket pending 100 1 held held
      (record { info = info; topics = (chat, topic) ∷ [] }) chat topic refl refl refl held_ticket
      committed
