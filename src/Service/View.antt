-- ===== src/Service/View.antt =====
-- crates/wf-observer-cli/src/service/state.rs: the reads of `ServiceView`, and the operations of
-- `ServiceState` that are not a poll's. Each runs under the service's lock, so it is one step.
use wf_observer.Common.{
  ℕ, String, false, not, Option, none, some, List, [], map, if◌then◌else◌, ◌==◌, string_eq, get,
  values,
}
use wf_observer.Wire.{
  SessionRef, TopicRef, topic_ref_eq, CapabilityHealth, DataEnvelope, TopicStatus, TargetStatus,
  TargetActivity, DiscoveryHealth, ServiceStatus, Catalog, SubscriptionItem, SubscriptionEnd,
  RequestError, Result, ok, err, ◌>>=◌, ◌>>◌,
}
use wf_observer.Runtime
use wf_observer.Runtime.{HostStatus, Activity}
use wf_observer.Provider
use wf_observer.Service.Catalog.{invalid, message_fits}
use wf_observer.Service.Catalog
use wf_observer.Service.Inner.{Inner, Topic, cursor, capability, session, close}
use wf_observer.Service.Settle.{expire}
use wf_observer.Service.Queue
use wf_observer.Common.{Fallible, done, failed}

-- The state of a service that has just started.
abbrev pub started : Catalog → String → ℕ → Inner
started catalog run_id message_bytes = record {
  catalog = catalog;
  message_bytes = message_bytes;
  run_id = run_id;
  sequence = 0;
  runtime = record { discovery_error = none; targets = [] };
  sessions = [];
  subscribers = [];
  next_subscription = 0;
  revision = 0;
  stopped = false;
  queues = λ _. Queue.new message_bytes;
}

-- ServiceState::new, where `run_id` prints the fresh random number.
unfoldable pub new : List Provider.ProviderManifest → String → ℕ → Fallible Inner
new manifests run_id message_bytes = elim (Catalog.catalog manifests) [
  | failed m ↦ failed m
  | done catalog ↦ done (started catalog run_id message_bytes)
]

unfoldable pub shutdown : Inner → Inner
shutdown s = close s SubscriptionEnd.service_stopped

pub record GetSnapshot : Type 0 where
  pub session : SessionRef
  pub topic : TopicRef

-- What a topic's health answers.
unfoldable pub answer : CapabilityHealth → Option DataEnvelope → Result DataEnvelope
answer CapabilityHealth.idle snapshot = err RequestError.idle
answer CapabilityHealth.initializing snapshot = err RequestError.not_sampled
answer (CapabilityHealth.unavailable reason) snapshot = err (RequestError.unavailable reason)
answer CapabilityHealth.available none = err RequestError.not_sampled
answer CapabilityHealth.available (some d) = ok d

unfoldable pub read : Inner → GetSnapshot → Result DataEnvelope
unfolding answer
read s request = do
  found ← session s request.session
  cap ← capability s request.topic
  if not (request.topic.provider_id == found.info.provider_id)
      then err (invalid "topic does not belong to session")
      else if not cap.snapshots
      then err (RequestError.snapshots_unsupported request.topic)
      else elim (get found.topics request.topic) [
        | none ↦ err (invalid "session capability is missing")
        | some t ↦ answer t.state.health t.state.snapshot
      ]

unfoldable pub topic_status : Topic → TopicStatus
topic_status t = record {
  topic = t.state.source.topic;
  generation = t.state.generation;
  health = t.state.health;
}

unfoldable pub activity_of : Inner → Activity → TargetActivity
unfolding topic_status
activity_of s Activity.attaching = TargetActivity.attaching
activity_of s (Activity.retrying e) =
    TargetActivity.retrying "attachment failed; see local service logs"
activity_of s (Activity.observing id) = elim (get s.sessions id) [
  | none ↦ TargetActivity.observing id none []
  | some t ↦ TargetActivity.observing id t.info.game_build (map topic_status (values t.topics))
]

unfoldable pub target_status : Inner → Runtime.TargetStatus → TargetStatus
unfolding activity_of
target_status s target = record {
  provider_id = target.target.provider_id;
  game_id = target.target.game_id;
  target = record { pid = target.target.process.pid; executable = target.target.executable };
  activity = activity_of s target.activity;
}

unfoldable pub discovery_of : Option String → DiscoveryHealth
discovery_of none = DiscoveryHealth.searching
discovery_of (some e) = DiscoveryHealth.retrying "process enumeration failed"

module _ (item_size : SubscriptionItem → Option ℕ) where
  -- ServiceView::snapshot
  unfoldable pub snapshot : GetSnapshot → ℕ → Inner → Inner × Result DataEnvelope
  unfolding read
  snapshot request now s = let s' = expire item_size now s in (s', read s' request)

  -- ServiceView::status; `version` is the package's version.
  unfoldable pub status :
      (ServiceStatus → Option ℕ) → String → ℕ → Inner → Inner × Result ServiceStatus
  unfolding target_status discovery_of cursor
  status status_size version now s =
      let s' = expire item_size now s in
      let answer : ServiceStatus = record {
        cursor = cursor s';
        application_version = version;
        discovery = discovery_of s'.runtime.discovery_error;
        targets = map (target_status s') s'.runtime.targets;
      } in
      (s', message_fits (status_size answer) s'.message_bytes >> ok answer)

-- ServiceView::catalog
unfoldable pub get_catalog : (Catalog → Option ℕ) → Inner → Result Catalog
get_catalog catalog_size s = message_fits (catalog_size s.catalog) s.message_bytes >> ok s.catalog
