-- ===== src/Wire/Stream.antt =====
-- crates/protocol/src/v1/{subscription,delta,requests}.rs: the ordered frames of a subscription.
use wf_observer.Common.{ℕ, Option, List, Eq, derive_eq}
use wf_observer.Wire.Identity.{
  ServiceCursor, SessionRef, SessionRef-discrete, TopicRef, TopicSource,
}
use wf_observer.Wire.Health.{SessionInfo}
use wf_observer.Wire.Data.{JsonPayload, EnvelopeMetadata, EventEnvelope, TopicSnapshot}

pub data Resource : Type 0 where
  message_bytes queued_bytes initial_bytes retained_snapshot_bytes subscriptions : Resource

pub data SessionSelector : Type 0 where
  all : SessionSelector
  session : SessionRef → SessionSelector

unfoldable pub SessionSelector-discrete : Discrete SessionSelector
SessionSelector-discrete = hlevel SessionRef-discrete

instance abbrev pub session_selector_eq : Eq SessionSelector
session_selector_eq = derive_eq SessionSelector-discrete

pub record Subscribe : Type 0 where
  pub sessions : SessionSelector
  pub topics : List TopicRef

pub data ResetReason : Type 0 where
  source_changed demand_resumed : ResetReason

pub data SessionEndReason : Type 0 where
  target_exited provider_failed : SessionEndReason

pub data ResyncReason : Type 0 where
  lagged : Resource → ResyncReason
  sequence_exhausted : ResyncReason

pub data SubscriptionEnd : Type 0 where
  session_ended : SubscriptionEnd
  service_stopped : SubscriptionEnd
  resync_required : ResyncReason → SubscriptionEnd

pub data SubscriptionUpdate : Type 0 where
  session_started : SessionInfo → SubscriptionUpdate
  session_changed : SessionInfo → SubscriptionUpdate
  session_ended : SessionRef → SessionEndReason → SubscriptionUpdate
  topic_reset : TopicSource → ℕ → ResetReason → SubscriptionUpdate
  topic_changed : TopicSnapshot → SubscriptionUpdate
  event : EventEnvelope → SubscriptionUpdate

pub record UpdateEnvelope : Type 0 where
  pub cursor : ServiceCursor
  pub update : SubscriptionUpdate

pub data SnapshotPayload : Type 0 where
  full : JsonPayload → SnapshotPayload
  delta : ℕ → List ℕ → JsonPayload → SnapshotPayload

pub record SnapshotFrame : Type 0 where
  pub cursor : Option ServiceCursor
  pub metadata : EnvelopeMetadata
  pub payload : SnapshotPayload

pub data SubscriptionItem : Type 0 where
  begin : ServiceCursor → SubscriptionItem
  session : SessionInfo → SubscriptionItem
  topic : TopicSnapshot → SubscriptionItem
  snapshot : SnapshotFrame → SubscriptionItem
  ready : ServiceCursor → SubscriptionItem
  update : UpdateEnvelope → SubscriptionItem
  closed : SubscriptionEnd → SubscriptionItem
