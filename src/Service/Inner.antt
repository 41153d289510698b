-- ===== src/Service/Inner.antt =====
-- crates/wf-observer-cli/src/service/inner.rs: the state behind the service's lock, its sequence
-- counter, delivery to subscribers, and the end of the service.
use wf_observer.Common.{
  ℕ, String, Bool, true, false, not, ◌&&◌, Option, none, some, List, [], ◌∷◌, if◌then◌else◌, ◌==◌,
  string_eq, nat_eq, checked_add, saturating_add, Map, get, map_values, find, filter, map,
}
use wf_observer.Wire.{
  ServiceCursor, SessionRef, TopicRef, SessionInfo, TopicSnapshot, CapabilityHealth, Catalog,
  CapabilityDescriptor, SubscriptionItem, SubscriptionUpdate, SubscriptionEnd, ResyncReason,
  RequestError, Result, ok, err,
}
use wf_observer.Runtime.{HostStatus}
use wf_observer.Service.Queue
use wf_observer.Service.Queue.{Queue}
use wf_observer.Service.Catalog.{identifier, invalid}
use wf_observer.Service.Subscriber.{Subscriber, matches_update, matches_info}

pub record Topic : Type 0 where
  pub state : TopicSnapshot
  pub demanded : Bool
  pub epoch : ℕ
  pub deadline : Option ℕ

pub record Session : Type 0 where
  pub info : SessionInfo
  pub topics : Map TopicRef Topic

-- `queues` holds the shared queues by subscription identity; identities are never reused.
pub record Inner : Type 0 where
  pub catalog : Catalog
  pub message_bytes : ℕ
  pub run_id : String
  pub sequence : ℕ
  pub runtime : HostStatus
  pub sessions : Map String Session
  pub subscribers : Map ℕ Subscriber
  pub next_subscription : ℕ
  pub revision : ℕ
  pub stopped : Bool
  pub queues : ℕ → Queue

unfoldable pub cursor : Inner → ServiceCursor
cursor s = record { run_id = s.run_id; sequence = s.sequence }

abbrev pub exhausted : SubscriptionEnd
exhausted = SubscriptionEnd.resync_required ResyncReason.sequence_exhausted

-- Writes one queue.
abbrev pub set_queue : (ℕ → Queue) → ℕ → Queue → ℕ → Queue
set_queue queues id q j = if id == j then q else queues j

unfoldable pub finish_all : SubscriptionEnd → (ℕ → Queue) → Map ℕ Subscriber → ℕ → Queue
finish_all end queues [] = queues
finish_all end queues ((id, s) ∷ rest) =
    finish_all end (set_queue queues id (Queue.finish (queues id) end true)) rest

unfoldable pub close_topic : Topic → Topic
close_topic t = record {
  state = record t.state { snapshot = none; health = CapabilityHealth.idle };
  demanded = false;
  epoch = t.epoch;
  deadline = none;
}

unfoldable pub close_session : Session → Session
unfolding close_topic
close_session s = record s { topics = map_values close_topic s.topics }

unfoldable pub close : Inner → SubscriptionEnd → Inner
unfolding finish_all close_session
close s end = record s {
  stopped = true;
  subscribers = [];
  queues = finish_all end s.queues s.subscribers;
  sessions = map_values close_session s.sessions;
  revision = saturating_add s.revision 1;
}

-- Whether the counter has room for so many updates; if not, the service ends.
unfoldable pub ensure_sequences : Inner → ℕ → Inner × Bool
ensure_sequences s count = if s.stopped then (s, false) else elim (checked_add s.sequence count) [
  | none ↦ (close s exhausted, false)
  | some _ ↦ (s, true)
]

unfoldable pub advance : Inner → Inner × Bool
advance s = if s.stopped then (s, false) else elim (checked_add s.sequence 1) [
  | none ↦ (close s exhausted, false)
  | some next ↦ (record s { sequence = next }, true)
]

module _ (item_size : SubscriptionItem → Option ℕ) where
  -- The loop over the subscribers: each active one that matches is offered the item.
  unfoldable pub deliver :
      (Subscriber → Bool) → SubscriptionItem → (ℕ → Queue) → Map ℕ Subscriber → ℕ → Queue
  deliver wanted item queues [] = queues
  deliver wanted item queues ((id, s) ∷ rest) =
      deliver wanted item
        (if s.active && wanted s
          then set_queue queues id (Queue.offer item_size (queues id) item).0
          else queues)
        rest

  -- The session that an update ends, as far as it is known.
  unfoldable pub ended_info : Inner → SubscriptionUpdate → Option SessionInfo
  ended_info s (SubscriptionUpdate.session_ended session reason) =
      elim (get s.sessions session.session_id) [ none ↦ none | some t ↦ some t.info ]
  ended_info s _ = none

  unfoldable pub wanted_by : Option SessionInfo → SubscriptionUpdate → Subscriber → Bool
  wanted_by none update s = matches_update s update
  wanted_by (some info) update s = matches_info s info

  unfoldable pub send : Inner → SubscriptionUpdate → Inner
  unfolding cursor deliver ended_info wanted_by
  send s update = record s {
    queues =
        deliver (wanted_by (ended_info s update) update)
          (SubscriptionItem.update (record { cursor = cursor s; update = update })) s.queues
          s.subscribers;
  }

  unfoldable pub emit : Inner → SubscriptionUpdate → Inner
  unfolding advance send
  emit s update = let (s', moved) = advance s in if moved then send s' update else s'

  unfoldable pub emit_all : Inner → List SubscriptionUpdate → Inner
  emit_all s [] = s
  emit_all s (u ∷ rest) = emit_all (emit s u) rest

-- Lookups of a request's keys.
unfoldable pub capability_of : List CapabilityDescriptor → TopicRef → Result CapabilityDescriptor
capability_of [] key = err (RequestError.unknown_topic key.provider_id key.topic)
capability_of (first ∷ rest) key =
    let supported = first ∷ rest in
    elim (find (λ c. c.schema_version == key.schema_version) supported) [
      | none ↦ err (RequestError.unsupported_schema key (map (λ c. c.schema_version) supported))
      | some c ↦ ok c
    ]

unfoldable pub capability : Inner → TopicRef → Result CapabilityDescriptor
unfolding identifier capability_of
capability s key =
    if not (identifier key.provider_id && identifier key.topic && not (key.schema_version == 0))
    then err (invalid "invalid topic selector")
    else elim (find (λ p. p.id == key.provider_id) s.catalog.providers) [
      | none ↦ err (RequestError.unknown_provider key.provider_id)
      | some provider ↦ capability_of (filter (λ c. c.topic == key.topic) provider.capabilities) key
    ]

unfoldable pub session : Inner → SessionRef → Result Session
unfolding identifier
session s key =
    if not (identifier key.run_id && identifier key.session_id)
    then err (invalid "invalid session identity")
    else if not (key.run_id == s.run_id)
    then err (RequestError.service_restarted s.run_id)
    else elim (get s.sessions key.session_id) [
      | none ↦ err (RequestError.unknown_session key.session_id)
      | some found ↦ ok found
    ]
