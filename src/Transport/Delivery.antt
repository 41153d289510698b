-- ===== src/Transport/Delivery.antt =====
-- crates/wf-observer-cli/src/transport/delivery.rs: the snapshots that a stream's reader is known to
-- hold, against which later ones are sent as patches.
use wf_observer.Common.{
  ℕ, Bool, true, false, not, ◌&&◌, Option, none, some, List, [], ltb, if◌then◌else◌, ◌==◌, nat_eq,
  Eq, derive_eq, Map, Order, get, insert, remove, replace, retain, contains, string_before,
  string_eq,
}
use wf_observer.Wire.{
  topic_source_eq, topic_ref_eq, topic_ref_order, session_ref_eq, SessionRef-discrete,
  TopicRef-discrete, SessionRef, TopicRef, ServiceCursor, TopicSource, DataEnvelope, TopicSnapshot,
  SnapshotPayload, SubscriptionItem, SubscriptionUpdate, UpdateEnvelope, envelope_metadata_eq,
}
use wf_observer.Delta.{Json, SnapshotAck, hash_eq, between}

-- The pair that the maps of snapshots are keyed by, in the order of a pair.
pub record SourceKey : Type 0 where
  pub session : SessionRef
  pub topic : TopicRef

unfoldable pub SourceKey-discrete : Discrete SourceKey
SourceKey-discrete = hlevel (SessionRef-discrete, TopicRef-discrete)

instance abbrev pub source_key_eq : Eq SourceKey
source_key_eq = derive_eq SourceKey-discrete

unfoldable pub session_ref_before : SessionRef → SessionRef → Bool
session_ref_before a b =
    if a.run_id == b.run_id
    then string_before a.session_id b.session_id
    else string_before a.run_id b.run_id

instance abbrev pub source_key_order : Order SourceKey
source_key_order = record {
  before = λ a b.
      if a.session == b.session
      then topic_ref_order.before a.topic b.topic
      else session_ref_before a.session b.session;
}

abbrev pub key_of : TopicSource → SourceKey
key_of source = record { session = source.session; topic = source.topic }

pub record Baseline : Type 0 where
  pub snapshot : DataEnvelope
  pub acknowledged : Bool

pub record Delivery : Type 0 where
  pub topics : List TopicRef
  pub baselines : Map SourceKey Baseline

-- `payload_size` stands for `postcard::experimental::serialized_size` of a payload.
module _ (json : Json) (payload_size : SnapshotPayload → Option ℕ) where
  -- The delta, if it is smaller; `none` is an error of the sizes.
  unfoldable pub smaller : Option SnapshotPayload → SnapshotPayload → Option SnapshotPayload
  smaller none payload = some payload
  smaller (some patched) payload = elim (payload_size patched) [
    | none ↦ none
    | some n ↦ elim (payload_size payload) [
      | none ↦ none
      | some m ↦ some (if ltb n m then patched else payload)
    ]
  ]

  unfoldable pub is_usable : Baseline → DataEnvelope → Bool
  is_usable base target =
      base.acknowledged
      && base.snapshot.metadata.source == target.metadata.source
      && base.snapshot.metadata.generation == target.metadata.generation

  unfoldable pub choose_payload : Option Baseline → DataEnvelope → Option SnapshotPayload
  unfolding smaller is_usable
  choose_payload none target = some (SnapshotPayload.full target.payload)
  choose_payload (some base) target =
      if is_usable base target
      then smaller (between json base.snapshot target) (SnapshotPayload.full target.payload)
      else some (SnapshotPayload.full target.payload)

  unfoldable pub encode_snapshot :
      Delivery
      → Option ServiceCursor
      → SourceKey
      → DataEnvelope
      → Option (SubscriptionItem × Delivery)
  unfolding choose_payload
  encode_snapshot d cursor key target = elim (choose_payload (get d.baselines key) target) [
    | none ↦ none
    | some payload ↦ some (
      SubscriptionItem.snapshot
          (record { cursor = cursor; metadata = target.metadata; payload = payload }),
      record d {
        baselines = insert d.baselines key (record { snapshot = target; acknowledged = false });
      },
    )
  ]

  unfoldable pub encode_topic :
      Delivery
      → Option ServiceCursor
      → TopicSnapshot
      → SubscriptionItem
      → Option (SubscriptionItem × Delivery)
  unfolding encode_snapshot
  encode_topic d cursor topic item =
      if not (contains d.topics topic.source.topic) then some (item, d) else elim topic.snapshot [
        | none ↦ some (item, record d { baselines = remove d.baselines (key_of topic.source) })
        | some target ↦ encode_snapshot d cursor (key_of topic.source) target
      ]

  unfoldable pub encode_update :
      Delivery → UpdateEnvelope → SubscriptionUpdate → Option (SubscriptionItem × Delivery)
  unfolding encode_topic
  encode_update d u (SubscriptionUpdate.topic_changed topic) =
      encode_topic d (some u.cursor) topic (SubscriptionItem.update u)
  encode_update d u (SubscriptionUpdate.topic_reset source generation reason) =
      some (SubscriptionItem.update u, record d { baselines = remove d.baselines (key_of source) })
  encode_update d u (SubscriptionUpdate.session_ended session reason) = some (
    SubscriptionItem.update u,
    record d { baselines = retain (λ key _. not (key.session == session)) d.baselines },
  )
  encode_update d u _ = some (SubscriptionItem.update u, d)

  -- Delivery::encode
  unfoldable pub encode : Delivery → SubscriptionItem → Option (SubscriptionItem × Delivery)
  unfolding encode_topic encode_update
  encode d (SubscriptionItem.topic topic) = encode_topic d none topic (SubscriptionItem.topic topic)
  encode d (SubscriptionItem.update u) = encode_update d u u.update
  encode d item = some (item, d)

unfoldable pub acknowledges : Json → Baseline → SnapshotAck → Bool
acknowledges json baseline ack =
    baseline.snapshot.metadata == ack.metadata
    && json.hash baseline.snapshot.payload.text == ack.hash

-- Delivery::acknowledge
unfoldable pub acknowledge : Json → Delivery → SnapshotAck → Delivery
unfolding acknowledges
acknowledge json d ack =
    let key = key_of ack.metadata.source in
    elim (get d.baselines key) [
      | none ↦ d
      | some baseline ↦
          if acknowledges json baseline ack
          then record d {
            baselines = replace d.baselines key (record baseline { acknowledged = true });
          }
          else d
    ]

-- What `serve` makes of a read of the acknowledgements; `none` is their end, or an error.
unfoldable pub on_ack : Json → Delivery → Option SnapshotAck → Delivery
unfolding acknowledge
on_ack json d none = record { topics = []; baselines = [] }
on_ack json d (some ack) = acknowledge json d ack
