-- ===== src/Client/Reader.antt =====
-- crates/wf-observer-sdk/src/subscription/reader.rs: the frames of a stream, put together and
-- validated. The reader is dropped at an error.
use wf_observer.Common.{
  ℕ, Bool, true, false, not, ◌&&◌, Option, none, some, [], ltb, if◌then◌else◌, ◌==◌, Map, get,
  insert, remove, retain, String,
}
use wf_observer.Common.Attempt.{Attempt, yields, fails, ◌>>=◌}
use wf_observer.Wire.{
  session_ref_eq, DataEnvelope, TopicSnapshot, SubscriptionItem, SubscriptionUpdate, Subscribe,
  SessionInfo, RequestError,
}
use wf_observer.Delta.{Json, SnapshotAck, reconstruct}
use wf_observer.Transport.Delivery.{SourceKey, source_key_eq, source_key_order, key_of}
use wf_observer.Client.Error.{ClientError}
use wf_observer.Client.Validation
use wf_observer.Client.Validation.{Validation, begun, accept}

pub data ReadError : Type 0 where
  client : ClientError → ReadError
  resync : String → ReadError

-- impl From<ReadError> for ClientError
unfoldable pub client_error : ReadError → ClientError
client_error (ReadError.client error) = error
client_error (ReadError.resync message) = ClientError.protocol message

-- What a read of the stream gives: a frame, the service's rejection, its end, or an error.
pub data Frame : Type 0 where
  item : SubscriptionItem → Frame
  rejected : RequestError → Frame
  end_of_stream : Frame
  broken : ClientError → Frame

pub record Reader : Type 0 where
  pub validation : Validation
  pub baselines : Map SourceKey DataEnvelope
  pub pending_ack : Option SnapshotAck
  pub deltas : Bool

unfoldable pub new : Subscribe → Bool → Reader
new selection deltas = record {
  validation = Validation.new selection;
  baselines = [];
  pending_ack = none;
  deltas = deltas;
}

unfoldable pub decode : Frame → Bool → Attempt ClientError SubscriptionItem
decode (Frame.item i) begun = yields i
decode (Frame.rejected error) begun =
    if begun
    then fails (ClientError.protocol "request error after Begin")
    else fails (ClientError.request error)
decode Frame.end_of_stream begun = fails (ClientError.protocol "stream ended without Closed")
decode (Frame.broken error) begun = fails error

abbrev pub as_client {ℓ} : {A : Type ℓ} → Attempt ClientError A → Attempt ReadError A
as_client (yields value) = yields value
as_client (fails error) = fails (ReadError.client error)

abbrev pub as_resync {ℓ} : {A : Type ℓ} → Attempt String A → Attempt ReadError A
as_resync (yields value) = yields value
as_resync (fails message) = fails (ReadError.resync message)

-- The topic that an item carries.
unfoldable pub topic_of_update : SubscriptionUpdate → Option TopicSnapshot
topic_of_update (SubscriptionUpdate.topic_changed topic) = some topic
topic_of_update _ = none

unfoldable pub topic_of : SubscriptionItem → Option TopicSnapshot
unfolding topic_of_update
topic_of (SubscriptionItem.topic topic) = some topic
topic_of (SubscriptionItem.update u) = topic_of_update u.update
topic_of _ = none

-- The snapshots that an update ends.
unfoldable pub forget_update :
    SubscriptionUpdate → Map SourceKey DataEnvelope → Map SourceKey DataEnvelope
forget_update (SubscriptionUpdate.topic_reset source generation reason) baselines =
    remove baselines (key_of source)
forget_update (SubscriptionUpdate.session_ended session reason) baselines =
    retain (λ key _. not (key.session == session)) baselines
forget_update _ baselines = baselines

unfoldable pub forget : SubscriptionItem → Map SourceKey DataEnvelope → Map SourceKey DataEnvelope
unfolding forget_update
forget (SubscriptionItem.update u) baselines = forget_update u.update baselines
forget _ baselines = baselines

-- Whether a frame is a snapshot, which is acknowledged.
abbrev pub is_snapshot : SubscriptionItem → Bool
is_snapshot (SubscriptionItem.snapshot frame) = true
is_snapshot _ = false

module _ (json : Json) where
  unfoldable pub keep_snapshot : Bool → Reader → TopicSnapshot → Option DataEnvelope → Reader
  keep_snapshot acknowledged r topic none = record r {
    baselines = remove r.baselines (key_of topic.source);
  }
  keep_snapshot acknowledged r topic (some d) =
      if acknowledged && r.deltas
      then record r {
        pending_ack = some (record { metadata = d.metadata; hash = json.hash d.payload.text });
        baselines = insert r.baselines (key_of topic.source) d;
      }
      else r

  unfoldable pub keep_topic : Bool → Reader → Option TopicSnapshot → Reader
  unfolding keep_snapshot
  keep_topic acknowledged r none = r
  keep_topic acknowledged r (some topic) = keep_snapshot acknowledged r topic topic.snapshot

  -- What an accepted item leaves of the reader.
  unfoldable pub keep : Bool → Reader → Validation → SubscriptionItem → Reader
  unfolding keep_topic topic_of forget
  keep acknowledged r v i =
      keep_topic acknowledged (record r { validation = v; baselines = forget i r.baselines })
        (topic_of i)

  -- `item_size` stands for `postcard::experimental::serialized_size` of a frame, whose error is
  -- `none`; `limit` is irpc's limit of a message.
  module _ (item_size : SubscriptionItem → Option ℕ) (info_size : SessionInfo → Option ℕ)
      (encoding_error : ClientError) (limit : ℕ) where
    unfoldable pub fits : SubscriptionItem → Attempt ReadError SubscriptionItem
    fits i = elim (item_size i) [
      | none ↦ fails (ReadError.client encoding_error)
      | some bytes ↦
          if ltb limit bytes
          then fails (ReadError.resync "reconstructed snapshot exceeds frame limit")
          else yields i
    ]

    unfoldable pub whole : Reader → SubscriptionItem → Attempt ReadError SubscriptionItem
    unfolding fits
    whole r (SubscriptionItem.snapshot frame) =
        as_resync (reconstruct json frame (get r.baselines (key_of frame.metadata.source))) >>= fits
    whole r i = yields i

    unfoldable pub receive :
        Reader → SubscriptionItem → Attempt ReadError (SubscriptionItem × Reader)
    unfolding whole keep
    receive r received = do
      i ← whole r received
      v ← as_client (accept info_size r.validation i)
      yields (i, keep (is_snapshot received) r v i)

    -- Reader::next
    unfoldable pub next : Reader → Frame → Attempt ReadError (SubscriptionItem × Reader)
    unfolding decode receive
    next r frame = as_client (decode frame (begun r.validation)) >>= receive r

-- Reader::acknowledge, without the write: what is written, and the reader after it.
unfoldable pub acknowledge : Reader → Option SnapshotAck × Reader
acknowledge r = (r.pending_ack, record r { pending_ack = none })
