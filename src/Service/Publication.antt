-- ===== src/Service/Publication.antt =====
-- crates/wf-observer-cli/src/service/publication.rs, `StagedPublication`: a poll's operations are
-- staged on copies of the topics and checked as a whole, before any of them is made.
use Prim.Native.String.{len}
use wf_observer.Common.{
  ℕ, ◌+◌, ◌-◌, ◌*◌, String, Bool, true, false, not, ◌&&◌, Option, none, some, List, [], ◌∷◌, ◌++◌,
  ltb, if◌then◌else◌, ◌==◌, string_eq, nat_eq, u64_max, checked_add, Map, get, insert, any, filter,
}
use wf_observer.Wire.{
  TopicRef, topic_ref_eq, topic_ref_order, JsonPayload, DataEnvelope, TopicSnapshot,
  CapabilityHealth, is_available, json_payload_eq, capability_health_eq, SubscriptionItem,
  SubscriptionUpdate, Resource, Result, ok, err, ◌>>=◌, ◌>>◌,
}
use wf_observer.Service.Catalog.{invalid, limit, message_fits}
use wf_observer.Service.Operation.{Operation, operation_key}
use wf_observer.Service.Inner.{Inner, Session, Topic, capability}
use wf_observer.Service.Ticket.{PollTicket}

pub record StagedPublication : Type 0 where
  pub topics : Map TopicRef Topic
  pub resets : List TopicRef
  pub events : List (TopicRef × JsonPayload)

abbrev pub nothing_staged : StagedPublication
nothing_staged = record { topics = []; resets = []; events = [] }

-- RETAINED_SNAPSHOT_BYTES
abbrev pub retained_snapshot_bytes : ℕ
retained_snapshot_bytes = 32 * 1024 * 1024

abbrev exhausted_counter : {A : Type 0} → Option ℕ → String → (ℕ → Result A) → Result A
exhausted_counter none message f = err (invalid message)
exhausted_counter (some n) message f = f n

-- One operation on the staged copy of its topic.
unfoldable pub apply :
    ℕ → StagedPublication → TopicRef → Topic → Operation → Result StagedPublication
apply deadline staged key t (Operation.reset _) =
    exhausted_counter (checked_add t.state.generation 1) "topic generation exhausted" λ generation.
      exhausted_counter (checked_add t.epoch 1) "topic epoch exhausted" λ epoch. ok (record {
        topics = insert staged.topics key (record {
          state = record t.state {
            generation = generation;
            health = CapabilityHealth.initializing;
            snapshot = none;
          };
          demanded = t.demanded;
          epoch = epoch;
          deadline = some deadline;
        });
        resets = staged.resets ++ (key ∷ []);
        events = filter (λ e. not (e.0 == key)) staged.events;
      })
apply deadline staged key t (Operation.snapshot _ payload) = ok (record staged {
  topics = insert staged.topics key (record t {
    state = record t.state {
      health = CapabilityHealth.available;
      snapshot = some (record {
        metadata = record {
          source = t.state.source;
          generation = t.state.generation;
          sequence = 0;
        };
        payload = payload;
      });
    };
    deadline = some deadline;
  });
})
apply deadline staged key t (Operation.event _ payload) = ok (record staged {
  topics = insert staged.topics key t;
  events = staged.events ++ ((key, payload) ∷ []);
})
apply deadline staged key t (Operation.health _ health) = ok (record staged {
  topics = insert staged.topics key (record t {
    state = record t.state {
      health = health;
      snapshot = if is_available health then t.state.snapshot else none;
    };
    deadline = if is_available health then some deadline else none;
  });
})

-- The staged copy of a topic, or else the topic as it is now.
unfoldable pub staged_or_current : Session → StagedPublication → TopicRef → Option Topic
staged_or_current session staged key = elim (get staged.topics key) [
  | none ↦ get session.topics key
  | some t ↦ some t
]

unfoldable pub stage :
    Session → PollTicket → ℕ → StagedPublication → Operation → Result StagedPublication
unfolding apply staged_or_current operation_key
stage session ticket deadline staged operation =
    let key = operation_key operation in
    if not (any (λ d. d.key == key) ticket.topics)
    then err (invalid "publication for undemanded topic")
    else elim (get session.topics key) [
      | none ↦ err (invalid "publication for undemanded topic")
      | some _ ↦ elim (staged_or_current session staged key) [
        | none ↦ err (invalid "publication for undemanded topic")
        | some t ↦ apply deadline staged key t operation
      ]
    ]

unfoldable pub prepare_from :
    Session → PollTicket → ℕ → StagedPublication → List Operation → Result StagedPublication
prepare_from session ticket deadline staged [] = ok staged
prepare_from session ticket deadline staged (op ∷ ops) =
    stage session ticket deadline staged op >>= λ next.
    prepare_from session ticket deadline next ops

unfoldable pub prepare : Session → PollTicket → List Operation → ℕ → Result StagedPublication
prepare session ticket operations deadline =
    prepare_from session ticket deadline nothing_staged operations

-- The bytes of a topic's retained snapshot.
unfoldable pub snapshot_bytes : Option Topic → ℕ
snapshot_bytes none = 0
snapshot_bytes (some t) = elim t.state.snapshot [ none ↦ 0 | some d ↦ len d.payload.text ]

unfoldable pub topics_bytes : Map TopicRef Topic → ℕ
unfolding snapshot_bytes
topics_bytes [] = 0
topics_bytes ((key, t) ∷ m) = snapshot_bytes (some t) + topics_bytes m

unfoldable pub retained_bytes : Map String Session → ℕ
unfolding topics_bytes
retained_bytes [] = 0
retained_bytes ((id, s) ∷ m) = topics_bytes s.topics + retained_bytes m

-- What the staged topics retain now.
unfoldable pub replaced_bytes : Session → Map TopicRef Topic → ℕ
unfolding snapshot_bytes
replaced_bytes session [] = 0
replaced_bytes session ((key, t) ∷ m) =
    snapshot_bytes (get session.topics key) + replaced_bytes session m

-- A snapshot's frame is measured with the largest sequence, since the service's may grow.
unfoldable pub widest : TopicSnapshot → TopicSnapshot
widest state = record state {
  snapshot = elim state.snapshot [
    | none ↦ none
    | some d ↦ some (record d { metadata = record d.metadata { sequence = u64_max } })
  ];
}

abbrev pub has_snapshot : Option DataEnvelope → Bool
has_snapshot none = false
has_snapshot (some d) = true

module _ (item_size : SubscriptionItem → Option ℕ) where
  unfoldable pub update_fits : Inner → SubscriptionUpdate → Result (Unit {0})
  update_fits s update =
      message_fits
        (item_size (
          SubscriptionItem.update (record {
            cursor = record { run_id = s.run_id; sequence = u64_max };
            update = update;
          })))
        s.message_bytes

  unfoldable pub validate_topic : Inner → TopicRef → Topic → Result (Unit {0})
  unfolding update_fits widest
  validate_topic s key t = do
    cap ← capability s key
    if is_available t.state.health && cap.snapshots && not (has_snapshot t.state.snapshot)
        then err (invalid "available snapshot capability has no snapshot")
        else update_fits s (SubscriptionUpdate.topic_changed (widest t.state))

  unfoldable pub validate_topics : Inner → Map TopicRef Topic → Result (Unit {0})
  validate_topics s [] = ok tt
  validate_topics s ((key, t) ∷ m) = validate_topic s key t >> validate_topics s m

  -- `self.topics[key]` panics without an entry, which no staged event lacks.
  unfoldable pub validate_event :
      Inner → Map TopicRef Topic → TopicRef × JsonPayload → Result (Unit {0})
  unfolding update_fits
  validate_event s staged (key, payload) = elim (get staged key) [
    | none ↦ err (invalid "no entry found for key")
    | some t ↦
        if not (is_available t.state.health)
        then err (invalid "event published by unavailable capability")
        else update_fits s (
            SubscriptionUpdate.event (record {
              metadata = record {
                source = t.state.source;
                generation = t.state.generation;
                sequence = u64_max;
              };
              payload = payload;
            }))
  ]

  unfoldable pub validate_events :
      Inner → Map TopicRef Topic → List (TopicRef × JsonPayload) → Result (Unit {0})
  validate_events s staged [] = ok tt
  validate_events s staged (e ∷ es) = validate_event s staged e >> validate_events s staged es

  unfoldable pub validate : Inner → Session → StagedPublication → Result (Unit {0})
  validate s session staged = do
    validate_topics s staged.topics
    validate_events s staged.topics staged.events
    if ltb retained_snapshot_bytes (
          retained_bytes s.sessions
          - replaced_bytes session staged.topics
          + topics_bytes staged.topics)
        then err (limit Resource.retained_snapshot_bytes)
        else ok tt
