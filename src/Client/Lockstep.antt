-- ===== src/Client/Lockstep.antt =====
-- The service's side of a stream, transport/delivery.rs, and the client's, subscription/reader.rs,
-- together: what is sent is received.
use mathlib.Core.Path.{subst, sym, ◌∙◌}
use wf_observer.Common.{
  ℕ, ◌≤◌, ◌≡◌, refl, Bool, true, false, not, ◌&&◌, ◌==◌, nat_eq, Option, none, some, get, insert,
  remove, contains, arith, Bool-cases, Option-cases, inl, inr,
}
use wf_observer.Common.Attempt.{yields}
use wf_observer.Wire.{
  topic_source_eq, session_ref_eq, topic_ref_eq, DataEnvelope, ServiceCursor, TopicSnapshot,
  SnapshotPayload, CapabilityHealth, SubscriptionItem, SubscriptionUpdate, SessionInfo,
}
use wf_observer.Delta.{Json, PatchLaws, hash_eq, rebuild, reconstruct, item_at}
use wf_observer.Transport.Delivery.{
  Delivery, source_key_eq, source_key_order, key_of, encode, encode_topic, encode_update,
  encode_snapshot, choose_payload,
}
use wf_observer.Client.Error.{ClientError}
use wf_observer.Client.Validation.{Validation, accept}
use wf_observer.Client.Reader.{
  Reader, receive, whole, fits, keep, keep_topic, keep_snapshot, forget, topic_of, is_snapshot,
}
use wf_observer.Client.Agreement.{
  Holds, Agrees, insert-Holds, remove-Holds, retain-Holds, remove-other-Holds,
}
use wf_observer.Client.Patches.{IsNext, Follows, rebuild-choose_payload}

-- The item is whole, and no frame of a snapshot.
abbrev pub IsWhole : SubscriptionItem → Type 0
IsWhole item = is_snapshot item ≡ false

-- What an item that is sent needs of the one before it.
abbrev pub ItemFollows : Json → Delivery → SubscriptionItem → Type 0
ItemFollows json d item = elim (topic_of item) [
  | none ↦ Unit {0}
  | some topic ↦ Follows json d topic topic.snapshot
]

module _ (json : Json) (laws : PatchLaws json) (payload_size : SnapshotPayload → Option ℕ)
    (item_size : SubscriptionItem → Option ℕ) (info_size : SessionInfo → Option ℕ)
    (encoding_error : ClientError) (limit : ℕ) where
  -- The reader receives what was sent as the item that it stands for, and agrees with the service.
  abbrev pub Delivers :
      Reader → SubscriptionItem → Validation → Option (SubscriptionItem × Delivery) → Type 0
  Delivers r item v none = Unit
  Delivers r item v (some (sent, d)) =
      (r' : Reader) × (receive json item_size info_size encoding_error limit r sent
        ≡ yields (item, r'))
      × (r'.validation ≡ v)
      × Agrees d r'

  receive-whole :
      (r : Reader) (sent item : SubscriptionItem) (v : Validation)
      → whole json item_size info_size encoding_error limit r sent ≡ yields item
      → accept info_size r.validation item ≡ yields v
      → receive json item_size info_size encoding_error limit r sent
        ≡ yields (item, keep json (is_snapshot sent) r v item)
  unfolding receive
  receive-whole r sent item v w a = rw (w, a)

  keep_snapshot-validation :
      (acknowledged : Bool) (r : Reader) (topic : TopicSnapshot) (snapshot : Option DataEnvelope)
      → (keep_snapshot json acknowledged r topic snapshot).validation ≡ r.validation
  unfolding keep_snapshot
  keep_snapshot-validation acknowledged r topic none = refl
  keep_snapshot-validation acknowledged r topic (some target) =
      elim (Bool-cases (acknowledged && r.deltas)) [ inl f ↦ rw f | inr f ↦ rw f ]

  module _ (d : Delivery) (r : Reader) (v : Validation) (agrees : Agrees d r) where
    kept-Agrees :
        (topic : TopicSnapshot)
        → contains d.topics topic.source.topic ≡ false
        → (snapshot : Option DataEnvelope)
        → Agrees d (keep_snapshot json false (record r { validation = v }) topic snapshot)
    unfolding keep_snapshot
    kept-Agrees topic unserved none = record {
      held =
          remove-other-Holds d.topics d.baselines r.baselines (key_of topic.source) unserved
            agrees.held;
      deltas = agrees.deltas;
    }
    kept-Agrees topic unserved (some s) = record { held = agrees.held; deltas = agrees.deltas }

    unserved-Delivers :
        (cursor : Option ServiceCursor) (topic : TopicSnapshot)
        → contains d.topics topic.source.topic ≡ false
        → accept info_size r.validation (item_at json cursor topic) ≡ yields v
        → Delivers r (item_at json cursor topic) v (some (item_at json cursor topic, d))
    unfolding item_at keep keep_topic forget topic_of whole
    unserved-Delivers none topic unserved a = (
      keep json false r v (SubscriptionItem.topic topic),
      receive-whole r _ _ v refl a,
      keep_snapshot-validation false (record r { validation = v }) topic topic.snapshot,
      kept-Agrees topic unserved topic.snapshot,
    )
    unserved-Delivers (some cursor) topic unserved a = (
      keep json false r v (item_at json (some cursor) topic),
      receive-whole r _ _ v refl a,
      keep_snapshot-validation false (record r { validation = v }) topic topic.snapshot,
      kept-Agrees topic unserved topic.snapshot,
    )

    gone-Agrees :
        (topic : TopicSnapshot) (snapshot : Option DataEnvelope)
        → snapshot ≡ none
        → Agrees
            (record d { baselines = remove d.baselines (key_of topic.source) })
            (keep_snapshot json false (record r { validation = v }) topic snapshot)
    unfolding keep_snapshot
    gone-Agrees topic none gone = record {
      held = remove-Holds d.topics d.baselines r.baselines (key_of topic.source) agrees.held;
      deltas = agrees.deltas;
    }
    gone-Agrees topic (some target) gone = cc gone

    gone-Delivers :
        (cursor : Option ServiceCursor) (topic : TopicSnapshot)
        → topic.snapshot ≡ none
        → accept info_size r.validation (item_at json cursor topic) ≡ yields v
        → Delivers r (item_at json cursor topic) v (
            some (
              item_at json cursor topic,
              record d { baselines = remove d.baselines (key_of topic.source) },
            ))
    unfolding item_at keep keep_topic forget topic_of whole keep_snapshot
    gone-Delivers none topic gone a = (
      keep json false r v (SubscriptionItem.topic topic),
      receive-whole r _ _ v refl a,
      keep_snapshot-validation false (record r { validation = v }) topic topic.snapshot,
      gone-Agrees topic topic.snapshot gone,
    )
    gone-Delivers (some cursor) topic gone a = (
      keep json false r v (item_at json (some cursor) topic),
      receive-whole r _ _ v refl a,
      keep_snapshot-validation false (record r { validation = v }) topic topic.snapshot,
      gone-Agrees topic topic.snapshot gone,
    )

    fits-within :
        (item : SubscriptionItem) (n : ℕ)
        → item_size item ≡ some n
        → n ≤ limit
        → fits json item_size info_size encoding_error limit item ≡ yields item
    unfolding fits
    fits-within item n e le = rw (e, fits) (ground arith)

    snapshot_topic :
        (topic : TopicSnapshot) (target : DataEnvelope)
        → topic.snapshot ≡ some target
        → IsNext json d topic target
        → topic ≡ record {
          source = target.metadata.source;
          generation = target.metadata.generation;
          health = CapabilityHealth.available;
          snapshot = some target;
        }
    snapshot_topic topic target e next = λ i. record {
      source = sym next.source i;
      generation = sym next.generation i;
      health = next.available i;
      snapshot = e i;
    }

    whole-snapshot :
        (cursor : Option ServiceCursor) (topic : TopicSnapshot) (target : DataEnvelope)
        (payload : SnapshotPayload) (n : ℕ)
        → topic.snapshot ≡ some target
        → IsNext json d topic target
        → choose_payload json payload_size (get d.baselines (key_of topic.source)) target
          ≡ some payload
        → item_size (item_at json cursor topic) ≡ some n
        → n ≤ limit
        → whole json item_size info_size encoding_error limit r (
            SubscriptionItem.snapshot
              (record { cursor = cursor; metadata = target.metadata; payload = payload }))
          ≡ yields (item_at json cursor topic)
    unfolding whole reconstruct
    whole-snapshot cursor topic target payload n e next chosen size le =
        let same = snapshot_topic topic target e next in
        let rebuilt : rebuild json target.metadata payload
              (get r.baselines (key_of target.metadata.source))
            ≡ yields target.payload =
          subst
            (λ source.
              rebuild json target.metadata payload (get r.baselines (key_of source))
              ≡ yields target.payload)
            (sym next.source)
            (rebuild-choose_payload json laws payload_size (get d.baselines (key_of topic.source))
              (get r.baselines (key_of topic.source)) target payload
              (λ b f. ((agrees.held (key_of topic.source) b f).0, next.later b f)) next.printed
              chosen) in
        rw (rebuilt, sym same) (fits-within (item_at json cursor topic) n size le)

    -- The baselines after a snapshot is sent.
    sent-Agrees :
        (topic : TopicSnapshot) (target : DataEnvelope)
        → contains d.topics topic.source.topic ≡ true
        → Agrees
            (record d {
              baselines =
                  insert d.baselines
                    (key_of topic.source)
                    (record { snapshot = target; acknowledged = false });
            })
            (keep_snapshot json true (record r { validation = v }) topic (some target))
    unfolding keep_snapshot
    sent-Agrees topic target served = rw agrees.deltas (record {
      held =
          insert-Holds d.topics d.baselines r.baselines (key_of topic.source)
            (record { snapshot = target; acknowledged = false }) served agrees.held;
      deltas = refl;
    })

    kept-topic :
        (cursor : Option ServiceCursor) (topic : TopicSnapshot) (b : Bool)
        → keep json b r v (item_at json cursor topic)
          ≡ keep_snapshot json b (record r { validation = v }) topic topic.snapshot
    unfolding keep keep_topic topic_of forget item_at
    kept-topic none topic b = refl
    kept-topic (some cursor) topic b = refl

    sent-Delivers :
        (cursor : Option ServiceCursor) (topic : TopicSnapshot) (target : DataEnvelope) (n : ℕ)
        → contains d.topics topic.source.topic ≡ true
        → topic.snapshot ≡ some target
        → IsNext json d topic target
        → item_size (item_at json cursor topic) ≡ some n
        → n ≤ limit
        → accept info_size r.validation (item_at json cursor topic) ≡ yields v
        → Delivers r
            (item_at json cursor topic)
            v
            (encode_snapshot json payload_size d cursor (key_of topic.source) target)
    unfolding encode_snapshot
    sent-Delivers cursor topic target n served e next size le a =
        elim (Option-cases
          (choose_payload json payload_size (get d.baselines (key_of topic.source)) target)) [
            | inl f ↦ rw (f, encode_snapshot) tt
            | inr (payload, f) ↦
                let after =
                  keep_snapshot json true (record r { validation = v }) topic (some target) in
                let kept : keep json true r v (item_at json cursor topic) ≡ after =
                  kept-topic cursor topic true
                  ∙ (λ i. keep_snapshot json true (record r { validation = v }) topic (e i)) in
                rw (f, encode_snapshot)
                  (
                    after,
                    receive-whole r _ _ v
                          (whole-snapshot cursor topic target payload n e next f size le) a
                        ∙ (λ i. yields (item_at json cursor topic, kept i)),
                    keep_snapshot-validation true (record r { validation = v }) topic (some target),
                    sent-Agrees topic target served,
                  )
          ]

    topic-Delivers :
        (cursor : Option ServiceCursor) (topic : TopicSnapshot) (n : ℕ)
        → Follows json d topic topic.snapshot
        → item_size (item_at json cursor topic) ≡ some n
        → n ≤ limit
        → accept info_size r.validation (item_at json cursor topic) ≡ yields v
        → Delivers r
            (item_at json cursor topic)
            v
            (encode_topic json payload_size d cursor topic (item_at json cursor topic))
    unfolding encode_topic
    topic-Delivers cursor topic n follows size le a =
        elim (Bool-cases (contains d.topics topic.source.topic)) [
          | inr f ↦ rw (f, encode_topic) (unserved-Delivers cursor topic f a)
          | inl f ↦ elim (Option-cases topic.snapshot) [
            | inl g ↦ simp (f, g) (gone-Delivers cursor topic g a)
            | inr (target, g) ↦
                simp (f, g)
                  (sent-Delivers cursor topic target n f g (subst (Follows json d topic) g follows)
                    size le a)
          ]
        ]

    -- An item that is sent as it is, and ends some of the snapshots.
    plain-Delivers :
        (item : SubscriptionItem) (d' : Delivery)
        → IsWhole item
        → topic_of item ≡ none
        → d'.topics ≡ d.topics
        → Holds d.topics d'.baselines (forget item r.baselines)
        → whole json item_size info_size encoding_error limit r item ≡ yields item
        → accept info_size r.validation item ≡ yields v
        → Delivers r item v (some (item, d'))
    unfolding keep keep_topic
    plain-Delivers item d' is_whole no_topic same holds w a =
        let after : Reader = record r { validation = v; baselines = forget item r.baselines } in
        (
          after,
          receive-whole r item item v w a
              ∙ (λ i. yields (item, keep json (is_whole i) r v item))
              ∙ (λ i. yields (item, keep_topic json false after (no_topic i))),
          refl,
          record {
            held =
                subst (λ topics. Holds topics d'.baselines (forget item r.baselines)) (sym same)
                  holds;
            deltas = agrees.deltas;
          },
        )

    update-Delivers :
        (cursor : ServiceCursor) (update : SubscriptionUpdate) (n : ℕ)
        → ItemFollows json d (SubscriptionItem.update (record { cursor = cursor; update = update }))
        → item_size (SubscriptionItem.update (record { cursor = cursor; update = update })) ≡ some n
        → n ≤ limit
        → accept info_size r.validation
            (SubscriptionItem.update (record { cursor = cursor; update = update }))
          ≡ yields v
        → Delivers r
            (SubscriptionItem.update (record { cursor = cursor; update = update }))
            v
            (encode_update json payload_size d (record { cursor = cursor; update = update }) update)
    unfolding encode_update topic_of forget whole item_at
    update-Delivers cursor (SubscriptionUpdate.topic_changed topic) n follows size le a =
        topic-Delivers (some cursor) topic n follows size le a
    update-Delivers cursor (SubscriptionUpdate.topic_reset source generation reason) n follows size
          le a =
        plain-Delivers _ _ refl refl refl
          (remove-Holds d.topics d.baselines r.baselines (key_of source) agrees.held) refl a
    update-Delivers cursor (SubscriptionUpdate.session_ended session reason) n follows size le a =
        plain-Delivers _ _ refl refl refl
          (retain-Holds d.topics d.baselines r.baselines (λ key. not (key.session == session))
            agrees.held)
          refl a
    update-Delivers cursor update n follows size le a =
        plain-Delivers _ d refl refl refl agrees.held refl a

    item-Delivers :
        (item : SubscriptionItem) (n : ℕ)
        → IsWhole item
        → ItemFollows json d item
        → item_size item ≡ some n
        → n ≤ limit
        → accept info_size r.validation item ≡ yields v
        → Delivers r item v (encode json payload_size d item)
    unfolding encode topic_of forget whole item_at
    item-Delivers (SubscriptionItem.topic topic) n is_whole follows size le a =
        topic-Delivers none topic n follows size le a
    item-Delivers (SubscriptionItem.update u) n is_whole follows size le a =
        update-Delivers u.cursor u.update n follows size le a
    item-Delivers (SubscriptionItem.snapshot frame) n is_whole follows size le a = cc is_whole
    item-Delivers item n is_whole follows size le a =
        plain-Delivers item d is_whole refl refl agrees.held refl a

    pub encode-receive :
        (item sent : SubscriptionItem) (d' : Delivery) (n : ℕ)
        → IsWhole item
        → ItemFollows json d item
        → item_size item ≡ some n
        → n ≤ limit
        → accept info_size r.validation item ≡ yields v
        → encode json payload_size d item ≡ some (sent, d')
        → (r' : Reader) × (receive json item_size info_size encoding_error limit r sent
            ≡ yields (item, r'))
          × (r'.validation ≡ v)
          × Agrees d' r'
    encode-receive item sent d' n is_whole follows size le a e =
        subst (Delivers r item v) e (item-Delivers item n is_whole follows size le a)
