-- ===== src/Service/Content.antt =====
-- crates/wf-observer-cli/src/service/batch.rs: what a batch holds of what a provider publishes.
use wf_observer.Common.{
  ℕ, ◌≡◌, refl, sym, ap, ◌∙◌, ◌⊎◌, inl, inr, String, true, Option, none, some, List, [], ◌∷◌, ◌++◌,
  Fallible, ltb, ◌-◌, ◌+◌, contains, append_nil, Bool-cases, Option-cases,
}
use Prim.Native.String.{len}
use wf_observer.Provider
use wf_observer.Provider.{ProviderManifest, CapabilityDescriptor}
use wf_observer.Wire.{TopicRef, topic_ref_eq, CapabilityHealth, JsonPayload}
use wf_observer.Service.Operation.{Operation, operation_key}
use wf_observer.Service.Batch
use wf_observer.Service.Batch.{Pending, max_batch_bytes, wire_health, wire_reason}
use wf_observer.Service.Staging.{Emission, PendingIsValid, published_by, polled, polled-IsValid}

abbrev pub reported : Provider.CapabilityHealth → CapabilityHealth
reported Provider.CapabilityHealth.available = CapabilityHealth.available
reported (Provider.CapabilityHealth.unavailable reason) =
    CapabilityHealth.unavailable (wire_reason reason)

wire_health-reported : (h : Provider.CapabilityHealth) → wire_health h ≡ reported h
unfolding wire_health
wire_health-reported Provider.CapabilityHealth.available = refl
wire_health-reported (Provider.CapabilityHealth.unavailable reason) = refl

-- A payload that cannot be printed is left out.
abbrev pub printed : (JsonPayload → Operation) → Option String → List Operation
printed operation none = []
printed operation (some text) = operation (record { text = text }) ∷ []

module _ {Value : Type 0} (operation_size : ℕ) (to_text : Value → Option String)
    (manifest : ProviderManifest) where
  abbrev pub topic_of : CapabilityDescriptor → TopicRef
  topic_of capability = record {
    provider_id = manifest.id;
    topic = capability.topic;
    schema_version = capability.schema_version;
  }

  -- The operations that a call asks for.
  abbrev pub asked : Emission Value → List Operation
  asked (Emission.game_build build) = []
  asked (Emission.reset capability) = Operation.reset (topic_of capability) ∷ []
  asked (Emission.snapshot capability value) =
      printed (Operation.snapshot (topic_of capability)) (to_text value)
  asked (Emission.event capability value) =
      printed (Operation.event (topic_of capability)) (to_text value)
  asked (Emission.update capability health) =
      Operation.health (topic_of capability) (reported health) ∷ []

  abbrev pub all_asked : List (Emission Value) → List Operation
  all_asked [] = []
  all_asked (e ∷ es) = all_asked es ++ asked e

  -- The batch failed, or holds these operations after those of the one before.
  abbrev pub Adds : List Operation → Pending → Pending → Type 0
  Adds added p p' = (p'.failed ≡ true) ⊎ ((p'.failed ≡ p.failed) × (p'.ops ≡ p.ops ++ added))

  push-Adds :
      (op : Operation) (size : ℕ) (p : Pending)
      → Adds (op ∷ []) p (Batch.push operation_size to_text manifest op size p).0
  unfolding Batch.push
  push-Adds op size p =
      let key = operation_key op in
      let bytes = size + operation_size + len key.provider_id + len key.topic in
      elim (Bool-cases (ltb (max_batch_bytes - p.bytes) bytes)) [
        | inl e ↦ rw (e, Batch.push) (inl refl)
        | inr e ↦ rw (e, Batch.push) (inr (refl, refl))
      ]

  publish-Adds :
      (operation : JsonPayload → Operation) (text : Option String) (p : Pending)
      → Adds
          (printed operation text)
          p
          (Batch.publish operation_size to_text manifest operation text p).0
  unfolding Batch.publish
  publish-Adds operation none p = inr (refl, sym (append_nil p.ops))
  publish-Adds operation (some text) p = push-Adds (operation (record { text = text })) (len text) p

  keyed-Adds :
      (rest : TopicRef → Pending → Pending × Fallible (Unit {0}))
      (capability : CapabilityDescriptor) (added : List Operation) (p : Pending)
      → Adds added p (rest (topic_of capability) p).0
      → Adds added p
          (Batch.keyed operation_size to_text manifest rest
            (Batch.key operation_size to_text manifest capability p)).0
  unfolding Batch.key Batch.reject Batch.topic_key
  keyed-Adds rest capability added p h =
      elim (Bool-cases (Batch.is_declared operation_size to_text manifest capability)) [
        | inl e ↦ rw (e, Batch.key) h
        | inr e ↦ rw (e, Batch.key) (inl refl)
      ]

  reset_at-Adds :
      (key : TopicRef) (p : Pending)
      → Adds (Operation.reset key ∷ []) p (Batch.reset_at operation_size to_text manifest key p).0
  unfolding Batch.reset_at
  reset_at-Adds key p = elim (Bool-cases (contains p.resets key)) [
    | inl e ↦ rw e (inl refl)
    | inr e ↦ rw e (inr (refl, refl))
  ]

  snapshot_at-Adds :
      (capability : CapabilityDescriptor) (value : Value) (key : TopicRef) (p : Pending)
      → Adds
          (printed (Operation.snapshot key) (to_text value))
          p
          (Batch.snapshot_at operation_size to_text manifest capability value key p).0
  unfolding Batch.snapshot_at Batch.reject
  snapshot_at-Adds capability value key p = elim (Option-cases capability.snapshots) [
    | inl e ↦ rw e (inl refl)
    | inr (d, e) ↦ rw e (publish-Adds (Operation.snapshot key) (to_text value) p)
  ]

  event_at-Adds :
      (capability : CapabilityDescriptor) (value : Value) (key : TopicRef) (p : Pending)
      → Adds
          (printed (Operation.event key) (to_text value))
          p
          (Batch.event_at operation_size to_text manifest capability value key p).0
  unfolding Batch.event_at Batch.reject
  event_at-Adds capability value key p = elim (Bool-cases capability.events) [
    | inr e ↦ rw e (inl refl)
    | inl e ↦ rw e (publish-Adds (Operation.event key) (to_text value) p)
  ]

  update_at-Adds :
      (health : Provider.CapabilityHealth) (key : TopicRef) (p : Pending)
      → Adds
          (Operation.health key (reported health) ∷ [])
          p
          (Batch.update_at operation_size to_text manifest health key p).0
  unfolding Batch.update_at
  update_at-Adds health key p =
      rw (wire_health-reported health) (push-Adds (Operation.health key (reported health)) 1024 p)

  game_build-Adds :
      (build : Option String) (p : Pending)
      → Adds [] p (Batch.game_build operation_size to_text manifest build p).0
  unfolding Batch.game_build Batch.reject
  game_build-Adds none p = inr (refl, sym (append_nil p.ops))
  game_build-Adds (some build) p = elim (Bool-cases (ltb 256 (len build))) [
    | inl e ↦ rw e (inl refl)
    | inr e ↦ rw e (inr (refl, sym (append_nil p.ops)))
  ]

  published_by-Adds :
      (e : Emission Value) (p : Pending)
      → Adds (asked e) p (published_by operation_size to_text manifest e p)
  unfolding published_by Batch.reset Batch.snapshot Batch.event Batch.update
  published_by-Adds (Emission.game_build build) p = game_build-Adds build p
  published_by-Adds (Emission.reset capability) p =
      keyed-Adds (Batch.reset_at operation_size to_text manifest) capability _ p
        (reset_at-Adds (topic_of capability) p)
  published_by-Adds (Emission.snapshot capability value) p =
      keyed-Adds (Batch.snapshot_at operation_size to_text manifest capability value) capability _ p
        (snapshot_at-Adds capability value (topic_of capability) p)
  published_by-Adds (Emission.event capability value) p =
      keyed-Adds (Batch.event_at operation_size to_text manifest capability value) capability _ p
        (event_at-Adds capability value (topic_of capability) p)
  published_by-Adds (Emission.update capability health) p =
      keyed-Adds (Batch.update_at operation_size to_text manifest health) capability _ p
        (update_at-Adds health (topic_of capability) p)

  -- The batch failed, or holds exactly what the calls asked for, in order.
  abbrev pub Holds : List (Emission Value) → Pending → Type 0
  Holds es p = (p.failed ≡ true) ⊎ (p.ops ≡ all_asked es)

  Holds-Adds :
      (e : Emission Value) (es : List (Emission Value)) (p p' : Pending)
      → Holds es p
      → Adds (asked e) p p'
      → Holds (e ∷ es) p'
  Holds-Adds e es p p' h (inl broken) = inl broken
  Holds-Adds e es p p' (inl broken) (inr (same, added)) = inl (same ∙ broken)
  Holds-Adds e es p p' (inr holds) (inr (same, added)) =
      inr (added ∙ ap (λ ops. ops ++ asked e) holds)

  polled-Holds : (es : List (Emission Value)) → Holds es (polled operation_size to_text manifest es)
  unfolding polled
  polled-Holds [] = inr refl
  polled-Holds (e ∷ es) =
      Holds-Adds e es (polled operation_size to_text manifest es)
        (published_by operation_size to_text manifest e (polled operation_size to_text manifest es))
        (polled-Holds es) (published_by-Adds e (polled operation_size to_text manifest es))

  -- Whatever a provider's poll publishes, the batch has failed or holds exactly the operations that
  -- were asked for and could be printed, in order. It holds only operations of topics that the
  -- manifest declares, no health but available and unavailable and no topic reset twice, and what its
  -- operations take, with the sizes of all their texts, is what it counts and within its limit.
  pub polled_lem :
      (es : List (Emission Value))
      → Holds es (polled operation_size to_text manifest es)
        × PendingIsValid operation_size to_text manifest (polled operation_size to_text manifest es)
  polled_lem es = (polled-Holds es, polled-IsValid operation_size to_text manifest es)
