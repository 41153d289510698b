-- ===== src/Service/Batch.antt =====
-- crates/wf-observer-cli/src/service/batch.rs: a provider's output, staged outside the service's
-- lock. A sink's methods change the `Pending` of the batch also where they fail.
use Prim.Native.String.{len, [] as empty, ◌∷◌ as cons}
use wf_observer.Common.{
  ℕ, zero, suc, ◌+◌, ◌-◌, ◌*◌, String, Bool, true, false, not, ◌&&◌, Option, none, some, List, [],
  ◌∷◌, ◌++◌, ltb, if◌then◌else◌, ◌==◌, string_eq, nat_eq, any, contains, Fallible, done, failed,
}
use wf_observer.Provider
use wf_observer.Provider.{ProviderManifest, CapabilityDescriptor, delivery_eq, bool_eq}
use wf_observer.Service.Operation.{Operation, operation_key}
use wf_observer.Wire.{
  TopicRef, topic_ref_eq, JsonPayload, CapabilityHealth, UnavailableReason, DependencyFailure,
}

pub record Pending : Type 0 where
  pub ops : List Operation
  pub resets : List TopicRef
  pub game_build : Option String
  pub bytes : ℕ
  pub failed : Bool

-- Pending::default()
abbrev pub new : Pending
new = record { ops = []; resets = []; game_build = none; bytes = 0; failed = false }

abbrev pub max_batch_bytes : ℕ
max_batch_bytes = 32 * 1024 * 1024

unfoldable pub take_chars : ℕ → String → String
take_chars zero text = empty
take_chars (suc n) empty = empty
take_chars (suc n) (cons c text) = cons c (take_chars n text)

unfoldable pub public_message : String → String
unfolding take_chars
public_message message = take_chars 256 message

unfoldable pub wire_failure : Provider.DependencyFailure → DependencyFailure
wire_failure Provider.DependencyFailure.target_not_ready = DependencyFailure.target_not_ready
wire_failure Provider.DependencyFailure.unsupported_build = DependencyFailure.unsupported_build
wire_failure Provider.DependencyFailure.read_failed = DependencyFailure.read_failed
wire_failure Provider.DependencyFailure.validation_failed = DependencyFailure.validation_failed
wire_failure Provider.DependencyFailure.provider_failed = DependencyFailure.provider_failed

unfoldable pub wire_reason : Provider.UnavailableReason → UnavailableReason
unfolding public_message wire_failure
wire_reason Provider.UnavailableReason.target_not_ready = UnavailableReason.target_not_ready
wire_reason Provider.UnavailableReason.unsupported_build = UnavailableReason.unsupported_build
wire_reason (Provider.UnavailableReason.read_failed m) =
    UnavailableReason.read_failed (public_message m)
wire_reason (Provider.UnavailableReason.validation_failed m) =
    UnavailableReason.validation_failed (public_message m)
wire_reason (Provider.UnavailableReason.provider_failed m) =
    UnavailableReason.provider_failed (public_message m)
wire_reason (Provider.UnavailableReason.dependency_unavailable d f) =
    UnavailableReason.dependency_unavailable (public_message d) (wire_failure f)

unfoldable pub wire_health : Provider.CapabilityHealth → CapabilityHealth
unfolding wire_reason
wire_health Provider.CapabilityHealth.available = CapabilityHealth.available
wire_health (Provider.CapabilityHealth.unavailable reason) =
    CapabilityHealth.unavailable (wire_reason reason)

-- `operation_size` is `size_of::<Operation>()`, which the compiler fixes, and `to_text` is
-- `serde_json::to_string`, whose error is `none`.
module _ {Value : Type 0} (operation_size : ℕ) (to_text : Value → Option String) where
  module _ (manifest : ProviderManifest) where
    unfoldable pub reject {ℓ} : {A : Type ℓ} → Pending → Pending × Fallible A
    reject p = (record p { failed = true }, failed "publication rejected by host")

    unfoldable pub game_build : Option String → Pending → Pending × Fallible (Unit {0})
    unfolding reject
    game_build build p =
        if elim build [ none ↦ false | some value ↦ ltb 256 (len value) ]
        then reject p
        else (record p { game_build = build }, done tt)

    unfoldable pub is_declared : CapabilityDescriptor → Bool
    is_declared cap =
        any
          (λ c.
            c.topic == cap.topic
            && c.schema_version == cap.schema_version
            && c.snapshots == cap.snapshots
            && c.events == cap.events)
          manifest.capabilities

    unfoldable pub topic_key : CapabilityDescriptor → TopicRef
    topic_key cap = record {
      provider_id = manifest.id;
      topic = cap.topic;
      schema_version = cap.schema_version;
    }

    unfoldable pub key : CapabilityDescriptor → Pending → Pending × Fallible TopicRef
    unfolding reject is_declared topic_key
    key cap p = if not (is_declared cap) then reject p else (p, done (topic_key cap))

    unfoldable pub push : Operation → ℕ → Pending → Pending × Fallible (Unit {0})
    unfolding operation_key
    push operation size p =
        let key = operation_key operation in
        let bytes = size + operation_size + len key.provider_id + len key.topic in
        if ltb (max_batch_bytes - p.bytes) bytes
        then (record p { failed = true }, failed "publication batch exceeds staging byte limit")
        else (record p { bytes = p.bytes + bytes; ops = p.ops ++ (operation ∷ []) }, done tt)

    -- The rest of a sink's method, once its capability's key is known.
    abbrev pub keyed :
        (TopicRef → Pending → Pending × Fallible (Unit {0}))
        → Pending × Fallible TopicRef
        → Pending × Fallible (Unit {0})
    keyed rest (p, failed m) = (p, failed m)
    keyed rest (p, done key) = rest key p

    unfoldable pub reset_at : TopicRef → Pending → Pending × Fallible (Unit {0})
    reset_at key p =
        if contains p.resets key
        then (record p { failed = true }, failed "duplicate topic reset in one poll")
        else (
          record p { resets = p.resets ++ (key ∷ []); ops = p.ops ++ (Operation.reset key ∷ []) },
          done tt,
        )

    unfoldable pub reset : CapabilityDescriptor → Pending → Pending × Fallible (Unit {0})
    unfolding key reset_at
    reset capability p = keyed reset_at (key capability p)

    unfoldable pub publish :
        (JsonPayload → Operation) → Option String → Pending → Pending × Fallible (Unit {0})
    unfolding push
    publish operation none p = (p, failed "invalid JSON publication")
    publish operation (some text) p = push (operation (record { text = text })) (len text) p

    unfoldable pub snapshot_at :
        CapabilityDescriptor → Value → TopicRef → Pending → Pending × Fallible (Unit {0})
    unfolding reject publish
    snapshot_at capability value key p = elim capability.snapshots [
      | none ↦ reject p
      | some _ ↦ publish (Operation.snapshot key) (to_text value) p
    ]

    unfoldable pub snapshot : CapabilityDescriptor → Value → Pending → Pending × Fallible (Unit {0})
    unfolding key snapshot_at
    snapshot capability value p = keyed (snapshot_at capability value) (key capability p)

    unfoldable pub event_at :
        CapabilityDescriptor → Value → TopicRef → Pending → Pending × Fallible (Unit {0})
    unfolding reject publish
    event_at capability value key p =
        if not capability.events then reject p else publish (Operation.event key) (to_text value) p

    unfoldable pub event : CapabilityDescriptor → Value → Pending → Pending × Fallible (Unit {0})
    unfolding key event_at
    event capability value p = keyed (event_at capability value) (key capability p)

    unfoldable pub update_at :
        Provider.CapabilityHealth → TopicRef → Pending → Pending × Fallible (Unit {0})
    unfolding push wire_health
    update_at health key p = push (Operation.health key (wire_health health)) 1024 p

    unfoldable pub update :
        CapabilityDescriptor → Provider.CapabilityHealth → Pending → Pending × Fallible (Unit {0})
    unfolding key update_at
    update capability health p = keyed (update_at health) (key capability p)
