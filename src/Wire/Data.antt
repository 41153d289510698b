-- ===== src/Wire/Data.antt =====
-- crates/protocol/src/v1/{payload,data,catalog}.rs: payloads, envelopes, topic state, capabilities.
-- A payload is its text; its cached hash and patch are memoised values of that text.
use wf_observer.Common.{ℕ, String, Bool, Option, List, Eq, derive_eq, String-discrete}
use wf_observer.Wire.Identity.{TopicSource, TopicSource-discrete}
use native.Mathlib.Decide.{ℕ_discrete}
use wf_observer.Wire.Health.{CapabilityHealth}

pub record JsonPayload : Type 0 where
  pub text : String

unfoldable pub JsonPayload-discrete : Discrete JsonPayload
JsonPayload-discrete = hlevel String-discrete

instance abbrev pub json_payload_eq : Eq JsonPayload
json_payload_eq = derive_eq JsonPayload-discrete

pub record EnvelopeMetadata : Type 0 where
  pub source : TopicSource
  pub generation : ℕ
  pub sequence : ℕ

unfoldable pub EnvelopeMetadata-discrete : Discrete EnvelopeMetadata
EnvelopeMetadata-discrete = hlevel (TopicSource-discrete, ℕ_discrete)

instance abbrev pub envelope_metadata_eq : Eq EnvelopeMetadata
envelope_metadata_eq = derive_eq EnvelopeMetadata-discrete

pub record DataEnvelope : Type 0 where
  pub metadata : EnvelopeMetadata
  pub payload : JsonPayload

pub record EventEnvelope : Type 0 where
  pub metadata : EnvelopeMetadata
  pub payload : JsonPayload

pub record TopicSnapshot : Type 0 where
  pub source : TopicSource
  pub generation : ℕ
  pub health : CapabilityHealth
  pub snapshot : Option DataEnvelope

pub record GameDescriptor : Type 0 where
  pub id : String
  pub name : String

pub record CapabilityDescriptor : Type 0 where
  pub topic : String
  pub schema_version : ℕ
  pub snapshots : Bool
  pub events : Bool

pub record ProviderDescriptor : Type 0 where
  pub id : String
  pub name : String
  pub version : String
  pub game : GameDescriptor
  pub capabilities : List CapabilityDescriptor

pub record Catalog : Type 0 where
  pub providers : List ProviderDescriptor
