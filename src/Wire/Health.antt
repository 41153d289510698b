-- ===== src/Wire/Health.antt =====
-- crates/protocol/src/v1/status.rs and the resources of error.rs: readiness of one topic, and what
-- identifies a session.
use wf_observer.Common.{ℕ, String, Option, List, Bool, true, false, Eq, derive_eq, String-discrete}
use wf_observer.Wire.Identity.{SessionRef, TopicRef, ServiceCursor}

pub data DependencyFailure : Type 0 where
  target_not_ready unsupported_build read_failed validation_failed provider_failed :
      DependencyFailure

pub data UnavailableReason : Type 0 where
  target_not_ready : UnavailableReason
  unsupported_build : UnavailableReason
  read_failed : String → UnavailableReason
  validation_failed : String → UnavailableReason
  provider_failed : String → UnavailableReason
  dependency_unavailable : String → DependencyFailure → UnavailableReason

pub data CapabilityHealth : Type 0 where
  idle : CapabilityHealth
  initializing : CapabilityHealth
  available : CapabilityHealth
  unavailable : UnavailableReason → CapabilityHealth

unfoldable pub CapabilityHealth-discrete : Discrete CapabilityHealth
CapabilityHealth-discrete = hlevel String-discrete

instance abbrev pub capability_health_eq : Eq CapabilityHealth
capability_health_eq = derive_eq CapabilityHealth-discrete

-- matches!(health, CapabilityHealth::Available)
abbrev pub is_available : CapabilityHealth → Bool
is_available available = true
is_available _ = false

pub record TargetProcess : Type 0 where
  pub pid : ℕ
  pub executable : String

pub record SessionInfo : Type 0 where
  pub session : SessionRef
  pub provider_id : String
  pub game_id : String
  pub target : TargetProcess
  pub game_build : Option String

pub record TopicStatus : Type 0 where
  pub topic : TopicRef
  pub generation : ℕ
  pub health : CapabilityHealth

pub data TargetActivity : Type 0 where
  attaching : TargetActivity
  retrying : String → TargetActivity
  observing : String → Option String → List TopicStatus → TargetActivity

pub record TargetStatus : Type 0 where
  pub provider_id : String
  pub game_id : String
  pub target : TargetProcess
  pub activity : TargetActivity

pub data DiscoveryHealth : Type 0 where
  searching : DiscoveryHealth
  retrying : String → DiscoveryHealth

pub record ServiceStatus : Type 0 where
  pub cursor : ServiceCursor
  pub application_version : String
  pub discovery : DiscoveryHealth
  pub targets : List TargetStatus
