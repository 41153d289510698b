-- ===== src/Provider/Contract.antt =====
-- crates/provider-sdk/src/contract/{manifest,publication,error}.rs.
use wf_observer.Common.{ℕ, String, Bool, Option, List, Eq, derive_eq}

pub data SnapshotDelivery : Type 0 where
  full delta : SnapshotDelivery

unfoldable pub SnapshotDelivery-discrete : Discrete SnapshotDelivery
SnapshotDelivery-discrete = hlevel

unfoldable pub OptionDelivery-discrete : Discrete (Option SnapshotDelivery)
OptionDelivery-discrete = hlevel SnapshotDelivery-discrete

instance abbrev pub delivery_eq : Eq (Option SnapshotDelivery)
delivery_eq = derive_eq OptionDelivery-discrete

unfoldable pub Bool-discrete : Discrete Bool
Bool-discrete = hlevel

instance abbrev pub bool_eq : Eq Bool
bool_eq = derive_eq Bool-discrete

pub record GameDescriptor : Type 0 where
  pub id : String
  pub name : String

pub record CapabilityDescriptor : Type 0 where
  pub topic : String
  pub schema_version : ℕ
  pub snapshots : Option SnapshotDelivery
  pub events : Bool

pub record ProviderManifest : Type 0 where
  pub id : String
  pub name : String
  pub version : String
  pub game : GameDescriptor
  pub capabilities : List CapabilityDescriptor

pub data DependencyFailure : Type 0 where
  target_not_ready unsupported_build read_failed validation_failed provider_failed :
      DependencyFailure

pub data UnavailableReason : Type 0 where
  target_not_ready : UnavailableReason
  unsupported_build : UnavailableReason
  read_failed : String → UnavailableReason
  validation_failed : String → UnavailableReason
  provider_failed : String → UnavailableReason
  dependency_unavailable : String → DependencyFailure → UnavailableReason

pub data CapabilityHealth : Type 0 where
  available : CapabilityHealth
  unavailable : UnavailableReason → CapabilityHealth

unfoldable pub failure : UnavailableReason → DependencyFailure
failure UnavailableReason.target_not_ready = DependencyFailure.target_not_ready
failure UnavailableReason.unsupported_build = DependencyFailure.unsupported_build
failure (UnavailableReason.read_failed m) = DependencyFailure.read_failed
failure (UnavailableReason.validation_failed m) = DependencyFailure.validation_failed
failure (UnavailableReason.provider_failed m) = DependencyFailure.provider_failed
failure (UnavailableReason.dependency_unavailable d f) = f

unfoldable pub with_dependency : UnavailableReason → String → UnavailableReason
unfolding failure
with_dependency (UnavailableReason.dependency_unavailable d f) dependency =
    UnavailableReason.dependency_unavailable d f
with_dependency reason dependency =
    UnavailableReason.dependency_unavailable dependency (failure reason)
