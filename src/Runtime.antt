-- ===== src/Runtime.antt =====
-- crates/wf-observer-cli/src/runtime/record.rs: the lifecycle status that the service follows.
use native.Mathlib.Decide.{ℕ_discrete}
use wf_observer.Common.{ℕ, String, Option, List, Eq, derive_eq, String-discrete}

pub record RecordedProcess : Type 0 where
  pub pid : ℕ
  pub start_marker : ℕ

pub record TargetInfo : Type 0 where
  pub process : RecordedProcess
  pub executable : String
  pub provider_id : String
  pub game_id : String

unfoldable pub TargetInfo-discrete : Discrete TargetInfo
TargetInfo-discrete = hlevel (String-discrete, ℕ_discrete)

instance abbrev pub target_info_eq : Eq TargetInfo
target_info_eq = derive_eq TargetInfo-discrete

pub data Activity : Type 0 where
  attaching : Activity
  observing : String → Activity
  retrying : String → Activity

pub record TargetStatus : Type 0 where
  pub target : TargetInfo
  pub activity : Activity

pub record HostStatus : Type 0 where
  pub discovery_error : Option String
  pub targets : List TargetStatus

unfoldable pub HostStatus-discrete : Discrete HostStatus
HostStatus-discrete = hlevel (String-discrete, ℕ_discrete)

instance abbrev pub host_status_eq : Eq HostStatus
host_status_eq = derive_eq HostStatus-discrete
