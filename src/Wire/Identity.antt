-- ===== src/Wire/Identity.antt =====
-- crates/protocol/src/v1/identity.rs: owned identities, their equality and the order of the keys.
use Prim.Native.Nat.{Ordering, compare as compare_ℕ}
use Prim.Native.String.{compare as compare_string}
use native.Mathlib.Decide.{ℕ_discrete}
use wf_observer.Common.{ℕ, String, Bool, true, false, Eq, derive_eq, String-discrete, Order}

pub record ServiceCursor : Type 0 where
  pub run_id : String
  pub sequence : ℕ

unfoldable pub ServiceCursor-discrete : Discrete ServiceCursor
ServiceCursor-discrete = hlevel (String-discrete, ℕ_discrete)

instance abbrev pub service_cursor_eq : Eq ServiceCursor
service_cursor_eq = derive_eq ServiceCursor-discrete

pub record SessionRef : Type 0 where
  pub run_id : String
  pub session_id : String

unfoldable pub SessionRef-discrete : Discrete SessionRef
SessionRef-discrete = hlevel String-discrete

instance abbrev pub session_ref_eq : Eq SessionRef
session_ref_eq = derive_eq SessionRef-discrete

pub record TopicRef : Type 0 where
  pub provider_id : String
  pub topic : String
  pub schema_version : ℕ

unfoldable pub TopicRef-discrete : Discrete TopicRef
TopicRef-discrete = hlevel (String-discrete, ℕ_discrete)

instance abbrev pub topic_ref_eq : Eq TopicRef
topic_ref_eq = derive_eq TopicRef-discrete

-- The derived order: field by field, the first difference decides.
abbrev then_compare : Ordering → Bool → Bool
then_compare Ordering.lt rest = true
then_compare Ordering.eq rest = rest
then_compare Ordering.gt rest = false

unfoldable pub topic_ref_before : TopicRef → TopicRef → Bool
topic_ref_before a b = then_compare (compare_string a.provider_id b.provider_id) (
    then_compare (compare_string a.topic b.topic)
      (then_compare (compare_ℕ a.schema_version b.schema_version) false))

instance abbrev pub topic_ref_order : Order TopicRef
topic_ref_order = record { before = topic_ref_before }

pub record TopicSource : Type 0 where
  pub session : SessionRef
  pub game_id : String
  pub topic : TopicRef

unfoldable pub TopicSource-discrete : Discrete TopicSource
TopicSource-discrete = hlevel (String-discrete, SessionRef-discrete, TopicRef-discrete)

instance abbrev pub topic_source_eq : Eq TopicSource
topic_source_eq = derive_eq TopicSource-discrete
