-- ===== src/Service/Operation.antt =====
-- crates/wf-observer-cli/src/service/batch.rs, `Operation`: one publication of a provider.
use wf_observer.Wire.{TopicRef, JsonPayload, CapabilityHealth}

pub data Operation : Type 0 where
  reset : TopicRef → Operation
  snapshot : TopicRef → JsonPayload → Operation
  event : TopicRef → JsonPayload → Operation
  health : TopicRef → CapabilityHealth → Operation

unfoldable pub operation_key : Operation → TopicRef
operation_key (Operation.reset key) = key
operation_key (Operation.snapshot key p) = key
operation_key (Operation.event key p) = key
operation_key (Operation.health key h) = key
