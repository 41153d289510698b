-- ===== src/Client/Error.antt =====
-- crates/wf-observer-sdk/src/error.rs: the errors that a stream's reading and listening give.
use wf_observer.Common.{String}
use wf_observer.Wire.{RequestError, SubscriptionEnd}

-- Without the variants that only connecting and decoding give.
pub data ClientError : Type 0 where
  ended : SubscriptionEnd → ClientError
  closed : ClientError
  concurrent_next : ClientError
  lagged : ClientError
  request : RequestError → ClientError
  transport : String → ClientError
  protocol : String → ClientError
