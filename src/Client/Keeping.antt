-- ===== src/Client/Keeping.antt =====
-- crates/wf-observer-sdk/src/subscription/validation.rs: what the checks of sessions and topics leave
-- as it is.
use wf_observer.Common.{◌≡◌, refl, arith}
use wf_observer.Common.Attempt.{Ensures}
use wf_observer.Wire.{SubscriptionUpdate}
use wf_observer.Client.Validation.{
  Validation, add_session, change_session, source, topic, update, note,
}

-- The position of the stream, which only its own items move.
pub record Keeps (v v' : Validation) : Type 0 where
  pub selection : v'.selection ≡ v.selection
  pub checkpoint : v'.checkpoint ≡ v.checkpoint
  pub ready : v'.ready ≡ v.ready
  pub sequence : v'.sequence ≡ v.sequence

abbrev pub same : (v : Validation) → Keeps v v
same v = record { selection = refl; checkpoint = refl; ready = refl; sequence = refl }

-- What an accepted update keeps.
pub update-keeps : (v : Validation) (u : SubscriptionUpdate) → Ensures (Keeps v) (update v u)
unfolding update add_session change_session topic source note
update-keeps v (SubscriptionUpdate.session_started info) = ground (arith, same v)
update-keeps v (SubscriptionUpdate.session_changed info) = ground (arith, same v)
update-keeps v (SubscriptionUpdate.session_ended session reason) = ground (arith, same v)
update-keeps v (SubscriptionUpdate.topic_reset src generation reason) = ground (arith, same v)
update-keeps v (SubscriptionUpdate.topic_changed t) = ground (arith, same v)
update-keeps v (SubscriptionUpdate.event e) = ground (arith, same v)
