-- ===== src/Service/Subscriber.antt =====
-- crates/wf-observer-cli/src/service/subscriptions.rs: what a subscription selects. The queue of a
-- subscriber is an `Arc` that it shares with the subscription's handle; `Inner` holds the queues by
-- subscription identity.
use wf_observer.Common.{Bool, true, ◌&&◌, ◌==◌, string_eq, any, contains}
use wf_observer.Wire.{
  session_ref_eq, topic_ref_eq, SessionRef, TopicRef, SessionInfo, SessionSelector, Subscribe,
  SubscriptionUpdate,
}

pub record Subscriber : Type 0 where
  pub selection : Subscribe
  pub active : Bool

unfoldable pub selects : SessionSelector → SessionRef → Bool
selects SessionSelector.all session = true
selects (SessionSelector.session reference) session = reference == session

unfoldable pub matches_session : Subscriber → SessionRef → Bool
unfolding selects
matches_session s session = selects s.selection.sessions session

unfoldable pub matches : Subscriber → SessionRef → TopicRef → Bool
unfolding matches_session
matches s session topic = matches_session s session && contains s.selection.topics topic

unfoldable pub matches_info : Subscriber → SessionInfo → Bool
unfolding matches_session
matches_info s info =
    matches_session s info.session
    && any (λ t. t.provider_id == info.provider_id) s.selection.topics

unfoldable pub matches_update : Subscriber → SubscriptionUpdate → Bool
unfolding matches matches_info matches_session
matches_update s (SubscriptionUpdate.session_started info) = matches_info s info
matches_update s (SubscriptionUpdate.session_changed info) = matches_info s info
matches_update s (SubscriptionUpdate.session_ended session reason) = matches_session s session
matches_update s (SubscriptionUpdate.topic_reset source generation reason) =
    matches s source.session source.topic
matches_update s (SubscriptionUpdate.topic_changed topic) =
    matches s topic.source.session topic.source.topic
matches_update s (SubscriptionUpdate.event event) =
    matches s event.metadata.source.session event.metadata.source.topic
