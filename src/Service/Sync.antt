-- ===== src/Service/Sync.antt =====
-- crates/wf-observer-cli/src/service/inner.rs, `sync_runtime` and `add_session`: the sessions follow
-- the lifecycle status of the attached processes.
use wf_observer.Common.{
  ℕ, ◌+◌, String, Bool, true, false, not, ◌&&◌, ◌||◌, Option, none, some, List, [], ◌∷◌, length,
  if◌then◌else◌, ◌==◌, string_eq, nat_eq, Map, get, insert, remove, contains_key, keys, values,
  retain, any, fold, find, string_order,
}
use wf_observer.Wire.{
  SessionRef, TopicRef, topic_ref_eq, topic_ref_order, SessionInfo, SessionSelector,
  session_selector_eq, CapabilityHealth, CapabilityDescriptor, ProviderDescriptor, SubscriptionItem,
  SubscriptionUpdate, SubscriptionEnd, SessionEndReason, Result, ok, err,
}
use wf_observer.Runtime
use wf_observer.Runtime.{HostStatus, Activity, target_info_eq, host_status_eq}
use wf_observer.Service.Queue
use wf_observer.Service.Queue.{Queue}
use wf_observer.Service.Catalog.{invalid}
use wf_observer.Service.Subscriber.{Subscriber}
use wf_observer.Service.Inner.{Inner, Topic, set_queue, ensure_sequences, advance, emit, emit_all}
use wf_observer.Service.Settle.{settle}

-- matches!(activity, Activity::Observing { session_id } if session_id == id)
unfoldable pub observes : Activity → String → Bool
observes (Activity.observing session_id) id = session_id == id
observes _ id = false

unfoldable pub is_retrying : Activity → Bool
is_retrying (Activity.retrying error) = true
is_retrying _ = false

unfoldable pub known_build : Inner → String → Option String
known_build s id = elim (get s.sessions id) [ none ↦ none | some t ↦ t.info.game_build ]

unfoldable pub info_of : Inner → Runtime.TargetStatus → String → SessionInfo
unfolding known_build
info_of s target id = record {
  session = record { run_id = s.run_id; session_id = id };
  provider_id = target.target.provider_id;
  game_id = target.target.game_id;
  target = record { pid = target.target.process.pid; executable = target.target.executable };
  game_build = known_build s id;
}

unfoldable pub add_incoming :
    Inner → Map String SessionInfo → Runtime.TargetStatus → Activity → Map String SessionInfo
unfolding info_of
add_incoming s found target (Activity.observing id) = insert found id (info_of s target id)
add_incoming s found target _ = found

-- The sessions that the status observes.
unfoldable pub incoming : Inner → HostStatus → Map String SessionInfo
unfolding add_incoming
incoming s status =
    fold (λ found target. add_incoming s found target target.activity) [] status.targets

-- Whether the process of an ended session is being attached again.
unfoldable pub retrying : Inner → HostStatus → String → Bool
unfolding observes is_retrying
retrying s status id =
    any
      (λ old.
        observes old.activity id
        && any (λ new. new.target == old.target && is_retrying new.activity) status.targets)
      s.runtime.targets

unfoldable pub selects_only : SessionRef → Subscriber → Bool
selects_only reference s = s.selection.sessions == SessionSelector.session reference

-- The subscriptions to the one session end with it.
unfoldable pub finish_selected : SessionRef → (ℕ → Queue) → Map ℕ Subscriber → ℕ → Queue
unfolding selects_only
finish_selected reference queues [] = queues
finish_selected reference queues ((id, s) ∷ rest) =
    finish_selected reference
      (if selects_only reference s
        then set_queue queues id (Queue.finish (queues id) SubscriptionEnd.session_ended false)
        else queues)
      rest

unfoldable pub drop_session : Inner → String → SessionRef → Inner
unfolding finish_selected
drop_session s id reference = record s {
  sessions = remove s.sessions id;
  queues = finish_selected reference s.queues s.subscribers;
  subscribers = retain (λ _ subscriber. not (selects_only reference subscriber)) s.subscribers;
}

unfoldable pub new_topic : SessionInfo → ProviderDescriptor → CapabilityDescriptor → Topic
new_topic info provider cap = record {
  state = record {
    source = record {
      session = info.session;
      game_id = info.game_id;
      topic = record {
        provider_id = provider.id;
        topic = cap.topic;
        schema_version = cap.schema_version;
      };
    };
    generation = 1;
    health = CapabilityHealth.idle;
    snapshot = none;
  };
  demanded = false;
  epoch = 0;
  deadline = none;
}

unfoldable pub new_topics : SessionInfo → ProviderDescriptor → Map TopicRef Topic
unfolding new_topic
new_topics info provider =
    fold (λ topics cap. let t = new_topic info provider cap in insert topics t.state.source.topic t)
      [] provider.capabilities

unfoldable pub topic_changes : List Topic → List SubscriptionUpdate
topic_changes [] = []
topic_changes (t ∷ ts) = SubscriptionUpdate.topic_changed t.state ∷ topic_changes ts

module _ (item_size : SubscriptionItem → Option ℕ) where
  unfoldable pub end_session : HostStatus → Inner → String → Inner
  end_session status s id = elim (get s.sessions id) [
    | none ↦ s
    | some t ↦
        let reason =
          if retrying s status id
          then SessionEndReason.provider_failed
          else SessionEndReason.target_exited in
        drop_session (emit item_size s (SubscriptionUpdate.session_ended t.info.session reason)) id
          t.info.session
  ]

  unfoldable pub start_session : Inner → SessionInfo → ProviderDescriptor → Inner
  start_session s info provider =
      let topics = new_topics info provider in
      let added : Inner = record s {
        sessions =
            insert s.sessions info.session.session_id (record { info = info; topics = topics });
      } in
      emit_all item_size (emit item_size added (SubscriptionUpdate.session_started info))
        (topic_changes (values topics))

  unfoldable pub start_if_room :
      SessionInfo → ProviderDescriptor → Inner × Bool → Inner × Result (Unit {0})
  start_if_room info provider (s, true) = (start_session s info provider, ok tt)
  start_if_room info provider (s, false) = (s, ok tt)

  -- The state beside the result: an error leaves what was done before it.
  unfoldable pub add_session : Inner → SessionInfo → Inner × Result (Unit {0})
  unfolding start_if_room
  add_session s info = elim (find (λ p. p.id == info.provider_id) s.catalog.providers) [
    | none ↦ (s, err (invalid "unregistered session provider"))
    | some provider ↦
        start_if_room info provider (ensure_sequences s (1 + length provider.capabilities))
  ]

  -- The rest of the loop, unless the step failed.
  abbrev pub unless_failed :
      (Inner → Inner × Result (Unit {0})) → Inner × Result (Unit {0}) → Inner × Result (Unit {0})
  unless_failed rest (s, err e) = (s, err e)
  unless_failed rest (s, ok _) = rest s

  unfoldable pub add_sessions : Map String SessionInfo → Inner → Inner × Result (Unit {0})
  add_sessions [] s = (s, ok tt)
  add_sessions ((id, info) ∷ rest) s =
      let added = unless_failed (add_sessions rest) (add_session s info) in
      let skipped = add_sessions rest s in if contains_key s.sessions id then skipped else added

  unfoldable pub finish_sync :
      HostStatus → ℕ → Inner × Result (Unit {0}) → Inner × Result (Unit {0})
  finish_sync status now (s, err e) = (s, err e)
  finish_sync status now (s, ok _) =
      (settle item_size now (advance (record s { runtime = status })).0, ok tt)

  unfoldable pub sync_runtime : HostStatus → ℕ → Inner → Inner × Result (Unit {0})
  unfolding finish_sync
  sync_runtime status now s =
      if s.stopped || (s.runtime == status)
      then (s, ok tt)
      else let found = incoming s status in
        let ended = keys (retain (λ id _. not (contains_key found id)) s.sessions) in
        finish_sync status now (add_sessions found (fold (end_session status) s ended))
