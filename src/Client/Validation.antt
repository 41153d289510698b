-- ===== src/Client/Validation.antt =====
-- crates/wf-observer-sdk/src/subscription/validation.rs: the order and the identities of a stream's
-- items. A failure ends the stream, so a failing step has no state.
use Prim.Native.String.{len}
use Prim.Native.Nat.{◌/◌}
use wf_observer.Common.{
  ℕ, ◌+◌, ◌*◌, String, Bool, true, false, not, ◌&&◌, Option, none, some, List, [], ◌∷◌, length, any,
  filter, contains, ltb, leb, ◌==◌, nat_eq, string_eq, string_order, saturating_add, u64_max, Map,
  get, insert, replace, remove, contains_key, keys, values, sum_by,
}
use wf_observer.Common.Attempt.{Attempt, yields, fails, ◌>>=◌, ◌>>◌, require}
use wf_observer.Wire.{
  topic_source_eq, topic_ref_eq, topic_ref_order, session_ref_eq, service_cursor_eq, ServiceCursor,
  SessionRef, TopicRef, TopicSource, SessionInfo, SessionSelector, Subscribe, TopicSnapshot,
  DataEnvelope, SubscriptionItem, SubscriptionUpdate, is_available,
}
use wf_observer.Service.Catalog.{identifier}
use wf_observer.Service.Subscription.{normalise}
use wf_observer.Client.Error.{ClientError}

pub record SeenSession : Type 0 where
  pub info : SessionInfo
  pub topics : Map TopicRef ℕ

pub record Validation : Type 0 where
  pub selection : Subscribe
  pub checkpoint : Option ServiceCursor
  pub ready : Bool
  pub sequence : ℕ
  pub sessions : Map String SeenSession

-- 8 MiB
abbrev pub max_active_metadata_bytes : ℕ
max_active_metadata_bytes = 8 * 1024 * 1024

unfoldable pub new : Subscribe → Validation
new selection = record {
  selection = normalise selection;
  checkpoint = none;
  ready = false;
  sequence = 0;
  sessions = [];
}

unfoldable pub begun : Validation → Bool
begun v = elim v.checkpoint [ none ↦ false | some _ ↦ true ]

abbrev pub Checked : Type 0
Checked = Attempt ClientError Validation

abbrev pub check : Bool → String → Attempt ClientError (Unit {0})
check condition message = require condition (ClientError.protocol message)

abbrev pub found_or {ℓ} : {A : Type ℓ} → String → Option A → Attempt ClientError A
found_or message none = fails (ClientError.protocol message)
found_or message (some value) = yields value

-- Whether the stream began in this run of the service.
unfoldable pub is_run : Option ServiceCursor → String → Bool
is_run none run_id = false
is_run (some c) run_id = c.run_id == run_id

unfoldable pub admits : SessionSelector → SessionRef → Bool
admits SessionSelector.all session = true
admits (SessionSelector.session reference) session = reference == session

unfoldable pub selected : Validation → SessionInfo → Bool
unfolding is_run admits
selected v info =
    is_run v.checkpoint info.session.run_id
    && identifier info.session.session_id
    && identifier info.provider_id
    && identifier info.game_id
    && any (λ t. t.provider_id == info.provider_id) v.selection.topics
    && admits v.selection.sessions info.session

unfoldable pub add_session : Validation → SessionInfo → Checked
add_session v info =
    check (selected v info && not (contains_key v.sessions info.session.session_id))
      "unexpected or duplicate session"
    >> yields (record v {
      sessions = insert v.sessions info.session.session_id (record { info = info; topics = [] });
    })

unfoldable pub is_source : Validation → SeenSession → TopicSource → Bool
is_source v s source =
    s.info.session == source.session
    && s.info.game_id == source.game_id
    && s.info.provider_id == source.topic.provider_id
    && contains v.selection.topics source.topic

unfoldable pub source : Validation → TopicSource → Attempt ClientError SeenSession
unfolding is_source
source v src =
    found_or "topic precedes its session" (get v.sessions src.session.session_id) >>= λ s.
    check (is_source v s src) "unexpected topic source" >> yields s

-- Whether a generation is new, or in an update that of the topic.
unfoldable pub continues : Bool → Option ℕ → ℕ → Bool
continues bootstrap none generation = true
continues true (some g) generation = false
continues false (some g) generation = g == generation

unfoldable pub matches_state : Validation → TopicSnapshot → Option DataEnvelope → Bool
matches_state v topic none = true
matches_state v topic (some d) =
    is_available topic.health
    && d.metadata.source == topic.source
    && d.metadata.generation == topic.generation
    && ltb 0 d.metadata.sequence
    && leb d.metadata.sequence v.sequence

-- Notes the generation of a session's topic.
unfoldable pub note : Validation → SeenSession → TopicSource → ℕ → Validation
note v s src generation = record v {
  sessions =
      replace v.sessions src.session.session_id
        (record s { topics = insert s.topics src.topic generation });
}

unfoldable pub topic : Validation → TopicSnapshot → Bool → Checked
unfolding source continues matches_state note
topic v t bootstrap = source v t.source >>= λ s.
    check (ltb 0 t.generation && continues bootstrap (get s.topics t.source.topic) t.generation)
      "duplicate topic or generation changed without reset"
    >> check (matches_state v t t.snapshot) "snapshot does not match its topic state"
    >> yields (note v s t.source t.generation)

unfoldable pub change_session : Validation → SessionInfo → Checked
change_session v info =
    check (selected v info) "unexpected session metadata"
    >> (found_or "unknown session changed" (get v.sessions info.session.session_id) >>= λ s.
        check (s.info.provider_id == info.provider_id && s.info.game_id == info.game_id)
          "session ownership changed"
        >> yields (record v {
          sessions = replace v.sessions info.session.session_id (record s { info = info });
        }))

abbrev pub is_session : Option SeenSession → SessionRef → Bool
is_session none session = false
is_session (some s) session = s.info.session == session

abbrev pub advances : Option ℕ → ℕ → Bool
advances none generation = false
advances (some old) generation = ltb old generation

abbrev pub is_current : Option ℕ → ℕ → Bool
is_current none generation = false
is_current (some g) generation = g == generation

-- Validation::update
unfoldable pub update : Validation → SubscriptionUpdate → Checked
unfolding add_session change_session topic source note
update v (SubscriptionUpdate.session_started info) = add_session v info
update v (SubscriptionUpdate.session_changed info) = change_session v info
update v (SubscriptionUpdate.session_ended session reason) =
    check (is_session (get v.sessions session.session_id) session) "unknown session ended"
    >> yields (record v { sessions = remove v.sessions session.session_id })
update v (SubscriptionUpdate.topic_reset src generation reason) = source v src >>= λ s.
    check (advances (get s.topics src.topic) generation) "reset does not advance a known generation"
    >> yields (note v s src generation)
update v (SubscriptionUpdate.topic_changed t) = topic v t false
update v (SubscriptionUpdate.event e) = source v e.metadata.source >>= λ s.
    check
      (is_current (get s.topics e.metadata.source.topic) e.metadata.generation
        && e.metadata.sequence == v.sequence)
      "event has stale generation or sequence"
    >> yields v

-- How many of the selected topics are of the session's provider.
unfoldable pub expected : Validation → SeenSession → ℕ
expected v s = length (filter (λ t. t.provider_id == s.info.provider_id) v.selection.topics)

unfoldable pub all_complete : Validation → List SeenSession → Bool
unfolding expected
all_complete v [] = true
all_complete v (s ∷ ss) = length s.topics == expected v s && all_complete v ss

abbrev pub is_checkpoint : Option ServiceCursor → ServiceCursor → Bool
is_checkpoint none cursor = false
is_checkpoint (some c) cursor = c == cursor

-- `info_size` stands for `postcard::experimental::serialized_size` of a session's metadata.
module _ (info_size : SessionInfo → Option ℕ) where
  unfoldable pub session_bytes : SeenSession → ℕ
  session_bytes s =
      saturating_add
        (saturating_add (elim (info_size s.info) [ none ↦ u64_max / 2 | some n ↦ n ]) 256)
        (sum_by (λ key. len key.provider_id + len key.topic + 256) (keys s.topics))

  -- The bound that holds after every item.
  unfoldable pub bounded : Validation → Checked
  unfolding session_bytes
  bounded v =
      check (leb (sum_by session_bytes (values v.sessions)) max_active_metadata_bytes)
        "active metadata exceeds byte limit"
      >> yields v

  unfoldable pub accept_item : Validation → SubscriptionItem → Checked
  unfolding add_session topic update all_complete begun
  accept_item v (SubscriptionItem.begin cursor) =
      check (not (begun v) && identifier cursor.run_id) "invalid or duplicate Begin"
      >> yields (record v { checkpoint = some cursor; sequence = cursor.sequence })
  accept_item v (SubscriptionItem.session info) =
      check (begun v && not v.ready) "Session outside bootstrap" >> add_session v info
  accept_item v (SubscriptionItem.topic t) =
      check (begun v && not v.ready) "Topic outside bootstrap" >> topic v t true
  accept_item v (SubscriptionItem.snapshot frame) =
      fails (ClientError.protocol "snapshot was not reconstructed")
  accept_item v (SubscriptionItem.ready cursor) =
      check (not v.ready && is_checkpoint v.checkpoint cursor) "invalid Ready checkpoint"
      >> check (all_complete v (values v.sessions)) "bootstrap omitted a selected topic"
      >> yields (record v { ready = true })
  accept_item v (SubscriptionItem.update u) =
      check (v.ready && is_run v.checkpoint u.cursor.run_id && ltb v.sequence u.cursor.sequence)
        "out-of-order update"
      >> update (record v { sequence = u.cursor.sequence }) u.update
  accept_item v (SubscriptionItem.closed end) = check (begun v) "Closed before Begin" >> yields v

  -- Validation::accept
  unfoldable pub accept : Validation → SubscriptionItem → Checked
  unfolding accept_item bounded
  accept v item = accept_item v item >>= bounded
