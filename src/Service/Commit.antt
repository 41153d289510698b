-- ===== src/Service/Commit.antt =====
-- crates/wf-observer-cli/src/service/publication.rs, `commit_poll` and `StagedPublication::commit`.
use wf_observer.Common.{
  ℕ, ◌+◌, String, Bool, true, false, not, ◌||◌, Option, none, some, length, if◌then◌else◌, ◌==◌,
  string_eq, nat_eq, derive_eq, Eq, String-discrete, Map, get, insert, replace, any, fold,
}
use wf_observer.Wire.{
  TopicRef, topic_ref_eq, topic_ref_order, JsonPayload, JsonPayload-discrete, DataEnvelope,
  TopicSnapshot, SessionInfo, capability_health_eq, SubscriptionItem, SubscriptionUpdate,
  ResetReason, Result, ok, err, ◌>>=◌, ◌>>◌,
}
use wf_observer.Service.Catalog.{invalid}
use wf_observer.Service.Operation.{Operation}
use wf_observer.Service.Batch.{Pending}
use wf_observer.Service.Inner.{Inner, Session, Topic, close, exhausted, ensure_sequences, emit}
use wf_observer.Service.Settle.{settle}
use wf_observer.Service.Ticket.{PollTicket, Demand, at_limit}
use wf_observer.Service.Publication.{StagedPublication, prepare, validate, update_fits}

unfoldable pub OptionPayload-discrete : Discrete (Option JsonPayload)
OptionPayload-discrete = hlevel JsonPayload-discrete

instance abbrev pub option_payload_eq : Eq (Option JsonPayload)
option_payload_eq = derive_eq OptionPayload-discrete

unfoldable pub OptionString-discrete : Discrete (Option String)
OptionString-discrete = hlevel String-discrete

instance abbrev pub option_string_eq : Eq (Option String)
option_string_eq = derive_eq OptionString-discrete

unfoldable pub payload_of : Option DataEnvelope → Option JsonPayload
payload_of none = none
payload_of (some d) = some d.payload

-- Whether a ticket's topic is no longer as it was when the poll began.
unfoldable pub is_stale : Session → Demand → Bool
is_stale session d = elim (get session.topics d.key) [
  | none ↦ true
  | some t ↦ not t.demanded || not (t.state.generation == d.generation) || not (t.epoch == d.epoch)
]

unfoldable pub resets_at_limit : Session → Operation → Bool
unfolding at_limit
resets_at_limit session (Operation.reset key) = elim (get session.topics key) [
  | none ↦ false
  | some t ↦ at_limit t
]
resets_at_limit session _ = false

unfoldable pub differs : TopicSnapshot → TopicSnapshot → Bool
unfolding payload_of
differs old new =
    not (old.generation == new.generation)
    || not (old.health == new.health)
    || not (payload_of old.snapshot == payload_of new.snapshot)

unfoldable pub stamp : ℕ → Option DataEnvelope → Option DataEnvelope
stamp sequence none = none
stamp sequence (some d) = some (record d { metadata = record d.metadata { sequence = sequence } })

unfoldable pub write_topic : Inner → String → TopicRef → Topic → Inner
write_topic s id key t = elim (get s.sessions id) [
  | none ↦ s
  | some session ↦ record s {
    sessions = replace s.sessions id (record session { topics = insert session.topics key t });
  }
]

unfoldable pub topic_in : Inner → String → TopicRef → Option Topic
topic_in s id key = elim (get s.sessions id) [ none ↦ none | some t ↦ get t.topics key ]

-- The session's metadata where the poll has changed it.
unfoldable pub changed_info : Pending → Session → Option SessionInfo
changed_info pending session =
    if pending.game_build == session.info.game_build
    then none
    else some (record session.info { game_build = pending.game_build })

abbrev pub info_count : Option SessionInfo → ℕ
info_count none = 0
info_count (some i) = 1

module _ (item_size : SubscriptionItem → Option ℕ) where
  unfoldable pub commit_reset : Map TopicRef Topic → Inner → TopicRef → Inner
  commit_reset staged s key = elim (get staged key) [
    | none ↦ s
    | some t ↦ emit item_size s (
        SubscriptionUpdate.topic_reset t.state.source t.state.generation ResetReason.source_changed)
  ]

  -- A topic that does not differ keeps the envelope that it has, with its sequence.
  unfoldable pub commit_topic : String → Inner → TopicRef × Topic → Inner
  commit_topic id s (key, t) = elim (topic_in s id key) [
    | none ↦ s
    | some old ↦
        let changed = differs old.state t.state in
        let snapshot =
          if changed then stamp (s.sequence + 1) t.state.snapshot else old.state.snapshot in
        let t' : Topic = record t { state = record t.state { snapshot = snapshot } } in
        let written = write_topic s id key t' in
        if changed
        then emit item_size written (SubscriptionUpdate.topic_changed t'.state)
        else written
  ]

  unfoldable pub commit_event : String → Inner → TopicRef × JsonPayload → Inner
  commit_event id s (key, payload) = elim (topic_in s id key) [
    | none ↦ s
    | some t ↦ emit item_size s (
        SubscriptionUpdate.event (record {
          metadata = record {
            source = t.state.source;
            generation = t.state.generation;
            sequence = s.sequence + 1;
          };
          payload = payload;
        }))
  ]

  unfoldable pub commit : StagedPublication → PollTicket → Inner → Inner
  commit staged ticket s =
      fold (commit_event ticket.session_id)
        (fold (commit_topic ticket.session_id) (fold (commit_reset staged.topics) s staged.resets)
          staged.topics)
        staged.events

  unfoldable pub info_fits : Inner → Option SessionInfo → Result (Unit {0})
  info_fits s none = ok tt
  info_fits s (some info) = update_fits item_size s (SubscriptionUpdate.session_changed info)

  unfoldable pub update_info : String → Inner → Session → Option SessionInfo → Inner
  update_info id s session none = s
  update_info id s session (some info) =
      emit item_size
        (record s { sessions = replace s.sessions id (record session { info = info }) })
        (SubscriptionUpdate.session_changed info)

  -- The mutating part, once everything is checked.
  unfoldable pub apply_poll :
      PollTicket → ℕ → Inner → Session → Option SessionInfo → StagedPublication → Inner × Bool
  apply_poll ticket now s session metadata staged =
      let (s', room) = ensure_sequences s (
        length staged.resets + length staged.topics + length staged.events + info_count metadata) in
      if room
      then (
        settle item_size now
            (commit staged ticket (update_info ticket.session_id s' session metadata)),
        true,
      )
      else (s', false)

  unfoldable pub check_poll :
      PollTicket → Pending → ℕ → Inner → Session → Result (Option SessionInfo × StagedPublication)
  check_poll ticket pending deadline s session = do
    staged ← prepare session ticket pending.ops deadline
    validate item_size s session staged
    let metadata = changed_info pending session
    info_fits s metadata
    ok (metadata, staged)

  unfoldable pub commit_checked :
      PollTicket
      → ℕ
      → Inner
      → Session
      → Result (Option SessionInfo × StagedPublication)
      → Inner × Result Bool
  commit_checked ticket now s session (err e) = (s, err e)
  commit_checked ticket now s session (ok (metadata, staged)) =
      let (s', kept) = apply_poll ticket now s session metadata staged in (s', ok kept)

  unfoldable pub commit_poll : PollTicket → Pending → ℕ → ℕ → Inner → Inner × Result Bool
  unfolding commit_checked
  commit_poll ticket pending deadline now s =
      if pending.failed
      then (s, err (invalid "provider ignored rejected publication"))
      else if s.stopped
      then (s, ok false)
      else elim (get s.sessions ticket.session_id) [
        | none ↦ (s, ok false)
        | some session ↦
            if any (is_stale session) ticket.topics
            then (s, ok false)
            else if any (resets_at_limit session) pending.ops
            then (close s exhausted, ok false)
            else commit_checked ticket now s session (check_poll ticket pending deadline s session)
      ]
