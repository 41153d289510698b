-- ===== src/Service/Discard.antt =====
-- crates/wf-observer-cli/src/service/publication.rs, `discard_poll` and `fail_poll`: a poll whose
-- data is lost still resets the sources that it found changed.
use wf_observer.Common.{
  ℕ, ◌+◌, Bool, true, false, ◌&&◌, Option, none, some, List, [], ◌++◌, length, if◌then◌else◌,
  string_eq, Map, get, insert, replace, any, filter_map, fold, filter,
}
use wf_observer.Wire.{TopicRef, topic_ref_eq, topic_ref_order, SubscriptionItem, SubscriptionUpdate}
use wf_observer.Service.Inner.{Inner, Session, Topic, close, exhausted, ensure_sequences, emit_all}
use wf_observer.Service.Settle.{settle}
use wf_observer.Service.Ticket.{
  PollTicket, Demand, affects, at_limit, fail_topic, fail_changes, rebase_one, current, same_demand,
}

-- The loop over the affected topics: the session's topics, the ticket to retry with, the changes.
pub record Discarded : Type 0 where
  pub topics : Map TopicRef Topic
  pub retry : List Demand
  pub changes : List SubscriptionUpdate

unfoldable pub discard_topic : Discarded → TopicRef × Bool → Discarded
discard_topic d (key, reset) = elim (get d.topics key) [
  | none ↦ d
  | some t ↦
      let t' = fail_topic reset t in
      record {
        topics = insert d.topics key t';
        retry = rebase_one reset key t' d.retry;
        changes = d.changes ++ fail_changes reset t';
      }
]

-- The affected topics in key order, as the `BTreeMap` that collects them.
unfoldable pub affected : Session → PollTicket → List TopicRef → Bool → Map TopicRef Bool
affected session ticket resets failed =
    fold (λ found e. insert found e.0 e.1) []
      (filter_map (affects session.topics resets failed) ticket.topics)

unfoldable pub reset_at_limit : Session → TopicRef × Bool → Bool
reset_at_limit session (key, reset) = elim (get session.topics key) [
  | none ↦ false
  | some t ↦ reset && at_limit t
]

abbrev pub reset_count : List (TopicRef × Bool) → List (TopicRef × Bool)
reset_count = filter (λ e. e.1)

module _ (item_size : SubscriptionItem → Option ℕ) where
  -- The rest of the handler, once the sequences are reserved.
  unfoldable pub discard_affected :
      Inner → Session → PollTicket → Map TopicRef Bool → ℕ → Inner × Option PollTicket
  discard_affected s session ticket touched now =
      let d =
        fold discard_topic (record { topics = session.topics; retry = ticket.topics; changes = [] })
          touched in
      let written : Inner = record s {
        sessions = replace s.sessions ticket.session_id (record session { topics = d.topics });
      } in
      let s' = settle item_size now (emit_all item_size written d.changes) in
      let retry : PollTicket = record ticket { topics = d.retry } in
      (
        s',
        elim (current s' ticket.session_id) [
          | none ↦ none
          | some now_current ↦ if same_demand now_current retry then some now_current else none
        ],
      )

  unfoldable pub discard_poll :
      PollTicket → List TopicRef → Bool → ℕ → Inner → Inner × Option PollTicket
  unfolding reset_at_limit
  discard_poll ticket resets failed now s =
      if s.stopped then (s, none) else elim (get s.sessions ticket.session_id) [
        | none ↦ (s, none)
        | some session ↦
            let touched = affected session ticket resets failed in
            if any (reset_at_limit session) touched
            then (close s exhausted, none)
            else let (s', room) =
                ensure_sequences s (length touched + length (reset_count touched)) in
              if room then discard_affected s' session ticket touched now else (s', none)
      ]

  unfoldable pub fail_poll : PollTicket → ℕ → Inner → Inner
  fail_poll ticket now s = (discard_poll ticket [] true now s).0
