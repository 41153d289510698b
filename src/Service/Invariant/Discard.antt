-- ===== src/Service/Invariant/Discard.antt =====
-- `discard_poll` keeps a state that stands.
use wf_observer.Common.{
  ℕ, ◌+◌, string_eq, ◌==◌, ◌≡◌, refl, Bool, true, false, Option, none, some, List, [], ◌∷◌, any,
  length, arith, Bool-cases, Option-cases, inl, inr, Map, Every, get, fold, fold_keeps_at,
  filter_map, All-filter_map, if◌then◌else◌, nat_eq,
}
use wf_observer.Common.Maps.Laws.{
  Every-get, Every-replace, Every-insert, Every-other, Unique, Unique-insert, get-insert, Every-map,
}
use wf_observer.Wire.{SessionInfo, TopicRef, topic_ref_eq, topic_ref_order, SubscriptionItem}
use wf_observer.Service.Inner.{Inner, Session, Topic}
use wf_observer.Service.Ticket.{PollTicket, Demand, affects, at_limit, fail_topic}
use wf_observer.Service.Discard.{
  Discarded, discard_topic, affected, reset_at_limit, discard_affected, discard_poll, reset_count,
}
use wf_observer.Service.Invariant.{TopicIsValid, SessionHas, InnerIsValid}
use wf_observer.Service.Invariant.Emit.{emit_all-IsValid}
use wf_observer.Service.Invariant.Sync.{ensure_sequences_cases}
use wf_observer.Service.Invariant.Poll.{Stands, settle-Stands, close-Stands}

-- A topic that may fail: it is demanded, and its counters have room if its source is reset.
abbrev MayFail : Bool → Topic → Type 0
MayFail reset t = (t.demanded ≡ true) × (reset ≡ true → at_limit t ≡ false)

abbrev AllMayFail : Map TopicRef Topic → Map TopicRef Bool → Type 0
AllMayFail topics touched =
    Every (λ key reset. (t : Topic) → get topics key ≡ some t → MayFail reset t) touched

fail_topic-IsValid :
    (n : ℕ) (info : SessionInfo) (key : TopicRef) (reset : Bool) (t : Topic)
    → MayFail reset t
    → TopicIsValid n info key t
    → TopicIsValid n info key (fail_topic reset t)
unfolding fail_topic at_limit
fail_topic-IsValid n info key true t may h = ground (arith, may.1 refl)
fail_topic-IsValid n info key false t may h = ground arith

discard_topic-keeps :
    (n : ℕ) (info : SessionInfo) (d : Discarded) (key : TopicRef) (reset : Bool)
    → ((t : Topic) → get d.topics key ≡ some t → MayFail reset t)
    → Every (TopicIsValid n info) d.topics
    → Every (TopicIsValid n info) (discard_topic d (key, reset)).topics
unfolding discard_topic
discard_topic-keeps n info d key reset may h = elim (Option-cases (get d.topics key)) [
  | inl e ↦ rw (e, discard_topic) h
  | inr (t, e) ↦
      rw (e, discard_topic)
        (Every-insert _ d.topics key _
          (fail_topic-IsValid n info key reset t (may t e) (Every-get _ d.topics key t h e)) h)
]

-- A step leaves the topics of the other keys.
get-discard_topic :
    (d : Discarded) (key j : TopicRef) (reset : Bool)
    → (key == j) ≡ false
    → get (discard_topic d (key, reset)).topics j ≡ get d.topics j
unfolding discard_topic
get-discard_topic d key j reset ne = elim (Option-cases (get d.topics key)) [
  | inl e ↦ rw (e, discard_topic) refl
  | inr (t, e) ↦ rw (e, discard_topic) (rw (get-insert d.topics key j (fail_topic reset t), ne))
]

fold_discard :
    (n : ℕ) (info : SessionInfo) (touched : Map TopicRef Bool) (d : Discarded)
    → Unique touched
    → AllMayFail d.topics touched
    → Every (TopicIsValid n info) d.topics
    → Every (TopicIsValid n info) (fold discard_topic d touched).topics
unfolding fold
fold_discard n info [] d u may h = h
fold_discard n info ((key, reset) ∷ m) d u may h =
    fold_discard n info m (discard_topic d (key, reset)) u.1
      (Every-map _ _ m (λ j r p t e. p.0 t (rw (get-discard_topic d key j reset p.1) at e))
        (Every-other _ m key u.0 may.1))
      (discard_topic-keeps n info d key reset may.0 h)

affects-demanded :
    (topics : Map TopicRef Topic) (resets : List TopicRef) (failed : Bool) (d : Demand)
    (e : TopicRef × Bool)
    → affects topics resets failed d ≡ some e
    → (t : Topic) → get topics e.0 ≡ some t
    → t.demanded ≡ true
unfolding affects
affects-demanded topics resets failed d (key, reset) found t g = ground arith

module _ (session : Session) (ticket : PollTicket) (resets : List TopicRef) (failed : Bool) where
  IsDemanded : TopicRef × Bool → Type 0
  IsDemanded e = (t : Topic) → get session.topics e.0 ≡ some t → t.demanded ≡ true

  affected-Unique : Unique (affected session ticket resets failed)
  unfolding affected
  affected-Unique =
      fold_keeps_at Unique (λ _. Unit {0}) _ (λ m e _ u. Unique-insert m e.0 e.1 u) []
        (filter_map (affects session.topics resets failed) ticket.topics)
        (All-filter_map _ _ ticket.topics (λ _ _ _. tt)) tt

  affected-IsDemanded :
      Every (λ key reset. IsDemanded (key, reset)) (affected session ticket resets failed)
  unfolding affected IsDemanded
  affected-IsDemanded =
      fold_keeps_at (Every (λ key reset. IsDemanded (key, reset))) IsDemanded _
        (λ m e d h. Every-insert _ m e.0 e.1 d h) []
        (filter_map (affects session.topics resets failed) ticket.topics)
        (All-filter_map IsDemanded _ ticket.topics
          (λ d e found. affects-demanded session.topics resets failed d e found))
        tt

limits_hold :
    (session : Session) (touched : Map TopicRef Bool)
    → any (reset_at_limit session) touched ≡ false
    → Every (λ key reset. (t : Topic) → get session.topics key ≡ some t → t.demanded ≡ true) touched
    → AllMayFail session.topics touched
unfolding any reset_at_limit
limits_hold session [] none_full h = tt
limits_hold session ((key, reset) ∷ m) none_full h =
    ((λ t e. (h.0 t e, λ r. ground arith)), limits_hold session m (ground arith) h.1)

module _ (item_size : SubscriptionItem → Option ℕ) (now : ℕ) where
  discard_affected-Stands :
      (s : Inner) (session : Session) (ticket : PollTicket) (touched : Map TopicRef Bool)
      → InnerIsValid s
      → get s.sessions ticket.session_id ≡ some session
      → Unique touched
      → AllMayFail session.topics touched
      → Stands (discard_affected item_size s session ticket touched now).0
  unfolding discard_affected
  discard_affected-Stands s session ticket touched h found u may =
      let at_id =
        Every-get (SessionHas (TopicIsValid s.sequence) s.run_id) s.sessions ticket.session_id
          session h.sessions found in
      settle-Stands item_size now _ (
        emit_all-IsValid item_size _ _ (record {
          sessions =
              Every-replace (SessionHas (TopicIsValid s.sequence) s.run_id) s.sessions
                ticket.session_id _
                (record {
                  named = at_id.named;
                  topics =
                      fold_discard s.sequence session.info touched
                        (record { topics = session.topics; retry = ticket.topics; changes = [] }) u
                        may at_id.topics;
                })
                h.sessions;
          sequence_fits = h.sequence_fits;
        }))

  -- Discarding a poll keeps a state well-formed and settled.
  pub discard_poll-Stands :
      (ticket : PollTicket) (resets : List TopicRef) (failed : Bool) (s : Inner)
      → Stands s
      → Stands (discard_poll item_size ticket resets failed now s).0
  unfolding discard_poll IsDemanded
  discard_poll-Stands ticket resets failed s h = elim (Bool-cases s.stopped) [
    | inl f ↦ simp f h
    | inr f ↦ elim (Option-cases (get s.sessions ticket.session_id)) [
      | inl g ↦ simp (f, g) h
      | inr (session, g) ↦
          let touched = affected session ticket resets failed in
          elim (Bool-cases (any (reset_at_limit session) touched)) [
            | inl full ↦ simp (f, g, full) (close-Stands s h.valid)
            | inr fits ↦
                simp (f, g, fits)
                  (ensure_sequences_cases
                    (λ r.
                      Stands
                        (if r.1
                          then discard_affected item_size r.0 session ticket touched now
                          else (r.0, none)).0)
                    s (length touched + length (reset_count touched)) (λ _. h)
                    (λ _. close-Stands s h.valid)
                    (λ _ _.
                      discard_affected-Stands s session ticket touched h.valid g
                        (affected-Unique session ticket resets failed)
                        (limits_hold session touched fits
                          (affected-IsDemanded session ticket resets failed))))
          ]
    ]
  ]
