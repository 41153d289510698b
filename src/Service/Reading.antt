-- ===== src/Service/Reading.antt =====
-- crates/wf-observer-cli/src/service/state.rs: what a snapshot that is read is.
use mathlib.Core.Path.{◌∙◌, ap}
use wf_observer.Common.{
  ℕ, ◌≤◌, ◌<◌, ◌≡◌, Option, some, none, arith, get, Option-cases, Bool-cases, inl, inr, string_eq,
  ◌==◌, true, false, Bool, refl,
}
use wf_observer.Common.Maps.Laws.{Every-get}
use wf_observer.Wire.{
  DataEnvelope, topic_ref_eq, SubscriptionItem, CapabilityHealth, Result-cases, ok, Ensures,
  Ensures-ok,
}
use wf_observer.Service.Inner.{Inner, Session, Topic, session, capability}
use wf_observer.Service.View.{GetSnapshot, read, answer, snapshot}
use wf_observer.Service.Settle.{expire}
use wf_observer.Service.Invariant.{InnerIsValid, TopicIsValid, SessionHas, Rests}
use wf_observer.Service.Invariant.Settle.{expire_settles}

-- The data is of the session and topic that were asked for, sampled in the topic's present
-- generation, and numbered by an update that was made.
pub record IsCurrent (s : Inner) (request : GetSnapshot) (d : DataEnvelope) : Type 0 where
  pub of_session : d.metadata.source.session ≡ request.session
  pub of_topic : d.metadata.source.topic ≡ request.topic
  pub numbered : 0 < d.metadata.sequence
  pub retained :
      (found : Session) × (get s.sessions request.session.session_id ≡ some found)
      × (t : Topic) × (get found.topics request.topic ≡ some t)
      × (t.demanded ≡ true)
      × (t.state.health ≡ CapabilityHealth.available)
      × (d.metadata.generation ≡ t.state.generation)
  pub sent : d.metadata.sequence ≤ s.sequence

session-found :
    (s : Inner) (request : GetSnapshot) (found : Session)
    → session s request.session ≡ ok found
    → (get s.sessions request.session.session_id ≡ some found) × (request.session.run_id ≡ s.run_id)
unfolding session
session-found s request found e = ground (arith, string_eq.beq_iff request.session.run_id s.run_id)

demanded_of :
    (b : Bool) (t : Topic) → Rests b t → t.state.health ≡ CapabilityHealth.available → b ≡ true
demanded_of true t h e = refl
demanded_of false t h e = ground arith

module _ (s : Inner) (request : GetSnapshot) (found : Session) (t : Topic)
    (h : SessionHas (TopicIsValid s.sequence) s.run_id request.session.session_id found)
    (at_id : get s.sessions request.session.session_id ≡ some found)
    (run : request.session.run_id ≡ s.run_id)
    (at_key : get found.topics request.topic ≡ some t) where
  by_health :
      (health : CapabilityHealth) (snapshot : Option DataEnvelope)
      → t.state.health ≡ health
      → t.state.snapshot ≡ snapshot
      → TopicIsValid s.sequence found.info request.topic t
      → Ensures (IsCurrent s request) (answer health snapshot)
  unfolding answer
  by_health CapabilityHealth.idle snapshot e f v = tt
  by_health CapabilityHealth.initializing snapshot e f v = tt
  by_health (CapabilityHealth.unavailable reason) snapshot e f v = tt
  by_health CapabilityHealth.available none e f v = tt
  by_health CapabilityHealth.available (some d) e f v =
      let (available, source, generation, positive, made) = rw f at v.sound.carries in
      let owned = source ∙ v.sound.owned in
      record {
        of_session = ap (λ x. x.session) owned ∙ h.named ∙ rw run;
        of_topic = ap (λ x. x.topic) owned;
        numbered = positive;
        retained = (found, at_id, t, at_key, demanded_of t.demanded t v.rests e, e, generation);
        sent = made;
      }

  answer-IsCurrent : Ensures (IsCurrent s request) (answer t.state.health t.state.snapshot)
  answer-IsCurrent =
      by_health t.state.health t.state.snapshot refl refl (
        Every-get (TopicIsValid s.sequence found.info) found.topics request.topic t h.topics at_key)

read_cases :
    (s : Inner) (request : GetSnapshot)
    → InnerIsValid s
    → Ensures (IsCurrent s request) (read s request)
unfolding read
read_cases s request h = elim (Result-cases (session s request.session)) [
  | inl (e, f) ↦ rw (f, read) tt
  | inr (found, f) ↦ elim (Result-cases (capability s request.topic)) [
    | inl (e, g) ↦ rw (f, g, read) tt
    | inr (offered, g) ↦ elim (Bool-cases (request.topic.provider_id == found.info.provider_id)) [
      | inr p ↦ rw (f, g, p, read) tt
      | inl p ↦ elim (Bool-cases offered.snapshots) [
        | inr q ↦ rw (f, g, p, q, read) tt
        | inl q ↦ elim (Option-cases (get found.topics request.topic)) [
          | inl r ↦ rw (f, g, p, q, r, read) tt
          | inr (t, r) ↦
              let (at_id, run) = session-found s request found f in
              rw (f, g, p, q, r, read)
                (answer-IsCurrent s request found t
                  (Every-get (SessionHas (TopicIsValid s.sequence) s.run_id) s.sessions
                    request.session.session_id found h.sessions at_id)
                  at_id run r)
        ]
      ]
    ]
  ]
]

-- In a well-formed state, the data that a snapshot request is answered with is of the session and
-- topic that it names and of the topic's present generation, numbered by an update that was made,
-- and the topic is demanded and available.
pub snapshot-IsCurrent :
    (item_size : SubscriptionItem → Option ℕ) (request : GetSnapshot) (now : ℕ) (s : Inner)
    (d : DataEnvelope)
    → InnerIsValid s
    → (snapshot item_size request now s).1 ≡ ok d
    → IsCurrent (snapshot item_size request now s).0 request d
unfolding snapshot
snapshot-IsCurrent item_size request now s d h e =
    Ensures-ok (IsCurrent (expire item_size now s) request) _ d
      (read_cases (expire item_size now s) request (expire_settles item_size now s h).0) e
