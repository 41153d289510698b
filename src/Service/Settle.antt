-- ===== src/Service/Settle.antt =====
-- crates/wf-observer-cli/src/service/inner.rs, `settle` and `expire`: the loops over every topic,
-- which stop at the first exhausted counter.
use wf_observer.Common.{
  ℕ, zero, suc, ◌+◌, Bool, true, false, not, ◌&&◌, ◌||◌, String, Option, none, some, List, [], ◌∷◌,
  ◌++◌, leb, length, if◌then◌else◌, string_eq, nat_eq, checked_add, saturating_add, Map, values,
  retain, any,
}
use wf_observer.Wire.{
  SessionRef, TopicRef, CapabilityHealth, UnavailableReason, SubscriptionItem, SubscriptionUpdate,
  ResetReason,
}
use wf_observer.Service.Queue
use wf_observer.Service.Queue.{Queue}
use wf_observer.Service.Subscriber.{Subscriber, matches}
use wf_observer.Service.Inner.{Inner, Session, Topic, close, exhausted, emit_all}

-- What a loop's body makes of one topic; `stops` is its early return.
pub record Visit : Type 0 where
  pub topic : Topic
  pub changes : List SubscriptionUpdate
  pub stops : Bool

-- What the loop has made of the topics; those after an early return are as they were.
pub record Swept {ℓ} (A : Type ℓ) : Type ℓ where
  pub entries : A
  pub changes : List SubscriptionUpdate
  pub stops : Bool

unfoldable pub sweep_topics :
    (TopicRef → Topic → Visit) → Map TopicRef Topic → Swept (Map TopicRef Topic)
sweep_topics visit [] = record { entries = []; changes = []; stops = false }
sweep_topics visit ((key, t) ∷ m) =
    let v = visit key t in
    let rest = sweep_topics visit m in
    if v.stops
    then record { entries = (key, v.topic) ∷ m; changes = []; stops = true }
    else record {
      entries = (key, v.topic) ∷ rest.entries;
      changes = v.changes ++ rest.changes;
      stops = rest.stops;
    }

unfoldable pub sweep :
    (SessionRef → TopicRef → Topic → Visit) → Map String Session → Swept (Map String Session)
sweep visit [] = record { entries = []; changes = []; stops = false }
sweep visit ((id, s) ∷ m) =
    let v = sweep_topics (visit s.info.session) s.topics in
    let rest = sweep visit m in
    let s' : Session = record s { topics = v.entries } in
    if v.stops then record { entries = (id, s') ∷ m; changes = []; stops = true } else record {
      entries = (id, s') ∷ rest.entries;
      changes = v.changes ++ rest.changes;
      stops = rest.stops;
    }

-- POLL_GRACE, in nanoseconds
abbrev pub poll_grace : ℕ
poll_grace = 5000000000

unfoldable pub stopped_at : Topic → Visit
stopped_at t = record { topic = t; changes = []; stops = true }

-- A topic that gains demand starts a new generation; without room for one the loop stops.
unfoldable pub resume : ℕ → Topic → Visit
unfolding stopped_at
resume now t =
    let cleared : Topic = record t {
      state = record t.state { snapshot = none };
      deadline = some (now + poll_grace);
    } in
    elim (checked_add t.state.generation 1) [
      | none ↦ stopped_at cleared
      | some generation ↦ record {
        topic = record cleared {
          state = record cleared.state {
            generation = generation;
            health = CapabilityHealth.initializing;
          };
        };
        changes =
            SubscriptionUpdate.topic_reset t.state.source generation ResetReason.demand_resumed
            ∷ [];
        stops = false;
      }
    ]

unfoldable pub rest_idle : Topic → Visit
rest_idle t =
    let idle : Topic = record t {
      state = record t.state { snapshot = none; health = CapabilityHealth.idle };
      deadline = none;
    } in
    record {
      topic = idle;
      changes = SubscriptionUpdate.topic_changed idle.state ∷ [];
      stops = false;
    }

unfoldable pub settle_topic : Bool → ℕ → Topic → Visit
unfolding stopped_at resume rest_idle
settle_topic wanted now t =
    if (wanted && t.demanded) || (not wanted && not t.demanded)
    then record { topic = t; changes = []; stops = false }
    else let t' : Topic = record t { demanded = wanted } in
      elim (checked_add t.epoch 1) [
        | none ↦ stopped_at t'
        | some epoch ↦
            let stamped : Topic = record t' { epoch = epoch } in
            if wanted then resume now stamped else rest_idle stamped
      ]

-- Whether some subscription asks for the topic; one that is being set up counts.
unfoldable pub demanded_by : Map ℕ Subscriber → SessionRef → TopicRef → Bool
demanded_by subscribers session key = any (λ s. matches s session key) (values subscribers)

unfoldable pub any_ended : (ℕ → Queue) → Map ℕ Subscriber → Bool
any_ended queues [] = false
any_ended queues ((id, s) ∷ rest) = Queue.ended (queues id) || any_ended queues rest

unfoldable pub deadline_passed : Option ℕ → ℕ → Bool
deadline_passed none now = false
deadline_passed (some deadline) now = leb deadline now

abbrev pub sampling_expired : CapabilityHealth
sampling_expired =
    CapabilityHealth.unavailable (UnavailableReason.provider_failed "sampling deadline exceeded")

unfoldable pub expire_topic : ℕ → Topic → Visit
unfolding stopped_at
expire_topic now t =
    if deadline_passed t.deadline now
    then (let t' : Topic = record t { deadline = none } in
        elim (checked_add t.epoch 1) [
          | none ↦ stopped_at t'
          | some epoch ↦
              let late : Topic = record t' {
                state = record t.state { snapshot = none; health = sampling_expired };
                epoch = epoch;
              } in
              record {
                topic = late;
                changes = SubscriptionUpdate.topic_changed late.state ∷ [];
                stops = false;
              }
        ])
    else record { topic = t; changes = []; stops = false }

-- Without the subscribers whose queue has ended.
unfoldable pub prune : Inner → Inner
prune s = record s { subscribers = retain (λ id _. not (Queue.ended (s.queues id))) s.subscribers }

module _ (item_size : SubscriptionItem → Option ℕ) where
  -- The end of a sweep: the service closes, or the changes are sent.
  unfoldable pub publish : Inner → Swept (Map String Session) → Inner
  publish s swept =
      let s' : Inner = record s { sessions = swept.entries } in
      if swept.stops then close s' exhausted else elim swept.changes [
        | [] ↦ s'
        | u ∷ us ↦
            emit_all item_size (record s' { revision = saturating_add s.revision 1 }) (u ∷ us)
      ]

  -- One round of the loop.
  unfoldable pub settle_round : ℕ → Inner → Inner
  settle_round now s =
      let pruned = prune s in
      publish pruned (
        sweep (λ session key t. settle_topic (demanded_by pruned.subscribers session key) now t)
          pruned.sessions)

  unfoldable pub settle_loop : ℕ → ℕ → Inner → Inner
  settle_loop zero now s = s
  settle_loop (suc fuel) now s =
      let s' = settle_round now s in
      let again = settle_loop fuel now s' in
      if any_ended s'.queues s'.subscribers then again else s'

  -- Each further round drops a subscriber, which bounds the number of rounds.
  unfoldable pub settle : ℕ → Inner → Inner
  settle now s = settle_loop (suc (length s.subscribers)) now s

  unfoldable pub expire : ℕ → Inner → Inner
  expire now s =
      let swept = sweep (λ _ _ t. expire_topic now t) s.sessions in
      let s' = publish s swept in if swept.stops then s' else settle now s'
