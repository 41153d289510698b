-- ===== src/Service/Ticket.antt =====
-- crates/wf-observer-cli/src/service/publication.rs: poll tickets, which fence a provider's output
-- by generation and epoch, and the polls whose data is discarded.
use wf_observer.Common.{
  ℕ, ◌+◌, String, Bool, true, false, not, ◌&&◌, ◌||◌, Option, none, some, List, [], ◌∷◌, ◌++◌,
  if◌then◌else◌, ◌==◌, string_eq, nat_eq, u64_max, saturating_add, Map, get, find, contains,
}
use wf_observer.Wire.{
  TopicRef, topic_ref_eq, CapabilityHealth, UnavailableReason, SubscriptionUpdate, ResetReason,
}
use wf_observer.Service.Inner.{Inner, Topic}
use wf_observer.Service.Settle.{}

pub record Demand : Type 0 where
  pub key : TopicRef
  pub generation : ℕ
  pub epoch : ℕ

pub record PollTicket : Type 0 where
  pub session_id : String
  pub topics : List Demand

unfoldable pub same_topics : List Demand → List Demand → Bool
same_topics [] [] = true
same_topics (a ∷ later) (b ∷ previous) =
    (a.key == b.key && a.generation == b.generation) && same_topics later previous
same_topics _ _ = false

unfoldable pub same_demand : PollTicket → PollTicket → Bool
unfolding same_topics
same_demand ticket previous =
    ticket.session_id == previous.session_id && same_topics ticket.topics previous.topics

unfoldable pub same_found : Option Demand → Option Demand → Bool
same_found (some a) (some b) = a.generation == b.generation
same_found _ _ = false

unfoldable pub same_generation : PollTicket → PollTicket → TopicRef → Bool
unfolding same_found
same_generation ticket previous key =
    same_found (find (λ d. d.key == key) ticket.topics) (find (λ d. d.key == key) previous.topics)

unfoldable pub rebase : List TopicRef → List Demand → List Demand
rebase resets [] = []
rebase resets (d ∷ ds) =
    (if contains resets d.key
      then record d { generation = saturating_add d.generation 1; epoch = saturating_add d.epoch 1 }
      else d)
    ∷ rebase resets ds

unfoldable pub rebase_resets : PollTicket → List TopicRef → PollTicket
unfolding rebase
rebase_resets ticket resets = record ticket { topics = rebase resets ticket.topics }

unfoldable pub demands : Map TopicRef Topic → List Demand
demands [] = []
demands ((key, t) ∷ m) =
    let rest = demands m in
    if t.demanded
    then record { key = key; generation = t.state.generation; epoch = t.epoch } ∷ rest
    else rest

-- PollTicket::current, also ServiceState::ticket
unfoldable pub current : Inner → String → Option PollTicket
unfolding demands
current s session_id = if s.stopped then none else elim (get s.sessions session_id) [
  | none ↦ none
  | some t ↦ some (record { session_id = session_id; topics = demands t.topics })
]

-- The demanded topics of the ticket's generation that a discarded poll touches, each with whether
-- its source was reset.
unfoldable pub affects :
    Map TopicRef Topic → List TopicRef → Bool → Demand → Option (TopicRef × Bool)
affects topics resets failed d = elim (get topics d.key) [
  | none ↦ none
  | some t ↦
      let reset = contains resets d.key in
      if not t.demanded || not (t.state.generation == d.generation)
      then none
      else if reset || (failed && t.epoch == d.epoch)
      then some (d.key, reset)
      else none
]

abbrev pub acquisition_failed : CapabilityHealth
acquisition_failed =
    CapabilityHealth.unavailable
      (UnavailableReason.provider_failed "provider acquisition failed; see local service logs")

-- A topic whose counters have no room for another source.
unfoldable pub at_limit : Topic → Bool
at_limit t = t.state.generation == u64_max || t.epoch == u64_max

unfoldable pub fail_topic : Bool → Topic → Topic
fail_topic reset t =
    let t' : Topic =
      if reset
      then record t {
        state = record t.state { generation = t.state.generation + 1 };
        epoch = t.epoch + 1;
      }
      else t in
    record t' {
      state = record t'.state { health = acquisition_failed; snapshot = none };
      deadline = none;
    }

unfoldable pub fail_changes : Bool → Topic → List SubscriptionUpdate
fail_changes reset t =
    (if reset
      then SubscriptionUpdate.topic_reset t.state.source t.state.generation
          ResetReason.source_changed
        ∷ []
      else [])
    ++ (SubscriptionUpdate.topic_changed t.state ∷ [])

unfoldable pub rebase_one : Bool → TopicRef → Topic → List Demand → List Demand
rebase_one reset key t [] = []
rebase_one reset key t (d ∷ ds) =
    if reset && d.key == key
    then record d { generation = t.state.generation; epoch = t.epoch } ∷ ds
    else d ∷ rebase_one reset key t ds
