-- ===== src/Service/Invariant.antt =====
-- The well-formedness of the service's state: what every topic of every session is at all times.
pub mod Emit
pub mod Sweep
pub mod Settle
pub mod Sync
pub mod Stage
pub mod Commit
pub mod Poll
pub mod Discard
pub mod Subscribe
pub mod Reach
use wf_observer.Common.{
  ℕ, ◌≤◌, ◌<◌, String, ◌≡◌, ◌≢◌, Bool, true, false, Option, none, some, u64_max, Map, Every,
}
use wf_observer.Wire.{SessionInfo, TopicRef, CapabilityHealth, TopicSnapshot, DataEnvelope}
use wf_observer.Service.Subscriber.{Subscriber}
use wf_observer.Service.Inner.{Inner, Session, Topic}
use wf_observer.Service.Settle.{demanded_by, any_ended}

-- A snapshot is of its topic's source and generation, numbered by an update that was made, and
-- there only while the topic is available.
abbrev pub Carries : ℕ → TopicSnapshot → Option DataEnvelope → Type 0
Carries n state none = Unit
Carries n state (some d) =
    (state.health ≡ CapabilityHealth.available)
    × (d.metadata.source ≡ state.source)
    × (d.metadata.generation ≡ state.generation)
    × (0 < d.metadata.sequence)
    × (d.metadata.sequence ≤ n)

-- What holds of a topic also in the middle of a transition.
pub record TopicIsSound (n : ℕ) (info : SessionInfo) (key : TopicRef) (t : Topic) : Type 0 where
  pub owned :
      t.state.source ≡ record { session = info.session; game_id = info.game_id; topic = key }
  pub numbered : 0 < t.state.generation
  pub generation_fits : t.state.generation ≤ u64_max
  pub epoch_fits : t.epoch ≤ u64_max
  pub carries : Carries n t.state t.state.snapshot

-- A topic is idle exactly while nobody asks for it, and then has no deadline and no data.
abbrev pub Rests : Bool → Topic → Type 0
Rests false t =
    (t.state.health ≡ CapabilityHealth.idle) × (t.state.snapshot ≡ none) × (t.deadline ≡ none)
Rests true t = t.state.health ≢ CapabilityHealth.idle

pub record TopicIsValid (n : ℕ) (info : SessionInfo) (key : TopicRef) (t : Topic) : Type 0 where
  pub sound : TopicIsSound n info key t
  pub rests : Rests t.demanded t

-- A session is stored under its identity in this run, and all its topics have the property.
pub record SessionHas (P : SessionInfo → TopicRef → Topic → Type 0) (run_id id : String)
    (s : Session) : Type 0 where
  pub named : s.info.session ≡ record { run_id = run_id; session_id = id }
  pub topics : Every (P s.info) s.topics

abbrev pub AllTopics :
    (SessionInfo → TopicRef → Topic → Type 0) → String → Map String Session → Type 0
AllTopics P run_id sessions = Every (SessionHas P run_id) sessions

pub record InnerIsSound (s : Inner) : Type 0 where
  pub sessions : AllTopics (TopicIsSound s.sequence) s.run_id s.sessions
  pub sequence_fits : s.sequence ≤ u64_max

pub record InnerIsValid (s : Inner) : Type 0 where
  pub sessions : AllTopics (TopicIsValid s.sequence) s.run_id s.sessions
  pub sequence_fits : s.sequence ≤ u64_max

-- A topic is demanded exactly when some subscription asks for it.
abbrev pub Agrees : Map ℕ Subscriber → SessionInfo → TopicRef → Topic → Type 0
Agrees subscribers info key t = t.demanded ≡ demanded_by subscribers info.session key

-- What a settled state adds: no subscription has ended, and demand agrees with them.
pub record InnerIsSettled (s : Inner) : Type 0 where
  pub live : any_ended s.queues s.subscribers ≡ false
  pub sessions : AllTopics (Agrees s.subscribers) s.run_id s.sessions
