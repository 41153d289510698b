-- ===== src/Client/Feed.antt =====
-- crates/wf-observer-sdk/src/subscription/feed.rs: the feeds that listeners share, in a store that
-- stands for the two kinds of object and the references between them.
pub mod Shown
use wf_observer.Common.{
  ℕ, Bool, true, false, not, ◌&&◌, Option, none, some, List, [], ◌∷◌, ◌++◌, filter, fold,
  if◌then◌else◌, ◌==◌, nat_eq, Map, get, insert, replace, remove, contains_key,
}
use wf_observer.Common.Attempt.{Attempt, yields, fails}
use wf_observer.Wire.{
  topic_ref_eq, topic_ref_order, session_ref_eq, SessionRef, TopicRef, TopicSource, SessionInfo,
  TopicSnapshot, EventEnvelope, Subscribe, SubscriptionItem, SubscriptionUpdate, SubscriptionEnd,
  CapabilityHealth,
}
use wf_observer.Client.Error.{ClientError}
use wf_observer.Client.Listener
use wf_observer.Client.Listener.{session_ref_order, FeedState, Listener, Queue, Terminal}

pub record Feed : Type 0 where
  pub selection : Subscribe
  pub listeners : List ℕ
  pub current : FeedState
  pub ready : Bool
  pub terminal : Option Terminal
  pub stop : Bool

-- A listener that is dropped has left the store.
pub record Store : Type 0 where
  pub feeds : Map ℕ Feed
  pub listeners : Map ℕ Listener

abbrev pub no_state : FeedState
no_state = record { sessions = []; topics = [] }

unfoldable pub new : Subscribe → Feed
new selection = record {
  selection = selection;
  listeners = [];
  current = no_state;
  ready = false;
  terminal = none;
  stop = false;
}

-- `listener.state(topic, current)`.
unfoldable pub show_state : TopicRef → FeedState → Store → ℕ → Store
show_state topic s store l = elim (get store.listeners l) [
  | none ↦ store
  | some x ↦ record store {
    listeners = replace store.listeners l (record x { queue = Listener.on_state x.queue topic s });
  }
]

-- The feed's state, for listeners; `selection.topics[0]` is there, as no selection is empty.
unfoldable pub show_feed : Feed → Store → List ℕ → Store
unfolding show_state
show_feed f store ls = elim f.selection.topics [
  | [] ↦ store
  | topic ∷ _ ↦ fold (show_state topic f.current) store ls
]

-- Feed::attach
unfoldable pub attach : Store → ℕ → ℕ → Store × Bool
unfolding show_feed
attach store feed l = elim (get store.feeds feed) [
  | none ↦ (store, false)
  | some f ↦
      if f.stop
      then (store, false)
      else let attached = record store {
        feeds = replace store.feeds feed (record f { listeners = f.listeners ++ (l ∷ []) });
      } in
        (if f.ready then show_feed f attached (l ∷ []) else attached, true)
]

unfoldable pub leave : Feed → List ℕ → Feed
leave f [] = record f { listeners = []; stop = true; current = no_state }
leave f (l ∷ ls) = record f { listeners = l ∷ ls }

-- Feed::detach
unfoldable pub detach : ℕ → Store → ℕ → Store
unfolding leave
detach l store feed = elim (get store.feeds feed) [
  | none ↦ store
  | some f ↦ record store {
    feeds = replace store.feeds feed (
        leave f
          (filter (λ other. contains_key store.listeners other && not (other == l)) f.listeners));
  }
]

-- Feed::wait_ready, at one look: `none` waits.
unfoldable pub look : Feed → Option (Attempt ClientError (Unit {0}))
look f = elim f.terminal [
  | some (fails error) ↦ some (fails error)
  | some (yields reason) ↦ some (fails (ClientError.protocol "subscription ended during setup"))
  | none ↦
      if f.stop then some (fails ClientError.closed) else if f.ready then some (yields tt) else none
]

-- Feed::publish_state
unfoldable pub publish_state : Store → Feed → Store
unfolding show_feed
publish_state store f = if f.ready then show_feed f store f.listeners else store

-- A feed's new state, shown to its listeners.
unfoldable pub put : Store → ℕ → Feed → Store
unfolding publish_state
put store feed f = publish_state (record store { feeds = replace store.feeds feed f }) f

-- Feed::change
unfoldable pub change : Store → ℕ → (FeedState → FeedState) → Store
unfolding put
change store feed update = elim (get store.feeds feed) [
  | none ↦ store
  | some f ↦ put store feed (record f { current = update f.current })
]

-- Listener::finish, with the feeds that it leaves.
unfoldable pub finish_listener : Option Terminal → Store → ℕ → Store
unfolding detach
finish_listener terminal store l = elim (get store.listeners l) [
  | none ↦ store
  | some x ↦
      let (queue, left) = Listener.finish x.queue terminal in
      fold (detach l)
        (record store { listeners = replace store.listeners l (record x { queue = queue }) }) left
]

-- Feed::finish
unfoldable pub finish : Store → ℕ → Terminal → Store
unfolding finish_listener
finish store feed terminal = elim (get store.feeds feed) [
  | none ↦ store
  | some f ↦
      fold (finish_listener (some terminal))
        (record store {
          feeds =
              replace store.feeds feed
                (record f { stop = true; current = no_state; terminal = some terminal });
        })
        f.listeners
]

unfoldable pub add_info : ℕ → SessionInfo → FeedState → FeedState
add_info sequence info s = record s { sessions = insert s.sessions info.session (sequence, info) }

unfoldable pub add_topic : TopicSnapshot → FeedState → FeedState
add_topic t s = record s { topics = insert s.topics t.source.session t }

-- What an update makes of the state; an event is not part of it.
unfoldable pub update_state : ℕ → SubscriptionUpdate → FeedState → FeedState
unfolding add_info add_topic
update_state sequence (SubscriptionUpdate.session_started info) s = add_info sequence info s
update_state sequence (SubscriptionUpdate.session_changed info) s = add_info sequence info s
update_state sequence (SubscriptionUpdate.session_ended session reason) s = record {
  sessions = remove s.sessions session;
  topics = remove s.topics session;
}
update_state sequence (SubscriptionUpdate.topic_reset source generation reason) s =
    add_topic
      (record {
        source = source;
        generation = generation;
        health = CapabilityHealth.initializing;
        snapshot = none;
      })
      s
update_state sequence (SubscriptionUpdate.topic_changed t) s = add_topic t s
update_state sequence (SubscriptionUpdate.event e) s = s

-- What an item leaves: the store with the number of the last item, the stream's end, or an error.
pub data Handled : Type 0 where
  goes_on : Store → ℕ → Handled
  ended : SubscriptionEnd → Handled
  broke : ClientError → Handled

module _ (event_size : EventEnvelope → Option ℕ) (budget : ℕ) where
  -- `listener.event(event)`, with the feeds that it leaves.
  unfoldable pub show_event : EventEnvelope → Store → ℕ → Store
  unfolding detach
  show_event e store l = elim (get store.listeners l) [
    | none ↦ store
    | some x ↦
        let (queue, left) = Listener.on_event event_size budget x e in
        fold (detach l)
          (record store { listeners = replace store.listeners l (record x { queue = queue }) }) left
  ]

  abbrev pub listeners_of : Option Feed → List ℕ
  listeners_of none = []
  listeners_of (some f) = f.listeners

  unfoldable pub on_update : Store → ℕ → ℕ → SubscriptionUpdate → Store
  unfolding show_event change update_state
  on_update store feed sequence (SubscriptionUpdate.event e) =
      fold (show_event e) store (listeners_of (get store.feeds feed))
  on_update store feed sequence update = change store feed (update_state sequence update)

  unfoldable pub become_ready : Store → ℕ → Store
  unfolding put
  become_ready store feed = elim (get store.feeds feed) [
    | none ↦ store
    | some f ↦ put store feed (record f { ready = true })
  ]

  -- One round of Feed::receive_once, after the reader gave an item.
  unfoldable pub on_item : Store → ℕ → ℕ → SubscriptionItem → Handled
  unfolding on_update become_ready change add_info add_topic
  on_item store feed sequence (SubscriptionItem.begin cursor) =
      Handled.goes_on store cursor.sequence
  on_item store feed sequence (SubscriptionItem.session info) =
      Handled.goes_on (change store feed (add_info sequence info)) sequence
  on_item store feed sequence (SubscriptionItem.topic t) =
      Handled.goes_on (change store feed (add_topic t)) sequence
  on_item store feed sequence (SubscriptionItem.snapshot frame) =
      Handled.broke (ClientError.protocol "snapshot was not reconstructed")
  on_item store feed sequence (SubscriptionItem.ready cursor) =
      Handled.goes_on (become_ready store feed) sequence
  on_item store feed sequence (SubscriptionItem.closed reason) = Handled.ended reason
  on_item store feed sequence (SubscriptionItem.update u) =
      Handled.goes_on (on_update store feed u.cursor.sequence u.update) u.cursor.sequence

-- What Feed::receive does before it reads the stream again, without patches.
unfoldable pub resync : Store → ℕ → Store
unfolding publish_state
resync store feed = elim (get store.feeds feed) [
  | none ↦ store
  | some f ↦
      let shown =
        publish_state
          (record store { feeds = replace store.feeds feed (record f { current = no_state }) })
          (record f { current = no_state }) in
      record shown {
        feeds = replace shown.feeds feed (record f { current = no_state; ready = false });
      }
]
