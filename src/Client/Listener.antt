-- ===== src/Client/Listener.antt =====
-- crates/wf-observer-sdk/src/subscription/listener.rs: what a listener of shared feeds has to read. A
-- feed is named by a number, as a listener is; `Feed.antt` holds the store of both.
use Prim.Native.Nat.{◌-◌}
use wf_observer.Common.{
  ℕ, ◌+◌, Bool, true, false, not, ◌||◌, Option, none, some, List, [], ◌∷◌, ◌++◌, filter, fold,
  sum_by, ltb, if◌then◌else◌, ◌==◌, nat_eq, Map, Order, get, insert, replace, values, u64_max,
}
use wf_observer.Common.Attempt.{Attempt, yields, fails}
use wf_observer.Wire.{
  topic_ref_eq, topic_ref_order, session_ref_eq, SessionRef, TopicRef, SessionInfo, TopicSnapshot,
  EventEnvelope, SubscriptionEnd,
}
use wf_observer.Transport.Delivery.{session_ref_before}
use wf_observer.Client.Error.{ClientError}

instance abbrev pub session_ref_order : Order SessionRef
session_ref_order = record { before = session_ref_before }

-- feed.rs: the sessions of a feed, with the number of the item that gave each, and its topic.
pub record FeedState : Type 0 where
  pub sessions : Map SessionRef (ℕ × SessionInfo)
  pub topics : Map SessionRef TopicSnapshot

pub record SubscriptionState : Type 0 where
  pub sessions : List SessionInfo
  pub topics : List TopicSnapshot

-- What a listener reads.
pub data SubscriptionItem : Type 0 where
  state : SubscriptionState → SubscriptionItem
  event : EventEnvelope → SubscriptionItem
  closed : SubscriptionEnd → SubscriptionItem

abbrev pub Terminal : Type 0
Terminal = Attempt ClientError SubscriptionEnd

pub record Queue : Type 0 where
  pub feeds : List ℕ
  pub states : Map TopicRef FeedState
  pub changed : Bool
  pub events : List (ℕ × EventEnvelope)
  pub event_bytes : ℕ
  pub terminal : Option Terminal
  pub closed : Bool

pub record Listener : Type 0 where
  pub receive_events : Bool
  pub queue : Queue

unfoldable pub new : Bool → Listener
new receive_events = record {
  receive_events = receive_events;
  queue = record {
    feeds = [];
    states = [];
    changed = false;
    events = [];
    event_bytes = 0;
    terminal = none;
    closed = false;
  };
}

-- The session of the greater number, or the first of two that are equal.
unfoldable pub add_latest :
    Map SessionRef (ℕ × SessionInfo)
    → SessionRef × (ℕ × SessionInfo)
    → Map SessionRef (ℕ × SessionInfo)
add_latest sessions (id, value) = elim (get sessions id) [
  | none ↦ insert sessions id value
  | some current ↦ if ltb current.0 value.0 then replace sessions id value else sessions
]

unfoldable pub latest : Map TopicRef FeedState → Map SessionRef (ℕ × SessionInfo)
unfolding add_latest
latest states = fold (λ sessions s. fold add_latest sessions s.sessions) [] (values states)

abbrev pub infos : Map SessionRef (ℕ × SessionInfo) → List SessionInfo
infos [] = []
infos ((id, (sequence, info)) ∷ sessions) = info ∷ infos sessions

abbrev pub all_topics : List FeedState → List TopicSnapshot
all_topics [] = []
all_topics (s ∷ states) = values s.topics ++ all_topics states

-- Queue::state
unfoldable pub queue_state : Queue → SubscriptionState
unfolding latest
queue_state q = record { sessions = infos (latest q.states); topics = all_topics (values q.states) }

unfoldable pub check_open : Queue → Attempt ClientError (Unit {0})
check_open q = if not q.closed then yields tt else elim q.terminal [
  | none ↦ fails ClientError.closed
  | some (fails error) ↦ fails error
  | some (yields reason) ↦ fails (ClientError.protocol "subscription ended during setup")
]

-- Listener::register; `none` when it is closed.
unfoldable pub register : Queue → ℕ → Option Queue
register q feed = if q.closed then none else some (record q { feeds = q.feeds ++ (feed ∷ []) })

abbrev pub is_generation : Option TopicSnapshot → ℕ → Bool
is_generation none generation = false
is_generation (some current) generation = current.generation == generation

-- Whether an event outlives a topic's new state.
unfoldable pub is_kept : TopicRef → FeedState → ℕ × EventEnvelope → Bool
is_kept topic s (size, e) =
    not (e.metadata.source.topic == topic)
    || is_generation (get s.topics e.metadata.source.session) e.metadata.generation

abbrev pub size_of : ℕ × EventEnvelope → ℕ
size_of (size, e) = size

-- Listener::state
unfoldable pub on_state : Queue → TopicRef → FeedState → Queue
unfolding is_kept
on_state q topic s = if q.closed then q else record q {
  events = filter (is_kept topic s) q.events;
  event_bytes = q.event_bytes - sum_by size_of (filter (λ e. not (is_kept topic s e)) q.events);
  states = insert q.states topic s;
  changed = true;
}

-- Listener::finish: the queue, and the feeds to be left.
unfoldable pub finish : Queue → Option Terminal → Queue × List ℕ
finish q terminal =
    if q.closed
    then (record q { terminal = elim terminal [ none ↦ none | some _ ↦ q.terminal ] }, [])
    else (
      record {
        feeds = [];
        states = [];
        changed = false;
        events = [];
        event_bytes = 0;
        terminal = terminal;
        closed = true;
      },
      q.feeds,
    )

-- `event_size` stands for `postcard::experimental::serialized_size` of an event, and `budget` for
-- irpc's limit of a message.
unfoldable pub size_or_max : (EventEnvelope → Option ℕ) → EventEnvelope → ℕ
size_or_max event_size e = elim (event_size e) [ none ↦ u64_max | some n ↦ n ]

module _ (event_size : EventEnvelope → Option ℕ) (budget : ℕ) where
  -- Listener::event: the queue, and the feeds that it leaves when it lags.
  unfoldable pub on_event : Listener → EventEnvelope → Queue × List ℕ
  unfolding size_or_max finish
  on_event l e =
      if not l.receive_events || l.queue.closed
      then (l.queue, [])
      else if ltb (budget - l.queue.event_bytes) (size_or_max event_size e)
      then finish l.queue (some (fails ClientError.lagged))
      else (
        record l.queue {
          event_bytes = l.queue.event_bytes + size_or_max event_size e;
          events = l.queue.events ++ ((size_or_max event_size e, e) ∷ []);
        },
        [],
      )

-- Subscription::current
unfoldable pub current : Queue → Option SubscriptionState
unfolding queue_state
current q = if q.closed then none else some (queue_state q)

-- A poll of Subscription::next: waiting, or its result. A call while another waits is an error that
-- the queue has no part in.
pub data Read : Type 0 where
  waits : Read
  reads : Attempt ClientError (Option SubscriptionItem) → Read

abbrev pub as_read : Terminal → Read
as_read (yields reason) = Read.reads (yields (some (SubscriptionItem.closed reason)))
as_read (fails error) = Read.reads (fails error)

unfoldable pub next_event : Queue → List (ℕ × EventEnvelope) → Read × Queue
next_event q [] = (Read.waits, q)
next_event q ((size, e) ∷ events) = (
  Read.reads (yields (some (SubscriptionItem.event e))),
  record q { events = events; event_bytes = q.event_bytes - size },
)

unfoldable pub next : Queue → Read × Queue
unfolding next_event queue_state
next q = elim q.terminal [
  | some t ↦ (as_read t, record q { terminal = none })
  | none ↦
      if q.closed
      then (Read.reads (yields none), q)
      else if q.changed
      then (
        Read.reads (yields (some (SubscriptionItem.state (queue_state q)))),
        record q { changed = false },
      )
      else next_event q q.events
]
