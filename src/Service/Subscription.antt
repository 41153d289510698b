-- ===== src/Service/Subscription.antt =====
-- crates/wf-observer-cli/src/service/subscriptions.rs: a subscription is set up, read and dropped.
use wf_observer.Common.{
  ℕ, String, Bool, true, false, not, Option, none, some, List, [], ◌∷◌, ◌++◌, ltb, if◌then◌else◌,
  ◌==◌, string_eq, nat_eq, nat_order, checked_add, Map, get, insert, remove, replace,
}
use wf_observer.Wire.{
  TopicRef, topic_ref_eq, topic_ref_order, SessionSelector, Subscribe, SubscriptionItem, Resource,
  Result, ok, err, ◌>>=◌, ◌>>◌,
}
use wf_observer.Service.Queue
use wf_observer.Service.Catalog.{invalid, limit, message_fits}
use wf_observer.Service.Subscriber.{Subscriber, matches, matches_info}
use wf_observer.Service.Inner.{Inner, Session, Topic, cursor, capability, session, set_queue}
use wf_observer.Service.Settle.{settle, expire}
use wf_observer.Service.Publication.{retained_snapshot_bytes}

-- `sort` and `dedup` of a vector of topics.
unfoldable pub insert_sorted : TopicRef → List TopicRef → List TopicRef
insert_sorted t [] = t ∷ []
insert_sorted t (u ∷ us) = if topic_ref_order.before u t then u ∷ insert_sorted t us else t ∷ u ∷ us

unfoldable pub sort : List TopicRef → List TopicRef
unfolding insert_sorted
sort [] = []
sort (t ∷ ts) = insert_sorted t (sort ts)

-- Neighbours that are equal become one.
unfoldable pub dedup : List TopicRef → List TopicRef
dedup [] = []
dedup (t ∷ []) = t ∷ []
dedup (t ∷ u ∷ us) = let rest = dedup (u ∷ us) in if t == u then rest else t ∷ rest

unfoldable pub normalise : Subscribe → Subscribe
unfolding sort dedup
normalise selection = record selection { topics = dedup (sort selection.topics) }

unfoldable pub check_selector : Inner → SessionSelector → Result (Unit {0})
check_selector s SessionSelector.all = ok tt
check_selector s (SessionSelector.session reference) = session s reference >>= λ _. ok tt

unfoldable pub check_provider : Inner → SessionSelector → TopicRef → Result (Unit {0})
check_provider s SessionSelector.all topic = ok tt
check_provider s (SessionSelector.session reference) topic = session s reference >>= λ found.
    if not (found.info.provider_id == topic.provider_id)
    then err (invalid "topic does not belong to session")
    else ok tt

unfoldable pub check_topics : Inner → SessionSelector → List TopicRef → Result (Unit {0})
unfolding check_provider
check_topics s selector [] = ok tt
check_topics s selector (t ∷ ts) = do
  _ ← capability s t
  check_provider s selector t
  check_topics s selector ts

-- Everything that is checked before the subscription is registered.
unfoldable pub check_selection : Inner → Subscribe → Result (Unit {0})
unfolding check_selector check_topics
check_selection s selection =
    if s.stopped then err (invalid "service stopped") else elim selection.topics [
      | [] ↦ err (invalid "empty topic selection")
      | t ∷ ts ↦ check_selector s selection.sessions >> check_topics s selection.sessions (t ∷ ts)
    ]

unfoldable pub register : Inner → ℕ → ℕ → Subscribe → Inner
register s id message_bytes selection = record s {
  next_subscription = id;
  queues = set_queue s.queues id (Queue.new message_bytes);
  subscribers = insert s.subscribers id (record { selection = selection; active = false });
}

unfoldable pub activate : Inner → ℕ → List SubscriptionItem → Inner
activate s id frames = record s {
  queues = set_queue s.queues id (Queue.set_initial (s.queues id) frames);
  subscribers = elim (get s.subscribers id) [
    | none ↦ s.subscribers
    | some subscriber ↦ replace s.subscribers id (record subscriber { active = true })
  ];
}

-- The frames so far, with their bytes.
pub record Capture : Type 0 where
  pub frames : List SubscriptionItem
  pub bytes : ℕ

-- The clock's readings of one request: as the deadlines are applied, as the subscription is
-- registered, and as it is dropped where its bootstrap fails.
pub record Readings : Type 0 where
  pub expired : ℕ
  pub registered : ℕ
  pub dropped : ℕ

-- `item_size` and `request_size` stand for `postcard::experimental::serialized_size` of an answer
-- frame and of a request.
module _ (item_size : SubscriptionItem → Option ℕ) (request_size : Subscribe → Option ℕ) where
  unfoldable pub push_sized : Capture → SubscriptionItem → Option ℕ → Result Capture
  push_sized c frame none = err (invalid "bootstrap encoding failed")
  push_sized c frame (some size) = elim (checked_add c.bytes size) [
    | none ↦ err (limit Resource.initial_bytes)
    | some bytes ↦
        if ltb retained_snapshot_bytes bytes
        then err (limit Resource.initial_bytes)
        else ok (record { frames = c.frames ++ (frame ∷ []); bytes = bytes })
  ]

  unfoldable pub push : Inner → SubscriptionItem → Capture → Result Capture
  unfolding push_sized
  push s frame c =
      message_fits (item_size frame) s.message_bytes >> push_sized c frame (item_size frame)

  unfoldable pub push_topics : Inner → Subscriber → Map TopicRef Topic → Capture → Result Capture
  push_topics s subscriber [] c = ok c
  push_topics s subscriber ((key, t) ∷ m) c =
      (if matches subscriber t.state.source.session t.state.source.topic
        then push s (SubscriptionItem.topic t.state) c
        else ok c)
      >>= push_topics s subscriber m

  unfoldable pub push_sessions : Inner → Subscriber → Map String Session → Capture → Result Capture
  unfolding push_topics
  push_sessions s subscriber [] c = ok c
  push_sessions s subscriber ((id, t) ∷ m) c =
      (if matches_info subscriber t.info
        then (push s (SubscriptionItem.session t.info) c >>= push_topics s subscriber t.topics)
        else ok c)
      >>= push_sessions s subscriber m

  unfoldable pub capture : Inner → ℕ → Result (List SubscriptionItem)
  capture s id = do
    begun ← push s (SubscriptionItem.begin (cursor s)) (record { frames = []; bytes = 0 })
    elim (get s.subscribers id) [
      | none ↦ err (invalid "subscription closed during setup")
      | some subscriber ↦ do
        filled ← push_sessions s subscriber s.sessions begun
        complete ← push s (SubscriptionItem.ready (cursor s)) filled
        ok complete.frames
    ]

  -- Subscription::drop
  unfoldable pub drop : ℕ → ℕ → Inner → Inner
  drop id now s = settle item_size now (record s { subscribers = remove s.subscribers id })

  unfoldable pub opened : ℕ → ℕ → Inner → Result (List SubscriptionItem) → Inner × Result ℕ
  opened id now s (ok frames) = (activate s id frames, ok id)
  opened id now s (err e) = (drop id now s, err e)

  -- The rest of the request, once its selection is checked.
  unfoldable pub open_subscription : Subscribe → Readings → Inner → Inner × Result ℕ
  unfolding opened
  open_subscription selection t s = elim (checked_add s.next_subscription 1) [
    | none ↦ (s, err (invalid "subscription identity exhausted"))
    | some id ↦
        let settled = settle item_size t.registered (register s id s.message_bytes selection) in
        opened id t.dropped settled (capture settled id)
  ]

  -- The result is the identity of the subscription.
  unfoldable pub subscribe : Subscribe → Readings → Inner → Inner × Result ℕ
  subscribe request t s = elim (message_fits (request_size request) s.message_bytes) [
    | err e ↦ (s, err e)
    | ok _ ↦
        let selection = normalise request in
        let s' = expire item_size t.expired s in
        elim (check_selection s' selection) [
          | err e ↦ (s', err e)
          | ok _ ↦ open_subscription selection t s'
        ]
  ]

-- Subscription::next takes one item without waiting; `none` with `false` means that it waits.
unfoldable pub next : ℕ → Inner → (Option SubscriptionItem × Bool) × Inner
next id s =
    let (item, complete, q) = Queue.pop (s.queues id) in
    ((item, complete), record s { queues = set_queue s.queues id q })
