-- ===== src/Service/Bootstrap.antt =====
-- crates/wf-observer-cli/src/service/subscriptions.rs, `capture`: the frames that a subscription
-- starts with, against a description of them that has no bounds and no errors.
use mathlib.Core.List.{append_assoc, append-nil}
use wf_observer.Common.{
  ℕ, ◌+◌, ◌≤◌, ◌≡◌, refl, sym, String, Option, none, some, List, [], ◌∷◌, ◌++◌, if◌then◌else◌,
  arith, Bool-cases, Option-cases, inl, inr, ltb, Map, get, nat_eq, checked_add,
}
use wf_observer.Wire.{
  TopicRef, SubscriptionItem, Subscribe, Result, Result-cases, ok, err, Ensures, Ensures-bind,
  Ensures-map, Ensures-ok, ◌>>=◌,
}
use wf_observer.Service.Catalog.{message_fits}
use wf_observer.Service.Subscriber.{Subscriber, matches, matches_info}
use wf_observer.Service.Inner.{Inner, Session, Topic, cursor}
use wf_observer.Service.Invariant.Emit.{checked_add-le}
use wf_observer.Service.Publication.{retained_snapshot_bytes}
use wf_observer.Service.Subscription.{
  Capture, push_sized, push, push_topics, push_sessions, capture,
}

topic_frames : Subscriber → Map TopicRef Topic → List SubscriptionItem
topic_frames subscriber [] = []
topic_frames subscriber ((key, t) ∷ m) =
    (if matches subscriber t.state.source.session t.state.source.topic
      then SubscriptionItem.topic t.state ∷ []
      else [])
    ++ topic_frames subscriber m

session_frames : Subscriber → Map String Session → List SubscriptionItem
session_frames subscriber [] = []
session_frames subscriber ((id, t) ∷ m) =
    (if matches_info subscriber t.info
      then SubscriptionItem.session t.info ∷ topic_frames subscriber t.topics
      else [])
    ++ session_frames subscriber m

module _ (item_size : SubscriptionItem → Option ℕ) (request_size : Subscribe → Option ℕ) where
  pub total_size : List SubscriptionItem → ℕ
  total_size [] = 0
  total_size (x ∷ xs) = (elim (item_size x) [ none ↦ 0 | some n ↦ n ]) + total_size xs

  -- The second capture has these frames more, counts their bytes, and is within the limit.
  record Grows (c : Capture) (frames : List SubscriptionItem) (c' : Capture) : Type 0 where
    extends : c'.frames ≡ c.frames ++ frames
    counts : c'.bytes ≡ c.bytes + total_size frames
    within : c.bytes ≤ retained_snapshot_bytes → c'.bytes ≤ retained_snapshot_bytes

  total_size-append :
      (xs ys : List SubscriptionItem) → total_size (xs ++ ys) ≡ total_size xs + total_size ys
  unfolding total_size
  total_size-append [] ys = omega arith
  total_size-append (x ∷ xs) ys = omega (arith, total_size-append xs ys)

  Grows-nothing : (c : Capture) → Grows c [] c
  unfolding total_size
  Grows-nothing c = record {
    extends = sym (append-nil c.frames);
    counts = omega arith;
    within = λ h. h;
  }

  Grows-both :
      {c c' c'' : Capture} (xs ys : List SubscriptionItem)
      → Grows c xs c'
      → Grows c' ys c''
      → Grows c (xs ++ ys) c''
  Grows-both {c} {c'} {c''} xs ys g h = record {
    extends = rw (h.extends, g.extends, append_assoc c.frames xs ys);
    counts = omega (arith, total_size-append xs ys, g.counts, h.counts);
    within = λ le. h.within (g.within le);
  }

  then-Grows :
      (c : Capture) (xs ys : List SubscriptionItem) (m : Result Capture)
      (f : Capture → Result Capture)
      → Ensures (Grows c xs) m
      → ((c' : Capture) → Ensures (Grows c' ys) (f c'))
      → Ensures (Grows c (xs ++ ys)) (m >>= f)
  then-Grows c xs ys (ok c') f g h =
      Ensures-map (Grows c' ys) (Grows c (xs ++ ys)) (f c') (λ c'' k. Grows-both xs ys g k) (h c')
  then-Grows c xs ys (err e) f g h = tt

  push_sized-Grows :
      (item : SubscriptionItem) (c : Capture) (size : Option ℕ)
      → item_size item ≡ size
      → Ensures (Grows c (item ∷ [])) (push_sized item_size request_size c item size)
  unfolding push_sized total_size
  push_sized-Grows item c none e = tt
  push_sized-Grows item c (some n) e = elim (Option-cases (checked_add c.bytes n)) [
    | inl f ↦ rw (f, push_sized) tt
    | inr (m, f) ↦ elim (Bool-cases (ltb retained_snapshot_bytes m)) [
      | inl g ↦ rw (f, g, push_sized) tt
      | inr g ↦
          rw (f, g, push_sized)
            (record {
              extends = refl;
              counts = rw e (omega (arith, (checked_add-le c.bytes n f).0));
              within = λ h. ground arith;
            })
    ]
  ]

  push-Grows :
      (s : Inner) (item : SubscriptionItem) (c : Capture)
      → Ensures (Grows c (item ∷ [])) (push item_size request_size s item c)
  unfolding push
  push-Grows s item c = elim (Result-cases (message_fits (item_size item) s.message_bytes)) [
    | inl (e, f) ↦ rw (f, push) tt
    | inr (u, f) ↦ rw (f, push) (push_sized-Grows item c (item_size item) refl)
  ]

  topic_step-Grows :
      (s : Inner) (subscriber : Subscriber) (t : Topic) (c : Capture)
      → Ensures
          (Grows c (
            if matches subscriber t.state.source.session t.state.source.topic
            then SubscriptionItem.topic t.state ∷ []
            else []))
          (if matches subscriber t.state.source.session t.state.source.topic
            then push item_size request_size s (SubscriptionItem.topic t.state) c
            else ok c)
  topic_step-Grows s subscriber t c =
      elim (Bool-cases (matches subscriber t.state.source.session t.state.source.topic)) [
        | inl e ↦ rw e (push-Grows s (SubscriptionItem.topic t.state) c)
        | inr e ↦ rw e (Grows-nothing c)
      ]

  push_topics-Grows :
      (s : Inner) (subscriber : Subscriber) (m : Map TopicRef Topic) (c : Capture)
      → Ensures
          (Grows c (topic_frames subscriber m))
          (push_topics item_size request_size s subscriber m c)
  unfolding push_topics topic_frames
  push_topics-Grows s subscriber [] c = Grows-nothing c
  push_topics-Grows s subscriber ((key, t) ∷ m) c =
      then-Grows c _ (topic_frames subscriber m) _ _ (topic_step-Grows s subscriber t c)
        (push_topics-Grows s subscriber m)

  session_step-Grows :
      (s : Inner) (subscriber : Subscriber) (t : Session) (c : Capture)
      → Ensures
          (Grows c (
            if matches_info subscriber t.info
            then SubscriptionItem.session t.info ∷ topic_frames subscriber t.topics
            else []))
          (if matches_info subscriber t.info
            then (push item_size request_size s (SubscriptionItem.session t.info) c
                >>= push_topics item_size request_size s subscriber t.topics)
            else ok c)
  session_step-Grows s subscriber t c = elim (Bool-cases (matches_info subscriber t.info)) [
    | inl e ↦ rw e (
        then-Grows c (SubscriptionItem.session t.info ∷ []) (topic_frames subscriber t.topics) _ _
          (push-Grows s (SubscriptionItem.session t.info) c)
          (push_topics-Grows s subscriber t.topics))
    | inr e ↦ rw e (Grows-nothing c)
  ]

  push_sessions-Grows :
      (s : Inner) (subscriber : Subscriber) (m : Map String Session) (c : Capture)
      → Ensures
          (Grows c (session_frames subscriber m))
          (push_sessions item_size request_size s subscriber m c)
  unfolding push_sessions session_frames
  push_sessions-Grows s subscriber [] c = Grows-nothing c
  push_sessions-Grows s subscriber ((id, t) ∷ m) c =
      then-Grows c _ (session_frames subscriber m) _ _ (session_step-Grows s subscriber t c)
        (push_sessions-Grows s subscriber m)

  -- The frames of a subscription's start.
  pub bootstrap : Inner → Subscriber → List SubscriptionItem
  bootstrap s subscriber =
      SubscriptionItem.begin (cursor s)
      ∷ (session_frames subscriber s.sessions ++ (SubscriptionItem.ready (cursor s) ∷ []))

  pub record IsBootstrap (s : Inner) (id : ℕ) (frames : List SubscriptionItem) : Type 0 where
    pub asked :
        (subscriber : Subscriber) × (get s.subscribers id ≡ some subscriber)
        × (frames ≡ bootstrap s subscriber)
    pub bounded : total_size frames ≤ retained_snapshot_bytes

  abbrev begun : Capture
  begun = record { frames = []; bytes = 0 }

  finished :
      (s : Inner) (id : ℕ) (subscriber : Subscriber) {c c' c'' : Capture}
      → get s.subscribers id ≡ some subscriber
      → Grows begun (SubscriptionItem.begin (cursor s) ∷ []) c
      → Grows c (session_frames subscriber s.sessions) c'
      → Grows c' (SubscriptionItem.ready (cursor s) ∷ []) c''
      → IsBootstrap s id c''.frames
  unfolding bootstrap
  finished s id subscriber {c} {c'} {c''} e g h k =
      let all : Grows begun (bootstrap s subscriber) c'' =
        Grows-both (SubscriptionItem.begin (cursor s) ∷ []) _ g
          (Grows-both (session_frames subscriber s.sessions) _ h k) in
      record {
        asked = (subscriber, e, all.extends);
        bounded = rw all.extends (omega (arith, all.counts, all.within (omega arith)));
      }

  capture_cases :
      (s : Inner) (id : ℕ) → Ensures (IsBootstrap s id) (capture item_size request_size s id)
  unfolding capture
  capture_cases s id =
      Ensures-bind (Grows begun (SubscriptionItem.begin (cursor s) ∷ [])) (IsBootstrap s id) _ _
        (push-Grows s (SubscriptionItem.begin (cursor s)) begun)
        λ c g. elim (Option-cases (get s.subscribers id)) [
          | inl e ↦ rw e tt
          | inr (subscriber, e) ↦ rw e (
              Ensures-bind (Grows c (session_frames subscriber s.sessions)) (IsBootstrap s id) _ _
                (push_sessions-Grows s subscriber s.sessions c)
                λ c' h.
                  Ensures-bind (Grows c' (SubscriptionItem.ready (cursor s) ∷ []))
                    (IsBootstrap s id) _ _ (push-Grows s (SubscriptionItem.ready (cursor s)) c')
                    λ c'' k. finished s id subscriber e g h k)
        ]

  -- Where `capture` succeeds, its frames are a `Begin`, every session and topic of the state that
  -- the subscription asks for, and a `Ready` with the cursor of the `Begin`; their encoded sizes
  -- together are within the limit of a start.
  pub capture-IsBootstrap :
      (s : Inner) (id : ℕ) (frames : List SubscriptionItem)
      → capture item_size request_size s id ≡ ok frames
      → IsBootstrap s id frames
  capture-IsBootstrap s id frames e =
      Ensures-ok (IsBootstrap s id) (capture item_size request_size s id) frames
        (capture_cases s id) e
