-- ===== src/Service/Invariant/Settle.antt =====
-- `settle` and `expire` keep the state well-formed, and settle it.
use wf_observer.Common.{
  ℕ, zero, suc, ◌+◌, ◌≤◌, ◌<◌, ◌≡◌, Bool, true, false, not, String, Option, [], ◌∷◌, arith,
  Bool-cases, ◌⊎◌, inl, inr, checked_add, length, u64_max, Map, retain, List,
}
use Prim.Native.Nat.add
use wf_observer.Common.Maps.Laws.{length-retain-le}
use wf_observer.Wire.{SessionInfo, TopicRef, SubscriptionItem, SubscriptionUpdate}
use wf_observer.Service.Queue
use wf_observer.Service.Queue.{Queue}
use wf_observer.Service.Subscriber.{Subscriber}
use wf_observer.Service.Inner.{Inner, Session, Topic, close, exhausted}
use wf_observer.Service.Settle.{
  Swept, sweep, settle_topic, expire_topic, publish, prune, settle_round, settle_loop, settle,
  expire, any_ended, deadline_passed,
}
use wf_observer.Service.Invariant.{
  TopicIsSound, TopicIsValid, InnerIsSound, InnerIsValid, InnerIsSettled, AllTopics, Agrees,
}
use wf_observer.Service.Invariant.Emit.{
  close-IsValid, close-Agrees, InnerIsSound-of-valid, emit_all-IsValid, emit_all-Agrees,
  InnerAgrees, emit_all-subscribers-le, close-IsSettled,
}
use wf_observer.Service.Invariant.Sweep.{sweep-keeps, sweep-reaches}

settle_topic-IsSound :
    (wanted : Bool) (now n : ℕ) (r : SessionInfo) (k : TopicRef) (t : Topic)
    → TopicIsSound n r k t
    → TopicIsSound n r k (settle_topic wanted now t).topic
unfolding settle_topic checked_add
settle_topic-IsSound wanted now n r k t h = ground arith

-- A topic that is visited without a stop is valid and has the demand that was wanted.
settle_topic-IsValid :
    (wanted : Bool) (now n : ℕ) (r : SessionInfo) (k : TopicRef) (t : Topic)
    → TopicIsValid n r k t
    → (settle_topic wanted now t).stops ≡ false
    → TopicIsValid n r k (settle_topic wanted now t).topic
      × ((settle_topic wanted now t).topic.demanded ≡ wanted)
unfolding settle_topic checked_add
settle_topic-IsValid wanted now n r k t h e = ground arith

expire_topic-IsSound :
    (now n : ℕ) (r : SessionInfo) (k : TopicRef) (t : Topic)
    → TopicIsSound n r k t
    → TopicIsSound n r k (expire_topic now t).topic
unfolding expire_topic checked_add
expire_topic-IsSound now n r k t h = ground arith

expire_topic-IsValid :
    (now n : ℕ) (r : SessionInfo) (k : TopicRef) (t : Topic)
    → TopicIsValid n r k t
    → (expire_topic now t).stops ≡ false
    → TopicIsValid n r k (expire_topic now t).topic
unfolding expire_topic checked_add deadline_passed
expire_topic-IsValid now n r k t h e = ground arith

ended_drops :
    (queues : ℕ → Queue) (m : Map ℕ Subscriber)
    → any_ended queues m ≡ true
    → length (retain (λ id _. not (Queue.ended (queues id))) m) < length m
unfolding any_ended retain
ended_drops queues [] h = cc
ended_drops queues ((id, s) ∷ m) h = ground (
  arith,
  ended_drops queues m,
  length-retain-le (λ (id : ℕ) (s : Subscriber). not (Queue.ended (queues id))) m,
)

module _ (item_size : SubscriptionItem → Option ℕ) where
  publish-IsValid :
      (s : Inner) (swept : Swept (Map String Session))
      → AllTopics (TopicIsSound s.sequence) s.run_id swept.entries
      → (swept.stops ≡ false → AllTopics (TopicIsValid s.sequence) s.run_id swept.entries)
      → s.sequence ≤ u64_max
      → InnerIsValid (publish item_size s swept)
  unfolding publish
  publish-IsValid s swept sound valid fits = elim (Bool-cases swept.stops) [
    | inl e ↦ rw e (close-IsValid _ exhausted (record { sessions = sound; sequence_fits = fits }))
    | inr e ↦ rw e (changes-IsValid swept.changes (valid e))
  ]
    where
      changes-IsValid :
          (us : List SubscriptionUpdate)
          → AllTopics (TopicIsValid s.sequence) s.run_id swept.entries
          → InnerIsValid (
              publish item_size s (record { entries = swept.entries; changes = us; stops = false }))
      changes-IsValid [] h = record { sessions = h; sequence_fits = fits }
      changes-IsValid (u ∷ us) h =
          emit_all-IsValid item_size _ (u ∷ us) (record { sessions = h; sequence_fits = fits })

  publish-Agrees :
      (s : Inner) (swept : Swept (Map String Session))
      → AllTopics (TopicIsSound s.sequence) s.run_id swept.entries
      → (swept.stops ≡ false → AllTopics (Agrees s.subscribers) s.run_id swept.entries)
      → InnerAgrees item_size (publish item_size s swept)
  unfolding publish close
  publish-Agrees s swept sound agrees = elim (Bool-cases swept.stops) [
    | inl e ↦ rw e (close-Agrees _ (record s { sessions = swept.entries }) exhausted sound)
    | inr e ↦ rw e (changes-Agrees swept.changes (agrees e))
  ]
    where
      changes-Agrees :
          (us : List SubscriptionUpdate)
          → AllTopics (Agrees s.subscribers) s.run_id swept.entries
          → InnerAgrees item_size (
              publish item_size s (record { entries = swept.entries; changes = us; stops = false }))
      changes-Agrees [] h = h
      changes-Agrees (u ∷ us) h = emit_all-Agrees item_size _ (u ∷ us) h

  publish-subscribers-le :
      (s : Inner) (swept : Swept (Map String Session))
      → length (publish item_size s swept).subscribers ≤ length s.subscribers
  unfolding publish close
  publish-subscribers-le s swept = elim (Bool-cases swept.stops) [
    | inl e ↦ rw e (omega arith)
    | inr e ↦ rw e (changes-le swept.changes)
  ]
    where
      changes-le :
          (us : List SubscriptionUpdate)
          → length
              (publish item_size s
                (record { entries = swept.entries; changes = us; stops = false })).subscribers
            ≤ length s.subscribers
      changes-le [] = omega arith
      changes-le (u ∷ us) = emit_all-subscribers-le item_size _ (u ∷ us)

  module _ (now : ℕ) where
    settle_round-IsValid :
        (s : Inner) → InnerIsValid s → InnerIsValid (settle_round item_size now s)
    unfolding settle_round prune
    settle_round-IsValid s h =
        publish-IsValid (prune s) _
          (sweep-keeps (TopicIsSound s.sequence) _
            (λ r k t. settle_topic-IsSound _ now s.sequence r k t) s.run_id s.sessions
            (InnerIsSound-of-valid s h).sessions)
          (sweep-reaches (TopicIsValid s.sequence) (TopicIsValid s.sequence) _
            (λ r k t v e. (settle_topic-IsValid _ now s.sequence r k t v e).0) s.run_id s.sessions
            h.sessions)
          h.sequence_fits

    settle_round-Agrees :
        (s : Inner) → InnerIsValid s → InnerAgrees item_size (settle_round item_size now s)
    unfolding settle_round prune
    settle_round-Agrees s h =
        publish-Agrees (prune s) _
          (sweep-keeps (TopicIsSound s.sequence) _
            (λ r k t. settle_topic-IsSound _ now s.sequence r k t) s.run_id s.sessions
            (InnerIsSound-of-valid s h).sessions)
          (sweep-reaches (TopicIsValid s.sequence) (Agrees (prune s).subscribers) _
            (λ r k t v e. (settle_topic-IsValid _ now s.sequence r k t v e).1) s.run_id s.sessions
            h.sessions)

    settle_round-subscribers-le :
        (s : Inner)
        → length (settle_round item_size now s).subscribers ≤ length (prune s).subscribers
    unfolding settle_round prune
    settle_round-subscribers-le s = publish-subscribers-le (prune s) _

    settle_loop-IsValid :
        (fuel : ℕ) (s : Inner) → InnerIsValid s → InnerIsValid (settle_loop item_size fuel now s)
    unfolding settle_loop
    settle_loop-IsValid zero s h = h
    settle_loop-IsValid (suc fuel) s h =
        let s' = settle_round item_size now s in
        let h' = settle_round-IsValid s h in
        elim (Bool-cases (any_ended s'.queues s'.subscribers)) [
          | inl e ↦ rw e (settle_loop-IsValid fuel s' h')
          | inr e ↦ rw e h'
        ]

    settle_loop-Agrees_from :
        (fuel : ℕ) (s : Inner)
        → InnerIsValid s
        → InnerAgrees item_size s
        → InnerAgrees item_size (settle_loop item_size fuel now s)
    unfolding settle_loop
    settle_loop-Agrees_from zero s h a = a
    settle_loop-Agrees_from (suc fuel) s h a =
        let s' = settle_round item_size now s in
        let h' = settle_round-IsValid s h in
        let a' = settle_round-Agrees s h in
        elim (Bool-cases (any_ended s'.queues s'.subscribers)) [
          | inl e ↦ rw e (settle_loop-Agrees_from fuel s' h' a')
          | inr e ↦ rw e a'
        ]

    settle_loop-Agrees :
        (fuel : ℕ) (s : Inner)
        → InnerIsValid s
        → InnerAgrees item_size (settle_loop item_size (suc fuel) now s)
    unfolding settle_loop
    settle_loop-Agrees fuel s h =
        let s' = settle_round item_size now s in
        let h' = settle_round-IsValid s h in
        let a' = settle_round-Agrees s h in
        elim (Bool-cases (any_ended s'.queues s'.subscribers)) [
          | inl e ↦ rw e (settle_loop-Agrees_from fuel s' h' a')
          | inr e ↦ rw e a'
        ]

    -- The fuel covers the rounds: one for each subscriber, and one more if none has ended yet.
    abbrev Covers : ℕ → Inner → Type 0
    Covers fuel s =
        ((any_ended s.queues s.subscribers ≡ true) × (length s.subscribers ≤ fuel))
        ⊎ (length s.subscribers < fuel)

    round-Covers :
        (fuel : ℕ) (s : Inner)
        → Covers (suc fuel) s
        → any_ended (settle_round item_size now s).queues (settle_round item_size now s).subscribers
          ≡ true
        → Covers fuel (settle_round item_size now s)
    unfolding prune
    round-Covers fuel s (inl (e, le)) again =
        inl (
          again,
          omega (arith, settle_round-subscribers-le s, ended_drops s.queues s.subscribers e),
        )
    round-Covers fuel s (inr lt) again = inl (
      again,
      omega (
        arith,
        settle_round-subscribers-le s,
        length-retain-le (λ (id : ℕ) (x : Subscriber). not (Queue.ended (s.queues id)))
            s.subscribers,
      ),
    )

    no_rounds : (s : Inner) → ¬ Covers zero s
    no_rounds s (inl (e, le)) = absurd (omega (arith, ended_drops s.queues s.subscribers e))
    no_rounds s (inr lt) = absurd (omega arith)

    settle_loop-live :
        (fuel : ℕ) (s : Inner)
        → Covers fuel s
        → any_ended
            (settle_loop item_size fuel now s).queues
            (settle_loop item_size fuel now s).subscribers
          ≡ false
    unfolding settle_loop
    settle_loop-live zero s c = absurd (no_rounds s c)
    settle_loop-live (suc fuel) s c =
        let s' = settle_round item_size now s in
        elim (Bool-cases (any_ended s'.queues s'.subscribers)) [
          | inl e ↦ rw e (settle_loop-live fuel s' (round-Covers fuel s c e))
          | inr e ↦ rw e e
        ]

    -- More fuel than covers the rounds changes nothing.
    settle_loop-enough :
        (fuel more : ℕ) (s : Inner)
        → Covers fuel s
        → settle_loop item_size (fuel + more) now s ≡ settle_loop item_size fuel now s
    unfolding settle_loop
    settle_loop-enough zero more s c = absurd (no_rounds s c)
    settle_loop-enough (suc fuel) more s c =
        let s' = settle_round item_size now s in
        rw (add.suc fuel more) (elim (Bool-cases (any_ended s'.queues s'.subscribers)) [
          | inl e ↦ rw e (settle_loop-enough fuel more s' (round-Covers fuel s c e))
          | inr e ↦ rw e
        ])

    -- From a well-formed state `settle` returns a well-formed one in which no subscriber has an
    -- ended queue and each topic is demanded exactly when some subscriber asks for it.
    pub settle_settles :
        (s : Inner)
        → InnerIsValid s
        → InnerIsValid (settle item_size now s) × InnerIsSettled (settle item_size now s)
    unfolding settle
    settle_settles s h = (
      settle_loop-IsValid (suc (length s.subscribers)) s h,
      record {
        live = settle_loop-live (suc (length s.subscribers)) s (inr (omega arith));
        sessions = settle_loop-Agrees (length s.subscribers) s h;
      },
    )

    -- One round more than there are subscribers is enough fuel for the loop of `settle`: with any
    -- further fuel it returns the same state.
    pub settle_terminates :
        (s : Inner) (more : ℕ)
        → settle_loop item_size (suc (length s.subscribers) + more) now s ≡ settle item_size now s
    unfolding settle
    settle_terminates s more =
        settle_loop-enough (suc (length s.subscribers)) more s (inr (omega arith))

    expired-IsValid :
        (s : Inner)
        → InnerIsValid s
        → InnerIsValid (publish item_size s (sweep (λ _ _ t. expire_topic now t) s.sessions))
    expired-IsValid s h =
        publish-IsValid s _
          (sweep-keeps (TopicIsSound s.sequence) _
            (λ r k t. expire_topic-IsSound now s.sequence r k t) s.run_id s.sessions
            (InnerIsSound-of-valid s h).sessions)
          (sweep-reaches (TopicIsValid s.sequence) (TopicIsValid s.sequence) _
            (λ r k t v e. expire_topic-IsValid now s.sequence r k t v e) s.run_id s.sessions
            h.sessions)
          h.sequence_fits

    expired : Inner → Swept (Map String Session)
    expired s = sweep (λ _ _ t. expire_topic now t) s.sessions

    expire_stops :
        (s : Inner)
        → (expired s).stops ≡ true
        → expire item_size now s ≡ close (record s { sessions = (expired s).entries }) exhausted
    unfolding expire publish expired
    expire_stops s e = simp e

    expire_goes_on :
        (s : Inner)
        → (expired s).stops ≡ false
        → expire item_size now s ≡ settle item_size now (publish item_size s (expired s))
    unfolding expire expired
    expire_goes_on s e = simp e

    -- From a well-formed state `expire`, too, returns a well-formed state that is settled.
    pub expire_settles :
        (s : Inner)
        → InnerIsValid s
        → InnerIsValid (expire item_size now s) × InnerIsSettled (expire item_size now s)
    unfolding expired
    expire_settles s h =
        let closing : Inner = record s { sessions = (expired s).entries } in
        let sound : InnerIsSound closing = record {
          sessions =
              sweep-keeps (TopicIsSound s.sequence) _
                (λ r k t. expire_topic-IsSound now s.sequence r k t) s.run_id s.sessions
                (InnerIsSound-of-valid s h).sessions;
          sequence_fits = h.sequence_fits;
        } in
        elim (Bool-cases (expired s).stops) [
          | inl e ↦
              rw (expire_stops s e)
                (close-IsValid closing exhausted sound, close-IsSettled closing exhausted sound)
          | inr e ↦ rw (expire_goes_on s e) (settle_settles _ (expired-IsValid s h))
        ]
