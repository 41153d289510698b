-- ===== src/Service/Invariant/Emit.antt =====
-- Closing the service and sending updates keep the state well-formed.
use wf_observer.Common.{
  ℕ, ◌+◌, ◌≤◌, String, ◌≡◌, refl, Bool, true, false, if◌then◌else◌, Option, none, some, List, [],
  ◌∷◌, arith, Bool-cases, Option-cases, inl, inr, u64_max, checked_add, length, Map, any,
}
use wf_observer.Common.Maps.Laws.{Every-map_values, Every-map}
use wf_observer.Wire.{SessionInfo, TopicRef, SubscriptionItem, SubscriptionUpdate, SubscriptionEnd}
use wf_observer.Service.Inner.{
  Inner, Session, Topic, close, close_topic, close_session, exhausted, advance, send, emit,
  emit_all,
}
use wf_observer.Service.Settle.{demanded_by, any_ended}
use wf_observer.Service.Invariant.{
  TopicIsSound, TopicIsValid, SessionHas, AllTopics, InnerIsSound, InnerIsValid, Agrees,
  InnerIsSettled,
}

module _ {P Q : SessionInfo → TopicRef → Topic → Type 0} where
  pub SessionHas-map :
      ((r : SessionInfo) (k : TopicRef) (t : Topic) → P r k t → Q r k t)
      → (run_id id : String) (s : Session) → SessionHas P run_id id s
      → SessionHas Q run_id id s
  SessionHas-map f run_id id s h = record {
    named = h.named;
    topics = Every-map (P s.info) (Q s.info) s.topics (f s.info) h.topics;
  }

  pub AllTopics-map :
      (run_id : String) (m : Map String Session)
      → ((r : SessionInfo) (k : TopicRef) (t : Topic) → P r k t → Q r k t)
      → AllTopics P run_id m
      → AllTopics Q run_id m
  AllTopics-map run_id m f h = Every-map _ _ m (SessionHas-map f run_id) h

pub TopicIsSound-mono :
    (m n : ℕ)
    → m ≤ n
    → (r : SessionInfo) (k : TopicRef) (t : Topic) → TopicIsSound m r k t
    → TopicIsSound n r k t
TopicIsSound-mono m n le r k t h = ground arith

pub TopicIsValid-mono :
    (m n : ℕ)
    → m ≤ n
    → (r : SessionInfo) (k : TopicRef) (t : Topic) → TopicIsValid m r k t
    → TopicIsValid n r k t
TopicIsValid-mono m n le r k t h = record {
  sound = TopicIsSound-mono m n le r k t h.sound;
  rests = h.rests;
}

-- A closed topic is valid, whatever it was.
close_topic-IsValid :
    (n : ℕ) (r : SessionInfo) (k : TopicRef) (t : Topic)
    → TopicIsSound n r k t
    → TopicIsValid n r k (close_topic t)
unfolding close_topic
close_topic-IsValid n r k t h = ground arith

close_session-Has :
    {P Q : SessionInfo → TopicRef → Topic → Type 0}
    → ((r : SessionInfo) (k : TopicRef) (t : Topic) → P r k t → Q r k (close_topic t))
    → (run_id id : String) (s : Session) → SessionHas P run_id id s
    → SessionHas Q run_id id (close_session s)
unfolding close_session
close_session-Has {P} {Q} f run_id id s h = record {
  named = h.named;
  topics = Every-map_values (P s.info) (Q s.info) close_topic s.topics (f s.info) h.topics;
}

pub close-IsValid :
    (s : Inner) (end : SubscriptionEnd) → InnerIsSound s → InnerIsValid (close s end)
unfolding close
close-IsValid s end h = record {
  sessions =
      Every-map_values _ _ close_session s.sessions
        (close_session-Has (close_topic-IsValid s.sequence) s.run_id) h.sessions;
  sequence_fits = h.sequence_fits;
}

-- Nobody asks for a topic of a closed service.
pub close-Agrees :
    (P : SessionInfo → TopicRef → Topic → Type 0) (s : Inner) (end : SubscriptionEnd)
    → AllTopics P s.run_id s.sessions
    → AllTopics (Agrees []) s.run_id (close s end).sessions
unfolding close close_topic demanded_by any
close-Agrees P s end h =
    Every-map_values _ _ close_session s.sessions
      (close_session-Has {P = P} (λ r k t p. refl) s.run_id) h

pub close-live :
    (s : Inner) (end : SubscriptionEnd)
    → any_ended (close s end).queues (close s end).subscribers ≡ false
unfolding close any_ended
close-live s end = refl

pub close-IsSettled :
    (s : Inner) (end : SubscriptionEnd) → InnerIsSound s → InnerIsSettled (close s end)
close-IsSettled s end h = record {
  live = close-live s end;
  sessions = unfold close in close-Agrees _ s end h.sessions;
}

pub InnerIsSound-of-valid : (s : Inner) → InnerIsValid s → InnerIsSound s
InnerIsSound-of-valid s h = record {
  sessions = AllTopics-map s.run_id s.sessions (λ r k t v. v.sound) h.sessions;
  sequence_fits = h.sequence_fits;
}

pub checked_add-le : (a b : ℕ) {c : ℕ} → checked_add a b ≡ some c → (c ≡ a + b) × (a + b ≤ u64_max)
unfolding checked_add
checked_add-le a b h = ground arith

abbrev pub advanced : Inner → Inner
advanced s = record s { sequence = s.sequence + 1 }

advance_stopped : (s : Inner) → s.stopped ≡ true → advance s ≡ (s, false)
unfolding advance
advance_stopped s e = simp e

advance_closes :
    (s : Inner)
    → s.stopped ≡ false
    → checked_add s.sequence 1 ≡ none
    → advance s ≡ (close s exhausted, false)
unfolding advance
advance_closes s e f = simp (e, f)

advance_moves :
    (s : Inner) {n : ℕ}
    → s.stopped ≡ false
    → checked_add s.sequence 1 ≡ some n
    → advance s ≡ (advanced s, true)
unfolding advance
advance_moves s e f = simp (e, f, (checked_add-le s.sequence 1 f).0)

-- The counter moves by one, stays where it is once stopped, or ends the service.
pub advance_cases {ℓ} :
    (P : Inner × Bool → Type ℓ) (s : Inner)
    → (s.stopped ≡ true → P (s, false))
    → (s.stopped ≡ false → P (close s exhausted, false))
    → (s.stopped ≡ false → s.sequence + 1 ≤ u64_max → P (advanced s, true))
    → P (advance s)
advance_cases P s stays closes moves = elim (Bool-cases s.stopped) [
  | inl e ↦ rw (advance_stopped s e) (stays e)
  | inr e ↦ elim (Option-cases (checked_add s.sequence 1)) [
    | inl f ↦ rw (advance_closes s e f) (closes e)
    | inr (n, f) ↦ rw (advance_moves s e f) (moves e (checked_add-le s.sequence 1 f).1)
  ]
]

pub advanced-IsValid :
    (s : Inner) → InnerIsValid s → s.sequence + 1 ≤ u64_max → InnerIsValid (advanced s)
advanced-IsValid s h room = record {
  sessions =
      AllTopics-map s.run_id s.sessions
        (TopicIsValid-mono s.sequence (s.sequence + 1) (omega arith)) h.sessions;
  sequence_fits = room;
}

pub advance-IsValid : (s : Inner) → InnerIsValid s → InnerIsValid (advance s).0
advance-IsValid s h =
    advance_cases (λ r. InnerIsValid r.0) s (λ _. h)
      (λ _. close-IsValid s exhausted (InnerIsSound-of-valid s h))
      (λ _ room. advanced-IsValid s h room)

module _ (item_size : SubscriptionItem → Option ℕ) where
  pub emit_after : Inner × Bool → SubscriptionUpdate → Inner
  emit_after (s, true) u = send item_size s u
  emit_after (s, false) u = s

  emit-advance :
      (s : Inner) (u : SubscriptionUpdate) → emit item_size s u ≡ emit_after (advance s) u
  unfolding emit emit_after
  emit-advance s u = by_flag (advance s)
    where
      by_flag : (r : Inner × Bool) → (if r.1 then send item_size r.0 u else r.0) ≡ emit_after r u
      by_flag (s', true) = refl
      by_flag (s', false) = refl

  -- What `emit` does: nothing once stopped, the end of the service, or one update more.
  pub emit_cases {ℓ} :
      (P : Inner → Type ℓ) (s : Inner) (u : SubscriptionUpdate)
      → (s.stopped ≡ true → P s)
      → (s.stopped ≡ false → P (close s exhausted))
      → (s.stopped ≡ false → s.sequence + 1 ≤ u64_max → P (send item_size (advanced s) u))
      → P (emit item_size s u)
  unfolding emit_after
  emit_cases P s u stays closes sends = rw (emit-advance s u) (
      advance_cases (λ r. P (emit_after r u)) s (λ e. stays e) (λ e. closes e)
        (λ e room. sends e room))

  -- Updates change no topic, unless the service ends.
  pub emit-IsSound :
      (s : Inner) (u : SubscriptionUpdate) → InnerIsSound s → InnerIsSound (emit item_size s u)
  unfolding send
  emit-IsSound s u h =
      emit_cases InnerIsSound s u (λ _. h)
        (λ _. InnerIsSound-of-valid _ (close-IsValid s exhausted h))
        λ _ room. record {
          sessions =
              AllTopics-map s.run_id s.sessions
                (TopicIsSound-mono s.sequence (s.sequence + 1) (omega arith)) h.sessions;
          sequence_fits = room;
        }

  pub emit-IsValid :
      (s : Inner) (u : SubscriptionUpdate) → InnerIsValid s → InnerIsValid (emit item_size s u)
  unfolding send
  emit-IsValid s u h =
      emit_cases InnerIsValid s u (λ _. h)
        (λ _. close-IsValid s exhausted (InnerIsSound-of-valid s h))
        λ _ room. record {
          sessions =
              AllTopics-map s.run_id s.sessions
                (TopicIsValid-mono s.sequence (s.sequence + 1) (omega arith)) h.sessions;
          sequence_fits = room;
        }

  pub emit_all-IsValid :
      (s : Inner) (us : List SubscriptionUpdate)
      → InnerIsValid s
      → InnerIsValid (emit_all item_size s us)
  unfolding emit_all
  emit_all-IsValid s [] h = h
  emit_all-IsValid s (u ∷ us) h = emit_all-IsValid (emit item_size s u) us (emit-IsValid s u h)

  abbrev pub InnerAgrees : Inner → Type 0
  InnerAgrees s = AllTopics (Agrees s.subscribers) s.run_id s.sessions

  emit-Agrees :
      (s : Inner) (u : SubscriptionUpdate) → InnerAgrees s → InnerAgrees (emit item_size s u)
  unfolding send close
  emit-Agrees s u h =
      emit_cases InnerAgrees s u (λ _. h) (λ _. close-Agrees _ s exhausted h) (λ _ _. h)

  pub emit_all-Agrees :
      (s : Inner) (us : List SubscriptionUpdate)
      → InnerAgrees s
      → InnerAgrees (emit_all item_size s us)
  unfolding emit_all
  emit_all-Agrees s [] h = h
  emit_all-Agrees s (u ∷ us) h = emit_all-Agrees (emit item_size s u) us (emit-Agrees s u h)

  emit-subscribers-le :
      (s : Inner) (u : SubscriptionUpdate)
      → length (emit item_size s u).subscribers ≤ length s.subscribers
  unfolding send close
  emit-subscribers-le s u =
      emit_cases (λ s'. length s'.subscribers ≤ length s.subscribers) s u (λ _. omega arith)
        (λ _. omega arith) (λ _ _. omega arith)

  pub emit_all-subscribers-le :
      (s : Inner) (us : List SubscriptionUpdate)
      → length (emit_all item_size s us).subscribers ≤ length s.subscribers
  unfolding emit_all
  emit_all-subscribers-le s [] = omega arith
  emit_all-subscribers-le s (u ∷ us) =
      omega (arith, emit_all-subscribers-le (emit item_size s u) us, emit-subscribers-le s u)

  -- With room for it, an update is numbered and sent.
  pub emit_with_room :
      (s : Inner) (u : SubscriptionUpdate)
      → s.stopped ≡ false
      → s.sequence + 1 ≤ u64_max
      → emit item_size s u ≡ send item_size (advanced s) u
  unfolding emit_after
  emit_with_room s u e room = rw (emit-advance s u, advance_moves s e next)
    where
      next : checked_add s.sequence 1 ≡ some (s.sequence + 1)
      next = unfold checked_add in ground arith
