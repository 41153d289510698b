-- ===== src/Service/Invariant/Commit.antt =====
-- `StagedPublication::commit` keeps the state well-formed, within the sequences that are reserved.
use wf_observer.Common.{
  ℕ, suc, ◌+◌, ◌≤◌, String, string_eq, ◌≡◌, refl, ◌∙◌, false, Option, some, List, [], ◌∷◌, length,
  arith, Bool-cases, Option-cases, inl, inr, u64_max, Map, Every, get, insert, fold,
}
use wf_observer.Common.Maps.Laws.{
  Every-insert, Every-get, Every-replace, get-replace, beq_refl, contains_key-get,
}
use wf_observer.Wire.{
  SessionInfo, TopicRef, topic_ref_eq, topic_ref_order, JsonPayload, capability_health_eq,
  SubscriptionItem, SubscriptionUpdate,
}
use wf_observer.Service.Inner.{Inner, Session, Topic, send, emit}
use wf_observer.Service.Commit.{
  commit_reset, commit_topic, commit_event, commit, write_topic, topic_in, differs, stamp,
  option_payload_eq,
}
use wf_observer.Service.Publication.{StagedPublication}
use wf_observer.Service.Ticket.{PollTicket}
use wf_observer.Service.Invariant.{TopicIsValid, SessionHas, InnerIsValid, AllTopics}
use wf_observer.Service.Invariant.Emit.{emit_with_room, TopicIsValid-mono, AllTopics-map}
use wf_observer.Service.Invariant.Stage.{TopicIsStaged, StagedIsValid}

-- A session is the one that a poll was made for, up to its build.
abbrev IsOf : SessionInfo → Session → Type 0
IsOf info x = (x.info.session ≡ info.session) × (x.info.game_id ≡ info.game_id)

-- The state during a commit: open, with so many sequences left, its session the one polled.
pub record Committing (id : String) (info : SessionInfo) (room : ℕ) (s : Inner) : Type 0 where
  pub valid : InnerIsValid s
  pub running : s.stopped ≡ false
  pub left : s.sequence + room ≤ u64_max
  pub same : (x : Session) → get s.sessions id ≡ some x → IsOf info x

-- An unchanged topic keeps the envelope that it has.
kept-IsValid :
    (n : ℕ) (info info' : SessionInfo) (key : TopicRef) (old t : Topic)
    → IsOf info (record { info = info'; topics = [] })
    → TopicIsValid n info' key old
    → TopicIsStaged info key t
    → differs old.state t.state ≡ false
    → TopicIsValid n info' key
        (record t { state = record t.state { snapshot = old.state.snapshot } })
unfolding differs
kept-IsValid n info info' key old t same h st e =
    ground
      (arith, capability_health_eq.beq_iff old.state.health t.state.health, h.sound.owned, st.owned)

changed-IsValid :
    (n : ℕ) (info info' : SessionInfo) (key : TopicRef) (t : Topic)
    → IsOf info (record { info = info'; topics = [] })
    → TopicIsStaged info key t
    → TopicIsValid
        (n + 1)
        info'
        key
        (record t { state = record t.state { snapshot = stamp (n + 1) t.state.snapshot } })
unfolding stamp
changed-IsValid n info info' key t same st = ground arith

module _ (id : String) (key : TopicRef) (t : Topic) where
  write_topic-AllTopics :
      (n : ℕ) (s : Inner) (x : Session)
      → get s.sessions id ≡ some x
      → AllTopics (TopicIsValid n) s.run_id s.sessions
      → TopicIsValid n x.info key t
      → AllTopics (TopicIsValid n) s.run_id (write_topic s id key t).sessions
  unfolding write_topic
  write_topic-AllTopics n s x g h v =
      let at_id = Every-get (SessionHas (TopicIsValid n) s.run_id) s.sessions id x h g in
      rw (g, write_topic)
        (Every-replace (SessionHas (TopicIsValid n) s.run_id) s.sessions id _
          (record { named = at_id.named; topics = Every-insert _ x.topics key t v at_id.topics }) h)

  write_topic-same :
      (info : SessionInfo) (s : Inner) (x : Session)
      → get s.sessions id ≡ some x
      → IsOf info x
      → (y : Session) → get (write_topic s id key t).sessions id ≡ some y
      → IsOf info y
  unfolding write_topic
  write_topic-same info s x g same y e = ground (
    arith,
    get-replace s.sessions id id (record x { topics = insert x.topics key t }),
    beq_refl id,
    contains_key-get s.sessions id x g,
  )

  -- A write of a topic changes the sessions alone.
  write_topic-rest :
      (s : Inner)
      → ((write_topic s id key t).stopped ≡ s.stopped)
        × ((write_topic s id key t).sequence ≡ s.sequence)
        × ((write_topic s id key t).run_id ≡ s.run_id)
  unfolding write_topic
  write_topic-rest s = elim (Option-cases (get s.sessions id)) [
    | inl e ↦ rw (e, write_topic) (refl, refl, refl)
    | inr (x, e) ↦ rw (e, write_topic) (refl, refl, refl)
  ]

module _ (item_size : SubscriptionItem → Option ℕ) (id : String) (info : SessionInfo) where
  -- An update takes one of the sequences.
  pub emit-Committing :
      (room : ℕ) (s : Inner) (u : SubscriptionUpdate)
      → AllTopics (TopicIsValid (s.sequence + 1)) s.run_id s.sessions
      → s.stopped ≡ false
      → s.sequence + suc room ≤ u64_max
      → ((x : Session) → get s.sessions id ≡ some x → IsOf info x)
      → Committing id info room (emit item_size s u)
  unfolding send
  emit-Committing room s u valid running left same =
      rw (emit_with_room item_size s u running (omega arith)) (record {
        valid = record { sessions = valid; sequence_fits = omega arith };
        running = running;
        left = omega arith;
        same = same;
      })

  pub next-valid :
      (s : Inner) → InnerIsValid s → AllTopics (TopicIsValid (s.sequence + 1)) s.run_id s.sessions
  next-valid s h =
      AllTopics-map s.run_id s.sessions
        (TopicIsValid-mono s.sequence (s.sequence + 1) (omega arith)) h.sessions

  Committing-less :
      (room : ℕ) (s : Inner) → Committing id info (suc room) s → Committing id info room s
  Committing-less room s h = record {
    valid = h.valid;
    running = h.running;
    left = let l = h.left in omega arith;
    same = h.same;
  }

  pub Committing-eq :
      (m n : ℕ) (s : Inner) → m ≡ n → Committing id info m s → Committing id info n s
  Committing-eq m n s e h = record {
    valid = h.valid;
    running = h.running;
    left = let l = h.left in omega arith;
    same = h.same;
  }

  Committing-zero :
      (room : ℕ) (s : Inner) → Committing id info (0 + room) s → Committing id info room s
  Committing-zero room s h = Committing-eq (0 + room) room s (omega arith) h

  Committing-suc :
      (n room : ℕ) (s : Inner)
      → Committing id info (suc n + room) s
      → Committing id info (suc (n + room)) s
  Committing-suc n room s h = Committing-eq (suc n + room) (suc (n + room)) s (omega arith) h

  emit_one :
      (room : ℕ) (s : Inner) (u : SubscriptionUpdate)
      → Committing id info (suc room) s
      → Committing id info room (emit item_size s u)
  emit_one room s u h = emit-Committing room s u (next-valid s h.valid) h.running h.left h.same

  commit_reset-Committing :
      (staged : Map TopicRef Topic) (room : ℕ) (s : Inner) (key : TopicRef)
      → Committing id info (suc room) s
      → Committing id info room (commit_reset item_size staged s key)
  unfolding commit_reset
  commit_reset-Committing staged room s key h = elim (Option-cases (get staged key)) [
    | inl e ↦ rw (e, commit_reset) (Committing-less room s h)
    | inr (t, e) ↦ rw (e, commit_reset) (emit_one room s _ h)
  ]

  commit_event-Committing :
      (room : ℕ) (s : Inner) (e : TopicRef × JsonPayload)
      → Committing id info (suc room) s
      → Committing id info room (commit_event item_size id s e)
  unfolding commit_event
  commit_event-Committing room s (key, payload) h = elim (Option-cases (topic_in s id key)) [
    | inl e ↦ rw (e, commit_event) (Committing-less room s h)
    | inr (t, e) ↦ rw (e, commit_event) (emit_one room s _ h)
  ]

  -- The session and the topic that a lookup through both maps finds.
  topic_in-found :
      (s : Inner) (key : TopicRef) (old : Topic)
      → topic_in s id key ≡ some old
      → (x : Session) × (get s.sessions id ≡ some x) × (get x.topics key ≡ some old)
  unfolding topic_in
  topic_in-found s key old e = elim (Option-cases (get s.sessions id)) [
    | inl f ↦ absurd (ground arith)
    | inr (x, f) ↦ (x, f, ground arith)
  ]

  written-Committing :
      (room : ℕ) (s : Inner) (x : Session) (key : TopicRef) (t : Topic)
      → Committing id info room s
      → get s.sessions id ≡ some x
      → TopicIsValid s.sequence x.info key t
      → Committing id info room (write_topic s id key t)
  written-Committing room s x key t h found v =
      let (stopped, sequence, run_id) = write_topic-rest id key t s in
      let valid = write_topic-AllTopics id key t s.sequence s x found h.valid.sessions v in
      record {
        valid = record {
          sessions = rw (sequence, run_id) valid;
          sequence_fits = rw sequence h.valid.sequence_fits;
        };
        running = stopped ∙ h.running;
        left = rw sequence h.left;
        same = write_topic-same id key t info s x found (h.same x found);
      }

  emit_written :
      (room : ℕ) (s : Inner) (x : Session) (key : TopicRef) (t : Topic)
      → Committing id info (suc room) s
      → get s.sessions id ≡ some x
      → TopicIsValid (s.sequence + 1) x.info key t
      → Committing id info room
          (emit item_size (write_topic s id key t) (SubscriptionUpdate.topic_changed t.state))
  emit_written room s x key t h found v =
      let (stopped, sequence, run_id) = write_topic-rest id key t s in
      let valid =
        write_topic-AllTopics id key t (s.sequence + 1) s x found (next-valid s h.valid) v in
      emit-Committing room _ _ (rw (sequence, run_id) valid) (stopped ∙ h.running)
        (rw sequence h.left) (write_topic-same id key t info s x found (h.same x found))

  commit_topic-Committing :
      (room : ℕ) (s : Inner) (key : TopicRef) (t : Topic)
      → TopicIsStaged info key t
      → Committing id info (suc room) s
      → Committing id info room (commit_topic item_size id s (key, t))
  unfolding commit_topic
  commit_topic-Committing room s key t st h = elim (Option-cases (topic_in s id key)) [
    | inl e ↦ rw (e, commit_topic) (Committing-less room s h)
    | inr (old, e) ↦
        let (x, g, o) = topic_in-found s key old e in
        let same = h.same x g in
        let at_id =
          Every-get (SessionHas (TopicIsValid s.sequence) s.run_id) s.sessions id x h.valid.sessions
            g in
        let old_valid =
          Every-get (TopicIsValid s.sequence x.info) x.topics key old at_id.topics o in
        elim (Bool-cases (differs old.state t.state)) [
          | inl d ↦
              let t' : Topic = record t {
                state = record t.state { snapshot = stamp (s.sequence + 1) t.state.snapshot };
              } in
              rw (e, d, commit_topic)
                (emit_written room s x key t' h g
                  (changed-IsValid s.sequence info x.info key t same st))
          | inr d ↦
              let t' : Topic = record t {
                state = record t.state { snapshot = old.state.snapshot };
              } in
              rw (e, d, commit_topic)
                (Committing-less room _ (
                  written-Committing (suc room) s x key t' h g
                    (kept-IsValid s.sequence info x.info key old t same old_valid st d)))
        ]
  ]

  fold_resets :
      (staged : Map TopicRef Topic) (keys : List TopicRef) (room : ℕ) (s : Inner)
      → Committing id info (length keys + room) s
      → Committing id info room (fold (commit_reset item_size staged) s keys)
  unfolding fold
  fold_resets staged [] room s h = Committing-zero room s h
  fold_resets staged (k ∷ ks) room s h =
      fold_resets staged ks room _
        (commit_reset-Committing staged (length ks + room) s k (Committing-suc _ room s h))

  fold_events :
      (events : List (TopicRef × JsonPayload)) (room : ℕ) (s : Inner)
      → Committing id info (length events + room) s
      → Committing id info room (fold (commit_event item_size id) s events)
  unfolding fold
  fold_events [] room s h = Committing-zero room s h
  fold_events (e ∷ es) room s h =
      fold_events es room _
        (commit_event-Committing (length es + room) s e (Committing-suc _ room s h))

  fold_topics :
      (topics : Map TopicRef Topic) (room : ℕ) (s : Inner)
      → Every (TopicIsStaged info) topics
      → Committing id info (length topics + room) s
      → Committing id info room (fold (commit_topic item_size id) s topics)
  unfolding fold
  fold_topics [] room s v h = Committing-zero room s h
  fold_topics ((key, t) ∷ m) room s v h =
      fold_topics m room _ v.1
        (commit_topic-Committing (length m + room) s key t v.0 (Committing-suc _ room s h))

  -- The whole commit stays within the sequences that were reserved for it.
  pub commit-Committing :
      (staged : StagedPublication) (ticket : PollTicket) (s : Inner)
      → ticket.session_id ≡ id
      → StagedIsValid info staged
      → Committing id info
          (length staged.resets + (length staged.topics + (length staged.events + 0)))
          s
      → Committing id info 0 (commit item_size staged ticket s)
  unfolding commit
  commit-Committing staged ticket s same v h = rw same (
      fold_events staged.events 0 _ (
        fold_topics staged.topics (length staged.events + 0) _ v
          (fold_resets staged.topics staged.resets _ s h)))
