-- ===== src/Service/Invariant/Sync.antt =====
-- `sync_runtime` keeps the state well-formed, also where it fails, and settles it where it returns.
use wf_observer.Common.{
  ℕ, ◌+◌, ◌≤◌, String, string_eq, string_order, ◌==◌, ◌≡◌, refl, Bool, true, false, Option, none,
  some, List, [], ◌∷◌, arith, Bool-cases, Option-cases, inl, inr, u64_max, checked_add, length, Map,
  Every, fold, fold_keeps, get, keys, find, contains_key, ◌||◌, remove, retain, not,
}
use wf_observer.Common.Maps.Laws.{Every-retain, Every-insert}
use wf_observer.Wire.{
  SessionRef, SessionInfo, ProviderDescriptor, CapabilityDescriptor, SubscriptionItem,
  SubscriptionUpdate, Result, ok, err, topic_ref_eq, topic_ref_order,
}
use wf_observer.Runtime
use wf_observer.Runtime.{HostStatus, Activity, host_status_eq}
use wf_observer.Service.Inner.{Inner, close, exhausted, ensure_sequences, send, emit, emit_all}
use wf_observer.Service.Sync.{
  info_of, incoming, new_topic, new_topics, drop_session, end_session, start_session, start_if_room,
  unless_failed, add_session, add_sessions, sync_runtime, finish_sync, add_incoming,
}
use wf_observer.Service.Invariant.{TopicIsValid, InnerIsValid, InnerIsSettled}
use wf_observer.Service.Invariant.Emit.{
  close-IsValid, InnerIsSound-of-valid, emit-IsValid, emit_cases, checked_add-le, advance-IsValid,
}
use wf_observer.Service.Invariant.Settle.{settle_settles}

-- Whether the counter has room, with what each answer leaves.
pub ensure_sequences_cases {ℓ} :
    (P : Inner × Bool → Type ℓ) (s : Inner) (n : ℕ)
    → (s.stopped ≡ true → P (s, false))
    → (s.stopped ≡ false → P (close s exhausted, false))
    → (s.stopped ≡ false → s.sequence + n ≤ u64_max → P (s, true))
    → P (ensure_sequences s n)
ensure_sequences_cases P s n stays closes room = elim (Bool-cases s.stopped) [
  | inl e ↦ rw (stopped e) (stays e)
  | inr e ↦ elim (Option-cases (checked_add s.sequence n)) [
    | inl f ↦ rw (closed e f) (closes e)
    | inr (m, f) ↦ rw (fits e f) (room e (checked_add-le s.sequence n f).1)
  ]
]
  where
    stopped : s.stopped ≡ true → ensure_sequences s n ≡ (s, false)
    stopped e = unfold ensure_sequences in simp e

    closed :
        s.stopped ≡ false
        → checked_add s.sequence n ≡ none
        → ensure_sequences s n ≡ (close s exhausted, false)
    closed e f = unfold ensure_sequences in simp (e, f)

    fits :
        {m : ℕ}
        → s.stopped ≡ false
        → checked_add s.sequence n ≡ some m
        → ensure_sequences s n ≡ (s, true)
    fits e f = unfold ensure_sequences in simp (e, f)

-- A well-formed state of this run.
pub record IsOfRun (run_id : String) (s : Inner) : Type 0 where
  pub valid : InnerIsValid s
  pub run : s.run_id ≡ run_id

abbrev Named : String → String → SessionInfo → Type 0
Named run_id id info = info.session ≡ record { run_id = run_id; session_id = id }

new_topic-IsValid :
    (info : SessionInfo) (p : ProviderDescriptor) (c : CapabilityDescriptor) (n : ℕ)
    → TopicIsValid n info (new_topic info p c).state.source.topic (new_topic info p c)
unfolding new_topic
new_topic-IsValid info p c n = ground arith

pub new_topics-IsValid :
    (info : SessionInfo) (p : ProviderDescriptor) (n : ℕ)
    → Every (TopicIsValid n info) (new_topics info p)
unfolding new_topics
new_topics-IsValid info p n =
    fold_keeps (Every (TopicIsValid n info)) _
      (λ m c h. Every-insert _ m _ _ (new_topic-IsValid info p c n) h) [] p.capabilities tt

incoming_Named :
    (s : Inner) (m : Map String SessionInfo) (target : Runtime.TargetStatus) (a : Activity)
    → Every (Named s.run_id) m
    → Every (Named s.run_id) (add_incoming s m target a)
unfolding add_incoming info_of
incoming_Named s m target (Activity.observing id) h = Every-insert (Named s.run_id) m id _ refl h
incoming_Named s m target Activity.attaching h = h
incoming_Named s m target (Activity.retrying e) h = h

incoming-Named : (s : Inner) (status : HostStatus) → Every (Named s.run_id) (incoming s status)
unfolding incoming
incoming-Named s status =
    fold_keeps (Every (Named s.run_id)) _ (λ m t h. incoming_Named s m t t.activity h) []
      status.targets tt

module _ (item_size : SubscriptionItem → Option ℕ) (run_id : String) where
  emit-IsOfRun :
      (s : Inner) (u : SubscriptionUpdate) → IsOfRun run_id s → IsOfRun run_id (emit item_size s u)
  unfolding send close
  emit-IsOfRun s u h = record {
    valid = emit-IsValid item_size s u h.valid;
    run =
        emit_cases item_size (λ s'. s'.run_id ≡ run_id) s u (λ _. h.run) (λ _. h.run)
          (λ _ _. h.run);
  }

  emit_all-IsOfRun :
      (s : Inner) (us : List SubscriptionUpdate)
      → IsOfRun run_id s
      → IsOfRun run_id (emit_all item_size s us)
  unfolding emit_all
  emit_all-IsOfRun s [] h = h
  emit_all-IsOfRun s (u ∷ us) h = emit_all-IsOfRun (emit item_size s u) us (emit-IsOfRun s u h)

  drop_session-IsOfRun :
      (s : Inner) (id : String) (r : SessionRef)
      → IsOfRun run_id s
      → IsOfRun run_id (drop_session s id r)
  unfolding drop_session remove
  drop_session-IsOfRun s id r h = record {
    valid = record {
      sessions = Every-retain _ _ s.sessions h.valid.sessions;
      sequence_fits = h.valid.sequence_fits;
    };
    run = h.run;
  }

  end_session-IsOfRun :
      (status : HostStatus) (s : Inner) (id : String)
      → IsOfRun run_id s
      → IsOfRun run_id (end_session item_size status s id)
  unfolding end_session
  end_session-IsOfRun status s id h = elim (Option-cases (get s.sessions id)) [
    | inl e ↦ rw (e, end_session) h
    | inr (t, e) ↦ rw (e, end_session) (drop_session-IsOfRun _ id _ (emit-IsOfRun s _ h))
  ]

  start_session-IsOfRun :
      (s : Inner) (info : SessionInfo) (p : ProviderDescriptor)
      → Named run_id info.session.session_id info
      → IsOfRun run_id s
      → IsOfRun run_id (start_session item_size s info p)
  unfolding start_session
  start_session-IsOfRun s info p named h = emit_all-IsOfRun _ _ (
      emit-IsOfRun _ _ (record {
        valid = record {
          sessions =
              Every-insert _ s.sessions _ _
                (record { named = rw h.run named; topics = new_topics-IsValid info p s.sequence })
                h.valid.sessions;
          sequence_fits = h.valid.sequence_fits;
        };
        run = h.run;
      }))

  close-IsOfRun : (s : Inner) → IsOfRun run_id s → IsOfRun run_id (close s exhausted)
  unfolding close
  close-IsOfRun s h = record {
    valid = close-IsValid s exhausted (InnerIsSound-of-valid s h.valid);
    run = h.run;
  }

  add_session-IsOfRun :
      (s : Inner) (info : SessionInfo)
      → Named run_id info.session.session_id info
      → IsOfRun run_id s
      → IsOfRun run_id (add_session item_size s info).0
  unfolding add_session
  add_session-IsOfRun s info named h =
      elim (Option-cases (find (λ p. p.id == info.provider_id) s.catalog.providers)) [
        | inl e ↦ rw (e, add_session) h
        | inr (p, e) ↦
            rw (e, add_session)
              (ensure_sequences_cases (λ r. IsOfRun run_id (start_if_room item_size info p r).0) s
                (1 + length p.capabilities) (λ _. h) (λ _. close-IsOfRun s h)
                (λ _ _. start_session-IsOfRun s info p named h))
      ]

  -- The name of a session's information is the key that it is stored under.
  Named-self :
      (id : String) (info : SessionInfo)
      → Named run_id id info
      → Named run_id info.session.session_id info
  Named-self id info named = ground arith

  unless_failed-IsOfRun :
      (rest : Inner → Inner × Result (Unit {0}))
      → ((s : Inner) → IsOfRun run_id s → IsOfRun run_id (rest s).0)
      → (r : Inner × Result (Unit {0})) → IsOfRun run_id r.0
      → IsOfRun run_id (unless_failed item_size rest r).0
  unless_failed-IsOfRun rest keeps (s, ok _) h = keeps s h
  unless_failed-IsOfRun rest keeps (s, err e) h = h

  add_sessions-IsOfRun :
      (m : Map String SessionInfo) (s : Inner)
      → Every (Named run_id) m
      → IsOfRun run_id s
      → IsOfRun run_id (add_sessions item_size m s).0
  unfolding add_sessions
  add_sessions-IsOfRun [] s named h = h
  add_sessions-IsOfRun ((id, info) ∷ m) s named h = elim (Bool-cases (contains_key s.sessions id)) [
    | inl e ↦ rw e (add_sessions-IsOfRun m s named.1 h)
    | inr e ↦ rw e (
        unless_failed-IsOfRun (add_sessions item_size m)
          (λ s' h'. add_sessions-IsOfRun m s' named.1 h') (add_session item_size s info)
          (add_session-IsOfRun s info (Named-self id info named.0) h))
  ]

  set_runtime-IsOfRun :
      (s : Inner) (status : HostStatus)
      → IsOfRun run_id s
      → IsOfRun run_id (record s { runtime = status })
  set_runtime-IsOfRun s status h = record {
    valid = record { sessions = h.valid.sessions; sequence_fits = h.valid.sequence_fits };
    run = h.run;
  }

module _ (item_size : SubscriptionItem → Option ℕ) (status : HostStatus) (now : ℕ) where
  -- The state before the last steps of `sync_runtime`: sessions have ended and started.
  abbrev resynced : Inner → Inner × Result (Unit {0})
  resynced s =
      let found = incoming s status in
      add_sessions item_size found (
        fold (end_session item_size status) s
          (keys (retain (λ id _. not (contains_key found id)) s.sessions)))

  resynced-IsValid : (s : Inner) → InnerIsValid s → InnerIsValid (resynced s).0
  resynced-IsValid s h =
      (add_sessions-IsOfRun item_size s.run_id (incoming s status) _ (incoming-Named s status) (
        fold_keeps (IsOfRun s.run_id) (end_session item_size status)
          (λ s' id h'. end_session-IsOfRun item_size s.run_id status s' id h') s _
          (record { valid = h; run = refl }))).valid

  finish_sync-IsValid :
      (r : Inner × Result (Unit {0}))
      → InnerIsValid r.0
      → InnerIsValid (finish_sync item_size status now r).0
  unfolding finish_sync
  finish_sync-IsValid (s, err e) h = h
  finish_sync-IsValid (s, ok _) h =
      (settle_settles item_size now _
        (advance-IsValid _ (record { sessions = h.sessions; sequence_fits = h.sequence_fits }))).0

  finish_sync-IsSettled :
      (r : Inner × Result (Unit {0}))
      → InnerIsValid r.0
      → (finish_sync item_size status now r).1 ≡ ok tt
      → InnerIsSettled (finish_sync item_size status now r).0
  unfolding finish_sync
  finish_sync-IsSettled (s, err e) h returned = cc
  finish_sync-IsSettled (s, ok _) h returned =
      (settle_settles item_size now _
        (advance-IsValid _ (record { sessions = h.sessions; sequence_fits = h.sequence_fits }))).1

  sync_cases {ℓ} :
      (P : Inner × Result (Unit {0}) → Type ℓ) (s : Inner)
      → P (s, ok tt)
      → P (finish_sync item_size status now (resynced s))
      → P (sync_runtime item_size status now s)
  unfolding sync_runtime
  sync_cases P s same changed = elim (Bool-cases (s.stopped || (s.runtime == status))) [
    | inl e ↦ rw (e, sync_runtime) same
    | inr e ↦ rw (e, sync_runtime) changed
  ]

  -- A lifecycle update keeps the state well-formed, also where it is refused half-way.
  pub sync_runtime-IsValid :
      (s : Inner) → InnerIsValid s → InnerIsValid (sync_runtime item_size status now s).0
  sync_runtime-IsValid s h =
      sync_cases (λ r. InnerIsValid r.0) s h
        (finish_sync-IsValid (resynced s) (resynced-IsValid s h))

  -- A lifecycle update that is not refused leaves a settled, well-formed state settled.
  pub sync_runtime-IsSettled :
      (s : Inner)
      → InnerIsValid s
      → InnerIsSettled s
      → (sync_runtime item_size status now s).1 ≡ ok tt
      → InnerIsSettled (sync_runtime item_size status now s).0
  sync_runtime-IsSettled s h settled =
      sync_cases (λ r. r.1 ≡ ok tt → InnerIsSettled r.0) s (λ _. settled)
        (finish_sync-IsSettled (resynced s) (resynced-IsValid s h))
