-- ===== src/Service/Invariant/Poll.antt =====
-- `commit_poll` keeps a state that stands: well-formed and settled.
use wf_observer.Common.{
  ℕ, ◌+◌, ◌≤◌, String, string_eq, ◌==◌, ◌≡◌, refl, Bool, true, false, Option, none, some, All, any,
  length, arith, Bool-cases, Option-cases, inl, inr, u64_max, get, replace, if◌then◌else◌,
}
use wf_observer.Common.Maps.Laws.{
  Every-get, Every-replace, Every-map, get-replace, beq_refl, contains_key-get,
}
use wf_observer.Wire.{
  SessionInfo, TopicRef, SubscriptionItem, Result, ok, err, Ensures, Ensures-bind,
}
use wf_observer.Service.Batch.{Pending}
use wf_observer.Service.Inner.{Inner, Session, Topic, close, exhausted}
use wf_observer.Service.Settle.{settle}
use wf_observer.Service.Ticket.{PollTicket}
use wf_observer.Service.Publication.{StagedPublication, validate}
use wf_observer.Service.Commit.{
  commit, commit_poll, commit_checked, check_poll, apply_poll, changed_info, info_fits, update_info,
  info_count, is_stale, resets_at_limit, option_string_eq,
}
use wf_observer.Service.Invariant.{TopicIsValid, SessionHas, InnerIsValid, InnerIsSettled}
use wf_observer.Service.Invariant.Emit.{
  TopicIsValid-mono, close-IsValid, close-IsSettled, InnerIsSound-of-valid,
}
use wf_observer.Service.Invariant.Settle.{settle_settles}
use wf_observer.Service.Invariant.Sync.{ensure_sequences_cases}
use wf_observer.Service.Invariant.Stage.{StagedIsValid, IsPublished, prepare-IsValid}
use wf_observer.Service.Invariant.Commit.{
  Committing, commit-Committing, emit-Committing, next-valid,
}

-- A state between two operations of the service.
pub record Stands (s : Inner) : Type 0 where
  pub valid : InnerIsValid s
  pub settled : InnerIsSettled s

pub settle-Stands :
    (item_size : SubscriptionItem → Option ℕ) (now : ℕ) (s : Inner)
    → InnerIsValid s
    → Stands (settle item_size now s)
settle-Stands item_size now s h =
    let (v, t) = settle_settles item_size now s h in record { valid = v; settled = t }

pub close-Stands : (s : Inner) → InnerIsValid s → Stands (close s exhausted)
close-Stands s h = record {
  valid = close-IsValid s exhausted (InnerIsSound-of-valid s h);
  settled = close-IsSettled s exhausted (InnerIsSound-of-valid s h);
}

-- Another build of the same session leaves its topics well-formed.
rebuilt-IsValid :
    (n : ℕ) (info : SessionInfo) (build : Option String) (key : TopicRef) (t : Topic)
    → TopicIsValid n info key t
    → TopicIsValid n (record info { game_build = build }) key t
rebuilt-IsValid n info build key t h = record {
  sound = record {
    owned = h.sound.owned;
    numbered = h.sound.numbered;
    generation_fits = h.sound.generation_fits;
    epoch_fits = h.sound.epoch_fits;
    carries = h.sound.carries;
  };
  rests = h.rests;
}

-- New metadata of a session differs from the old in its build alone.
abbrev Rebuilds : Session → Option SessionInfo → Type 0
Rebuilds session none = Unit
Rebuilds session (some info) =
    (build : Option String) × (info ≡ record session.info { game_build = build })

changed_info-Rebuilds :
    (pending : Pending) (session : Session) → Rebuilds session (changed_info pending session)
unfolding changed_info
changed_info-Rebuilds pending session =
    elim (Bool-cases (pending.game_build == session.info.game_build)) [
      | inl e ↦ rw e tt
      | inr e ↦ rw e (pending.game_build, refl)
    ]

no_news {ℓ} : {A : Type ℓ} (r : Result A) → Ensures (λ _. Unit {0}) r
no_news (ok a) = tt
no_news (err e) = tt

module _ (item_size : SubscriptionItem → Option ℕ) (ticket : PollTicket) (now : ℕ) (s : Inner)
    (session : Session) (h : InnerIsValid s)
    (found : get s.sessions ticket.session_id ≡ some session) where
  session-Has : SessionHas (TopicIsValid s.sequence) s.run_id ticket.session_id session
  session-Has = Every-get _ s.sessions ticket.session_id session h.sessions found

  same_found :
      (x : Session)
      → get s.sessions ticket.session_id ≡ some x
      → (x.info.session ≡ session.info.session) × (x.info.game_id ≡ session.info.game_id)
  same_found x e = ground arith

  same_rebuilt :
      (build : Option String) (x : Session)
      → get
          (replace s.sessions ticket.session_id
            (record session { info = record session.info { game_build = build } }))
          ticket.session_id
        ≡ some x
      → (x.info.session ≡ session.info.session) × (x.info.game_id ≡ session.info.game_id)
  same_rebuilt build x e = ground (
    arith,
    get-replace s.sessions ticket.session_id ticket.session_id
        (record session { info = record session.info { game_build = build } }),
    beq_refl ticket.session_id,
    contains_key-get s.sessions ticket.session_id session found,
  )

  update_info-Committing :
      (metadata : Option SessionInfo) (room : ℕ)
      → Rebuilds session metadata
      → s.stopped ≡ false
      → s.sequence + (info_count metadata + room) ≤ u64_max
      → Committing ticket.session_id session.info room
          (update_info item_size ticket.session_id s session metadata)
  unfolding update_info
  update_info-Committing none room r running left = record {
    valid = h;
    running = running;
    left = omega arith;
    same = same_found;
  }
  update_info-Committing (some info) room (build, e) running left = rw e (
      emit-Committing item_size ticket.session_id session.info room _ _
        (Every-replace _ s.sessions ticket.session_id _
          (record {
            named = session-Has.named;
            topics =
                Every-map _ _ session.topics
                  (λ k t v. rebuilt-IsValid (s.sequence + 1) session.info build k t v)
                  (Every-map _ _ session.topics
                    (TopicIsValid-mono s.sequence (s.sequence + 1) (omega arith) session.info)
                    session-Has.topics);
          })
          (next-valid item_size ticket.session_id session.info s h))
        running (omega arith) (same_rebuilt build))

  -- What the checks of a poll ensure of what it will commit.
  abbrev IsChecked : Option SessionInfo × StagedPublication → Type 0
  IsChecked (metadata, staged) = Rebuilds session metadata × StagedIsValid session.info staged

  check_poll-IsChecked :
      (pending : Pending) (deadline : ℕ)
      → any (is_stale session) ticket.topics ≡ false
      → All IsPublished pending.ops
      → Ensures IsChecked (check_poll item_size ticket pending deadline s session)
  unfolding check_poll
  check_poll-IsChecked pending deadline fresh published =
      Ensures-bind (StagedIsValid session.info) IsChecked _ _
        (prepare-IsValid s.sequence session ticket session-Has.topics fresh deadline pending.ops
          published)
        λ staged v.
          Ensures-bind (λ _. Unit {0}) IsChecked _ _ (no_news (validate item_size s session staged))
            λ _ _.
              Ensures-bind (λ _. Unit {0}) IsChecked _ _
                (no_news (info_fits item_size s (changed_info pending session)))
                (λ _ _. (changed_info-Rebuilds pending session, v))

  apply_poll-Stands :
      (metadata : Option SessionInfo) (staged : StagedPublication)
      → InnerIsSettled s
      → Rebuilds session metadata
      → StagedIsValid session.info staged
      → Stands (apply_poll item_size ticket now s session metadata staged).0
  unfolding apply_poll
  apply_poll-Stands metadata staged settled r v =
      ensure_sequences_cases (λ p. Stands (finish p).0) s _
        (λ _. record { valid = h; settled = settled }) (λ _. close-Stands s h)
        (λ running room. settle-Stands item_size now _ (committed running room))
    where
      finish : Inner × Bool → Inner × Bool
      finish p =
          if p.1
          then (
            settle item_size now (
                commit item_size staged ticket
                  (update_info item_size ticket.session_id p.0 session metadata)),
            true,
          )
          else (p.0, false)

      committed :
          s.stopped ≡ false
          → s.sequence
              + (length staged.resets
                  + length staged.topics
                  + length staged.events
                  + info_count metadata)
            ≤ u64_max
          → InnerIsValid (
              commit item_size staged ticket
                (update_info item_size ticket.session_id s session metadata))
      committed running room =
          (commit-Committing item_size ticket.session_id session.info staged ticket _ refl v
            (update_info-Committing metadata _ r running (omega arith))).valid

  commit_checked-Stands :
      (r : Result (Option SessionInfo × StagedPublication))
      → InnerIsSettled s
      → Ensures IsChecked r
      → Stands (commit_checked item_size ticket now s session r).0
  unfolding commit_checked
  commit_checked-Stands (err e) settled c = record { valid = h; settled = settled }
  commit_checked-Stands (ok (metadata, staged)) settled c =
      apply_poll-Stands metadata staged settled c.0 c.1

-- Committing a poll keeps a state well-formed and settled, where no published health is `idle`.
pub commit_poll-Stands :
    (item_size : SubscriptionItem → Option ℕ) (ticket : PollTicket) (pending : Pending)
    (deadline now : ℕ) (s : Inner)
    → All IsPublished pending.ops
    → Stands s
    → Stands (commit_poll item_size ticket pending deadline now s).0
unfolding commit_poll
commit_poll-Stands item_size ticket pending deadline now s published h =
    elim (Bool-cases pending.failed) [
      | inl e ↦ rw (e, commit_poll) h
      | inr e ↦ elim (Bool-cases s.stopped) [
        | inl f ↦ simp (e, f) h
        | inr f ↦ elim (Option-cases (get s.sessions ticket.session_id)) [
          | inl g ↦ simp (e, f, g) h
          | inr (session, g) ↦ elim (Bool-cases (any (is_stale session) ticket.topics)) [
            | inl stale ↦ simp (e, f, g, stale) h
            | inr fresh ↦ elim (Bool-cases (any (resets_at_limit session) pending.ops)) [
              | inl full ↦ simp (e, f, g, fresh, full) (close-Stands s h.valid)
              | inr fits ↦
                  simp (e, f, g, fresh, fits)
                    (commit_checked-Stands item_size ticket now s session h.valid g _ h.settled (
                      check_poll-IsChecked item_size ticket now s session h.valid g pending deadline
                        fresh published))
            ]
          ]
        ]
      ]
    ]
