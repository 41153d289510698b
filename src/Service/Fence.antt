-- ===== src/Service/Fence.antt =====
-- crates/wf-observer-cli/src/service/publication.rs, `commit_poll`: what a poll that is not accepted
-- leaves behind, and which polls are not accepted.
use mathlib.Core.Path.{subst}
use wf_observer.Common.{
  String, none, ℕ, ◌≡◌, refl, Bool, true, false, Option, some, any, ◌⊎◌, inl, inr, Bool-cases,
  Option-cases, get, string_eq, if◌then◌else◌, Map, All, List, [], ◌∷◌, not, ◌||◌, ◌==◌, nat_eq,
  arith,
}
use wf_observer.Wire.{TopicRef, topic_ref_eq, SubscriptionItem, SessionInfo, Result, ok, err}
use wf_observer.Service.Batch.{Pending}
use wf_observer.Service.Inner.{Inner, Session, Topic, close, exhausted}
use wf_observer.Service.Settle.{settle}
use wf_observer.Service.Ticket.{PollTicket, Demand, demands, current}
use wf_observer.Service.Publication.{StagedPublication}
use wf_observer.Service.Commit.{
  commit, commit_poll, commit_checked, apply_poll, update_info, is_stale, resets_at_limit,
}
use wf_observer.Service.Invariant.Sync.{ensure_sequences_cases}

-- What an answer of `commit_poll` says of the state it leaves: an error left it as it was, and a
-- poll that is not kept left it as it was or ended the service.
abbrev pub Leaves : Inner → Inner × Result Bool → Type 0
Leaves s (s', err e) = s' ≡ s
Leaves s (s', ok false) = (s' ≡ s) ⊎ (s' ≡ close s exhausted)
Leaves s (s', ok true) = Unit

module _ (item_size : SubscriptionItem → Option ℕ) (ticket : PollTicket) (now : ℕ) (s : Inner)
    (session : Session) where
  apply_poll-Leaves :
      (metadata : Option SessionInfo) (staged : StagedPublication)
      → Leaves s (
          let (s', kept) = apply_poll item_size ticket now s session metadata staged in
          (s', ok kept))
  unfolding apply_poll
  apply_poll-Leaves metadata staged =
      ensure_sequences_cases (λ p. Leaves s ((finish p).0, ok (finish p).1)) s _ (λ _. inl refl)
        (λ _. inr refl) (λ _ _. tt)
    where
      finish : Inner × Bool → Inner × Bool
      finish p =
          if p.1
          then (
            settle item_size now (
                commit item_size staged ticket
                  (update_info item_size ticket.session_id p.0 session metadata)),
            true,
          )
          else (p.0, false)

  commit_checked-Leaves :
      (r : Result (Option SessionInfo × StagedPublication))
      → Leaves s (commit_checked item_size ticket now s session r)
  unfolding commit_checked
  commit_checked-Leaves (err e) = refl
  commit_checked-Leaves (ok (metadata, staged)) = apply_poll-Leaves metadata staged

-- Where `commit_poll` answers an error, the state is as it was, and where it answers that the poll
-- is not kept, the state is as it was or the service has ended for want of numbers.
pub commit_poll-Leaves :
    (item_size : SubscriptionItem → Option ℕ) (ticket : PollTicket) (pending : Pending)
    (deadline now : ℕ) (s : Inner)
    → Leaves s (commit_poll item_size ticket pending deadline now s)
unfolding commit_poll
commit_poll-Leaves item_size ticket pending deadline now s = elim (Bool-cases pending.failed) [
  | inl e ↦ rw (e, commit_poll) refl
  | inr e ↦ elim (Bool-cases s.stopped) [
    | inl f ↦ simp (e, f) (inl refl)
    | inr f ↦ elim (Option-cases (get s.sessions ticket.session_id)) [
      | inl g ↦ simp (e, f, g) (inl refl)
      | inr (session, g) ↦ elim (Bool-cases (any (is_stale session) ticket.topics)) [
        | inl stale ↦ simp (e, f, g, stale) (inl refl)
        | inr fresh ↦ elim (Bool-cases (any (resets_at_limit session) pending.ops)) [
          | inl full ↦ simp (e, f, g, fresh, full) (inr refl)
          | inr fits ↦
              simp (e, f, g, fresh, fits) (commit_checked-Leaves item_size ticket now s session _)
        ]
      ]
    ]
  ]
]

-- A topic of a ticket that is asked for, with the generation and the epoch that it had when the poll
-- began.
abbrev pub IsCurrent : Map TopicRef Topic → Demand → Type 0
IsCurrent topics d =
    (t : Topic) × (get topics d.key ≡ some t)
    × (t.demanded ≡ true)
    × (t.state.generation ≡ d.generation)
    × (t.epoch ≡ d.epoch)

is_stale-IsCurrent :
    (session : Session) (d : Demand) → is_stale session d ≡ false → IsCurrent session.topics d
unfolding is_stale
is_stale-IsCurrent session d h = elim (Option-cases (get session.topics d.key)) [
  | inl e ↦ let r : true ≡ false = rw (e, is_stale) at h in cc r
  | inr (t, e) ↦
      let r : (not t.demanded
            || not (t.state.generation == d.generation)
            || not (t.epoch == d.epoch))
          ≡ false =
        rw (e, is_stale) at h in
      (t, e, ground (arith, r), ground (arith, r), ground (arith, r))
]

none_stale-IsCurrent :
    (session : Session) (ds : List Demand)
    → any (is_stale session) ds ≡ false
    → All (IsCurrent session.topics) ds
unfolding any
none_stale-IsCurrent session [] h = tt
none_stale-IsCurrent session (d ∷ ds) h = (
  is_stale-IsCurrent session d (ground (arith, h)),
  none_stale-IsCurrent session ds (ground (arith, h)),
)

-- What an accepted poll was: the provider ignored no refusal, the service runs, the session is
-- there, and each topic of the ticket is as it was when the poll began.
abbrev pub Accepts : Inner → PollTicket → Pending → Result Bool → Type 0
Accepts s ticket pending (ok true) =
    (pending.failed ≡ false)
    × (s.stopped ≡ false)
    × (session : Session) × (get s.sessions ticket.session_id ≡ some session)
    × All (IsCurrent session.topics) ticket.topics
Accepts s ticket pending (ok false) = Unit
Accepts s ticket pending (err e) = Unit

Accepts-any :
    (s : Inner) (ticket : PollTicket) (pending : Pending) (session : Session) (r : Result Bool)
    → pending.failed ≡ false
    → s.stopped ≡ false
    → get s.sessions ticket.session_id ≡ some session
    → All (IsCurrent session.topics) ticket.topics
    → Accepts s ticket pending r
Accepts-any s ticket pending session (ok true) e f g fresh = (e, f, session, g, fresh)
Accepts-any s ticket pending session (ok false) e f g fresh = tt
Accepts-any s ticket pending session (err m) e f g fresh = tt

commit_poll_cases :
    (item_size : SubscriptionItem → Option ℕ) (ticket : PollTicket) (pending : Pending)
    (deadline now : ℕ) (s : Inner)
    → Accepts s ticket pending (commit_poll item_size ticket pending deadline now s).1
unfolding commit_poll
commit_poll_cases item_size ticket pending deadline now s = elim (Bool-cases pending.failed) [
  | inl e ↦ simp e tt
  | inr e ↦ elim (Bool-cases s.stopped) [
    | inl f ↦ simp (e, f) tt
    | inr f ↦ elim (Option-cases (get s.sessions ticket.session_id)) [
      | inl g ↦ simp (e, f, g) tt
      | inr (session, g) ↦ elim (Bool-cases (any (is_stale session) ticket.topics)) [
        | inl stale ↦ simp (e, f, g, stale) tt
        | inr fresh ↦
            Accepts-any s ticket pending session _ e f g
              (none_stale-IsCurrent session ticket.topics fresh)
      ]
    ]
  ]
]

-- What holds of a ticket's topics holds of those that are asked for.
demands-All :
    (P : Demand → Type 0) (m : Map TopicRef Topic) (key : TopicRef) (t : Topic)
    → get m key ≡ some t
    → t.demanded ≡ true
    → All P (demands m)
    → P (record { key = key; generation = t.state.generation; epoch = t.epoch })
unfolding demands get
demands-All P [] key t found asked all = cc found
demands-All P ((k, u) ∷ m) key t found asked all = elim (Bool-cases (k == key)) [
  | inl e ↦
      let here : some u ≡ some t = rw (e, get) at found in
      let same : u ≡ t = cc here in
      let named : k ≡ key = (topic_ref_eq.beq_iff k key).0 e in
      let wanted : u.demanded ≡ true = rw same asked in
      let kept : All P
          (record { key = k; generation = u.state.generation; epoch = u.epoch } ∷ demands m) =
        rw wanted at all in
      subst (λ w. P (record { key = key; generation = w.state.generation; epoch = w.epoch })) same
        (subst (λ j. P (record { key = j; generation = u.state.generation; epoch = u.epoch })) named
          kept.0)
  | inr e ↦
      let later : get m key ≡ some t = rw (e, get) at found in
      elim (Bool-cases u.demanded) [
        | inl f ↦
            let kept : All P
                (record { key = k; generation = u.state.generation; epoch = u.epoch } ∷ demands m) =
              rw f at all in
            demands-All P m key t later asked kept.1
        | inr f ↦
            let kept : All P (demands m) = rw f at all in demands-All P m key t later asked kept
      ]
]

current-ticket :
    (s : Inner) (id : String) (session : Session) (ticket : PollTicket)
    → get s.sessions id ≡ some session
    → current s id ≡ some ticket
    → ticket ≡ record { session_id = id; topics = demands session.topics }
unfolding current
current-ticket s id session ticket g e = elim (Bool-cases s.stopped) [
  | inl f ↦ let r : none ≡ some ticket = rw (f, current) at e in cc r
  | inr f ↦
      let r : some (record { session_id = id; topics = demands session.topics }) ≡ some ticket =
        rw (f, g, current) at e in
      cc r
]

-- The topic is still asked for in its session, with the generation and the epoch that it had.
abbrev pub IsAsBefore : Inner → String → TopicRef → Topic → Type 0
IsAsBefore s id key before =
    (session : Session) × (get s.sessions id ≡ some session)
    × IsCurrent session.topics
        (record { key = key; generation = before.state.generation; epoch = before.epoch })

-- Where `commit_poll` answers true to a ticket that was taken at an earlier state, nothing that the
-- provider published was refused, the service runs, and the session is attached and has each topic
-- of the ticket as the ticket names it; and so every topic that was asked for at the earlier state is
-- still asked for, of the generation and the epoch that it had then.
pub accepted-IsFresh :
    (item_size : SubscriptionItem → Option ℕ) (id : String) (ticket : PollTicket)
    (pending : Pending) (deadline now : ℕ) (earlier s : Inner) (session : Session) (key : TopicRef)
    (before : Topic)
    → get earlier.sessions id ≡ some session
    → get session.topics key ≡ some before
    → before.demanded ≡ true
    → current earlier id ≡ some ticket
    → (commit_poll item_size ticket pending deadline now s).1 ≡ ok true
    → Accepts s ticket pending (ok true) × IsAsBefore s id key before
accepted-IsFresh item_size id ticket pending deadline now earlier s session key before at_earlier
      found asked taken e =
    let accepts : Accepts s ticket pending (ok true) =
      rw e at (commit_poll_cases item_size ticket pending deadline now s) in
    let same = current-ticket earlier id session ticket at_earlier taken in
    let (unfailed, runs, attached, attached_at, fresh) = accepts in
    (
      accepts,
      (
        attached,
        subst (λ k. get s.sessions k.session_id ≡ some attached) same attached_at,
        demands-All (IsCurrent attached.topics) session.topics key before found asked
            (subst (λ k. All (IsCurrent attached.topics) k.topics) same fresh),
      ),
    )
