-- ===== src/Attachment/Session.antt =====
-- crates/wf-observer-cli/src/provider_host/session.rs: an attached provider and when it is polled.
-- The provider and the memory are parameters, with what other threads do to the service's state
-- while a poll goes on. Instants are in nanoseconds, and `later` stands for `checked_add`.
use wf_observer.Common.{
  ℕ, ◌+◌, ◌-◌, String, Bool, true, false, not, ◌&&◌, Option, none, some, List, filter, any, find,
  fold, ltb, if◌then◌else◌, ◌==◌, string_eq, nat_eq, Fallible, done, failed, and_then,
}
use wf_observer.Common.Attempt.{Attempt, yields, fails}
use wf_observer.Wire.{TopicRef, SubscriptionItem, Result, ok, err}
use wf_observer.Provider.{ProviderManifest, CapabilityDescriptor}
use wf_observer.Service.Batch
use wf_observer.Service.Batch.{Pending}
use wf_observer.Service.Inner.{Inner}
use wf_observer.Service.Settle.{poll_grace}
use wf_observer.Service.Ticket.{
  PollTicket, Demand, current, same_demand, same_generation, rebase_resets,
}
use wf_observer.Service.Commit.{commit_poll}
use wf_observer.Service.Discard.{discard_poll, fail_poll}

pub data PollResult : Type 0 where
  after : ℕ → PollResult
  idle : PollResult

-- The calls of a `ProviderSession` with state `P`, for a process whose memory is `M`; a poll writes
-- to the batch through its sinks.
pub record ProviderSession (P M : Type 0) : Type 0 where
  pub begin_generation : CapabilityDescriptor → P → P
  pub poll :
      List CapabilityDescriptor → ℕ → P → M → Pending → (P × M × Pending) × Fallible PollResult
  pub game_build : P → Option String
  pub poll_completed : Bool → P → P

pub record HostedSession (P M : Type 0) : Type 0 where
  pub memory : M
  pub provider : P
  pub started : ℕ
  pub last_demand : Option PollTicket
  pub generations : Option PollTicket
  pub next_poll : Option ℕ

abbrev pub min_poll : ℕ
min_poll = 25000000

-- One second, after which a poll that was not kept is tried again.
abbrev pub retry_delay : ℕ
retry_delay = 1000000000

-- What other threads do to the service's state between a poll's uses of it: before the memory is
-- found to be unverified, while the provider is polled, and after its output was not kept.
pub record Others : Type 0 where
  pub before : Inner → Inner
  pub meanwhile : Inner → Inner
  pub afterwards : Inner → Inner

-- The clock's readings of one poll: as the poll fails for want of verified memory, after the
-- provider's part, as its output is committed, and as a poll after that is discarded or fails.
pub record Readings : Type 0 where
  pub unverified : ℕ
  pub polled : ℕ
  pub committed : ℕ
  pub discarded : ℕ

abbrev pub max : ℕ → ℕ → ℕ
max a b = if ltb a b then b else a

unfoldable pub is_new : Option PollTicket → PollTicket → Bool
is_new none ticket = true
is_new (some previous) ticket = not (same_demand ticket previous)

unfoldable pub is_due : Option ℕ → ℕ → Bool
is_due none now = false
is_due (some deadline) now = not (ltb now deadline)

unfoldable pub delay_from : Option ℕ → ℕ → Option ℕ
delay_from none instant = none
delay_from (some deadline) instant = some (deadline - instant)

abbrev pub names : CapabilityDescriptor → Demand → Bool
names cap d = d.key.topic == cap.topic && d.key.schema_version == cap.schema_version

unfoldable pub demand_of : ProviderManifest → PollTicket → List CapabilityDescriptor
demand_of manifest ticket = filter (λ cap. any (names cap) ticket.topics) manifest.capabilities

unfoldable pub begins : Option PollTicket → PollTicket → CapabilityDescriptor → Bool
begins previous ticket cap = elim (find (names cap) ticket.topics) [
  | none ↦ false
  | some d ↦ elim previous [ none ↦ true | some p ↦ not (same_generation ticket p d.key) ]
]

unfoldable pub rebased : Option PollTicket → List TopicRef → Option PollTicket
rebased none resets = none
rebased (some ticket) resets = some (rebase_resets ticket resets)

-- `later` is `Instant::checked_add`.
module _ (later : ℕ → ℕ → Option ℕ) where
  unfoldable pub freshness : Option ℕ → ℕ → Option (Option ℕ × ℕ)
  freshness next instant = elim (later instant poll_grace) [
    | none ↦ none
    | some deadline ↦ some (next, deadline)
  ]

  unfoldable pub deadlines : PollResult → ℕ → Option (Option ℕ × ℕ)
  unfolding freshness
  deadlines (PollResult.after delay) end = elim (later end (max delay min_poll)) [
    | none ↦ none
    | some next ↦ freshness (some next) next
  ]
  deadlines PollResult.idle end = freshness none end

  unfoldable pub scheduled : Fallible PollResult → ℕ → Option (Option ℕ × ℕ)
  unfolding deadlines
  scheduled (failed message) end = none
  scheduled (done schedule) end = deadlines schedule end

module _ {P M Error Value : Type 0} (session : ProviderSession P M) (verify : M → M × Option Error)
    (manifest : ProviderManifest) (operation_size : ℕ) (to_text : Value → Option String)
    (item_size : SubscriptionItem → Option ℕ) (later : ℕ → ℕ → Option ℕ) (others : Others)
    (t : Readings) where
  unfoldable pub begin_all : Option PollTicket → PollTicket → List CapabilityDescriptor → P → P
  unfolding begins
  begin_all previous ticket demand provider =
      fold (λ p cap. if begins previous ticket cap then session.begin_generation cap p else p)
        provider demand

  -- The provider's part of a poll, and the build that it reports.
  unfoldable pub with_build :
      (P × M × Pending) × Fallible PollResult → (P × M × Pending) × Fallible PollResult
  with_build (state, failed message) = (state, failed message)
  with_build ((p, m, pending), done schedule) =
      let (pending', accepted) =
        Batch.game_build operation_size to_text manifest (session.game_build p) pending in
      ((p, m, pending'), and_then accepted (λ _. done schedule))

  unfoldable pub acquire :
      HostedSession P M → List CapabilityDescriptor → ℕ → (P × M × Pending) × Fallible PollResult
  unfolding with_build
  acquire h demand now =
      with_build (session.poll demand (now - h.started) h.provider h.memory Batch.new)

  -- A poll whose data is not kept.
  unfoldable pub discarded :
      HostedSession P M → PollTicket → List TopicRef → Bool → ℕ → Inner → HostedSession P M × Inner
  discarded h ticket resets lost end s =
      let (s', demand) = discard_poll item_size ticket resets lost t.discarded s in
      (
        record h {
          provider = session.poll_completed false h.provider;
          last_demand = demand;
          next_poll = some (end + retry_delay);
        },
        s',
      )

  unfoldable pub answered :
      HostedSession P M
      → PollTicket
      → List TopicRef
      → ℕ
      → Inner × Result Bool
      → HostedSession P M × Inner
  unfolding discarded rebased
  answered h ticket resets end (s, ok true) = (
    record h {
      provider = session.poll_completed true h.provider;
      last_demand = rebased h.last_demand resets;
      generations = rebased h.generations resets;
    },
    s,
  )
  answered h ticket resets end (s, ok false) =
      discarded h ticket resets false end (others.afterwards s)
  answered h ticket resets end (s, err _) = discarded h ticket resets true end (others.afterwards s)

  -- The poll's end, once the memory is verified again.
  unfoldable pub conclude :
      HostedSession P M
      → PollTicket
      → Pending
      → ℕ
      → Inner
      → Option (Option ℕ × ℕ)
      → HostedSession P M × Inner
  unfolding answered
  conclude h ticket pending end s none = discarded h ticket pending.resets true end s
  conclude h ticket pending end s (some (next, deadline)) =
      answered (record h { next_poll = next }) ticket pending.resets end
        (commit_poll item_size ticket pending deadline t.committed s)

  -- What comes after the provider's part; `end` is the clock then, or `now` if it is later.
  unfoldable pub checked :
      HostedSession P M
      → PollTicket
      → ℕ
      → Inner
      → (P × M × Pending) × Fallible PollResult
      → (HostedSession P M × Inner) × Attempt Error (Option ℕ)
  unfolding conclude scheduled delay_from
  checked h ticket end s ((provider, memory, pending), result) =
      let (memory', outcome) = verify memory in
      elim outcome [
        | some error ↦ (
          (
            record h { memory = memory'; provider = session.poll_completed false provider },
            fail_poll item_size ticket t.discarded (others.meanwhile s),
          ),
          fails error,
        )
        | none ↦
            let concluded =
              conclude
                (record h { memory = memory'; provider = provider; last_demand = some ticket })
                ticket pending end (others.meanwhile s) (scheduled later result end) in
            (concluded, yields (delay_from concluded.0.next_poll end))
      ]

  -- The host as the provider's part begins.
  unfoldable pub begin : HostedSession P M → PollTicket → M → HostedSession P M
  unfolding begin_all demand_of
  begin h ticket memory = record h {
    memory = memory;
    provider = begin_all h.generations ticket (demand_of manifest ticket) h.provider;
    generations = some ticket;
  }

  unfoldable pub poll_demand :
      HostedSession P M
      → PollTicket
      → ℕ
      → ℕ
      → Inner
      → (HostedSession P M × Inner) × Attempt Error (Option ℕ)
  unfolding checked begin demand_of acquire
  poll_demand h ticket now end s =
      let (memory', outcome) = verify h.memory in
      elim outcome [
        | some error ↦ (
          (
            record h { memory = memory' },
            fail_poll item_size ticket t.unverified (others.before s),
          ),
          fails error,
        )
        | none ↦
            let begun = begin h ticket memory' in
            checked begun ticket end s (acquire begun (demand_of manifest ticket) now)
      ]

  -- HostedSession::poll
  unfoldable pub poll :
      HostedSession P M
      → String
      → ℕ
      → Inner
      → (HostedSession P M × Inner) × Attempt Error (Option ℕ)
  unfolding poll_demand is_new is_due
  poll h session_id now s = elim (current s session_id) [
    | none ↦ ((h, s), yields none)
    | some ticket ↦
        if not (is_new h.last_demand ticket) && not (is_due h.next_poll now)
        then ((h, s), yields (delay_from h.next_poll now))
        else poll_demand h ticket now (max t.polled now) s
  ]
