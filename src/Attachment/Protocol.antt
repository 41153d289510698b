-- ===== src/Attachment/Protocol.antt =====
-- crates/wf-observer-cli/src/provider_host/session.rs: the calls that a provider sees.
use wf_observer.Common.{
  ℕ, String, Bool, true, false, Option, none, some, List, [], ◌∷◌, fold, Fallible, done, failed,
  inl, inr, Option-cases, Bool-cases, ◌&&◌, not,
}
use wf_observer.Wire.{SubscriptionItem, TopicRef, Result, ok, err}
use wf_observer.Provider.{ProviderManifest, CapabilityDescriptor}
use wf_observer.Service.Batch.{Pending, new}
use wf_observer.Service.Inner.{Inner}
use wf_observer.Service.Ticket.{PollTicket, current}
use wf_observer.Service.Commit.{commit_poll}
use wf_observer.Attachment.Session.{
  Others, Readings, PollResult, ProviderSession, HostedSession, max, is_new, is_due, demand_of,
  begins, begin_all, begin, with_build, acquire, discarded, answered, scheduled, conclude, checked,
  poll_demand, poll,
}

-- A provider at rest, between its polls, and one that waits to hear whether its poll was kept.
pub record Protocol (P M : Type 0) (session : ProviderSession P M) (Rests Waits : P → Type 0)
    : Type 0 where
  pub begins :
      (cap : CapabilityDescriptor) (p : P) → Rests p → Rests (session.begin_generation cap p)
  pub polls :
      (demand : List CapabilityDescriptor) (now : ℕ) (p : P) (m : M) (pending : Pending)
      → Rests p
      → Waits (session.poll demand now p m pending).0.0
  pub completes : (kept : Bool) (p : P) → Waits p → Rests (session.poll_completed kept p)

module _ {P M Error Value : Type 0} (session : ProviderSession P M) (verify : M → M × Option Error)
    (manifest : ProviderManifest) (operation_size : ℕ) (to_text : Value → Option String)
    (item_size : SubscriptionItem → Option ℕ) (later : ℕ → ℕ → Option ℕ) (others : Others)
    (t : Readings) where
  module _ (Rests Waits : P → Type 0) (protocol : Protocol P M session Rests Waits) where
    begin_all-Rests :
        (previous : Option PollTicket) (ticket : PollTicket) (demand : List CapabilityDescriptor)
        (p : P)
        → Rests p
        → Rests (
            begin_all session verify manifest operation_size to_text item_size later others t
              previous ticket demand p)
    unfolding begin_all fold
    begin_all-Rests previous ticket [] p rests = rests
    begin_all-Rests previous ticket (cap ∷ demand) p rests =
        elim (Bool-cases (begins previous ticket cap)) [
          | inl e ↦ rw e (
              begin_all-Rests previous ticket demand (session.begin_generation cap p)
                (protocol.begins cap p rests))
          | inr e ↦ rw e (begin_all-Rests previous ticket demand p rests)
        ]

    with_build-Waits :
        (polled : (P × M × Pending) × Fallible PollResult)
        → Waits polled.0.0
        → Waits
            (with_build session verify manifest operation_size to_text item_size later others t
              polled).0.0
    unfolding with_build
    with_build-Waits ((p, m, pending), failed message) waits = waits
    with_build-Waits ((p, m, pending), done schedule) waits = waits

    answered-Rests :
        (h : HostedSession P M) (ticket : PollTicket) (resets : List TopicRef) (end : ℕ)
        (answer : Inner × Result Bool)
        → Waits h.provider
        → Rests
            (answered session verify manifest operation_size to_text item_size later others t h
              ticket resets end answer).0.provider
    unfolding answered discarded
    answered-Rests h ticket resets end (s, ok true) waits = protocol.completes true h.provider waits
    answered-Rests h ticket resets end (s, ok false) waits =
        protocol.completes false h.provider waits
    answered-Rests h ticket resets end (s, err e) waits = protocol.completes false h.provider waits

    conclude-Rests :
        (h : HostedSession P M) (ticket : PollTicket) (pending : Pending) (end : ℕ) (s : Inner)
        (schedule : Option (Option ℕ × ℕ))
        → Waits h.provider
        → Rests
            (conclude session verify manifest operation_size to_text item_size later others t h
              ticket pending end s schedule).0.provider
    unfolding conclude discarded
    conclude-Rests h ticket pending end s none waits = protocol.completes false h.provider waits
    conclude-Rests h ticket pending end s (some (next, deadline)) waits =
        answered-Rests (record h { next_poll = next }) ticket pending.resets end
          (commit_poll item_size ticket pending deadline t.committed s) waits

    checked-Rests :
        (h : HostedSession P M) (ticket : PollTicket) (end : ℕ) (s : Inner)
        (polled : (P × M × Pending) × Fallible PollResult)
        → Waits polled.0.0
        → Rests
            (checked session verify manifest operation_size to_text item_size later others t h
              ticket end s polled).0.0.provider
    unfolding checked
    checked-Rests h ticket end s ((provider, memory, pending), result) waits =
        elim (Option-cases (verify memory).1) [
          | inr (error, e) ↦ rw (e, checked) (protocol.completes false provider waits)
          | inl e ↦
              rw (e, checked)
                (conclude-Rests
                  (record h {
                    memory = (verify memory).0;
                    provider = provider;
                    last_demand = some ticket;
                  })
                  ticket pending end (others.meanwhile s) (scheduled later result end) waits)
        ]

    poll_demand-Rests :
        (h : HostedSession P M) (ticket : PollTicket) (now end : ℕ) (s : Inner)
        → Rests h.provider
        → Rests
            (poll_demand session verify manifest operation_size to_text item_size later others t h
              ticket now end s).0.0.provider
    unfolding poll_demand begin acquire
    poll_demand-Rests h ticket now end s rests = elim (Option-cases (verify h.memory).1) [
      | inr (error, e) ↦ rw (e, poll_demand) rests
      | inl e ↦
          rw (e, poll_demand)
            (checked-Rests
              (begin session verify manifest operation_size to_text item_size later others t h
                ticket (verify h.memory).0)
              ticket end s _
              (with_build-Waits _ (
                protocol.polls (demand_of manifest ticket) _ _ _ new (
                  begin_all-Rests h.generations ticket (demand_of manifest ticket) h.provider
                    rests))))
    ]

    -- For any two predicates of a provider, being at rest and waiting for an answer, where a new
    -- generation keeps it at rest, a poll makes it wait and hearing whether the poll was kept puts
    -- it to rest: a provider at rest before the host's poll is at rest after it, whatever fails.
    pub poll-Rests :
        (h : HostedSession P M) (id : String) (now : ℕ) (s : Inner)
        → Rests h.provider
        → Rests
            (poll session verify manifest operation_size to_text item_size later others t h id now
              s).0.0.provider
    unfolding poll
    poll-Rests h id now s rests = elim (Option-cases (current s id)) [
      | inl e ↦ rw (e, poll) rests
      | inr (ticket, e) ↦
          elim (Bool-cases (not (is_new h.last_demand ticket) && not (is_due h.next_poll now))) [
            | inl f ↦ rw (e, poll, f) rests
            | inr f ↦ rw (e, poll, f) (poll_demand-Rests h ticket now (max t.polled now) s rests)
          ]
    ]
