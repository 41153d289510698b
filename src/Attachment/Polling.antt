-- ===== src/Attachment/Polling.antt =====
-- crates/wf-observer-cli/src/provider_host/session.rs: the delays that the host asks
-- for, and when it polls again.
use mathlib.Core.Path.{subst, sym}
use wf_observer.Common.{
  ◌-◌, ◌<◌, ◌⊎◌, ℕ, ◌+◌, ◌≤◌, ◌≡◌, refl, String, Bool, true, false, Option, none, some, List, arith,
  Fallible, inl, inr, Option-cases, Bool-cases,
}
use wf_observer.Common.Attempt.{Attempt, yields, fails, Ensures, Ensures-map, Ensures-value}
use wf_observer.Wire.{SubscriptionItem, TopicRef, Result, ok, err}
use wf_observer.Provider.{ProviderManifest}
use wf_observer.Service.Batch.{Pending, new}
use wf_observer.Service.Inner.{Inner}
use wf_observer.Service.Ticket.{PollTicket, current}
use wf_observer.Service.Commit.{commit_poll}
use wf_observer.Attachment.Session.{
  with_build, acquire, demand_of, Others, Readings, PollResult, ProviderSession, HostedSession,
  min_poll, max, is_new, is_due, begin, discarded, answered, scheduled, conclude, checked,
  poll_demand, poll,
}
use wf_observer.Attachment.Schedule.{
  IsAhead, Promises, delay_from-Promises, delay_from_early, Promises-weaken, Promises-is_due, Adds,
  Schedules, scheduled-Schedules,
}

module _ {P M Error Value : Type 0} (session : ProviderSession P M) (verify : M → M × Option Error)
    (manifest : ProviderManifest) (operation_size : ℕ) (to_text : Value → Option String)
    (item_size : SubscriptionItem → Option ℕ) (later : ℕ → ℕ → Option ℕ) (others : Others)
    (t : Readings) where
  answered-IsAhead :
      (h : HostedSession P M) (ticket : PollTicket) (resets : List TopicRef) (end : ℕ)
      (answer : Inner × Result Bool)
      → IsAhead end h.next_poll
      → IsAhead end
          (answered session verify manifest operation_size to_text item_size later others t h ticket
            resets end answer).0.next_poll
  unfolding answered discarded
  answered-IsAhead h ticket resets end (s, ok true) ahead = ahead
  answered-IsAhead h ticket resets end (s, ok false) ahead = omega arith
  answered-IsAhead h ticket resets end (s, err e) ahead = omega arith

  conclude-IsAhead :
      (h : HostedSession P M) (ticket : PollTicket) (pending : Pending) (end : ℕ) (s : Inner)
      (schedule : Option (Option ℕ × ℕ))
      → Schedules end schedule
      → IsAhead end
          (conclude session verify manifest operation_size to_text item_size later others t h ticket
            pending end s schedule).0.next_poll
  unfolding conclude discarded
  conclude-IsAhead h ticket pending end s none ahead = omega arith
  conclude-IsAhead h ticket pending end s (some (next, deadline)) ahead =
      answered-IsAhead (record h { next_poll = next }) ticket pending.resets end
        (commit_poll item_size ticket pending deadline t.committed s) ahead

  -- A result's delay is at least so long, and the next poll is due when it is over.
  abbrev pub Keeps : ℕ → ℕ → (HostedSession P M × Inner) × Attempt Error (Option ℕ) → Type 0
  Keeps least instant ((h, s), outcome) = Ensures (Promises least instant h.next_poll) outcome

  checked-Keeps :
      (h : HostedSession P M) (ticket : PollTicket) (end : ℕ) (s : Inner)
      (polled : (P × M × Pending) × Fallible PollResult)
      → Adds later
      → Keeps min_poll end (
          checked session verify manifest operation_size to_text item_size later others t h ticket
            end s polled)
  unfolding checked
  checked-Keeps h ticket end s ((provider, memory, pending), result) adds =
      elim (Option-cases (verify memory).1) [
        | inr (error, e) ↦ rw (e, checked) tt
        | inl e ↦
            rw (e, checked)
              (delay_from-Promises _ end (
                conclude-IsAhead
                  (record h {
                    memory = (verify memory).0;
                    provider = provider;
                    last_demand = some ticket;
                  })
                  ticket pending end (others.meanwhile s) (scheduled later result end)
                  (scheduled-Schedules later result end adds)))
      ]

  poll_demand-Keeps :
      (h : HostedSession P M) (ticket : PollTicket) (now end : ℕ) (s : Inner)
      → Adds later
      → Keeps min_poll end (
          poll_demand session verify manifest operation_size to_text item_size later others t h
            ticket now end s)
  unfolding poll_demand
  poll_demand-Keeps h ticket now end s adds = elim (Option-cases (verify h.memory).1) [
    | inr (error, e) ↦ rw (e, poll_demand) tt
    | inl e ↦
        rw (e, poll_demand)
          (checked-Keeps
            (begin session verify manifest operation_size to_text item_size later others t h ticket
              (verify h.memory).0)
            ticket end s _ adds)
  ]

  poll_demand-Keeps_one :
      (h : HostedSession P M) (ticket : PollTicket) (now end : ℕ) (s : Inner)
      → Adds later
      → Keeps 1 end (
          poll_demand session verify manifest operation_size to_text item_size later others t h
            ticket now end s)
  poll_demand-Keeps_one h ticket now end s adds =
      Ensures-map _ _ _ (λ d. Promises-weaken end _ d) (poll_demand-Keeps h ticket now end s adds)

  poll-Keeps :
      (h : HostedSession P M) (session_id : String) (now : ℕ) (s : Inner)
      → Adds later
      → Keeps 1 (max t.polled now) (
          poll session verify manifest operation_size to_text item_size later others t h session_id
            now s)
  unfolding poll
  poll-Keeps h session_id now s adds = elim (Option-cases (current s session_id)) [
    | inl e ↦ rw (e, poll) tt
    | inr (ticket, e) ↦ elim (Bool-cases (is_new h.last_demand ticket)) [
      | inl f ↦ rw (e, poll, f) (poll_demand-Keeps_one h ticket now (max t.polled now) s adds)
      | inr f ↦ elim (Bool-cases (is_due h.next_poll now)) [
        | inl g ↦ rw (e, poll, f, g) (poll_demand-Keeps_one h ticket now (max t.polled now) s adds)
        | inr g ↦
            rw (e, poll, f, g)
              (delay_from_early h.next_poll now (max t.polled now) g (ground arith))
      ]
    ]
  ]

  is_due-poll :
      (h : HostedSession P M) (id : String) (now : ℕ) (s : Inner) (ticket : PollTicket)
      → is_due h.next_poll now ≡ true
      → current s id ≡ some ticket
      → poll session verify manifest operation_size to_text item_size later others t h id now s
        ≡ poll_demand session verify manifest operation_size to_text item_size later others t h
            ticket now
            (max t.polled now)
            s
  unfolding poll
  is_due-poll h id now s ticket due found = elim (Bool-cases (is_new h.last_demand ticket)) [
    | inl f ↦ rw (found, poll, f) refl
    | inr f ↦ rw (found, poll, f, due) refl
  ]

  -- A poll with a demand verifies the memory and, unless that fails, is what comes of the provider's
  -- own poll.
  abbrev pub Calls :
      HostedSession P M
      → PollTicket
      → ℕ
      → Inner
      → (HostedSession P M × Inner) × Attempt Error (Option ℕ)
      → Type 0
  Calls h ticket now s polled =
      let begun =
        begin session verify manifest operation_size to_text item_size later others t h ticket
          (verify h.memory).0 in
      ((error : Error) × ((verify h.memory).1 ≡ some error) × (polled.1 ≡ fails error))
      ⊎ (((verify h.memory).1 ≡ none)
          × (polled
              ≡ checked session verify manifest operation_size to_text item_size later others t
                  begun ticket (max t.polled now) s
                  (with_build session verify manifest operation_size to_text item_size later others
                    t
                    (session.poll (demand_of manifest ticket) (now - begun.started) begun.provider
                      begun.memory new))))

  poll_demand-Calls :
      (h : HostedSession P M) (ticket : PollTicket) (now : ℕ) (s : Inner)
      → Calls h ticket now s (
          poll_demand session verify manifest operation_size to_text item_size later others t h
            ticket now
            (max t.polled now)
            s)
  unfolding poll_demand acquire
  poll_demand-Calls h ticket now s = elim (Option-cases (verify h.memory).1) [
    | inr (error, e) ↦ inl (error, e, rw (e, poll_demand) refl)
    | inl e ↦ inr (e, rw (e, poll_demand) refl)
  ]

module _ {P M Error Value : Type 0} (session : ProviderSession P M) (verify : M → M × Option Error)
    (manifest : ProviderManifest) (operation_size : ℕ) (to_text : Value → Option String)
    (item_size : SubscriptionItem → Option ℕ) (later : ℕ → ℕ → Option ℕ) where
  -- A host that asks to be polled again after a delay asks for a positive one, and once the delay is
  -- over, after the poll's end, a poll with the demand of a session verifies the memory and, unless
  -- that fails, is what comes of the provider's own poll; where `later` adds.
  pub poll_wakes :
      (others others' : Others) (t t' : Readings) (h : HostedSession P M) (id id' : String)
      (now now' delay : ℕ) (s s' : Inner) (ticket : PollTicket)
      → Adds later
      → let ((h', _), outcome) =
          poll session verify manifest operation_size to_text item_size later others t h id now s in
        outcome ≡ yields (some delay)
        → max t.polled now + delay ≤ now'
        → current s' id' ≡ some ticket
        → (0 < delay)
          × Calls session verify manifest operation_size to_text item_size later others' t' h'
              ticket now' s'
              (poll session verify manifest operation_size to_text item_size later others' t' h' id'
                now' s')
  poll_wakes others others' t t' h id id' now now' delay s s' ticket adds e le found =
      let h' =
        (poll session verify manifest operation_size to_text item_size later others t h id now
          s).0.0 in
      let promise =
        Ensures-value (Promises 1 (max t.polled now) _) _ (some delay)
          (poll-Keeps session verify manifest operation_size to_text item_size later others t h id
            now s adds)
          e in
      let same =
        is_due-poll session verify manifest operation_size to_text item_size later others' t' h' id'
          now' s' ticket (Promises-is_due _ (max t.polled now) delay now' promise le) found in
      (
        omega (arith, promise.3),
        subst
            (Calls session verify manifest operation_size to_text item_size later others' t' h'
              ticket now' s')
            (sym same)
            (poll_demand-Calls session verify manifest operation_size to_text item_size later
              others' t' h' ticket now' s'),
      )
