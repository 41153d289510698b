-- ===== src/Attachment/Failure.antt =====
-- crates/wf-observer-cli/src/provider_host/session.rs: what an error of a poll leaves.
use mathlib.Core.Path.{subst}
use wf_observer.Common.{
  ℕ, ◌≡◌, refl, String, Option, none, some, Fallible, ◌⊎◌, inl, inr, Option-cases, Bool-cases, ◌&&◌,
  not,
}
use wf_observer.Common.Attempt.{Attempt, yields, fails}
use wf_observer.Wire.{SubscriptionItem}
use wf_observer.Provider.{ProviderManifest}
use wf_observer.Service.Batch.{Pending}
use wf_observer.Service.Inner.{Inner}
use wf_observer.Service.Ticket.{PollTicket, current}
use wf_observer.Service.Discard.{fail_poll}
use wf_observer.Attachment.Session.{
  Others, Readings, PollResult, ProviderSession, HostedSession, max, is_new, is_due, begin, checked,
  delay_from, poll_demand, poll,
}

module _ {P M Error Value : Type 0} (session : ProviderSession P M) (verify : M → M × Option Error)
    (manifest : ProviderManifest) (operation_size : ℕ) (to_text : Value → Option String)
    (item_size : SubscriptionItem → Option ℕ) (later : ℕ → ℕ → Option ℕ) (others : Others)
    (t : Readings) where
  -- An error is one of the memory's verification, and the ticket's poll failed.
  abbrev pub Fails :
      PollTicket → Inner → (HostedSession P M × Inner) × Attempt Error (Option ℕ) → Type 0
  Fails ticket s (left, yields delay) = Unit
  Fails ticket s ((h, s'), fails error) =
      (m : M) × ((verify m).1 ≡ some error)
      × ((s' ≡ fail_poll item_size ticket t.unverified (others.before s))
          ⊎ (s' ≡ fail_poll item_size ticket t.discarded (others.meanwhile s)))

  checked-Fails :
      (h : HostedSession P M) (ticket : PollTicket) (end : ℕ) (s : Inner)
      (polled : (P × M × Pending) × Fallible PollResult)
      → Fails ticket s (
          checked session verify manifest operation_size to_text item_size later others t h ticket
            end s polled)
  unfolding checked
  checked-Fails h ticket end s ((provider, memory, pending), result) =
      elim (Option-cases (verify memory).1) [
        | inr (error, e) ↦ rw (e, checked) (memory, e, inr refl)
        | inl e ↦ rw (e, checked) tt
      ]

  poll_demand-Fails :
      (h : HostedSession P M) (ticket : PollTicket) (now end : ℕ) (s : Inner)
      → Fails ticket s (
          poll_demand session verify manifest operation_size to_text item_size later others t h
            ticket now end s)
  unfolding poll_demand
  poll_demand-Fails h ticket now end s = elim (Option-cases (verify h.memory).1) [
    | inr (error, e) ↦ rw (e, poll_demand) (h.memory, e, inl refl)
    | inl e ↦
        rw (e, poll_demand)
          (checked-Fails
            (begin session verify manifest operation_size to_text item_size later others t h ticket
              (verify h.memory).0)
            ticket end s _)
  ]

  Fails-error :
      (ticket : PollTicket) (s s' : Inner) (h' : HostedSession P M) (error : Error)
      (result : (HostedSession P M × Inner) × Attempt Error (Option ℕ))
      → Fails ticket s result
      → result ≡ ((h', s'), fails error)
      → Fails ticket s ((h', s'), fails error)
  Fails-error ticket s s' h' error result f e = subst (Fails ticket s) e f

  -- An error of a poll is one that the memory's verification gave, and the state of the service is
  -- then that in which the session's poll failed, by its ticket: from what other threads
  -- made of the state by then.
  pub poll_fails :
      (h h' : HostedSession P M) (id : String) (now : ℕ) (s s' : Inner) (error : Error)
      → poll session verify manifest operation_size to_text item_size later others t h id now s
        ≡ ((h', s'), fails error)
      → (ticket : PollTicket) × (current s id ≡ some ticket)
        × (m : M) × ((verify m).1 ≡ some error)
        × ((s' ≡ fail_poll item_size ticket t.unverified (others.before s))
            ⊎ (s' ≡ fail_poll item_size ticket t.discarded (others.meanwhile s)))
  unfolding poll
  poll_fails h h' id now s s' error e = elim (Option-cases (current s id)) [
    | inl f ↦ let r : ((h, s), yields none) ≡ ((h', s'), fails error) = rw (f, poll) at e in cc r
    | inr (ticket, f) ↦
        elim (Bool-cases (not (is_new h.last_demand ticket) && not (is_due h.next_poll now))) [
          | inl g ↦
              let r : ((h, s), yields (delay_from h.next_poll now)) ≡ ((h', s'), fails error) =
                rw (f, poll, g) at e in
              cc r
          | inr g ↦
              let (m, bad, left) =
                Fails-error ticket s s' h' error _
                  (poll_demand-Fails h ticket now (max t.polled now) s) (rw (f, poll, g) at e) in
              (ticket, f, m, bad, left)
        ]
  ]
