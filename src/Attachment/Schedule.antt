-- ===== src/Attachment/Schedule.antt =====
-- crates/wf-observer-cli/src/provider_host/session.rs: the schedule of a poll and the
-- delays that it gives.
use wf_observer.Common.{
  ℕ, ◌+◌, ◌≤◌, ◌≡◌, refl, true, false, Option, none, some, arith, Fallible, done, failed, inl, inr,
  Option-cases,
}
use wf_observer.Service.Settle.{poll_grace}
use wf_observer.Attachment.Session.{
  PollResult, min_poll, max, is_due, delay_from, deadlines, freshness, scheduled,
}

-- No sooner than the minimum after an instant.
abbrev pub IsAhead : ℕ → Option ℕ → Type 0
IsAhead end none = Unit
IsAhead end (some next) = end + min_poll ≤ next

-- A delay is at least so long, and the next poll is due when it is over.
abbrev pub Promises : ℕ → ℕ → Option ℕ → Option ℕ → Type 0
Promises least instant next none = Unit
Promises least instant next (some delay) =
    (deadline : ℕ) × (next ≡ some deadline) × (deadline ≤ instant + delay) × (least ≤ delay)

pub delay_from-Promises :
    (next : Option ℕ) (end : ℕ)
    → IsAhead end next
    → Promises min_poll end next (delay_from next end)
unfolding delay_from
delay_from-Promises none end ahead = tt
delay_from-Promises (some next) end ahead = (next, refl, omega arith, omega (arith, ahead))

-- Before the deadline, the rest of the time is waited.
pub delay_from_early :
    (next : Option ℕ) (now instant : ℕ)
    → is_due next now ≡ false
    → now ≤ instant
    → Promises 1 instant next (delay_from next now)
unfolding is_due delay_from
delay_from_early none now instant early le = cc early
delay_from_early (some next) now instant early le =
    (next, refl, omega (arith, le), ground (arith, early))

pub Promises-weaken :
    (instant : ℕ) (next delay : Option ℕ)
    → Promises min_poll instant next delay
    → Promises 1 instant next delay
Promises-weaken instant next none promise = tt
Promises-weaken instant next (some delay) (deadline, e, le, least) =
    (deadline, e, le, omega (arith, least))

-- Once the promised delay is over, the next poll is due.
pub Promises-is_due :
    (next : Option ℕ) (instant delay now : ℕ)
    → Promises 1 instant next (some delay)
    → instant + delay ≤ now
    → is_due next now ≡ true
unfolding is_due
Promises-is_due none instant delay now (deadline, e, le, least) over = cc e
Promises-is_due (some next) instant delay now (deadline, e, le, least) over =
    let same : next ≡ deadline = cc e in ground (arith, same, le, over)

-- What the host relies on of `Instant::checked_add`.
abbrev pub Adds : (ℕ → ℕ → Option ℕ) → Type 0
Adds later = (a b c : ℕ) → later a b ≡ some c → c ≡ a + b

-- The schedule of a poll, where there is one, is ahead.
abbrev pub Schedules : ℕ → Option (Option ℕ × ℕ) → Type 0
Schedules end none = Unit
Schedules end (some (next, deadline)) = IsAhead end next

module _ (later : ℕ → ℕ → Option ℕ) where
  freshness-Schedules :
      (next : Option ℕ) (instant end : ℕ)
      → IsAhead end next
      → Schedules end (freshness later next instant)
  unfolding freshness
  freshness-Schedules next instant end ahead = elim (Option-cases (later instant poll_grace)) [
    | inl e ↦ rw (e, freshness) tt
    | inr (deadline, e) ↦ rw (e, freshness) ahead
  ]

  deadlines-Schedules :
      (schedule : PollResult) (end : ℕ) → Adds later → Schedules end (deadlines later schedule end)
  unfolding deadlines
  deadlines-Schedules PollResult.idle end adds = freshness-Schedules none end end tt
  deadlines-Schedules (PollResult.after delay) end adds =
      elim (Option-cases (later end (max delay min_poll))) [
        | inl e ↦ rw (e, deadlines) tt
        | inr (next, e) ↦
            rw (e, deadlines)
              (freshness-Schedules (some next) next end
                (ground (arith, adds end (max delay min_poll) next e)))
      ]

  pub scheduled-Schedules :
      (result : Fallible PollResult) (end : ℕ)
      → Adds later
      → Schedules end (scheduled later result end)
  unfolding scheduled
  scheduled-Schedules (failed message) end adds = tt
  scheduled-Schedules (done schedule) end adds = deadlines-Schedules schedule end adds
