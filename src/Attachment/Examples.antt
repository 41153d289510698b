-- ===== src/Attachment/Examples.antt =====
-- crates/wf-observer-cli/src/provider_host/session.rs: a host of a provider that counts its polls, on
-- which the theorems are applied.
use wf_observer.Common.{
  ℕ, ◌+◌, ◌<◌, ◌≡◌, refl, ap, Bool, true, false, String, Option, none, some, [], ◌∷◌, done, ◌⊎◌,
  arith,
}
use wf_observer.Common.Attempt.{yields, fails}
use wf_observer.Wire.{TopicRef, CapabilityHealth}
use wf_observer.Service.Inner.{Inner, Topic}
use wf_observer.Service.Ticket.{PollTicket, current}
use wf_observer.Service.Discard.{fail_poll}
use wf_observer.Service.Examples.{manifest, item_size, watched}
use wf_observer.Service.View.{started}
use wf_observer.Attachment.Session.{
  PollResult, ProviderSession, HostedSession, Others, Readings, poll,
}
use wf_observer.Attachment.Protocol.{Protocol, poll-Rests}
use wf_observer.Attachment.Failure.{poll_fails}
use wf_observer.Attachment.Polling.{Calls, poll_wakes}
use wf_observer.Attachment.Schedule.{Adds}

-- A provider's state: its polls, and whether the last waits for its answer.
abbrev Counter : Type 0
Counter = ℕ × Bool

abbrev session : ProviderSession Counter Bool
session = record {
  begin_generation = λ cap p. p;
  poll = λ demand now p m pending. (((p.0 + 1, true), m, pending), done (PollResult.after 50));
  game_build = λ p. none;
  poll_completed = λ kept p. (p.0, false);
}

-- The memory's content tells whether the process is still there.
abbrev verify : Bool → Bool × Option String
verify true = (true, none)
verify false = (false, some "process exited")

abbrev to_text : String → Option String
to_text text = some text

abbrev later : ℕ → ℕ → Option ℕ
later instant delay = some (instant + delay)

abbrev alone : Others
alone = record { before = λ s. s; meanwhile = λ s. s; afterwards = λ s. s }

abbrev clock : Readings
clock = record { unverified = 11; polled = 12; committed = 13; discarded = 14 }

abbrev host : Bool → HostedSession Counter Bool
host alive = record {
  memory = alive;
  provider = (0, false);
  started = 0;
  last_demand = none;
  generations = none;
  next_poll = none;
}

abbrev AtRest : Counter → Type 0
AtRest p = p.1 ≡ false

abbrev Awaits : Counter → Type 0
Awaits p = p.1 ≡ true

abbrev protocol : Protocol Counter Bool session AtRest Awaits
protocol = record {
  begins = λ cap p r. r;
  polls = λ demand now p m pending r. refl;
  completes = λ kept p w. refl;
}

later-Adds : Adds later
later-Adds a b c e = cc e

abbrev after_poll : (HostedSession Counter Bool) × Inner
after_poll =
    (poll session verify manifest 64 to_text item_size later alone clock (host true) "a" 10
      watched).0

poll-Rests_example : AtRest after_poll.0.provider
poll-Rests_example =
    poll-Rests session verify manifest 64 to_text item_size later alone clock AtRest Awaits protocol
      (host true) "a" 10 watched refl

abbrev chat : TopicRef
chat = record { provider_id = "warframe"; topic = "chat"; schema_version = 1 }

abbrev demanded : PollTicket
demanded = record {
  session_id = "a";
  topics = record { key = chat; generation = 2; epoch = 1 } ∷ [];
}

abbrev watched_topic : Topic
watched_topic = record {
  state = record {
    source = record {
      session = record { run_id = "run"; session_id = "a" };
      game_id = "warframe";
      topic = chat;
    };
    generation = 2;
    health = CapabilityHealth.initializing;
    snapshot = none;
  };
  demanded = true;
  epoch = 1;
  deadline = some 5000000000;
}

abbrev empty_state : Inner
empty_state = started (record { providers = [] }) "run" 1000

-- The state with one session, whose chat is asked for.
abbrev served : Inner
served = record empty_state {
  sessions =
      (
        "a",
        record {
          info = record {
            session = record { run_id = "run"; session_id = "a" };
            provider_id = "warframe";
            game_id = "warframe";
            target = record { pid = 7; executable = "Warframe.x64.exe" };
            game_build = none;
          };
          topics = (chat, watched_topic) ∷ [];
        },
      )
      ∷ [];
}

abbrev waiting : HostedSession Counter Bool
waiting = record {
  memory = true;
  provider = (1, false);
  started = 0;
  last_demand = some demanded;
  generations = some demanded;
  next_poll = some 60;
}

still_demanded : current served "a" ≡ some demanded
unfolding current wf_observer.Common.get
still_demanded = refl

asks :
    poll session verify manifest 64 to_text item_size later alone clock waiting "a" 10 served
    ≡ ((waiting, served), yields (some 50))
unfolding poll current wf_observer.Common.get wf_observer.Service.Ticket.same_demand
    wf_observer.Wire.TopicRef-discrete native.Mathlib.Decide.ℕ_discrete
asks = refl

poll_wakes_example :
    (0 < 50)
    × Calls session verify manifest 64 to_text item_size later alone clock
        (poll session verify manifest 64 to_text item_size later alone clock waiting "a" 10
          served).0.0
        demanded
        62
        served
        (poll session verify manifest 64 to_text item_size later alone clock
          (poll session verify manifest 64 to_text item_size later alone clock waiting "a" 10
            served).0.0
          "a"
          62
          served)
poll_wakes_example =
    poll_wakes session verify manifest 64 to_text item_size later alone alone clock clock waiting
      "a" "a" 10 62 50 served served demanded later-Adds (ap (λ r. r.1) asks) (omega arith)
      still_demanded

verify_fails :
    poll session verify manifest 64 to_text item_size later alone clock (host false) "a" 10 served
    ≡ ((host false, fail_poll item_size demanded 11 served), fails "process exited")
unfolding poll current wf_observer.Common.get
verify_fails = refl

poll_fails_example :
    (ticket : PollTicket) × (current served "a" ≡ some ticket)
    × (m : Bool) × ((verify m).1 ≡ some "process exited")
    × ((fail_poll item_size demanded 11 served ≡ fail_poll item_size ticket 11 served)
        ⊎ (fail_poll item_size demanded 11 served ≡ fail_poll item_size ticket 14 served))
poll_fails_example =
    poll_fails session verify manifest 64 to_text item_size later alone clock (host false)
      (host false) "a" 10 served (fail_poll item_size demanded 11 served) "process exited"
      verify_fails
