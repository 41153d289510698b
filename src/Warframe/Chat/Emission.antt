-- ===== src/Warframe/Chat/Emission.antt =====
-- crates/games/warframe/provider/src/topics/chat/cursor.rs: how many updates one poll gives, and that
-- a conversation's messages are given once and in order.
use Prim.Native.String.{String}
use Prim.Native.Nat.{◌/◌, ◌*◌}
use native.Mathlib.Nat.{le-div_iff_mul-le, mul-div-le}
use wf_observer.Common.{
  ℕ, zero, suc, ◌+◌, ◌≤◌, ◌≡◌, Bool, true, false, Option, none, some, List, [], ◌∷◌, length,
  length-append, arith, Map, Option-cases, inl, inr,
}
use wf_observer.Common.Attempt.{yields, Attempt-cases, Ensures, Ensures-value}
use wf_observer.Warframe.Chat.Model.{ChatUpdate}
use wf_observer.Warframe.Chat.History.{Entry, Channel, History, max_events, max_channels}
use wf_observer.Warframe.Chat.Cursor.{
  Position, ChatCursor, Prepared, publish, publish_turn, pending_of, take_turn, position_of,
  known_position, add_turn, prepare_channels, at_least_one, prepare,
}

publish-le :
    (n : ℕ) (pending : List Entry) (p : Position) (key : String) (local : Option String)
    → length (publish n pending p key local).0 ≤ n
unfolding publish
publish-le zero pending p key local = omega arith
publish-le (suc n) [] p key local = omega arith
publish-le (suc n) (e ∷ pending) p key local =
    omega (arith, publish-le n pending (record p { anchor = some e }) key local)

take_turn-le :
    (is_first : Bool) (allowance : ℕ) (c : Channel) (p : Position) (local : Option String)
    → 1 ≤ allowance
    → length (take_turn is_first allowance c p local).updates ≤ allowance
unfolding take_turn publish_turn
take_turn-le true allowance c p local some_turn = omega arith
take_turn-le false allowance c p local some_turn =
    elim (Option-cases (pending_of c.entries p.anchor)) [
      | inl f ↦ rw f (omega (arith, some_turn))
      | inr (pending, f) ↦ rw f (publish-le allowance pending p c.key local)
    ]

-- The updates of as many turns as there are channels.
abbrev turns : ℕ → List Channel → ℕ
turns allowance [] = 0
turns allowance (c ∷ channels) = allowance + turns allowance channels

turns_of :
    (allowance : ℕ) (channels : List Channel)
    → turns allowance channels ≡ length channels * allowance
turns_of allowance [] = omega arith
turns_of allowance (c ∷ channels) = omega (arith, turns_of allowance channels)

-- The allowance of each of so many channels.
allowance_of :
    (n : ℕ)
    → n ≤ max_channels
    → (1 ≤ max_events / at_least_one n) × (n * (max_events / at_least_one n) ≤ max_events)
allowance_of zero few = (omega arith, omega arith)
allowance_of (suc n) few =
    ((le-div_iff_mul-le (omega arith)).1 (omega (arith, few)), mul-div-le max_events (suc n))

module _ (conversation : ℕ → String) where
  prepare_channels-Ensures :
      (old : Option (Map String Position)) (allowance k : ℕ) (local : Option String) (s : Prepared)
      (channels : List Channel)
      → 1 ≤ allowance
      → length s.updates + turns allowance channels ≤ k
      → Ensures
          (λ s'. length s'.updates ≤ k)
          (prepare_channels conversation old allowance local s channels)
  unfolding prepare_channels
  prepare_channels-Ensures old allowance k local s [] some_turn within = omega (arith, within)
  prepare_channels-Ensures old allowance k local s (c ∷ channels) some_turn within =
      elim (Attempt-cases (position_of conversation (known_position old c) s.next_conversation c)) [
        | inl (error, e) ↦ rw (e, prepare_channels) tt
        | inr (found, e) ↦
            let turn =
              take_turn (elim old [ none ↦ true | some _ ↦ false ]) allowance c found.0 local in
            let few : length turn.updates ≤ allowance =
              take_turn-le (elim old [ none ↦ true | some _ ↦ false ]) allowance c found.0 local
                some_turn in
            let sum = length-append s.updates turn.updates in
            rw (e, prepare_channels)
              (prepare_channels-Ensures old allowance k local (add_turn s c.key found.1 turn)
                channels some_turn (omega (arith, few, sum, within)))
      ]

  prepare-Ensures :
      (cursor : ChatCursor) (history : History) (local : Option String)
      → length history.channels ≤ max_channels
      → Ensures
          (λ prepared. length prepared.1 ≤ max_events)
          (prepare conversation cursor history local)
  unfolding prepare
  prepare-Ensures cursor history local few =
      let allowance = max_events / at_least_one (length history.channels) in
      let some_turn : 1 ≤ allowance = (allowance_of (length history.channels) few).0 in
      let all : 0 + turns allowance history.channels ≤ max_events = omega (
        arith,
        turns_of allowance history.channels,
        (allowance_of (length history.channels) few).1,
      ) in
      let begun : Prepared = record {
        positions = [];
        next_conversation = cursor.next_conversation;
        updates = [];
        more = false;
      } in
      let bound =
        prepare_channels-Ensures cursor.positions allowance max_events local begun history.channels
          some_turn all in
      elim (Attempt-cases
        (prepare_channels conversation cursor.positions allowance local begun history.channels)) [
          | inl (error, e) ↦ rw (e, prepare) tt
          | inr (s, e) ↦
              rw (e, prepare)
                (Ensures-value (λ s'. length s'.updates ≤ max_events)
                  (prepare_channels conversation cursor.positions allowance local begun
                    history.channels)
                  s bound e)
        ]

  -- Where a history has no more channels than an acquisition admits, a poll of the chat gives at most
  -- as many updates as one poll may.
  pub prepare-le :
      (cursor : ChatCursor) (history : History) (local : Option String)
      (prepared : ChatCursor × List ChatUpdate × Bool)
      → length history.channels ≤ max_channels
      → prepare conversation cursor history local ≡ yields prepared
      → length prepared.1 ≤ max_events
  unfolding prepare
  prepare-le cursor history local prepared few e =
      Ensures-value (λ p. length p.1 ≤ max_events) (prepare conversation cursor history local)
        prepared (prepare-Ensures cursor history local few) e
