-- ===== src/Warframe/Chat/Cursor.antt =====
-- crates/games/warframe/provider/src/topics/chat/cursor.rs: the positions up to which conversations
-- were published, and what is new after them. `conversation` stands for the printed number of
-- `format!("c{next_conversation}")`.
use Prim.Native.String.{String}
use Prim.Native.Nat.{◌/◌}
use wf_observer.Common.{
  ℕ, zero, suc, Bool, true, false, ◌||◌, Option, none, some, List, [], ◌∷◌, ◌++◌, length, ltb,
  if◌then◌else◌, ◌==◌, nat_eq, string_eq, string_order, Map, get, insert, checked_add,
}
use wf_observer.Common.Attempt.{Attempt, yields, fails}
use wf_observer.Memory.Reader.{ReadError}
use wf_observer.Warframe.Chat.Model.{ChatUpdate}
use wf_observer.Warframe.Chat.Layout
use wf_observer.Warframe.Chat.History.{Entry, Channel, History, same_occurrence, max_events}
use wf_observer.Warframe.Chat.Acquisition.{last_entry}

pub record Position : Type 0 where
  pub channel_address : ℕ
  pub conversation_id : String
  pub anchor : Option Entry

pub record ChatCursor : Type 0 where
  pub positions : Option (Map String Position)
  pub next_conversation : ℕ

-- ChatCursor::default
abbrev pub start : ChatCursor
start = record { positions = none; next_conversation = 0 }

abbrev pub at_address : Option Position → ℕ → Option Position
at_address none address = none
at_address (some p) address = if p.channel_address == address then some p else none

abbrev pub known_position : Option (Map String Position) → Channel → Option Position
known_position none c = none
known_position (some positions) c = at_address (get positions c.key) c.address

-- The entries after the first that is the anchor, or none where it is not there.
unfoldable pub after : List Entry → Entry → Option (List Entry)
unfolding same_occurrence
after [] anchor = none
after (e ∷ es) anchor =
    let rest = after es anchor in if same_occurrence e anchor then some es else rest

-- The messages of the first entries, as many as are allowed, and the position after them.
unfoldable pub publish :
    ℕ → List Entry → Position → String → Option String → List ChatUpdate × Position
unfolding Layout.message
publish zero pending p key local = ([], p)
publish (suc n) [] p key local = ([], p)
publish (suc n) (e ∷ pending) p key local =
    let rest = publish n pending (record p { anchor = some e }) key local in
    (ChatUpdate.message (Layout.message e key p.conversation_id local) ∷ rest.0, rest.1)

-- What a channel gives: its updates, its new position, and whether more are left.
pub record Turn : Type 0 where
  pub updates : List ChatUpdate
  pub position : Position
  pub more : Bool

unfoldable pub publish_turn : ℕ → List Entry → Position → String → Option String → Turn
unfolding publish
publish_turn allowance pending p key local =
    let published = publish allowance pending p key local in
    record { updates = published.0; position = published.1; more = ltb allowance (length pending) }

abbrev pub pending_of : List Entry → Option Entry → Option (List Entry)
pending_of entries none = some entries
pending_of entries (some anchor) = after entries anchor

unfoldable pub take_turn : Bool → ℕ → Channel → Position → Option String → Turn
unfolding after publish_turn Layout.channel
take_turn is_first allowance c p local =
    if is_first
    then record {
      updates = [];
      position = record p { anchor = last_entry c.entries };
      more = false;
    }
    else elim (pending_of c.entries p.anchor) [
      | none ↦ record {
        updates = ChatUpdate.gap (Layout.channel c.key) ∷ [];
        position = record p { anchor = last_entry c.entries };
        more = false;
      }
      | some pending ↦ publish_turn allowance pending p c.key local
    ]

pub record Prepared : Type 0 where
  pub positions : Map String Position
  pub next_conversation : ℕ
  pub updates : List ChatUpdate
  pub more : Bool

abbrev pub add_turn : Prepared → String → ℕ → Turn → Prepared
add_turn s key next turn = record {
  positions = insert s.positions key turn.position;
  next_conversation = next;
  updates = s.updates ++ turn.updates;
  more = s.more || turn.more;
}

abbrev pub finished : Prepared → ChatCursor × List ChatUpdate × Bool
finished s = (
  record { positions = some s.positions; next_conversation = s.next_conversation },
  s.updates,
  s.more,
)

abbrev pub at_least_one : ℕ → ℕ
at_least_one zero = 1
at_least_one (suc n) = suc n

module _ (conversation : ℕ → String) where
  -- The channel's position, or a new one with the next number.
  unfoldable pub position_of : Option Position → ℕ → Channel → Attempt ReadError (Position × ℕ)
  position_of (some p) next c = yields (p, next)
  position_of none next c = elim (checked_add next 1) [
    | none ↦ fails (ReadError.limit_exceeded "chat conversation IDs")
    | some n ↦
        yields (
          record { channel_address = c.address; conversation_id = conversation n; anchor = none },
          n,
        )
  ]

  unfoldable pub prepare_channels :
      Option (Map String Position)
      → ℕ
      → Option String
      → Prepared
      → List Channel
      → Attempt ReadError Prepared
  unfolding position_of take_turn
  prepare_channels old allowance local s [] = yields s
  prepare_channels old allowance local s (c ∷ channels) =
      elim (position_of (known_position old c) s.next_conversation c) [
        | fails error ↦ fails error
        | yields found ↦
            prepare_channels old allowance local
              (add_turn s c.key found.1
                (take_turn (elim old [ none ↦ true | some _ ↦ false ]) allowance c found.0 local))
              channels
      ]

  -- ChatCursor::prepare
  unfoldable pub prepare :
      ChatCursor → History → Option String → Attempt ReadError (ChatCursor × List ChatUpdate × Bool)
  unfolding prepare_channels
  prepare cursor history local =
      elim (prepare_channels cursor.positions (max_events / at_least_one (length history.channels))
        local
        (record {
          positions = [];
          next_conversation = cursor.next_conversation;
          updates = [];
          more = false;
        })
        history.channels) [ fails error ↦ fails error | yields s ↦ yields (finished s) ]
