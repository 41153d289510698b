-- ===== src/Warframe/Chat/Layout.antt =====
-- crates/games/warframe/provider/src/topics/chat/layout.rs: what the texts of an entry mean.
use Prim.Native.Char.{Char, code}
use Prim.Native.String.{String, ◌∷◌, [] as empty}
use wf_observer.Common.{
  ℕ, ◌+◌, ◌-◌, ◌*◌, Bool, true, false, not, ◌&&◌, ◌||◌, Option, none, some, leb, if◌then◌else◌,
  ◌==◌, nat_eq, string_eq,
}
use wf_observer.Common.Attempt.{Attempt, yields, fails}
use wf_observer.Memory.Bytes.{is_some}
use wf_observer.Memory.Reader.{ReadError}
use wf_observer.Warframe.Text.{player_name}
use wf_observer.Warframe.Chat.Model.{ChatTime, new_time, ChatChannel, ChatDirection, ChatMessage}
use wf_observer.Warframe.Chat.History.{Entry}

abbrev pub digit : Char → ℕ
digit c = code c - 48

unfoldable pub is_digit : Char → Bool
is_digit c = leb 48 (code c) && leb (code c) 57

abbrev clock : Option ChatTime → Attempt ReadError (Option ChatTime)
clock none = fails (ReadError.invalid_data "chat clock time")
clock (some t) = yields (some t)

-- A text as `[hh:mm] `.
unfoldable pub time : String → Attempt ReadError (Option ChatTime)
unfolding is_digit new_time
time empty = yields none
time (a ∷ b ∷ c ∷ d ∷ e ∷ f ∷ g ∷ h ∷ empty) =
    if (code a == 91 && code d == 58 && code g == 93 && code h == 32)
      && (is_digit b && is_digit c && is_digit e && is_digit f)
    then clock (new_time (digit b * 10 + digit c) (digit e * 10 + digit f))
    else fails (ReadError.invalid_data "chat timestamp representation")
time _ = fails (ReadError.invalid_data "chat timestamp representation")

unfoldable pub starts_with : String → String → Bool
starts_with s empty = true
starts_with empty (d ∷ t) = false
starts_with (c ∷ s) (d ∷ t) = code c == code d && starts_with s t

-- `split_once` at the character of a number; 44 is the comma.
unfoldable pub split_once : ℕ → String → Option (String × String)
split_once at empty = none
split_once at (c ∷ s) =
    let rest = split_once at s in
    if code c == at
    then some (empty, s)
    else elim rest [ none ↦ none | some (before, after) ↦ some (c ∷ before, after) ]

abbrev pub is_empty : String → Bool
is_empty empty = true
is_empty (c ∷ s) = false

abbrev names : Option (String × String) → Option (String × String)
names none = none
names (some (first, second)) =
    if not (is_empty (player_name first))
      && not (is_empty (player_name second))
      && not (is_some (split_once 44 (player_name second)))
    then some (player_name first, player_name second)
    else none

unfoldable pub participants : String → Option (String × String)
unfolding starts_with split_once player_name
participants key = if starts_with key "#" then none else names (split_once 44 key)

unfoldable pub channel : String → ChatChannel
unfolding starts_with participants
channel key =
    if starts_with key "#Q_"
    then ChatChannel.questions_and_answers
    else if starts_with key "#R_"
    then ChatChannel.recruiting
    else if starts_with key "#T_"
    then ChatChannel.trade
    else if starts_with key "#H_"
    then ChatChannel.hub
    else if starts_with key "#G_"
    then ChatChannel.region
    else if starts_with key "#S"
    then ChatChannel.squad
    else if starts_with key "#C"
    then ChatChannel.clan
    else if key == "#D" || starts_with key "#D_"
    then ChatChannel.design_council
    else if is_some (participants key)
    then ChatChannel.direct
    else ChatChannel.other

unfoldable pub lower : ℕ → ℕ
lower n = if leb 65 n && leb n 90 then n + 32 else n

unfoldable pub eq_ignore_ascii_case : String → String → Bool
unfolding lower
eq_ignore_ascii_case empty empty = true
eq_ignore_ascii_case empty (d ∷ t) = false
eq_ignore_ascii_case (c ∷ s) empty = false
eq_ignore_ascii_case (c ∷ s) (d ∷ t) = lower (code c) == lower (code d) && eq_ignore_ascii_case s t

-- The local player's name, if it is known.
unfoldable pub known : Option String → Option String
unfolding player_name
known none = none
known (some name) = if is_empty (player_name name) then none else some (player_name name)

unfoldable pub direction_of : Entry → Option String → ChatDirection
unfolding player_name eq_ignore_ascii_case
direction_of entry local =
    if is_empty entry.sender
    then ChatDirection.system
    else if is_empty (player_name entry.sender)
    then ChatDirection.unknown
    else elim local [
      | none ↦ ChatDirection.unknown
      | some name ↦
          if eq_ignore_ascii_case (player_name entry.sender) name
          then ChatDirection.outgoing
          else ChatDirection.incoming
    ]

abbrev other_of : Bool → Bool → String × String → Option String
other_of true false (first, second) = some second
other_of false true (first, second) = some first
other_of _ _ both = none

unfoldable pub peer_of : Option String → String → Option String
unfolding participants eq_ignore_ascii_case
peer_of none key = none
peer_of (some name) key = elim (participants key) [
  | none ↦ none
  | some both ↦ other_of (eq_ignore_ascii_case both.0 name) (eq_ignore_ascii_case both.1 name) both
]

unfoldable pub message : Entry → String → String → Option String → ChatMessage
unfolding channel direction_of peer_of known
message entry key id local = record {
  channel = channel key;
  sender = if is_empty (player_name entry.sender) then none else some (player_name entry.sender);
  text = entry.text;
  game_time = entry.game_time;
  direction = direction_of entry (known local);
  conversation_id = id;
  peer = peer_of (known local) key;
}
