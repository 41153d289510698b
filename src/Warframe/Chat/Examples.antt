-- ===== src/Warframe/Chat/Examples.antt =====
-- crates/games/warframe/provider/src/topics/chat: a conversation and an empty chat on which the theorems
-- are applied.
use Prim.Native.String.{String}
use wf_observer.Common.{
  ℕ, ◌+◌, ◌-◌, ◌≤◌, ◌≡◌, refl, Bool, true, false, Option, none, some, List, [], ◌∷◌, length, arith,
  if◌then◌else◌, ◌==◌, nat_eq,
}
use wf_observer.Common.Attempt.{yields}
use wf_observer.Memory.Address.{rva}
use wf_observer.Memory.Bytes.{take, drop}
use wf_observer.Memory.Reader.{Backend, TargetReader}
use wf_observer.Warframe.Text.{read_limits}
use wf_observer.Warframe.Chat.Model.{ChatUpdate}
use wf_observer.Warframe.Chat.History.{Entry, Channel, History, max_events}
use wf_observer.Warframe.Chat.Acquisition.{ChatFacts, read_chat}
use wf_observer.Warframe.Chat.Bounds.{HistoryIsBounded, read_chat-IsBounded}
use wf_observer.Warframe.Chat.Cursor.{Position, ChatCursor, prepare, pending_of, take_turn}
use wf_observer.Warframe.Chat.Emission.{prepare-le}
use wf_observer.Warframe.Chat.Continuity.{AreDistinct, messages, take_turn-continues}

abbrev said : ℕ → String → Entry
said address text = record {
  address = address;
  links = record { next = address + 8; previous = address - 8 };
  role = 0;
  sender = "Alice";
  text = text;
  game_time = none;
}

abbrev direct : Channel
direct = record {
  address = 64;
  links = record { next = 8; previous = 8 };
  key = "Alice,Me";
  entry_links = record { next = 800; previous = 816 };
  entries = said 800 "hi" ∷ said 808 "hi" ∷ said 816 "bye" ∷ [];
}

abbrev before_all : Position
before_all = record { channel_address = 64; conversation_id = "c1"; anchor = some (said 800 "hi") }

distinct : AreDistinct direct.entries
unfolding wf_observer.Warframe.Chat.History.same_occurrence
distinct = ((refl, (refl, tt)), ((refl, tt), (tt, tt)))

left : pending_of direct.entries before_all.anchor ≡ some (said 808 "hi" ∷ said 816 "bye" ∷ [])
unfolding wf_observer.Warframe.Chat.Cursor.after
    wf_observer.Warframe.Chat.History.OptionTime-discrete
left = refl

take_turn-continues_example :
    ((take_turn false 1 direct before_all (some "Me")).updates
      ≡ messages (take 1 (said 808 "hi" ∷ said 816 "bye" ∷ [])) "Alice,Me" "c1" (some "Me"))
    × (pending_of direct.entries (take_turn false 1 direct before_all (some "Me")).position.anchor
        ≡ some (drop 1 (said 808 "hi" ∷ said 816 "bye" ∷ [])))
take_turn-continues_example =
    take_turn-continues 1 direct before_all (some "Me") (said 808 "hi" ∷ said 816 "bye" ∷ [])
      distinct left

abbrev numbered : ℕ → String
numbered n = "c"

abbrev listening : ChatCursor
listening = record { positions = some (("Alice,Me", before_all) ∷ []); next_conversation = 1 }

abbrev heard : ChatCursor × List ChatUpdate × Bool
heard = (
  record {
    positions = some (("Alice,Me", record before_all { anchor = some (said 816 "bye") }) ∷ []);
    next_conversation = 1;
  },
  messages (said 808 "hi" ∷ said 816 "bye" ∷ []) "Alice,Me" "c1" none,
  false,
)

prepared : prepare numbered listening (record { channels = direct ∷ [] }) none ≡ yields heard
unfolding prepare wf_observer.Common.get wf_observer.Common.insert
    wf_observer.Warframe.Chat.History.OptionTime-discrete
prepared = refl

prepare-le_example : length heard.1 ≤ max_events
prepare-le_example =
    prepare-le numbered listening (record { channels = direct ∷ [] }) none heard (omega arith)
      prepared

-- A game whose list of channels is empty: the sentinel, at 4128, is linked to itself; the object at
-- 4096 has its table of functions at 4112, which leads to the handler at 4096.
abbrev serve : ℕ → List ℕ
serve address =
    if address == 4128
    then 32 ∷ 16 ∷ 0 ∷ 0 ∷ 0 ∷ 0 ∷ 0 ∷ 0 ∷ 32 ∷ 16 ∷ 0 ∷ 0 ∷ 0 ∷ 0 ∷ 0 ∷ 0 ∷ []
    else if address == 4096
    then 16 ∷ 16 ∷ 0 ∷ 0 ∷ 0 ∷ 0 ∷ 0 ∷ 0 ∷ []
    else 0 ∷ 16 ∷ 0 ∷ 0 ∷ 0 ∷ 0 ∷ 0 ∷ 0 ∷ []

abbrev game : Backend
game = record { Memory = ℕ; read_into = λ count address size. (yields (serve address), count + 1) }

abbrev reader : TargetReader game
reader = record { memory = 0; module_base = 4096; image_size = 512; limits = read_limits }

abbrev facts : ChatFacts
facts = record {
  handler = rva 0;
  handler_slot = record { get = 0 };
  channels = record { get = 32 };
  channel_name = record { get = 24 };
  channel_entries = record { get = 40 };
  sender = record { get = 24 };
  text = record { get = 40 };
  timestamp = record { get = 56 };
  role = record { get = 72 };
}

abbrev no_text : List ℕ → Option String
no_text bytes = none

reads_empty :
    (read_chat game no_text facts 4096 none reader).0 ≡ yields (some (record { channels = [] }))
unfolding read_chat wf_observer.Common.checked_add wf_observer.Warframe.Chat.History.Links-discrete
    native.Mathlib.Decide.ℕ_discrete wf_observer.Memory.Reader.read_stable
    wf_observer.Warframe.Chat.History.Channels-discrete
reads_empty = refl

read_chat-IsBounded_example : HistoryIsBounded (record { channels = [] })
read_chat-IsBounded_example =
    read_chat-IsBounded game no_text facts 4096 none reader (record { channels = [] }) reads_empty
