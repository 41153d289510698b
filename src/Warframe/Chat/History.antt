-- ===== src/Warframe/Chat/History.antt =====
-- crates/games/warframe/provider/src/topics/chat/acquisition.rs and facts.rs: what is read of the chat.
use Prim.Native.String.{String}
use native.Mathlib.Decide.{ℕ_discrete}
use wf_observer.Common.{
  ℕ, Bool, true, false, ◌&&◌, Option, List, [], ◌∷◌, ◌==◌, nat_eq, string_eq, Eq, derive_eq,
  String-discrete,
}
use wf_observer.Warframe.Chat.Model.{ChatTime, ChatTime-discrete}

abbrev pub max_channels : ℕ
max_channels = 32

abbrev pub max_entries : ℕ
max_entries = 100

abbrev pub max_total_entries : ℕ
max_total_entries = 1000

abbrev pub max_string_bytes : ℕ
max_string_bytes = 524288

abbrev pub max_message_bytes : ℕ
max_message_bytes = 4096

abbrev pub max_events : ℕ
max_events = 32

pub record Links : Type 0 where
  pub next : ℕ
  pub previous : ℕ

pub record Entry : Type 0 where
  pub address : ℕ
  pub links : Links
  pub role : ℕ
  pub sender : String
  pub text : String
  pub game_time : Option ChatTime

pub record Channel : Type 0 where
  pub address : ℕ
  pub links : Links
  pub key : String
  pub entry_links : Links
  pub entries : List Entry

pub record History : Type 0 where
  pub channels : List Channel

unfoldable pub Links-discrete : Discrete Links
Links-discrete = hlevel (ℕ_discrete)

instance abbrev pub links_eq : Eq Links
links_eq = derive_eq Links-discrete

unfoldable pub OptionTime-discrete : Discrete (Option ChatTime)
OptionTime-discrete = hlevel (ChatTime-discrete)

instance abbrev pub option_time_eq : Eq (Option ChatTime)
option_time_eq = derive_eq OptionTime-discrete

unfoldable pub Entry-discrete : Discrete Entry
Entry-discrete = hlevel (ℕ_discrete, Links-discrete, OptionTime-discrete, String-discrete)

instance abbrev pub entry_eq : Eq Entry
entry_eq = derive_eq Entry-discrete

unfoldable pub Entries-discrete : Discrete (List Entry)
Entries-discrete = hlevel (Entry-discrete)

unfoldable pub Channel-discrete : Discrete Channel
Channel-discrete = hlevel (ℕ_discrete, Links-discrete, String-discrete, Entries-discrete)

unfoldable pub Channels-discrete : Discrete (List Channel)
Channels-discrete = hlevel (Channel-discrete)

instance abbrev pub channels_eq : Eq (List Channel)
channels_eq = derive_eq Channels-discrete

-- Entry::same_occurrence
unfoldable pub same_occurrence : Entry → Entry → Bool
same_occurrence a b =
    a.address == b.address
    && a.links.previous == b.links.previous
    && a.role == b.role
    && a.sender == b.sender
    && a.text == b.text
    && a.game_time == b.game_time

unfoldable pub same_headers : List Channel → List Channel → Bool
same_headers [] [] = true
same_headers [] (b ∷ ys) = false
same_headers (a ∷ xs) [] = false
same_headers (a ∷ xs) (b ∷ ys) =
    a.address == b.address
    && a.links == b.links
    && a.key == b.key
    && a.entry_links == b.entry_links
    && same_headers xs ys
