-- ===== src/Warframe/Chat/Acquisition.antt =====
-- crates/games/warframe/provider/src/topics/chat/acquisition.rs: the walk over the game's lists of
-- channels and of their entries. `facts` is facts.rs, as far as the walk uses it.
use Prim.Native.String.{String, len}
use Prim.Native.Nat.{◌%◌}
use wf_observer.Common.{
  ℕ, zero, suc, ◌+◌, Bool, true, not, ◌&&◌, ◌||◌, Option, none, some, List, [], ◌∷◌, contains, ltb,
  leb, if◌then◌else◌, ◌==◌, nat_eq, string_eq,
}
use wf_observer.Common.Attempt.{yields, fails}
use wf_observer.Memory.Bytes.{take, drop, from_le_bytes}
use wf_observer.Memory.Address.{Rva, ObjectOffset, VtableSlot}
use wf_observer.Memory.Reader.{
  Backend, ReadError, Action, pure, ◌>>=◌, object_address, read_at, read_object_integer,
  require_vtable_slot, read_stable,
}
use wf_observer.Warframe.Text.{read_string}
use wf_observer.Warframe.Chat.Layout
use wf_observer.Warframe.Chat.History.{
  Links, Entry, Channel, History, links_eq, entry_eq, channels_eq, same_headers, max_channels,
  max_entries, max_total_entries, max_string_bytes, max_message_bytes,
}

pub record ChatFacts : Type 0 where
  pub handler : Rva
  pub handler_slot : VtableSlot
  pub channels : ObjectOffset
  pub channel_name : ObjectOffset
  pub channel_entries : ObjectOffset
  pub sender : ObjectOffset
  pub text : ObjectOffset
  pub timestamp : ObjectOffset
  pub role : ObjectOffset

abbrev pub last_entry : List Entry → Option Entry
last_entry [] = none
last_entry (e ∷ []) = some e
last_entry (e ∷ f ∷ es) = last_entry (f ∷ es)

-- The counts that all channels share: entries, and bytes of their texts.
pub record Counts : Type 0 where
  pub count : ℕ
  pub bytes : ℕ

abbrev pub with_entry : Counts → Entry → Counts
with_entry counts e = record {
  count = counts.count + 1;
  bytes = counts.bytes + (len e.text + len e.sender);
}

module _ (backend : Backend) (from_utf8 : List ℕ → Option String) (facts : ChatFacts) where
  abbrev Reads : Type 0 → Type 0
  Reads A = Action backend A

  infixl 5 ◌then◌
  abbrev ◌then◌ : {A B : Type 0} → Reads A → (A → Reads B) → Reads B
  m then next = ◌>>=◌ backend m next

  abbrev gives : {A : Type 0} → A → Reads A
  gives a = pure backend (λ r. yields a)

  abbrev stops : {A : Type 0} → ReadError → Reads A
  stops error = pure backend (λ r. fails error)

  abbrev split : List ℕ → Links
  split bytes = record {
    next = from_le_bytes (take 8 bytes);
    previous = from_le_bytes (take 8 (drop 8 bytes));
  }

  unfoldable pub links : ℕ → Reads Links
  unfolding read_at from_le_bytes take drop
  links address =
      if address == 0 || not (address % 8 == 0)
      then stops (ReadError.invalid_data "chat node pointer")
      else read_at backend address 16 then λ bytes. gives (split bytes)

  unfoldable pub read_entry : ℕ → Reads Entry
  unfolding links read_string read_object_integer Layout.time
  read_entry address = links address then λ first.
      read_string backend from_utf8 address facts.sender 128 then λ sender.
      read_string backend from_utf8 address facts.text max_message_bytes then λ text.
      read_string backend from_utf8 address facts.timestamp 64 then λ clock.
      read_object_integer backend 4 address facts.role then λ role. links address then λ again.
      if not (first == again)
      then stops (ReadError.unstable "chat entry")
      else pure backend (λ r. Layout.time clock) then λ game_time. gives (record {
        address = address;
        links = first;
        role = role;
        sender = sender;
        text = text;
        game_time = game_time;
      })

  -- The nodes from one on, up to the sentinel, and the last of them; the first argument is how many
  -- more there may be, and `seen` and `keys` what was passed.
  unfoldable pub walk_channels : ℕ → ℕ → ℕ → ℕ → List ℕ → List String → Reads (List Channel × ℕ)
  unfolding links read_string object_address
  walk_channels zero sentinel current previous seen keys =
      if current == sentinel
      then gives ([], previous)
      else stops (ReadError.limit_exceeded "chat channels")
  walk_channels (suc left) sentinel current previous seen keys =
      if current == sentinel
      then gives ([], previous)
      else if contains seen current
      then stops (ReadError.invalid_data "chat channel cycle")
      else links current then λ node.
          if not (node.previous == previous)
          then stops (ReadError.unstable "chat channel links")
          else read_string backend from_utf8 current facts.channel_name 128 then λ key.
              if contains keys key
              then stops (ReadError.invalid_data "chat channel name")
              else pure backend (object_address backend current facts.channel_entries 16) then λ at.
                  links at then λ entry_links.
                  walk_channels left sentinel node.next current (current ∷ seen) (key ∷ keys)
                  then λ found. gives (
                    record {
                      address = current;
                      links = node;
                      key = key;
                      entry_links = entry_links;
                      entries = [];
                    }
                        ∷ found.0,
                    found.1,
                  )

  unfoldable pub headers : ℕ → Reads (List Channel)
  unfolding links walk_channels
  headers sentinel = links sentinel then λ head.
      walk_channels max_channels sentinel head.next sentinel [] [] then λ found.
      if not (head.previous == found.1)
      then stops (ReadError.unstable "chat channel head")
      else links sentinel then λ again.
          if not (head == again)
          then stops (ReadError.unstable "chat channel head")
          else gives found.0

  -- The entries of a channel, as its nodes, with the counts after them.
  unfoldable pub walk_entries : ℕ → ℕ → ℕ → ℕ → List ℕ → Counts → Reads (List Entry × ℕ × Counts)
  unfolding read_entry
  walk_entries zero sentinel current previous seen counts =
      if current == sentinel
      then gives ([], previous, counts)
      else stops (ReadError.limit_exceeded "chat entries")
  walk_entries (suc left) sentinel current previous seen counts =
      if current == sentinel
      then gives ([], previous, counts)
      else if leb max_total_entries counts.count
      then stops (ReadError.limit_exceeded "chat entries")
      else if contains seen current
      then stops (ReadError.invalid_data "chat entry cycle")
      else read_entry current then λ e.
          if not (e.links.previous == previous)
          then stops (ReadError.unstable "chat entry links")
          else if ltb max_string_bytes (with_entry counts e).bytes
          then stops (ReadError.limit_exceeded "chat strings")
          else walk_entries left sentinel e.links.next current (current ∷ seen)
              (with_entry counts e)
            then λ found. gives (e ∷ found.0, found.1, found.2)

  unfoldable pub fill : List Channel → Counts → Reads (List Channel)
  unfolding object_address walk_entries
  fill [] counts = gives []
  fill (c ∷ channels) counts =
      pure backend (object_address backend c.address facts.channel_entries 16) then λ sentinel.
      walk_entries max_entries sentinel c.entry_links.next sentinel []
        (record counts { bytes = counts.bytes + len c.key })
      then λ found.
          if not (found.1 == c.entry_links.previous)
          then stops (ReadError.unstable "chat entry tail")
          else fill channels found.2 then λ rest. gives (record c { entries = found.0 } ∷ rest)

  -- One reading of the whole history.
  unfoldable pub read_history : ℕ → Reads History
  unfolding headers fill same_headers
  read_history sentinel = headers sentinel then λ empty.
      fill empty (record { count = 0; bytes = 0 }) then λ channels. headers sentinel then λ again.
      if not (same_headers again channels)
      then stops (ReadError.unstable "chat channel headers")
      else gives (record { channels = channels })

  abbrev pub tail_unchanged : Option Entry → Reads Bool
  tail_unchanged none = gives true
  tail_unchanged (some tail) = read_entry tail.address then λ e. gives (e == tail)

  unfoldable pub tails_unchanged : List Channel → Reads Bool
  unfolding read_entry
  tails_unchanged [] = gives true
  tails_unchanged (c ∷ channels) = tail_unchanged (last_entry c.entries) then λ same.
      tails_unchanged channels then λ rest. gives (same && rest)

  unfoldable pub read_afresh : ℕ → Reads (Option History)
  unfolding read_history
  read_afresh sentinel =
      read_stable (λ a b. a.channels == b.channels) (read_history sentinel)
        (ReadError.unstable "chat history")
      then λ history. gives (some history)

  -- A history that the first headers are those of, if it has not changed.
  unfoldable pub read_cached : ℕ → List Channel → History → Reads (Option History)
  unfolding headers tails_unchanged read_afresh same_headers
  read_cached sentinel first cached = tails_unchanged cached.channels then λ unchanged.
      if not unchanged
      then read_afresh sentinel
      else headers sentinel then λ again.
          if same_headers again first then gives none else read_afresh sentinel

  abbrev pub read_with : ℕ → Option History → List Channel → Reads (Option History)
  read_with sentinel none first = read_afresh sentinel
  read_with sentinel (some cached) first =
      if same_headers first cached.channels
      then read_cached sentinel first cached
      else read_afresh sentinel

  -- read_chat, with its reader: `none` where the cached history stands.
  unfoldable pub read_chat : ℕ → Option History → Reads (Option History)
  unfolding require_vtable_slot object_address headers read_cached read_afresh same_headers
  read_chat object cached =
      require_vtable_slot backend object facts.handler_slot facts.handler "chat message handler"
      then λ _. pure backend (object_address backend object facts.channels 16) then λ sentinel.
          headers sentinel then λ first. read_with sentinel cached first
