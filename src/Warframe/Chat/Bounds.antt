-- ===== src/Warframe/Chat/Bounds.antt =====
-- crates/games/warframe/provider/src/topics/chat/acquisition.rs: how much a history holds, whatever
-- the game's memory holds.
use Prim.Native.String.{String, len}
use wf_observer.Common.{
  ℕ, zero, suc, ◌+◌, ◌≤◌, ◌≡◌, refl, Bool, true, false, not, Option, none, some, List, [], ◌∷◌,
  length, sum_by, All, contains, arith, if◌then◌else◌, ◌==◌, nat_eq, string_eq, ltb, leb,
}
use wf_observer.Common.Attempt.{yields, fails, Ensures-value}
use wf_observer.Memory.Reader.{
  Backend, TargetReader, ReadError, Action, pure, object_address, read_stable, require_vtable_slot,
}
use wf_observer.Memory.Giving.{Gives, bind-Gives, after-Gives, if-Gives, stable-Gives}
use wf_observer.Warframe.Text.{read_string}
use wf_observer.Warframe.Chat.History.{
  links_eq, channels_eq, Entry, Channel, History, same_headers, max_channels, max_entries,
  max_total_entries, max_string_bytes,
}
use wf_observer.Warframe.Chat.Acquisition.{
  ChatFacts, Counts, with_entry, links, read_entry, walk_channels, headers, walk_entries, fill,
  read_history, read_afresh, read_cached, read_with, read_chat, tails_unchanged,
}

abbrev pub entry_count : Channel → ℕ
entry_count c = length c.entries

-- No more channels than are admitted, none with more entries, and no more entries in all.
pub record HistoryIsBounded (h : History) : Type 0 where
  pub channels : length h.channels ≤ max_channels
  pub entries : All (λ c. length c.entries ≤ max_entries) h.channels
  pub total : sum_by entry_count h.channels ≤ max_total_entries

module _ (backend : Backend) (from_utf8 : List ℕ → Option String) (facts : ChatFacts) where
  gives :
      {A : Type 0} (P : A → Type 0) (a : A) → P a → Gives backend P (pure backend (λ r. yields a))
  gives P a h r = h

  abbrev AtMost : ℕ → List Channel × ℕ → Type 0
  AtMost n found = length found.0 ≤ n

  walk_channels-Gives :
      (left sentinel current previous : ℕ) (seen : List ℕ) (keys : List String)
      → Gives backend
          (AtMost left)
          (walk_channels backend from_utf8 facts left sentinel current previous seen keys)
  unfolding walk_channels
  walk_channels-Gives zero sentinel current previous seen keys =
      if-Gives backend (AtMost zero) (current == sentinel) _ _
        (gives (AtMost zero) ([], previous) (omega arith)) (λ r. tt)
  walk_channels-Gives (suc left) sentinel current previous seen keys =
      if-Gives backend (AtMost (suc left)) (current == sentinel) _ _
        (gives (AtMost (suc left)) ([], previous) (omega arith))
        (if-Gives backend (AtMost (suc left)) (contains seen current) _ _ (λ r. tt)
          (after-Gives backend (AtMost (suc left)) (links backend from_utf8 facts current) _ λ node.
            if-Gives backend (AtMost (suc left)) (not (node.previous == previous)) _ _ (λ r. tt)
              (after-Gives backend (AtMost (suc left))
                (read_string backend from_utf8 current facts.channel_name 128) _
                λ key.
                  if-Gives backend (AtMost (suc left)) (contains keys key) _ _ (λ r. tt)
                    (after-Gives backend (AtMost (suc left))
                      (pure backend (object_address backend current facts.channel_entries 16)) _
                      λ at.
                        after-Gives backend (AtMost (suc left)) (links backend from_utf8 facts at) _
                          λ entry_links.
                            bind-Gives backend (AtMost left) (AtMost (suc left))
                              (walk_channels backend from_utf8 facts left sentinel node.next current
                                (current ∷ seen) (key ∷ keys))
                              _
                              (walk_channels-Gives left sentinel node.next current (current ∷ seen)
                                (key ∷ keys))
                              (λ found few r. omega (arith, few))))))

  -- An error where there is no room.
  full-Gives :
      {A : Type 0} (Q : A → Type 0) (is_full : Bool) (error : ReadError) (m : Action backend A)
      → (is_full ≡ false → Gives backend Q m)
      → Gives backend Q (if is_full then pure backend (λ r. fails error) else m)
  full-Gives Q true error m h = λ r. tt
  full-Gives Q false error m h = h refl

  headers-Gives :
      (sentinel : ℕ)
      → Gives backend
          (λ channels. length channels ≤ max_channels)
          (headers backend from_utf8 facts sentinel)
  unfolding headers
  headers-Gives sentinel =
      after-Gives backend (λ channels. length channels ≤ max_channels)
        (links backend from_utf8 facts sentinel) _
        λ head.
          bind-Gives backend (AtMost max_channels) (λ channels. length channels ≤ max_channels)
            (walk_channels backend from_utf8 facts max_channels sentinel head.next sentinel [] []) _
            (walk_channels-Gives max_channels sentinel head.next sentinel [] [])
            λ found few.
              if-Gives backend (λ channels. length channels ≤ max_channels)
                (not (head.previous == found.1)) _ _ (λ r. tt)
                (after-Gives backend (λ channels. length channels ≤ max_channels)
                  (links backend from_utf8 facts sentinel) _
                  λ again.
                    if-Gives backend (λ channels. length channels ≤ max_channels)
                      (not (head == again)) _ _ (λ r. tt) (λ r. few))

  -- The entries of a channel, counted with those before it.
  abbrev Counted : ℕ → ℕ → List Entry × ℕ × Counts → Type 0
  Counted left before found =
      (length found.0 ≤ left)
      × (found.2.count ≡ before + length found.0)
      × (before ≤ max_total_entries → found.2.count ≤ max_total_entries)

  walk_entries-Gives :
      (left sentinel current previous : ℕ) (seen : List ℕ) (counts : Counts)
      → Gives backend
          (Counted left counts.count)
          (walk_entries backend from_utf8 facts left sentinel current previous seen counts)
  unfolding walk_entries
  walk_entries-Gives zero sentinel current previous seen counts =
      if-Gives backend (Counted zero counts.count) (current == sentinel) _ _
        (λ r. (omega arith, omega arith, λ h. h)) (λ r. tt)
  walk_entries-Gives (suc left) sentinel current previous seen counts =
      let P = Counted (suc left) counts.count in
      if-Gives backend P (current == sentinel) _ _ (λ r. (omega arith, omega arith, λ h. h))
        (full-Gives P (leb max_total_entries counts.count) (ReadError.limit_exceeded "chat entries")
          _
          (λ room.
            if-Gives backend P (contains seen current) _ _ (λ r. tt)
              (after-Gives backend P (read_entry backend from_utf8 facts current) _ λ e.
                if-Gives backend P (not (e.links.previous == previous)) _ _ (λ r. tt)
                  (if-Gives backend P (ltb max_string_bytes (with_entry counts e).bytes) _ _
                    (λ r. tt)
                    (bind-Gives backend (Counted left (counts.count + 1)) P
                      (walk_entries backend from_utf8 facts left sentinel e.links.next current
                        (current ∷ seen) (with_entry counts e))
                      _
                      (walk_entries-Gives left sentinel e.links.next current (current ∷ seen)
                        (with_entry counts e))
                      (λ found (few, counted, within) r. (
                        omega (arith, few),
                        omega (arith, counted),
                        λ h. within (ground (arith, room)),
                      )))))))

  abbrev Filled : ℕ → ℕ → List Channel → Type 0
  Filled many before channels =
      (length channels ≡ many)
      × All (λ c. length c.entries ≤ max_entries) channels
      × (before ≤ max_total_entries → before + sum_by entry_count channels ≤ max_total_entries)

  fill-Gives :
      (channels : List Channel) (counts : Counts)
      → Gives backend
          (Filled (length channels) counts.count)
          (fill backend from_utf8 facts channels counts)
  unfolding fill sum_by
  fill-Gives [] counts = λ r. (refl, tt, λ h. omega (arith, h))
  fill-Gives (c ∷ channels) counts =
      let P = Filled (suc (length channels)) counts.count in
      after-Gives backend P
        (pure backend (object_address backend c.address facts.channel_entries 16)) _
        λ sentinel.
          bind-Gives backend (Counted max_entries counts.count) P
            (walk_entries backend from_utf8 facts max_entries sentinel c.entry_links.next sentinel
              [] (record counts { bytes = counts.bytes + len c.key }))
            _
            (walk_entries-Gives max_entries sentinel c.entry_links.next sentinel []
              (record counts { bytes = counts.bytes + len c.key }))
            λ found (few, counted, within).
              if-Gives backend P (not (found.1 == c.entry_links.previous)) _ _ (λ r. tt)
                (bind-Gives backend (Filled (length channels) found.2.count) P
                  (fill backend from_utf8 facts channels found.2) _ (fill-Gives channels found.2)
                  (λ rest (many, each, total) r. (
                    omega (arith, many),
                    (few, each),
                    λ h. omega (arith, counted, total (within h)),
                  )))

  read_history-Gives :
      (sentinel : ℕ)
      → Gives backend HistoryIsBounded (read_history backend from_utf8 facts sentinel)
  unfolding read_history
  read_history-Gives sentinel =
      bind-Gives backend (λ channels. length channels ≤ max_channels) HistoryIsBounded
        (headers backend from_utf8 facts sentinel) _ (headers-Gives sentinel)
        λ empty few.
          bind-Gives backend (Filled (length empty) 0) HistoryIsBounded
            (fill backend from_utf8 facts empty (record { count = 0; bytes = 0 })) _
            (fill-Gives empty (record { count = 0; bytes = 0 }))
            λ channels (many, each, total).
              after-Gives backend HistoryIsBounded (headers backend from_utf8 facts sentinel) _
                λ again.
                  if-Gives backend HistoryIsBounded (not (same_headers again channels)) _ _
                    (λ r. tt)
                    (λ r. record {
                      channels = omega (arith, many, few);
                      entries = each;
                      total = omega (arith, total (omega arith));
                    })

  -- A new history, if there is one, is bounded.
  abbrev pub OptionIsBounded : Option History → Type 0
  OptionIsBounded none = Unit
  OptionIsBounded (some h) = HistoryIsBounded h

  read_afresh-Gives :
      (sentinel : ℕ) → Gives backend OptionIsBounded (read_afresh backend from_utf8 facts sentinel)
  unfolding read_afresh
  read_afresh-Gives sentinel =
      bind-Gives backend HistoryIsBounded OptionIsBounded
        (read_stable (λ a b. a.channels == b.channels)
          (read_history backend from_utf8 facts sentinel) (ReadError.unstable "chat history"))
        _
        (stable-Gives backend HistoryIsBounded (λ a b. a.channels == b.channels)
          (read_history backend from_utf8 facts sentinel) (ReadError.unstable "chat history")
          (read_history-Gives sentinel))
        (λ history bounded r. bounded)

  read_with-Gives :
      (sentinel : ℕ) (cached : Option History) (first : List Channel)
      → Gives backend OptionIsBounded (read_with backend from_utf8 facts sentinel cached first)
  unfolding read_cached
  read_with-Gives sentinel none first = read_afresh-Gives sentinel
  read_with-Gives sentinel (some cached) first =
      if-Gives backend OptionIsBounded (same_headers first cached.channels) _ _
        (after-Gives backend OptionIsBounded
          (tails_unchanged backend from_utf8 facts cached.channels) _
          λ unchanged.
            if-Gives backend OptionIsBounded (not unchanged) _ _ (read_afresh-Gives sentinel) (
              after-Gives backend OptionIsBounded (headers backend from_utf8 facts sentinel) _
                λ again.
                  if-Gives backend OptionIsBounded (same_headers again first) _ _ (λ r. tt)
                    (read_afresh-Gives sentinel)))
        (read_afresh-Gives sentinel)

  -- Whatever the game's memory holds, a history that is read has no more channels than are admitted,
  -- none of them with more entries, and no more entries in all.
  pub read_chat-IsBounded :
      (object : ℕ) (cached : Option History) (r : TargetReader backend) (history : History)
      → (read_chat backend from_utf8 facts object cached r).0 ≡ yields (some history)
      → HistoryIsBounded history
  unfolding read_chat
  read_chat-IsBounded object cached r history e =
      Ensures-value OptionIsBounded (read_chat backend from_utf8 facts object cached r).0
        (some history)
        (after-Gives backend OptionIsBounded
          (require_vtable_slot backend object facts.handler_slot facts.handler
            "chat message handler")
          _
          (λ _.
            after-Gives backend OptionIsBounded
              (pure backend (object_address backend object facts.channels 16)) _
              (λ sentinel.
                after-Gives backend OptionIsBounded (headers backend from_utf8 facts sentinel) _
                  (λ first. read_with-Gives sentinel cached first)))
          r)
        e
