-- ===== src/Service/Queue.antt =====
-- crates/wf-observer-cli/src/service/queue.rs: the bounded queue of one subscription. Every method
-- runs under the queue's lock, so it is a function of the contents. `Notify` only wakes the reader.
pub mod Order
pub mod Bounds
use wf_observer.Common.{
  ℕ, ◌+◌, ◌-◌, Bool, true, false, ◌||◌, Option, none, some, List, [], ◌∷◌, ◌++◌, ltb, if◌then◌else◌,
  u64_max,
}
use wf_observer.Wire.{SubscriptionItem, SubscriptionEnd, Resource, ResyncReason}

-- `Contents`, with the limit that `Queue` holds beside it.
pub record Queue : Type 0 where
  pub initial : List SubscriptionItem
  pub updates : List (SubscriptionItem × ℕ)
  pub bytes : ℕ
  pub terminal : Option SubscriptionEnd
  pub completed : Bool
  pub message_bytes : ℕ

unfoldable pub new : ℕ → Queue
new message_bytes = record {
  initial = [];
  updates = [];
  bytes = 0;
  terminal = none;
  completed = false;
  message_bytes = message_bytes;
}

abbrev pub is_some {ℓ} : {A : Type ℓ} → Option A → Bool
is_some none = false
is_some (some _) = true

unfoldable pub ended : Queue → Bool
ended q = is_some q.terminal || q.completed

-- The first frame, if it is a `Begin`.
unfoldable pub unsent_begin : List SubscriptionItem → List SubscriptionItem
unsent_begin (SubscriptionItem.begin c ∷ rest) = SubscriptionItem.begin c ∷ []
unsent_begin _ = []

unfoldable pub discard : Queue → Queue
discard q = record q { initial = unsent_begin q.initial; updates = []; bytes = 0 }

-- The limit that an item of this size would break.
unfoldable pub exceeded : Queue → ℕ → Option Resource
exceeded q size =
    if ltb q.message_bytes size
    then some Resource.message_bytes
    else if ltb (q.message_bytes - q.bytes) size
    then some Resource.queued_bytes
    else none

unfoldable pub lag : Queue → Resource → Queue
unfolding discard
lag q resource =
    let kept = discard q in
    record kept { terminal = some (SubscriptionEnd.resync_required (ResyncReason.lagged resource)) }

unfoldable pub append : Queue → SubscriptionItem → ℕ → Queue
append q item size = record q { bytes = q.bytes + size; updates = q.updates ++ ((item, size) ∷ []) }

unfoldable pub unwrap_size : Option ℕ → ℕ
unwrap_size none = u64_max
unwrap_size (some n) = n

-- `item_size` stands for `postcard::experimental::serialized_size` of `Ok(item)`.
unfoldable pub offer : (SubscriptionItem → Option ℕ) → Queue → SubscriptionItem → Queue × Bool
unfolding ended exceeded lag append unwrap_size
offer item_size q item =
    if ended q
    then (q, false)
    else let size = unwrap_size (item_size item) in
      elim (exceeded q size) [
        | none ↦ (append q item size, true)
        | some resource ↦ (lag q resource, false)
      ]

unfoldable pub finish : Queue → SubscriptionEnd → Bool → Queue
unfolding ended discard
finish q end discards =
    if ended q
    then q
    else let kept = if discards then discard q else q in record kept { terminal = some end }

unfoldable pub set_initial : Queue → List SubscriptionItem → Queue
set_initial q frames = record q { initial = frames }

unfoldable pub pop_terminal :
    Queue → Option SubscriptionEnd → Option SubscriptionItem × Bool × Queue
pop_terminal q none = (none, q.completed, q)
pop_terminal q (some end) =
    (some (SubscriptionItem.closed end), false, record q { terminal = none; completed = true })

unfoldable pub pop_update :
    Queue → List (SubscriptionItem × ℕ) → Option SubscriptionItem × Bool × Queue
unfolding pop_terminal
pop_update q [] = pop_terminal q q.terminal
pop_update q ((item, bytes) ∷ rest) =
    (some item, false, record q { updates = rest; bytes = q.bytes - bytes })

unfoldable pub pop_initial : Queue → List SubscriptionItem → Option SubscriptionItem × Bool × Queue
unfolding pop_update
pop_initial q [] = pop_update q q.updates
pop_initial q (item ∷ rest) = (some item, false, record q { initial = rest })

-- The next item, whether the stream is complete, and the queue that is left.
unfoldable pub pop : Queue → Option SubscriptionItem × Bool × Queue
unfolding pop_initial
pop q = pop_initial q q.initial
