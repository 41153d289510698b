-- ===== src/Service/Queue/Bounds.antt =====
-- crates/wf-observer-cli/src/service/queue.rs: the bytes that a queue counts.
use wf_observer.Common.{ℕ, ◌+◌, ◌≤◌, ◌≡◌, refl, Bool, List, [], ◌∷◌, ◌++◌, arith, Option}
use wf_observer.Wire.{SubscriptionItem, SubscriptionEnd}
use wf_observer.Service.Queue
use wf_observer.Service.Queue.{Queue, ended, exceeded, append, lag, discard, unwrap_size, is_some}

module _ (item_size : SubscriptionItem → Option ℕ) where
  -- The sizes of the updates, each as it was when it was offered.
  abbrev total : List (SubscriptionItem × ℕ) → ℕ
  total [] = 0
  total ((item, size) ∷ rest) = size + total rest

  abbrev Sized : List (SubscriptionItem × ℕ) → Type 0
  Sized [] = Unit
  Sized ((item, size) ∷ rest) = (size ≡ unwrap_size (item_size item)) × Sized rest

  -- The counter is the sum of the encoded sizes of the updates that wait, and within the limit.
  pub record QueueIsValid (q : Queue) : Type 0 where
    pub sized : Sized q.updates
    pub counted : q.bytes ≡ total q.updates
    pub bounded : q.bytes ≤ q.message_bytes

  total-append :
      (us : List (SubscriptionItem × ℕ)) (item : SubscriptionItem) (size : ℕ)
      → total (us ++ ((item, size) ∷ [])) ≡ total us + size
  total-append [] item size = omega arith
  total-append ((x, n) ∷ us) item size = omega (arith, total-append us item size)

  Sized-append :
      (us : List (SubscriptionItem × ℕ)) (item : SubscriptionItem)
      → Sized us
      → Sized (us ++ ((item, unwrap_size (item_size item)) ∷ []))
  Sized-append [] item h = (refl, tt)
  Sized-append ((x, n) ∷ us) item h = (h.0, Sized-append us item h.1)

  new-IsValid : (message_bytes : ℕ) → QueueIsValid (Queue.new message_bytes)
  unfolding Queue.new
  new-IsValid message_bytes = record { sized = tt; counted = refl; bounded = omega arith }

  offer-IsValid :
      (q : Queue) (item : SubscriptionItem)
      → QueueIsValid q
      → QueueIsValid (Queue.offer item_size q item).0
  unfolding Queue.offer append lag discard exceeded
  offer-IsValid q item h = ground (
    arith,
    total-append q.updates item (unwrap_size (item_size item)),
    Sized-append q.updates item h.sized,
  )

  finish-IsValid :
      (q : Queue) (end : SubscriptionEnd) (discards : Bool)
      → QueueIsValid q
      → QueueIsValid (Queue.finish q end discards)
  unfolding Queue.finish discard
  finish-IsValid q end discards h = ground arith

  pop-IsValid : (q : Queue) → QueueIsValid q → QueueIsValid (Queue.pop q).2
  unfolding Queue.pop Queue.pop_initial Queue.pop_update Queue.pop_terminal
  pop-IsValid q h = ground arith

-- A call of one of the queue's methods.
pub data Use : Type 0 where
  offer : SubscriptionItem → Use
  finish : SubscriptionEnd → Bool → Use
  set_initial : List SubscriptionItem → Use
  pop : Use

module _ (item_size : SubscriptionItem → Option ℕ) where
  unfoldable pub use_queue : Use → Queue → Queue
  use_queue (Use.offer item) q = (Queue.offer item_size q item).0
  use_queue (Use.finish end discards) q = Queue.finish q end discards
  use_queue (Use.set_initial frames) q = Queue.set_initial q frames
  use_queue Use.pop q = (Queue.pop q).2

  -- The queue after these calls, the last one first.
  unfoldable pub used : ℕ → List Use → Queue
  used message_bytes [] = Queue.new message_bytes
  used message_bytes (u ∷ us) = use_queue u (used message_bytes us)

  -- After any calls, the bytes that the queue counts are the encoded sizes of the updates that
  -- wait, and within the limit.
  pub used-IsValid :
      (message_bytes : ℕ) (us : List Use) → QueueIsValid item_size (used message_bytes us)
  unfolding used use_queue Queue.set_initial
  used-IsValid message_bytes [] = new-IsValid item_size message_bytes
  used-IsValid message_bytes (Use.offer item ∷ us) =
      offer-IsValid item_size _ item (used-IsValid message_bytes us)
  used-IsValid message_bytes (Use.finish end discards ∷ us) =
      finish-IsValid item_size _ end discards (used-IsValid message_bytes us)
  used-IsValid message_bytes (Use.set_initial frames ∷ us) =
      let h = used-IsValid message_bytes us in
      record { sized = h.sized; counted = h.counted; bounded = h.bounded }
  used-IsValid message_bytes (Use.pop ∷ us) =
      pop-IsValid item_size _ (used-IsValid message_bytes us)
