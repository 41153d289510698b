-- ===== src/Client/Buffer.antt =====
-- crates/wf-observer-sdk/src/subscription/listener.rs: the events that a listener holds are counted
-- exactly, and are within the budget.
use Prim.Native.Nat.{◌-◌}
use wf_observer.Common.{
  All-last, ℕ, ◌+◌, ◌≤◌, All, u64_max, ◌≡◌, refl, Bool, true, false, not, ◌||◌, Option, none, some,
  List, [], ◌∷◌, ◌++◌, filter, sum_by, ltb, arith, fold, fold_keeps, Bool-cases, Option-cases, inl,
  inr,
}
use wf_observer.Wire.{TopicRef, EventEnvelope}
use wf_observer.Common.Attempt.{fails}
use wf_observer.Client.Error.{ClientError}
use wf_observer.Client.Listener.{
  new, register, FeedState, Listener, Queue, Terminal, is_kept, size_of, size_or_max, on_state,
  on_event, finish, next, next_event,
}

-- The size that is kept with an event is that of its encoding or, where it has none, the greatest.
abbrev pub HasSize : Option ℕ → ℕ → Type 0
HasSize none size = size ≡ u64_max
HasSize (some n) size = size ≡ n

-- The size of an event is that of its encoding, and the bytes are those of all that are held, which
-- are within the budget; a closed queue holds none.
pub record BufferIsValid (event_size : EventEnvelope → Option ℕ) (budget : ℕ) (q : Queue)
    : Type 0 where
  pub sized : All (λ e. HasSize (event_size e.1) e.0) q.events
  pub counted : q.event_bytes ≡ sum_by size_of q.events
  pub within : q.event_bytes ≤ budget
  pub emptied : q.closed ≡ true → q.events ≡ []

sum_by-filter :
    (p : ℕ × EventEnvelope → Bool) (events : List (ℕ × EventEnvelope))
    → sum_by size_of (filter p events) + sum_by size_of (filter (λ e. not (p e)) events)
      ≡ sum_by size_of events
unfolding sum_by filter
sum_by-filter p [] = refl
sum_by-filter p (e ∷ events) = ground (arith, sum_by-filter p events)

sum_by-append :
    (xs ys : List (ℕ × EventEnvelope))
    → sum_by size_of (xs ++ ys) ≡ sum_by size_of xs + sum_by size_of ys
unfolding sum_by
sum_by-append [] ys = omega arith
sum_by-append (x ∷ xs) ys = omega (arith, sum_by-append xs ys)

size_or_max-HasSize :
    (event_size : EventEnvelope → Option ℕ) (e : EventEnvelope)
    → HasSize (event_size e) (size_or_max event_size e)
unfolding size_or_max
size_or_max-HasSize event_size e = elim (Option-cases (event_size e)) [
  | inl f ↦ rw (f, size_or_max) refl
  | inr (n, f) ↦ rw (f, size_or_max) refl
]

All-filter {ℓ κ} :
    {A : Type ℓ} (P : A → Type κ) (p : A → Bool) (xs : List A) → All P xs → All P (filter p xs)
unfolding filter
All-filter P p [] h = tt
All-filter P p (x ∷ xs) (h, hs) = elim (Bool-cases (p x)) [
  | inl e ↦ rw e (h, All-filter P p xs hs)
  | inr e ↦ rw e (All-filter P p xs hs)
]

module _ (event_size : EventEnvelope → Option ℕ) (budget : ℕ) where
  on_state-IsValid :
      (q : Queue) (topic : TopicRef) (s : FeedState)
      → BufferIsValid event_size budget q
      → BufferIsValid event_size budget (on_state q topic s)
  unfolding on_state
  on_state-IsValid q topic s v = elim (Bool-cases q.closed) [
    | inl f ↦ simp f v
    | inr f ↦ simp f (record {
      sized = All-filter (λ e. HasSize (event_size e.1) e.0) (is_kept topic s) q.events v.sized;
      counted = omega (arith, v.counted, sum_by-filter (is_kept topic s) q.events);
      within = omega (arith, v.within);
      emptied = λ e. cc e;
    })
  ]

  finish-IsValid :
      (q : Queue) (terminal : Option Terminal)
      → BufferIsValid event_size budget q
      → BufferIsValid event_size budget (finish q terminal).0
  unfolding finish sum_by
  finish-IsValid q terminal v = elim (Bool-cases q.closed) [
    | inl f ↦ simp f (record {
      sized = v.sized;
      counted = v.counted;
      within = v.within;
      emptied = λ _. v.emptied f;
    })
    | inr f ↦
        simp f (record { sized = tt; counted = refl; within = omega arith; emptied = λ e. refl })
  ]

  next_event-IsValid :
      (q : Queue) (events : List (ℕ × EventEnvelope))
      → q.events ≡ events
      → q.closed ≡ false
      → BufferIsValid event_size budget q
      → BufferIsValid event_size budget (next_event q events).1
  unfolding next_event sum_by
  next_event-IsValid q [] e f v = v
  next_event-IsValid q ((size, x) ∷ events) e f v =
      let counted : q.event_bytes ≡ size + sum_by size_of events = rw e at v.counted in
      let sized : All (λ x. HasSize (event_size x.1) x.0) ((size, x) ∷ events) = rw e at v.sized in
      record {
        sized = sized.1;
        counted = omega (arith, counted);
        within = omega (arith, v.within);
        emptied = λ g. cc (f, g);
      }

  next-IsValid :
      (q : Queue) → BufferIsValid event_size budget q → BufferIsValid event_size budget (next q).1
  unfolding next
  next-IsValid q v = elim (Option-cases q.terminal) [
    | inr (t, e) ↦
        let taken : BufferIsValid event_size budget (record q { terminal = none }) = record {
          sized = v.sized;
          counted = v.counted;
          within = v.within;
          emptied = v.emptied;
        } in
        ground (arith, e, taken)
    | inl e ↦ elim (Bool-cases q.closed) [
      | inl f ↦ ground (arith, e, f, v)
      | inr f ↦ elim (Bool-cases q.changed) [
        | inl g ↦
            let read : BufferIsValid event_size budget (record q { changed = false }) = record {
              sized = v.sized;
              counted = v.counted;
              within = v.within;
              emptied = v.emptied;
            } in
            ground (arith, e, f, g, read)
        | inr g ↦ ground (arith, e, f, g, next_event-IsValid q q.events refl f v)
      ]
    ]
  ]

  on_event-IsValid :
      (l : Listener) (e : EventEnvelope)
      → BufferIsValid event_size budget l.queue
      → BufferIsValid event_size budget (on_event event_size budget l e).0
  unfolding on_event sum_by
  on_event-IsValid l e v = elim (Bool-cases (not l.receive_events || l.queue.closed)) [
    | inl f ↦ simp f v
    | inr f ↦ elim (Bool-cases (ltb (budget - l.queue.event_bytes) (size_or_max event_size e))) [
      | inl g ↦ simp (f, g) (finish-IsValid l.queue (some (fails ClientError.lagged)) v)
      | inr g ↦
          simp (f, g)
            (record {
              sized =
                  All-last (λ x. HasSize (event_size x.1) x.0) l.queue.events
                    (size_or_max event_size e, e) v.sized (size_or_max-HasSize event_size e);
              counted = omega (
                arith,
                v.counted,
                sum_by-append l.queue.events ((size_or_max event_size e, e) ∷ []),
              );
              within = ground (arith, v.within, g);
              emptied =
                  λ c. let opened : l.queue.closed ≡ false = ground (arith, f) in cc (opened, c);
            })
    ]
  ]

-- What is done with a listener.
pub data Call : Type 0 where
  registers : ℕ → Call
  hears_state : TopicRef → FeedState → Call
  hears_event : EventEnvelope → Call
  finishes : Option Terminal → Call
  reads_next : Call

abbrev or_same : Queue → Option Queue → Queue
or_same q none = q
or_same q (some q') = q'

module _ (event_size : EventEnvelope → Option ℕ) (budget : ℕ) where
  unfoldable pub call : Listener → Call → Listener
  unfolding register on_state on_event finish next
  call l (Call.registers feed) = record l { queue = or_same l.queue (register l.queue feed) }
  call l (Call.hears_state topic s) = record l { queue = on_state l.queue topic s }
  call l (Call.hears_event e) = record l { queue = (on_event event_size budget l e).0 }
  call l (Call.finishes terminal) = record l { queue = (finish l.queue terminal).0 }
  call l Call.reads_next = record l { queue = (next l.queue).1 }

  call-IsValid :
      (l : Listener) (c : Call)
      → BufferIsValid event_size budget l.queue
      → BufferIsValid event_size budget (call l c).queue
  unfolding call register
  call-IsValid l (Call.registers feed) v = elim (Bool-cases l.queue.closed) [
    | inl f ↦ ground (arith, f, v)
    | inr f ↦
        let registered : BufferIsValid event_size budget
            (record l.queue { feeds = l.queue.feeds ++ (feed ∷ []) }) =
          record { sized = v.sized; counted = v.counted; within = v.within; emptied = v.emptied } in
        ground (arith, f, registered)
  ]
  call-IsValid l (Call.hears_state topic s) v = on_state-IsValid event_size budget l.queue topic s v
  call-IsValid l (Call.hears_event e) v = on_event-IsValid event_size budget l e v
  call-IsValid l (Call.finishes terminal) v = finish-IsValid event_size budget l.queue terminal v
  call-IsValid l Call.reads_next v = next-IsValid event_size budget l.queue v

  -- However a new listener is used, the bytes that it counts are the sizes of the encodings of
  -- the events that it holds, or the greatest where there is no encoding, and are within the budget;
  -- a closed one holds none.
  pub calls-IsValid :
      (receive_events : Bool) (calls : List Call)
      → BufferIsValid event_size budget (fold call (new receive_events) calls).queue
  unfolding new sum_by
  calls-IsValid receive_events calls =
      fold_keeps (λ l. BufferIsValid event_size budget l.queue) call call-IsValid
        (new receive_events) calls
        (record { sized = tt; counted = refl; within = omega arith; emptied = λ e. refl })
