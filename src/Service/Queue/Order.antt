-- ===== src/Service/Queue/Order.antt =====
-- crates/wf-observer-cli/src/service/queue.rs: the queue as the sequence of what it still delivers.
use mathlib.Core.Path.{sym}
use wf_observer.Common.{
  ℕ, suc, zero, ◌≤◌, ◌≡◌, refl, Bool, true, false, Option, none, some, List, [], ◌∷◌, ◌++◌, arith,
  length, if◌then◌else◌, ◌⊎◌, inl, inr, Bool-cases, Option-cases,
}
use wf_observer.Wire.{SubscriptionItem, SubscriptionEnd, Resource, ResyncReason}
use wf_observer.Service.Queue.{
  Queue, offer, finish, pop, pop_initial, pop_update, pop_terminal, ended, exceeded, append,
  discard, unsent_begin, is_some, unwrap_size,
}

abbrev closing : Option SubscriptionEnd → List SubscriptionItem
closing none = []
closing (some end) = SubscriptionItem.closed end ∷ []

abbrev items : List (SubscriptionItem × ℕ) → List SubscriptionItem
items [] = []
items ((item, size) ∷ rest) = item ∷ items rest

-- What is still to be delivered, in its order.
abbrev pub contents : Queue → List SubscriptionItem
contents q = q.initial ++ (items q.updates ++ closing q.terminal)

abbrev pub first : List SubscriptionItem → Option SubscriptionItem
first [] = none
first (x ∷ xs) = some x

abbrev pub rest : List SubscriptionItem → List SubscriptionItem
rest [] = []
rest (x ∷ xs) = xs

-- What a pop does, case by case.
abbrev Pops : Queue → Type 0
Pops q = ((pop q).0 ≡ first (contents q)) × (contents (pop q).2 ≡ rest (contents q))

pop_cases :
    (initial : List SubscriptionItem) (updates : List (SubscriptionItem × ℕ)) (bytes : ℕ)
    (terminal : Option SubscriptionEnd) (completed : Bool) (message_bytes : ℕ)
    → Pops (record {
      initial = initial;
      updates = updates;
      bytes = bytes;
      terminal = terminal;
      completed = completed;
      message_bytes = message_bytes;
    })
unfolding pop pop_initial pop_update pop_terminal
pop_cases (x ∷ xs) updates bytes terminal completed message_bytes = (refl, refl)
pop_cases [] ((x, n) ∷ us) bytes terminal completed message_bytes = (refl, refl)
pop_cases [] [] bytes (some end) completed message_bytes = (refl, refl)
pop_cases [] [] bytes none completed message_bytes = (refl, refl)

-- A pop takes the first item of what the queue still delivers, and leaves the others.
pub pop-contents :
    (q : Queue) → ((pop q).0 ≡ first (contents q)) × (contents (pop q).2 ≡ rest (contents q))
pop-contents q = pop_cases q.initial q.updates q.bytes q.terminal q.completed q.message_bytes

-- The items that so many pops deliver.
abbrev pub delivered : ℕ → Queue → List SubscriptionItem
delivered zero q = []
delivered (suc n) q = elim (pop q).0 [ none ↦ [] | some item ↦ item ∷ delivered n (pop q).2 ]

-- As many pops as the queue has items deliver exactly its contents, in their order.
pub delivered-contents : (n : ℕ) (q : Queue) → length (contents q) ≤ n → delivered n q ≡ contents q
delivered-contents zero q le = sym (nothing (contents q) le)
  where
    nothing : (xs : List SubscriptionItem) → length xs ≤ zero → xs ≡ []
    nothing [] le = refl
    nothing (x ∷ xs) le = absurd (omega arith)
delivered-contents (suc n) q le =
    rw (delivered, (pop-contents q).0)
      (by_contents (contents q) refl (λ le. delivered-contents n (pop q).2 le))
  where
    by_contents :
        (xs : List SubscriptionItem)
        → contents q ≡ xs
        → (length (contents (pop q).2) ≤ n → delivered n (pop q).2 ≡ contents (pop q).2)
        → elim (first xs) [ none ↦ [] | some item ↦ item ∷ delivered n (pop q).2 ] ≡ xs
    by_contents [] e again = refl
    by_contents (x ∷ xs) e again =
        let left : contents (pop q).2 ≡ xs = rw ((pop-contents q).1, e) in
        rw (again (rw left (omega (arith, rw e at le))), left)

append_last :
    (xs : List SubscriptionItem) (us : List (SubscriptionItem × ℕ)) (item : SubscriptionItem)
    (size : ℕ)
    → xs ++ (items (us ++ ((item, size) ∷ [])) ++ []) ≡ (xs ++ (items us ++ [])) ++ (item ∷ [])
append_last [] [] item size = refl
append_last [] ((x, n) ∷ us) item size = rw (append_last [] us item size)
append_last (x ∷ xs) us item size = rw (append_last xs us item size)

live-terminal : (q : Queue) → ended q ≡ false → q.terminal ≡ none
unfolding ended
live-terminal q e = ground (arith, by_cases q.terminal)
  where
    by_cases : (t : Option SubscriptionEnd) → is_some t ≡ false → t ≡ none
    by_cases none e = refl
    by_cases (some end) e = cc

append-contents :
    (q : Queue) (item : SubscriptionItem) (size : ℕ)
    → q.terminal ≡ none
    → contents (append q item size) ≡ contents q ++ (item ∷ [])
unfolding append
append-contents q item size e = rw e (append_last q.initial q.updates item size)

-- How an offer may end: the item is the last of the contents, or the queue had ended and stays as
-- it is, or the contents are cut to an unsent `Begin` and the notice of the limit that broke.
abbrev pub Offers : (SubscriptionItem → Option ℕ) → Queue → SubscriptionItem → Type 0
Offers item_size q item =
    ((offer item_size q item).1 ≡ true)
      × (contents (offer item_size q item).0 ≡ contents q ++ (item ∷ []))
    ⊎ ((offer item_size q item).1 ≡ false)
      × (((ended q ≡ true) × ((offer item_size q item).0 ≡ q))
          ⊎ ((limit : Resource) × (exceeded q (unwrap_size (item_size item)) ≡ some limit)
              × (contents (offer item_size q item).0
                  ≡ unsent_begin q.initial
                    ++ (SubscriptionItem.closed
                          (SubscriptionEnd.resync_required (ResyncReason.lagged limit))
                        ∷ []))))

-- An offered item becomes the last of the contents and the answer is true; or the answer is false,
-- and the queue had ended and is unchanged, or the item's size breaks a limit and the contents are
-- cut to an unsent `Begin` and the notice of that limit.
pub offer-contents :
    (item_size : SubscriptionItem → Option ℕ) (q : Queue) (item : SubscriptionItem)
    → Offers item_size q item
unfolding offer
offer-contents item_size q item = elim (Bool-cases (ended q)) [
  | inl e ↦ rw e (inr (refl, inl (refl, refl)))
  | inr e ↦ elim (Option-cases (exceeded q (unwrap_size (item_size item)))) [
    | inl f ↦ rw (e, f) (inl (refl, append-contents q item _ (live-terminal q e)))
    | inr (limit, f) ↦ rw (e, f) (inr (refl, inr (limit, refl, refl)))
  ]
]

closed_last :
    (q : Queue) (end : SubscriptionEnd) (b : Bool)
    → q.terminal ≡ none
    → contents (record (if b then discard q else q) { terminal = some end })
      ≡ (if b then unsent_begin q.initial else contents q) ++ (SubscriptionItem.closed end ∷ [])
unfolding discard
closed_last q end true e = refl
closed_last q end false e = rw e (by_lists q.initial q.updates)
  where
    by_lists :
        (xs : List SubscriptionItem) (us : List (SubscriptionItem × ℕ))
        → xs ++ (items us ++ (SubscriptionItem.closed end ∷ []))
          ≡ (xs ++ (items us ++ [])) ++ (SubscriptionItem.closed end ∷ [])
    by_lists [] [] = refl
    by_lists [] ((x, n) ∷ us) = rw (by_lists [] us)
    by_lists (x ∷ xs) us = rw (by_lists xs us)

-- How a stream may be finished.
abbrev pub Finishes : Queue → SubscriptionEnd → Bool → Type 0
Finishes q end discards =
    ((ended q ≡ true) × (finish q end discards ≡ q))
    ⊎ ((ended q ≡ false)
        × (contents (finish q end discards)
            ≡ (if discards then unsent_begin q.initial else contents q)
              ++ (SubscriptionItem.closed end ∷ [])))

-- The end of a stream that is still open comes after everything that the queue delivers, or, where
-- the end discards, after an unsent `Begin` only; a stream that has ended stays as it is.
pub finish-contents :
    (q : Queue) (end : SubscriptionEnd) (discards : Bool) → Finishes q end discards
unfolding finish discard
finish-contents q end discards = elim (Bool-cases (ended q)) [
  | inl e ↦ rw e (inl (refl, refl))
  | inr e ↦ rw e (inr (refl, closed_last q end discards (live-terminal q e)))
]
