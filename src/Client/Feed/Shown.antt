-- ===== src/Client/Feed/Shown.antt =====
-- crates/wf-observer-sdk/src/subscription/feed.rs: what the listeners of a feed are shown.
use mathlib.Core.Path.{subst, sym, ◌∙◌}
use wf_observer.Common.{
  ℕ, ◌≡◌, refl, insert, replace, true, false, some, List, [], ◌∷◌, fold, fold_keeps, contains, get,
  ◌==◌, nat_eq, arith, Bool-cases, Option-cases, inl, inr,
}
use wf_observer.Common.Maps.Laws.{get-replace, get-insert, contains_key-get, beq_refl}
use wf_observer.Wire.{topic_ref_eq, topic_ref_order, TopicRef}
use wf_observer.Client.Listener.{FeedState, Listener, Queue, on_state}
use wf_observer.Client.Feed.{Feed, Store, show_state, show_feed, publish_state, put, change}

-- A listener that is open, and one that also has a feed's state for the topic and is to read it.
pub record IsOpen (store : Store) (l : ℕ) : Type 0 where
  pub listener : Listener
  pub found : get store.listeners l ≡ some listener
  pub opened : listener.queue.closed ≡ false

pub record IsShown (topic : TopicRef) (s : FeedState) (store : Store) (l : ℕ) : Type 0 where
  pub listener : Listener
  pub found : get store.listeners l ≡ some listener
  pub opened : listener.queue.closed ≡ false
  pub latest : get listener.queue.states topic ≡ some s
  pub changed : listener.queue.changed ≡ true

module _ (topic : TopicRef) (s : FeedState) where
  -- The queue after it hears of the state.
  on_state-shows :
      (q : Queue)
      → q.closed ≡ false
      → ((on_state q topic s).closed ≡ false)
        × (get (on_state q topic s).states topic ≡ some s)
        × ((on_state q topic s).changed ≡ true)
  unfolding on_state
  on_state-shows q opened =
      let written : get (insert q.states topic s) topic ≡ some s =
        rw (get-insert q.states topic topic s, beq_refl topic) refl in
      simp opened (refl, written, refl)

  -- What the listener of a number reads after the state is shown to it.
  shown_listener :
      (store : Store) (l : ℕ) (x : Listener)
      → get store.listeners l ≡ some x
      → get (show_state topic s store l).listeners l
        ≡ some (record x { queue = on_state x.queue topic s })
  unfolding show_state
  shown_listener store l x e =
      rw (e, show_state)
        (rw
          (
            get-replace store.listeners l l (record x { queue = on_state x.queue topic s }),
            beq_refl l,
            contains_key-get store.listeners l x e,
          )
          refl)

  show_state-IsShown :
      (store : Store) (l : ℕ) → IsOpen store l → IsShown topic s (show_state topic s store l) l
  show_state-IsShown store l o =
      let (opened, latest, changed) = on_state-shows o.listener.queue o.opened in
      record {
        listener = record o.listener { queue = on_state o.listener.queue topic s };
        found = shown_listener store l o.listener o.found;
        opened = opened;
        latest = latest;
        changed = changed;
      }

  other_listener :
      (store : Store) (j l : ℕ)
      → (j == l) ≡ false
      → get (show_state topic s store j).listeners l ≡ get store.listeners l
  unfolding show_state
  other_listener store j l other = elim (Option-cases (get store.listeners j)) [
    | inl f ↦ rw (f, show_state) refl
    | inr (x, f) ↦
        rw (f, show_state)
          (rw
            (get-replace store.listeners j l (record x { queue = on_state x.queue topic s }), other)
            refl)
  ]

  as-IsOpen : (store : Store) (l : ℕ) → IsShown topic s store l → IsOpen store l
  as-IsOpen store l h = record { listener = h.listener; found = h.found; opened = h.opened }

  -- Showing the state to a listener leaves another open, or shown.
  step-IsOpen : (store : Store) (j l : ℕ) → IsOpen store l → IsOpen (show_state topic s store j) l
  step-IsOpen store j l o = elim (Bool-cases (j == l)) [
    | inl here ↦
        subst (λ i. IsOpen (show_state topic s store i) l) (sym ((nat_eq.beq_iff j l).0 here))
          (as-IsOpen (show_state topic s store l) l (show_state-IsShown store l o))
    | inr other ↦ record {
      listener = o.listener;
      found = other_listener store j l other ∙ o.found;
      opened = o.opened;
    }
  ]

  step-IsShown :
      (store : Store) (j l : ℕ)
      → IsShown topic s store l
      → IsShown topic s (show_state topic s store j) l
  step-IsShown store j l h = elim (Bool-cases (j == l)) [
    | inl here ↦
        subst (λ i. IsShown topic s (show_state topic s store i) l)
          (sym ((nat_eq.beq_iff j l).0 here)) (show_state-IsShown store l (as-IsOpen store l h))
    | inr other ↦ record {
      listener = h.listener;
      found = other_listener store j l other ∙ h.found;
      opened = h.opened;
      latest = h.latest;
      changed = h.changed;
    }
  ]

  all-IsShown :
      (store : Store) (ls : List ℕ) (l : ℕ)
      → contains ls l ≡ true
      → IsOpen store l
      → IsShown topic s (fold (show_state topic s) store ls) l
  unfolding fold contains
  all-IsShown store [] l among o = cc among
  all-IsShown store (j ∷ ls) l among o = elim (Bool-cases (j == l)) [
    | inl here ↦
        fold_keeps (λ st. IsShown topic s st l) (show_state topic s)
          (λ st i h. step-IsShown st i l h) (show_state topic s store j) ls
          (subst (λ i. IsShown topic s (show_state topic s store i) l)
            (sym ((nat_eq.beq_iff j l).0 here)) (show_state-IsShown store l o))
    | inr other ↦
        all-IsShown (show_state topic s store j) ls l (rw (other, contains) at among)
          (step-IsOpen store j l o)
  ]

-- After a change of a feed that is ready, each of its open listeners is to read the feed's new state
-- of its topic.
pub change-IsShown :
    (store : Store) (feed l : ℕ) (f : Feed) (topic : TopicRef) (rest : List TopicRef)
    (update : FeedState → FeedState)
    → get store.feeds feed ≡ some f
    → f.selection.topics ≡ topic ∷ rest
    → f.ready ≡ true
    → contains f.listeners l ≡ true
    → IsOpen store l
    → IsShown topic (update f.current) (change store feed update) l
unfolding change put publish_state show_feed
change-IsShown store feed l f topic rest update found selected ready among o =
    let changed = record store {
      feeds = replace store.feeds feed (record f { current = update f.current });
    } in
    let shown : IsShown topic (update f.current)
        (fold (show_state topic (update f.current)) changed f.listeners) l =
      all-IsShown topic (update f.current) changed f.listeners l among
        (record { listener = o.listener; found = o.found; opened = o.opened }) in
    rw (found, change) (ground (arith, selected, ready, shown))
