-- ===== src/Service/Staging.antt =====
-- crates/wf-observer-cli/src/service/batch.rs: what a provider's poll stages, whatever it publishes.
use Prim.Native.String.{len}
use wf_observer.Common.{
  All-last, ℕ, ◌+◌, ◌-◌, ◌≤◌, ◌≡◌, ◌≢◌, refl, String, true, false, Option, none, some, List, [],
  ◌∷◌, ◌++◌, ◌==◌, All, contains, arith, Bool-cases, Option-cases, inl, inr, Fallible, ltb, sum_by,
}
use wf_observer.Provider
use wf_observer.Provider.{ProviderManifest, CapabilityDescriptor}
use wf_observer.Wire.{TopicRef, topic_ref_eq, CapabilityHealth, JsonPayload}
use wf_observer.Service.Operation.{Operation, operation_key}
use wf_observer.Service.Batch
use wf_observer.Service.Batch.{Pending, max_batch_bytes, wire_health}
use wf_observer.Service.Invariant.Stage.{IsPublished}

-- No topic stands twice.
abbrev pub NoneTwice : List TopicRef → Type 0
NoneTwice [] = Unit
NoneTwice (k ∷ ks) = (contains ks k ≡ false) × NoneTwice ks

abbrev pub reset_keys : List Operation → List TopicRef
reset_keys [] = []
reset_keys (Operation.reset k ∷ ops) = k ∷ reset_keys ops
reset_keys (Operation.snapshot k p ∷ ops) = reset_keys ops
reset_keys (Operation.event k p ∷ ops) = reset_keys ops
reset_keys (Operation.health k h ∷ ops) = reset_keys ops

contains-append :
    (ks : List TopicRef) (k j : TopicRef)
    → contains ks j ≡ false
    → (k == j) ≡ false
    → contains (ks ++ (k ∷ [])) j ≡ false
unfolding contains
contains-append [] k j h n = ground arith
contains-append (x ∷ ks) k j h n = ground (arith, contains-append ks k j)

NoneTwice-append :
    (ks : List TopicRef) (k : TopicRef)
    → NoneTwice ks
    → contains ks k ≡ false
    → NoneTwice (ks ++ (k ∷ []))
unfolding contains
NoneTwice-append [] k h n = (refl, tt)
NoneTwice-append (x ∷ ks) k h n = (
  contains-append ks k x h.0 (ground (arith, topic_ref_eq.beq_iff k x, topic_ref_eq.beq_iff x k)),
  NoneTwice-append ks k h.1 (ground arith),
)

reset_keys-append-reset :
    (ops : List Operation) (k : TopicRef)
    → reset_keys (ops ++ (Operation.reset k ∷ [])) ≡ reset_keys ops ++ (k ∷ [])
reset_keys-append-reset [] k = refl
reset_keys-append-reset (Operation.reset j ∷ ops) k = rw (reset_keys-append-reset ops k)
reset_keys-append-reset (Operation.snapshot j p ∷ ops) k = reset_keys-append-reset ops k
reset_keys-append-reset (Operation.event j p ∷ ops) k = reset_keys-append-reset ops k
reset_keys-append-reset (Operation.health j h ∷ ops) k = reset_keys-append-reset ops k

reset_keys-append :
    (ops : List Operation) (op : Operation)
    → reset_keys (op ∷ []) ≡ []
    → reset_keys (ops ++ (op ∷ [])) ≡ reset_keys ops
reset_keys-append [] op e = e
reset_keys-append (Operation.reset j ∷ ops) op e = rw (reset_keys-append ops op e)
reset_keys-append (Operation.snapshot j p ∷ ops) op e = reset_keys-append ops op e
reset_keys-append (Operation.event j p ∷ ops) op e = reset_keys-append ops op e
reset_keys-append (Operation.health j h ∷ ops) op e = reset_keys-append ops op e

-- The health that a provider reports is available or unavailable.
abbrev pub IsReported : CapabilityHealth → Type 0
IsReported CapabilityHealth.available = Unit
IsReported (CapabilityHealth.unavailable reason) = Unit
IsReported health = ⊥

abbrev pub Reports : Operation → Type 0
Reports (Operation.health key health) = IsReported health
Reports op = Unit

wire_health-IsReported : (h : Provider.CapabilityHealth) → IsReported (wire_health h)
unfolding wire_health
wire_health-IsReported Provider.CapabilityHealth.available = tt
wire_health-IsReported (Provider.CapabilityHealth.unavailable reason) = tt

sum_by-last :
    (f : Operation → ℕ) (ops : List Operation) (op : Operation)
    → sum_by f (ops ++ (op ∷ [])) ≡ sum_by f ops + f op
unfolding sum_by
sum_by-last f [] op = omega arith
sum_by-last f (x ∷ ops) op = omega (arith, sum_by-last f ops op)

wire_health-IsPublished : (h : Provider.CapabilityHealth) → wire_health h ≢ CapabilityHealth.idle
unfolding wire_health
wire_health-IsPublished Provider.CapabilityHealth.available = λ e. ground arith
wire_health-IsPublished (Provider.CapabilityHealth.unavailable reason) = λ e. ground arith

-- A call of one of the sink's methods.
pub data Emission (Value : Type 0) : Type 0 where
  game_build : Option String → Emission Value
  reset : CapabilityDescriptor → Emission Value
  snapshot : CapabilityDescriptor → Value → Emission Value
  event : CapabilityDescriptor → Value → Emission Value
  update : CapabilityDescriptor → Provider.CapabilityHealth → Emission Value

le_of_not : (a b : ℕ) → ltb a b ≡ false → b ≤ a
le_of_not a b e = ground arith

module _ {Value : Type 0} (operation_size : ℕ) (to_text : Value → Option String)
    (manifest : ProviderManifest) where
  -- The operation is of a topic that the manifest declares.
  abbrev pub IsDeclared : TopicRef → Type 0
  IsDeclared key =
      (capability : CapabilityDescriptor) × (Batch.is_declared operation_size to_text manifest
          capability
        ≡ true)
      × (key ≡ Batch.topic_key operation_size to_text manifest capability)

  -- What an operation that is kept takes of the batch's limit: its payload's text or, for a health,
  -- a fixed size, the operation and its topic's names. A reset takes nothing.
  abbrev pub cost : Operation → ℕ
  cost (Operation.reset key) = 0
  cost (Operation.snapshot key payload) =
      len payload.text + operation_size + len key.provider_id + len key.topic
  cost (Operation.event key payload) =
      len payload.text + operation_size + len key.provider_id + len key.topic
  cost (Operation.health key health) = 1024 + operation_size + len key.provider_id + len key.topic

  -- What a batch holds: operations of declared topics that a provider can publish, no topic reset
  -- twice, and no more than the limit, of which each operation is counted.
  pub record PendingIsValid (p : Pending) : Type 0 where
    pub published : All IsPublished p.ops
    pub declared : All (λ op. IsDeclared (operation_key op)) p.ops
    pub reset_once : NoneTwice p.resets
    pub resets_kept : reset_keys p.ops ≡ p.resets
    pub reported : All Reports p.ops
    pub counted : p.bytes ≡ sum_by cost p.ops
    pub bounded : sum_by cost p.ops ≤ max_batch_bytes

  failed-IsValid : (p : Pending) → PendingIsValid p → PendingIsValid (record p { failed = true })
  failed-IsValid p h = record {
    published = h.published;
    declared = h.declared;
    reset_once = h.reset_once;
    resets_kept = h.resets_kept;
    reported = h.reported;
    counted = h.counted;
    bounded = h.bounded;
  }

  push-IsValid :
      (op : Operation) (size : ℕ) (p : Pending)
      → IsPublished op
      → IsDeclared (operation_key op)
      → reset_keys (op ∷ []) ≡ []
      → Reports op
      → cost op
        ≡ size + operation_size + len (operation_key op).provider_id + len (operation_key op).topic
      → PendingIsValid p
      → PendingIsValid (Batch.push operation_size to_text manifest op size p).0
  unfolding Batch.push
  push-IsValid op size p published declared no_reset reports costs h =
      let key = operation_key op in
      let bytes = size + operation_size + len key.provider_id + len key.topic in
      elim (Bool-cases (ltb (max_batch_bytes - p.bytes) bytes)) [
        | inl e ↦ rw (e, Batch.push) (failed-IsValid p h)
        | inr e ↦
            rw (e, Batch.push)
              (record {
                published = All-last IsPublished p.ops op h.published published;
                declared =
                    All-last (λ o. IsDeclared (operation_key o)) p.ops op h.declared declared;
                reset_once = h.reset_once;
                resets_kept = rw (reset_keys-append p.ops op no_reset, h.resets_kept);
                reported = All-last Reports p.ops op h.reported reports;
                counted = omega (arith, h.counted, costs, sum_by-last cost p.ops op);
                bounded = omega (
                  arith,
                  h.counted,
                  h.bounded,
                  costs,
                  sum_by-last cost p.ops op,
                  le_of_not (max_batch_bytes - p.bytes) bytes e,
                );
              })
      ]

  publish-IsValid :
      (op : JsonPayload → Operation) (text : Option String) (p : Pending)
      → ((payload : JsonPayload) → IsPublished (op payload))
      → ((payload : JsonPayload) → IsDeclared (operation_key (op payload)))
      → ((payload : JsonPayload) → reset_keys (op payload ∷ []) ≡ [])
      → ((payload : JsonPayload) → Reports (op payload))
      → ((payload : JsonPayload)
          → cost (op payload)
            ≡ len payload.text
              + operation_size
              + len (operation_key (op payload)).provider_id
              + len (operation_key (op payload)).topic)
      → PendingIsValid p
      → PendingIsValid (Batch.publish operation_size to_text manifest op text p).0
  unfolding Batch.publish
  publish-IsValid op none p published declared no_reset reports costs h = h
  publish-IsValid op (some text) p published declared no_reset reports costs h =
      push-IsValid _ (len text) p (published _) (declared _) (no_reset _) (reports _) (costs _) h

  -- A method fails for a capability that is not declared, and goes on with its key otherwise.
  keyed-IsValid :
      (rest : TopicRef → Pending → Pending × Fallible (Unit {0}))
      (capability : CapabilityDescriptor) (p : Pending)
      → PendingIsValid p
      → ((key : TopicRef) → IsDeclared key → PendingIsValid (rest key p).0)
      → PendingIsValid
          (Batch.keyed operation_size to_text manifest rest
            (Batch.key operation_size to_text manifest capability p)).0
  unfolding Batch.key Batch.reject
  keyed-IsValid rest capability p h go =
      elim (Bool-cases (Batch.is_declared operation_size to_text manifest capability)) [
        | inl e ↦ rw (e, Batch.key) (go _ (capability, e, refl))
        | inr e ↦ rw (e, Batch.key) (failed-IsValid p h)
      ]

  -- The batch after a call.
  unfoldable pub published_by : Emission Value → Pending → Pending
  published_by (Emission.game_build build) p =
      (Batch.game_build operation_size to_text manifest build p).0
  published_by (Emission.reset capability) p =
      (Batch.reset operation_size to_text manifest capability p).0
  published_by (Emission.snapshot capability value) p =
      (Batch.snapshot operation_size to_text manifest capability value p).0
  published_by (Emission.event capability value) p =
      (Batch.event operation_size to_text manifest capability value p).0
  published_by (Emission.update capability health) p =
      (Batch.update operation_size to_text manifest capability health p).0

  -- The batch after these calls, the last one first.
  unfoldable pub polled : List (Emission Value) → Pending
  polled [] = Batch.new
  polled (e ∷ es) = published_by e (polled es)

  reset-IsValid :
      (capability : CapabilityDescriptor) (p : Pending)
      → PendingIsValid p
      → PendingIsValid (Batch.reset operation_size to_text manifest capability p).0
  unfolding Batch.reset Batch.reset_at operation_key
  reset-IsValid capability p h =
      keyed-IsValid (Batch.reset_at operation_size to_text manifest) capability p h λ key declared.
        elim (Bool-cases (contains p.resets key)) [
          | inl e ↦ rw e (failed-IsValid p h)
          | inr e ↦ rw e (record {
            published = All-last IsPublished p.ops (Operation.reset key) h.published tt;
            declared =
                All-last (λ o. IsDeclared (operation_key o)) p.ops (Operation.reset key) h.declared
                  declared;
            reset_once = NoneTwice-append p.resets key h.reset_once e;
            resets_kept = rw (reset_keys-append-reset p.ops key, h.resets_kept);
            reported = All-last Reports p.ops (Operation.reset key) h.reported tt;
            counted = omega (arith, h.counted, sum_by-last cost p.ops (Operation.reset key));
            bounded = omega (arith, h.bounded, sum_by-last cost p.ops (Operation.reset key));
          })
        ]

  snapshot-IsValid :
      (capability : CapabilityDescriptor) (value : Value) (p : Pending)
      → PendingIsValid p
      → PendingIsValid (Batch.snapshot operation_size to_text manifest capability value p).0
  unfolding Batch.snapshot Batch.snapshot_at Batch.reject operation_key
  snapshot-IsValid capability value p h =
      keyed-IsValid (Batch.snapshot_at operation_size to_text manifest capability value) capability
        p h
        λ key declared. elim (Option-cases capability.snapshots) [
          | inl e ↦ rw e (failed-IsValid p h)
          | inr (d, e) ↦ rw e (
              publish-IsValid (Operation.snapshot key) (to_text value) p (λ _. tt) (λ _. declared)
                (λ _. refl) (λ _. tt) (λ _. refl) h)
        ]

  event-IsValid :
      (capability : CapabilityDescriptor) (value : Value) (p : Pending)
      → PendingIsValid p
      → PendingIsValid (Batch.event operation_size to_text manifest capability value p).0
  unfolding Batch.event Batch.event_at Batch.reject operation_key
  event-IsValid capability value p h =
      keyed-IsValid (Batch.event_at operation_size to_text manifest capability value) capability p h
        λ key declared. elim (Bool-cases capability.events) [
          | inr e ↦ rw e (failed-IsValid p h)
          | inl e ↦ rw e (
              publish-IsValid (Operation.event key) (to_text value) p (λ _. tt) (λ _. declared)
                (λ _. refl) (λ _. tt) (λ _. refl) h)
        ]

  update-IsValid :
      (capability : CapabilityDescriptor) (health : Provider.CapabilityHealth) (p : Pending)
      → PendingIsValid p
      → PendingIsValid (Batch.update operation_size to_text manifest capability health p).0
  unfolding Batch.update Batch.update_at operation_key
  update-IsValid capability health p h =
      keyed-IsValid (Batch.update_at operation_size to_text manifest health) capability p h
        λ key declared.
          push-IsValid (Operation.health key (wire_health health)) 1024 p
            (wire_health-IsPublished health) declared refl (wire_health-IsReported health) refl h

  game_build-IsValid :
      (build : Option String) (p : Pending)
      → PendingIsValid p
      → PendingIsValid (Batch.game_build operation_size to_text manifest build p).0
  unfolding Batch.game_build Batch.reject
  game_build-IsValid none p h = record {
    published = h.published;
    declared = h.declared;
    reset_once = h.reset_once;
    resets_kept = h.resets_kept;
    reported = h.reported;
    counted = h.counted;
    bounded = h.bounded;
  }
  game_build-IsValid (some build) p h = elim (Bool-cases (ltb 256 (len build))) [
    | inl e ↦ rw e (failed-IsValid p h)
    | inr e ↦ rw e (record {
      published = h.published;
      declared = h.declared;
      reset_once = h.reset_once;
      resets_kept = h.resets_kept;
      reported = h.reported;
      counted = h.counted;
      bounded = h.bounded;
    })
  ]

  published_by-IsValid :
      (e : Emission Value) (p : Pending) → PendingIsValid p → PendingIsValid (published_by e p)
  unfolding published_by
  published_by-IsValid (Emission.game_build build) p h = game_build-IsValid build p h
  published_by-IsValid (Emission.reset capability) p h = reset-IsValid capability p h
  published_by-IsValid (Emission.snapshot capability value) p h =
      snapshot-IsValid capability value p h
  published_by-IsValid (Emission.event capability value) p h = event-IsValid capability value p h
  published_by-IsValid (Emission.update capability health) p h =
      update-IsValid capability health p h

  -- Whatever a provider's poll publishes, the batch holds only operations of topics that its
  -- manifest declares, no health but available and unavailable and no topic reset twice, and what its
  -- operations take, with the sizes of all their texts, is what the batch counts and within its limit.
  pub polled-IsValid : (es : List (Emission Value)) → PendingIsValid (polled es)
  unfolding polled sum_by
  polled-IsValid [] = record {
    published = tt;
    declared = tt;
    reset_once = tt;
    resets_kept = refl;
    reported = tt;
    counted = refl;
    bounded = omega arith;
  }
  polled-IsValid (e ∷ es) = published_by-IsValid e (polled es) (polled-IsValid es)
