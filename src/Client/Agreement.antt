-- ===== src/Client/Agreement.antt =====
-- What the service's transport/delivery.rs and the client's subscription/reader.rs agree on: the
-- snapshots that later ones are patches against.
use mathlib.Core.Path.{subst}
use wf_observer.Common.{
  ◌≡◌, refl, Bool, true, false, ◌==◌, nat_eq, Option, none, some, List, get, insert, remove, retain,
  contains, Bool-cases, Option-cases, inl, inr, Map, contains_key, replace,
}
use wf_observer.Common.Maps.Laws.{get-insert, get-remove, get-retain, get-replace, contains_key-get}
use wf_observer.Wire.{topic_source_eq, session_ref_eq, topic_ref_eq, DataEnvelope, TopicRef}
use wf_observer.Delta.{Json, SnapshotAck, hash_eq}
use wf_observer.Transport.Delivery.{
  Delivery, Baseline, SourceKey, source_key_eq, source_key_order, key_of, on_ack, acknowledge,
  acknowledges,
}
use wf_observer.Client.Reader.{Reader}

-- Each of the service's baselines is held by the reader, and is of a topic that is sent as patches.
abbrev pub Holds : List TopicRef → Map SourceKey Baseline → Map SourceKey DataEnvelope → Type 0
Holds topics baselines held =
    (k : SourceKey) (b : Baseline)
    → get baselines k ≡ some b
    → (get held k ≡ some b.snapshot) × (contains topics k.topic ≡ true)

-- The service and a reader that accepts patches agree.
pub record Agrees (d : Delivery) (r : Reader) : Type 0 where
  pub held : Holds d.topics d.baselines r.baselines
  pub deltas : r.deltas ≡ true

pub insert-Holds :
    (topics : List TopicRef) (baselines : Map SourceKey Baseline)
    (held : Map SourceKey DataEnvelope) (key : SourceKey) (b : Baseline)
    → contains topics key.topic ≡ true
    → Holds topics baselines held
    → Holds topics (insert baselines key b) (insert held key b.snapshot)
insert-Holds topics baselines held key b served h k c e = elim (Bool-cases (key == k)) [
  | inl same ↦
      let found : some b ≡ some c = rw (get-insert baselines key k b, same) at e in
      rw (get-insert held key k b.snapshot, same)
        (
          cc found,
          subst (λ i. contains topics i.topic ≡ true) ((source_key_eq.beq_iff key k).0 same) served,
        )
  | inr other ↦
      rw (get-insert held key k b.snapshot, other)
        (h k c (rw (get-insert baselines key k b, other) at e))
]

pub remove-Holds :
    (topics : List TopicRef) (baselines : Map SourceKey Baseline)
    (held : Map SourceKey DataEnvelope) (key : SourceKey)
    → Holds topics baselines held
    → Holds topics (remove baselines key) (remove held key)
remove-Holds topics baselines held key h k c e = elim (Bool-cases (k == key)) [
  | inl same ↦ cc (rw (get-remove baselines key k, same) at e)
  | inr other ↦
      rw (get-remove held key k, other) (h k c (rw (get-remove baselines key k, other) at e))
]

pub retain-Holds :
    (topics : List TopicRef) (baselines : Map SourceKey Baseline)
    (held : Map SourceKey DataEnvelope) (p : SourceKey → Bool)
    → Holds topics baselines held
    → Holds topics (retain (λ k _. p k) baselines) (retain (λ k _. p k) held)
retain-Holds topics baselines held p h k c e = elim (Bool-cases (p k)) [
  | inl kept ↦ rw (get-retain p held k, kept) (h k c (rw (get-retain p baselines k, kept) at e))
  | inr gone ↦ cc (rw (get-retain p baselines k, gone) at e)
]

-- A topic that is not sent as patches has no baseline to lose.
pub remove-other-Holds :
    (topics : List TopicRef) (baselines : Map SourceKey Baseline)
    (held : Map SourceKey DataEnvelope) (key : SourceKey)
    → contains topics key.topic ≡ false
    → Holds topics baselines held
    → Holds topics baselines (remove held key)
remove-other-Holds topics baselines held key unserved h k c e =
    let (found, served) = h k c e in
    elim (Bool-cases (k == key)) [
      | inl same ↦ cc (
        subst (λ i. contains topics i.topic ≡ true) ((source_key_eq.beq_iff k key).0 same) served,
        unserved,
      )
      | inr other ↦ rw (get-remove held key k, other) (found, served)
    ]

replace-Holds :
    (topics : List TopicRef) (baselines : Map SourceKey Baseline)
    (held : Map SourceKey DataEnvelope) (key : SourceKey) (b c : Baseline)
    → get baselines key ≡ some b
    → c.snapshot ≡ b.snapshot
    → Holds topics baselines held
    → Holds topics (replace baselines key c) held
replace-Holds topics baselines held key b c found same h k x e = elim (Bool-cases (key == k)) [
  | inr other ↦ h k x (rw (get-replace baselines key k c, other) at e)
  | inl here ↦
      let key_is_k = (source_key_eq.beq_iff key k).0 here in
      let (got, served) = h k b (subst (λ j. get baselines j ≡ some b) key_is_k found) in
      let there : contains_key baselines key ≡ true = contains_key-get baselines key b found in
      let is_c : some c ≡ some x = rw (get-replace baselines key k c, here, there) at e in
      let shown : x.snapshot ≡ b.snapshot = cc (is_c, same) in (rw shown got, served)
]

-- What the service makes of an acknowledgement leaves the two in agreement.
pub on_ack-Agrees :
    (json : Json) (d : Delivery) (r : Reader) (ack : Option SnapshotAck)
    → Agrees d r
    → Agrees (on_ack json d ack) r
unfolding on_ack acknowledge get contains
on_ack-Agrees json d r none agrees = record { held = λ k b e. cc e; deltas = agrees.deltas }
on_ack-Agrees json d r (some ack) agrees =
    elim (Option-cases (get d.baselines (key_of ack.metadata.source))) [
      | inl f ↦ rw (f, acknowledge) agrees
      | inr (b, f) ↦ elim (Bool-cases (acknowledges json b ack)) [
        | inr g ↦ rw (f, g, acknowledge) agrees
        | inl g ↦
            rw (f, g, acknowledge)
              (record {
                held =
                    replace-Holds d.topics d.baselines r.baselines (key_of ack.metadata.source) b
                      (record b { acknowledged = true }) f refl agrees.held;
                deltas = agrees.deltas;
              })
      ]
    ]
