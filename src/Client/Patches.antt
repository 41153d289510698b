-- ===== src/Client/Patches.antt =====
-- A snapshot sent as a patch, protocol/src/v1/delta.rs, is put together again.
use wf_observer.Common.{
  ℕ, ◌<◌, ◌≡◌, refl, true, nat_eq, Option, none, some, get, arith, Bool-cases, Option-cases, ◌⊎◌,
  inl, inr,
}
use wf_observer.Common.Maps.Laws.{beq_refl}
use wf_observer.Common.Attempt.{yields}
use wf_observer.Wire.{
  topic_source_eq, session_ref_eq, topic_ref_eq, DataEnvelope, TopicSnapshot, SnapshotPayload,
  CapabilityHealth, JsonPayload,
}
use wf_observer.Delta.{
  Json, PatchLaws, IsPrinted, hash_eq, between, patch_from, rebuild, find_base, is_base,
  apply_delta,
}
use wf_observer.Transport.Delivery.{
  Delivery, Baseline, source_key_eq, source_key_order, key_of, choose_payload, is_usable, smaller,
}
use wf_observer.Client.Reader.{}

-- A snapshot is of its topic's state, as serde_json prints it, and later than the baseline.
pub record IsNext (json : Json) (d : Delivery) (topic : TopicSnapshot) (target : DataEnvelope)
    : Type 0 where
  pub available : topic.health ≡ CapabilityHealth.available
  pub source : target.metadata.source ≡ topic.source
  pub generation : target.metadata.generation ≡ topic.generation
  pub printed : IsPrinted json target.payload
  pub later :
      (b : Baseline)
      → get d.baselines (key_of topic.source) ≡ some b
      → b.snapshot.metadata.sequence < target.metadata.sequence

abbrev pub Follows : Json → Delivery → TopicSnapshot → Option DataEnvelope → Type 0
Follows json d topic none = Unit
Follows json d topic (some target) = IsNext json d topic target

module _ (json : Json) (laws : PatchLaws json) where
  apply-between :
      (base target : DataEnvelope) (p : JsonPayload)
      → patch_from json target.payload base.payload ≡ some p
      → IsPrinted json target.payload
      → apply_delta json base (json.hash target.payload.text) p ≡ yields target.payload
  unfolding patch_from apply_delta
  apply-between base target p e printed = elim (Option-cases (json.parse base.payload.text)) [
    | inl f ↦ cc (rw (f, patch_from) at e)
    | inr (before, f) ↦ elim (Option-cases (json.parse target.payload.text)) [
      | inl g ↦ cc (rw (f, g, patch_from) at e)
      | inr (after, g) ↦ elim (Option-cases (json.diff before after)) [
        | inl h ↦ cc (rw (f, g, h, patch_from) at e)
        | inr (text, h) ↦
            let (operations, read, plain, patched) = laws.patch-diff before after text h in
            let same : p ≡ record { text = text } = cc (rw (f, g, h, patch_from) at e) in
            rw (
              same,
              f,
              read,
              plain,
              patched,
              printed.print-parse after g,
              beq_refl (json.hash target.payload.text),
            )
      ]
    ]
  ]

  -- Equal as far as a delta is checked against its baseline.
  usable-is_base :
      (b : Baseline) (target : DataEnvelope)
      → is_usable json (λ _. none) b target ≡ true
      → b.snapshot.metadata.sequence < target.metadata.sequence
      → is_base json target.metadata b.snapshot.metadata.sequence b.snapshot ≡ true
  unfolding is_usable is_base
  usable-is_base b target e lt = ground (arith, beq_refl b.snapshot.metadata.sequence)

  module _ (payload_size : SnapshotPayload → Option ℕ) where
    full-or-delta :
        (patched : Option SnapshotPayload) (plain payload : SnapshotPayload)
        → smaller json payload_size patched plain ≡ some payload
        → (payload ≡ plain) ⊎ (patched ≡ some payload)
    unfolding smaller
    full-or-delta none plain payload e = inl (ground arith)
    full-or-delta (some p) plain payload e = ground arith

    rebuild-between :
        (b : Baseline) (target : DataEnvelope) (payload : SnapshotPayload)
        → is_usable json payload_size b target ≡ true
        → b.snapshot.metadata.sequence < target.metadata.sequence
        → IsPrinted json target.payload
        → between json b.snapshot target ≡ some payload
        → rebuild json target.metadata payload (some b.snapshot) ≡ yields target.payload
    unfolding between rebuild find_base is_usable
    rebuild-between b target payload usable lt printed e =
        elim (Option-cases (patch_from json target.payload b.snapshot.payload)) [
          | inl f ↦ cc (rw (f, between) at e)
          | inr (p, f) ↦
              let same : payload
                  ≡ SnapshotPayload.delta b.snapshot.metadata.sequence
                      (json.hash target.payload.text) p =
                cc (rw (f, between) at e) in
              rw (same, usable-is_base b target usable lt)
                (apply-between b.snapshot target p f printed)
        ]

    pub rebuild-choose_payload :
        (base : Option Baseline) (held : Option DataEnvelope) (target : DataEnvelope)
        (payload : SnapshotPayload)
        → ((b : Baseline)
            → base ≡ some b
            → (held ≡ some b.snapshot) × (b.snapshot.metadata.sequence < target.metadata.sequence))
        → IsPrinted json target.payload
        → choose_payload json payload_size base target ≡ some payload
        → rebuild json target.metadata payload held ≡ yields target.payload
    unfolding choose_payload rebuild
    rebuild-choose_payload none held target payload agree printed e =
        let same : payload ≡ SnapshotPayload.full target.payload = cc (e) in rw same
    rebuild-choose_payload (some b) held target payload agree printed e =
        elim (Bool-cases (is_usable json payload_size b target)) [
          | inr f ↦
              let same : payload ≡ SnapshotPayload.full target.payload =
                cc (rw (f, choose_payload) at e) in
              rw same
          | inl f ↦
              elim (full-or-delta (between json b.snapshot target)
                (SnapshotPayload.full target.payload) payload (rw (f, choose_payload) at e)) [
                  | inl same ↦ rw same
                  | inr found ↦
                      let (here, lt) = agree b refl in
                      rw here (rebuild-between b target payload f lt printed found)
                ]
        ]
