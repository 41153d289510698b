-- ===== src/Delta.antt =====
-- crates/protocol/src/v1/delta.rs and payload.rs: a snapshot sent whole or as a patch against the
-- one before it. JSON texts, JSON Patch and the hash are third-party code, given as a record.
use wf_observer.Common.{
  ℕ, String, Bool, true, false, not, ◌&&◌, Option, none, some, List, any, ltb, if◌then◌else◌, ◌==◌,
  nat_eq, Eq, derive_eq, string_eq, ◌≡◌,
}
use native.Mathlib.Decide.{ℕ_discrete}
use wf_observer.Common.Attempt.{Attempt, yields, fails, ◌>>=◌, ◌>>◌, require}
use wf_observer.Wire.{
  topic_source_eq, ServiceCursor, EnvelopeMetadata, DataEnvelope, JsonPayload, CapabilityHealth,
  TopicSnapshot, SnapshotPayload, SnapshotFrame, SubscriptionItem, SubscriptionUpdate,
}

-- json_patch::PatchOperation, of which only the kind is looked at.
pub data PatchKind : Type 0 where
  add remove replace move copy test : PatchKind

-- serde_json, json_patch and blake3, as far as they are called. `none` is an error.
pub record Json : Type 1 where
  pub Value : Type 0
  pub PatchOperation : Type 0
  pub parse : String → Option Value
  pub print : Value → Option String
  pub kind : PatchOperation → PatchKind
  pub parse_patch : String → Option (List PatchOperation)
  pub diff : Value → Value → Option String
  pub patch : List PatchOperation → Value → Option Value
  pub hash : String → List ℕ

pub record SnapshotAck : Type 0 where
  pub metadata : EnvelopeMetadata
  pub hash : List ℕ

unfoldable pub Hash-discrete : Discrete (List ℕ)
Hash-discrete = hlevel ℕ_discrete

instance abbrev pub hash_eq : Eq (List ℕ)
hash_eq = derive_eq Hash-discrete

-- The operations that the differ emits.
unfoldable pub is_plain : PatchKind → Bool
is_plain PatchKind.add = true
is_plain PatchKind.remove = true
is_plain PatchKind.replace = true
is_plain _ = false

abbrev pub try_or {ℓ} : {A : Type ℓ} → String → Option A → Attempt String A
try_or message none = fails message
try_or message (some value) = yields value

module _ (json : Json) where
  open json use {parse, print, kind, parse_patch, diff, patch, hash}

  unfoldable pub patch_from : JsonPayload → JsonPayload → Option JsonPayload
  patch_from target base = elim (parse base.text) [
    | none ↦ none
    | some before ↦ elim (parse target.text) [
      | none ↦ none
      | some after ↦ elim (diff before after) [
        | none ↦ none
        | some text ↦ some (record { text = text })
      ]
    ]
  ]

  unfoldable pub between : DataEnvelope → DataEnvelope → Option SnapshotPayload
  unfolding patch_from
  between base target = elim (patch_from target.payload base.payload) [
    | none ↦ none
    | some p ↦ some (SnapshotPayload.delta base.metadata.sequence (hash target.payload.text) p)
  ]

  -- Whether a snapshot is the baseline that a delta names.
  unfoldable pub is_base : EnvelopeMetadata → ℕ → DataEnvelope → Bool
  is_base metadata base_sequence base =
      base.metadata.source == metadata.source
      && base.metadata.generation == metadata.generation
      && base.metadata.sequence == base_sequence
      && ltb base_sequence metadata.sequence

  unfoldable pub find_base : EnvelopeMetadata → ℕ → Option DataEnvelope → Option DataEnvelope
  find_base metadata base_sequence none = none
  find_base metadata base_sequence (some base) =
      if is_base metadata base_sequence base then some base else none

  unfoldable pub apply_delta : DataEnvelope → List ℕ → JsonPayload → Attempt String JsonPayload
  unfolding is_plain
  apply_delta base expected p = do
    value ← try_or "invalid snapshot baseline" (parse base.payload.text)
    operations ← try_or "invalid snapshot patch" (parse_patch p.text)
    require (not (any (λ op. not (is_plain (kind op))) operations))
        "unsupported snapshot patch operation"
    patched ← try_or "snapshot patch failed" (patch operations value)
    text ← try_or "invalid patched snapshot" (print patched)
    require (hash text == expected) "snapshot delta hash mismatch"
    yields (record { text = text })

  unfoldable pub rebuild :
      EnvelopeMetadata → SnapshotPayload → Option DataEnvelope → Attempt String JsonPayload
  unfolding apply_delta find_base
  rebuild metadata (SnapshotPayload.full payload) base = yields payload
  rebuild metadata (SnapshotPayload.delta base_sequence expected p) base =
      try_or "snapshot delta baseline mismatch" (find_base metadata base_sequence base) >>= λ found.
      apply_delta found expected p

  unfoldable pub item_at : Option ServiceCursor → TopicSnapshot → SubscriptionItem
  item_at none topic = SubscriptionItem.topic topic
  item_at (some cursor) topic =
      SubscriptionItem.update
        (record { cursor = cursor; update = SubscriptionUpdate.topic_changed topic })

  unfoldable pub reconstruct : SnapshotFrame → Option DataEnvelope → Attempt String SubscriptionItem
  unfolding rebuild item_at
  reconstruct frame base = rebuild frame.metadata frame.payload base >>= λ payload. yields (
      item_at frame.cursor (record {
        source = frame.metadata.source;
        generation = frame.metadata.generation;
        health = CapabilityHealth.available;
        snapshot = some (record { metadata = frame.metadata; payload = payload });
      }))

-- What is relied on of json_patch: applying the difference of two values to the first gives the
-- second, and the difference, read back, holds only additions, removals and replacements.
pub record PatchLaws (json : Json) : Type 0 where
  pub patch-diff :
      (before after : json.Value) (text : String)
      → json.diff before after ≡ some text
      → (operations : List json.PatchOperation) × (json.parse_patch text ≡ some operations)
        × (any (λ op. not (is_plain (json.kind op))) operations ≡ false)
        × (json.patch operations before ≡ some after)

-- A text that serde_json would print.
pub record IsPrinted (json : Json) (payload : JsonPayload) : Type 0 where
  pub print-parse :
      (v : json.Value) → json.parse payload.text ≡ some v → json.print v ≡ some payload.text
