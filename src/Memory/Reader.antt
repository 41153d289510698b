-- ===== src/Memory/Reader.antt =====
-- crates/provider-sdk/src/memory/reader.rs: reads with bounds and budgets. The memory is a parameter,
-- with a state of its own; a call gives its result, and the reader after it.
use wf_observer.Common.{
  ℕ, zero, suc, String, Bool, ◌||◌, Option, none, some, List, [], length, ltb, checked_add,
  if◌then◌else◌, ◌==◌, nat_eq,
}
use wf_observer.Common.Attempt.{Attempt, yields, fails}
use wf_observer.Memory.Bytes.{checked_sub, from_le_bytes}
use wf_observer.Memory.Address.{Rva, rva, ObjectOffset, VtableSlot}
use wf_observer.Memory.Record.{RecordError}

-- error.rs
pub data MemoryError : Type 0 where
  address_overflow : MemoryError
  invalid_target_range : ℕ → ℕ → MemoryError
  invalid_module_range : Rva → ℕ → MemoryError
  read : String → MemoryError

pub data ReadError : Type 0 where
  memory : MemoryError → ReadError
  layout_mismatch : String → ReadError
  invalid_data : String → ReadError
  not_ready : String → ReadError
  unstable : String → ReadError
  limit_exceeded : String → ReadError
  overflow : String → ReadError

-- impl From<RecordError> for ReadError
unfoldable pub from_record : RecordError → ReadError
from_record (RecordError.overflow at) = ReadError.overflow at
from_record (RecordError.out_of_bounds at) = ReadError.invalid_data at

-- coherence.rs: read_stable, where a read steps a state, and its values are compared by a test.
module _ {ℓ κ μ} {T : Type ℓ} {E : Type κ} {S : Type μ} (same : T → T → Bool)
    (acquire : S → Attempt E T × S) (changed : E) where
  abbrev pub second_read : T → Attempt E T × S → Attempt E T × S
  second_read a (fails error, s) = (fails error, s)
  second_read a (yields b, s) = (if same a b then yields b else fails changed, s)

  abbrev pub first_read : Attempt E T × S → Attempt E T × S
  first_read (fails error, s) = (fails error, s)
  first_read (yields a, s) = second_read a (acquire s)

  unfoldable pub read_stable : S → Attempt E T × S
  read_stable s = first_read (acquire s)

pub record ReadLimits : Type 0 where
  pub min_address : ℕ
  pub max_address : ℕ
  pub bytes : ℕ
  pub reads : ℕ

unfoldable pub validate_end : ReadLimits → ℕ → ℕ → Option ℕ → Attempt MemoryError (Unit {0})
validate_end limits address length none = fails MemoryError.address_overflow
validate_end limits address length (some last) =
    if ltb limits.max_address last
    then fails (MemoryError.invalid_target_range address length)
    else yields tt

-- ReadLimits::validate_range
unfoldable pub validate_range : ReadLimits → ℕ → ℕ → Attempt MemoryError (Unit {0})
unfolding validate_end
validate_range limits address zero = yields tt
validate_range limits address (suc n) =
    if ltb address limits.min_address || ltb limits.max_address address
    then fails (MemoryError.invalid_target_range address (suc n))
    else validate_end limits address (suc n) (checked_add address n)

-- memory_reader::ProcessMemory::read_into: the bytes, or the error's text.
pub record Backend : Type 1 where
  pub Memory : Type 0
  pub read_into : Memory → ℕ → ℕ → Attempt String (List ℕ) × Memory

pub record TargetReader (backend : Backend) : Type 0 where
  pub memory : backend.Memory
  pub module_base : ℕ
  pub image_size : ℕ
  pub limits : ReadLimits

abbrev pub as_read {ℓ} : {A : Type ℓ} → Attempt MemoryError A → Attempt ReadError A
as_read (yields value) = yields value
as_read (fails error) = fails (ReadError.memory error)

module _ (backend : Backend) where
  abbrev pub Reader : Type 0
  Reader = TargetReader backend

  abbrev pub Action : Type 0 → Type 0
  Action A = Reader → Attempt ReadError A × Reader

  -- What follows a call, which is nothing after an error.
  abbrev pub resume :
      {A : Type 0} {B : Type 0}
      → Attempt ReadError A × Reader
      → (A → Action B)
      → Attempt ReadError B × Reader
  resume (fails error, r) next = (fails error, r)
  resume (yields value, r) next = next value r

  infixl 5 ◌>>=◌
  abbrev pub ◌>>=◌ : {A : Type 0} {B : Type 0} → Action A → (A → Action B) → Action B
  m >>= next = λ r. resume (m r) next

  -- A call that does not read.
  abbrev pub pure : {A : Type 0} → (Reader → Attempt ReadError A) → Action A
  pure f = λ r. (f r, r)

  -- TargetReader::new
  unfoldable pub new : backend.Memory → ℕ → ℕ → ReadLimits → Attempt ReadError Reader
  unfolding validate_range
  new m base zero limits = fails (ReadError.memory (MemoryError.invalid_module_range (rva 0) 0))
  new m base (suc size) limits = elim (validate_range limits base (suc size)) [
    | fails error ↦ fails (ReadError.memory error)
    | yields _ ↦
        yields (record { memory = m; module_base = base; image_size = suc size; limits = limits })
  ]

  abbrev pub in_range : Reader → ℕ → ℕ → Attempt ReadError ℕ
  in_range r address length = elim (validate_range r.limits address length) [
    | fails error ↦ fails (ReadError.memory error)
    | yields _ ↦ yields address
  ]

  -- The address, if it did not overflow and its span is within the limits.
  abbrev pub at_range : Reader → Option ℕ → ℕ → Attempt ReadError ℕ
  at_range r none length = fails (ReadError.memory MemoryError.address_overflow)
  at_range r (some address) length = in_range r address length

  -- TargetReader::module_address
  unfoldable pub module_address : Rva → ℕ → Reader → Attempt ReadError ℕ
  unfolding validate_range
  module_address offset length r = elim (checked_add offset.get length) [
    | none ↦ fails (ReadError.memory MemoryError.address_overflow)
    | some end ↦
        if ltb r.image_size end
        then fails (ReadError.memory (MemoryError.invalid_module_range offset length))
        else at_range r (checked_add r.module_base offset.get) length
  ]

  -- TargetReader::object_address
  unfoldable pub object_address : ℕ → ObjectOffset → ℕ → Reader → Attempt ReadError ℕ
  unfolding validate_range
  object_address object offset length r = at_range r (checked_add object offset.get) length

  abbrev pub as_backend : Attempt String (List ℕ) → Attempt ReadError (List ℕ)
  as_backend (yields bytes) = yields bytes
  as_backend (fails error) = fails (ReadError.memory (MemoryError.read error))

  -- A read that the budgets admit.
  abbrev pub read_backend : ℕ → ℕ → ℕ → ℕ → Action (List ℕ)
  read_backend address length bytes reads r =
      let (result, m) = backend.read_into r.memory address length in
      (
        as_backend result,
        record r { memory = m; limits = record r.limits { bytes = bytes; reads = reads } },
      )

  -- TargetReader::read_unchecked
  unfoldable pub read_unchecked : ℕ → ℕ → Action (List ℕ)
  unfolding checked_sub
  read_unchecked address zero r = (yields [], r)
  read_unchecked address (suc n) r = elim (checked_sub r.limits.bytes (suc n)) [
    | none ↦ (fails (ReadError.limit_exceeded "acquisition byte budget"), r)
    | some bytes ↦ elim (checked_sub r.limits.reads 1) [
      | none ↦ (fails (ReadError.limit_exceeded "acquisition read budget"), r)
      | some reads ↦ read_backend address (suc n) bytes reads r
    ]
  ]

  -- TargetReader::read_module, read_module_array
  unfoldable pub read_module : Rva → ℕ → Action (List ℕ)
  unfolding module_address read_unchecked
  read_module offset length =
      pure (module_address offset length) >>= λ address. read_unchecked address length

  -- TargetReader::read_at, read_array
  unfoldable pub read_at : ℕ → ℕ → Action (List ℕ)
  unfolding validate_range read_unchecked
  read_at address length =
      pure (λ r. in_range r address length) >>= λ _. read_unchecked address length

  -- TargetReader::read_object_array
  unfoldable pub read_object_array : ℕ → ObjectOffset → ℕ → Action (List ℕ)
  unfolding object_address read_at
  read_object_array object offset length =
      pure (object_address object offset length) >>= λ address. read_at address length

  abbrev pub as_integer : List ℕ → Action ℕ
  as_integer bytes = pure (λ r. yields (from_le_bytes bytes))

  -- TargetReader::read_u8, read_u32, read_u64, by the width.
  unfoldable pub read_integer : ℕ → ℕ → Action ℕ
  unfolding read_at
  read_integer width address = read_at address width >>= as_integer

  -- TargetReader::read_object_u8, read_object_u32, read_object_u64
  unfoldable pub read_object_integer : ℕ → ℕ → ObjectOffset → Action ℕ
  unfolding read_object_array
  read_object_integer width object offset = read_object_array object offset width >>= as_integer

  -- TargetReader::read_vtable_slot_le64
  unfoldable pub read_vtable_slot : ℕ → VtableSlot → Action ℕ
  unfolding read_integer object_address
  read_vtable_slot object slot = read_integer 8 object >>= λ vtable.
      pure (object_address vtable (record { get = slot.get }) 8) >>= λ address.
      read_integer 8 address

  -- TargetReader::require_module_pointer
  unfoldable pub require_module_pointer : ℕ → Rva → String → Action (Unit {0})
  unfolding module_address
  require_module_pointer actual expected at = pure (module_address expected 1) >>= λ address.
      pure (λ r. if actual == address then yields tt else fails (ReadError.invalid_data at))

  -- TargetReader::require_vtable_slot_le64
  unfoldable pub require_vtable_slot : ℕ → VtableSlot → Rva → String → Action (Unit {0})
  unfolding read_vtable_slot require_module_pointer
  require_vtable_slot object slot expected at =
      read_vtable_slot object slot >>= λ actual. require_module_pointer actual expected at
