-- ===== src/Memory/Record.antt =====
-- crates/provider-sdk/src/memory/record.rs: the fields of a record that was read.
use wf_observer.Common.{
  ℕ, String, none, some, List, length, checked_add, if◌then◌else◌, ◌==◌, nat_eq,
}
use wf_observer.Common.Attempt.{Attempt, yields, fails, ◌>>=◌}
use wf_observer.Memory.Bytes.{get_range, from_le_bytes}
use wf_observer.Memory.Address.{ObjectOffset}

pub data RecordError : Type 0 where
  overflow : String → RecordError
  out_of_bounds : String → RecordError

pub record RecordView : Type 0 where
  pub bytes : List ℕ
  pub at : String

-- A `usize` has 64 bits, so that an offset always fits one.
unfoldable pub field : RecordView → ObjectOffset → ℕ → Attempt RecordError (List ℕ)
unfolding checked_add get_range
field view offset length = elim (checked_add offset.get length) [
  | none ↦ fails (RecordError.overflow view.at)
  | some end ↦ elim (get_range view.bytes offset.get end) [
    | none ↦ fails (RecordError.out_of_bounds view.at)
    | some bytes ↦ yields bytes
  ]
]

-- `try_into` of the bytes of an integer.
unfoldable pub as_integer : RecordView → ℕ → List ℕ → Attempt RecordError ℕ
as_integer view width bytes =
    if length bytes == width
    then yields (from_le_bytes bytes)
    else fails (RecordError.out_of_bounds view.at)

unfoldable pub integer : ℕ → RecordView → ObjectOffset → Attempt RecordError ℕ
unfolding field as_integer
integer width view offset = field view offset width >>= as_integer view width

-- RecordView::u16, u32, u64
unfoldable pub u16 : RecordView → ObjectOffset → Attempt RecordError ℕ
unfolding integer
u16 = integer 2

unfoldable pub u32 : RecordView → ObjectOffset → Attempt RecordError ℕ
unfolding integer
u32 = integer 4

unfoldable pub u64 : RecordView → ObjectOffset → Attempt RecordError ℕ
unfolding integer
u64 = integer 8
