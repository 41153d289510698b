-- ===== src/Memory/Address.antt =====
-- crates/provider-sdk/src/memory/address.rs: addresses in a module and in an object.
use Prim.Native.Nat.{◌-◌}
use wf_observer.Common.{
  ℕ, Option, none, some, List, length, ltb, leb, u32_max, checked_add, if◌then◌else◌, ◌==◌, nat_eq,
}
use wf_observer.Memory.Bytes.{checked_add_u32, checked_sub, from_le_bytes}

pub record Rva : Type 0 where
  pub get : ℕ

pub record ObjectOffset : Type 0 where
  pub get : ℕ

pub record VtableSlot : Type 0 where
  pub get : ℕ

abbrev pub rva : ℕ → Rva
rva bytes = record { get = bytes }

-- Rva::checked_add
unfoldable pub add_rva : Rva → ℕ → Option Rva
unfolding checked_add_u32
add_rva r bytes = elim (checked_add_u32 r.get bytes) [ none ↦ none | some value ↦ some (rva value) ]

-- `checked_add_signed` of the i32 that has the bits of a number below 2^32.
unfoldable pub add_signed : ℕ → ℕ → Option ℕ
unfolding checked_add checked_sub
add_signed a bits =
    if ltb bits 2147483648 then checked_add a bits else checked_sub a (4294967296 - bits)

unfoldable pub narrow : Option ℕ → Option Rva
narrow none = none
narrow (some target) = if leb target u32_max then some (rva target) else none

-- Rva::rip_target
unfoldable pub rip_target : Rva → ℕ → List ℕ → Option Rva
unfolding checked_add add_signed narrow
rip_target r instruction_bytes displacement =
    if length displacement == 4
    then elim (checked_add r.get instruction_bytes) [
      | none ↦ none
      | some next ↦ narrow (add_signed next (from_le_bytes displacement))
    ]
    else none
