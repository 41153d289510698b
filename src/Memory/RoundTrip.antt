-- ===== src/Memory/RoundTrip.antt =====
-- crates/provider-sdk/src/memory/record.rs and address.rs: fields hold what was written, and relative
-- addresses are those of signed arithmetic.
use mathlib.Core.Path.{subst}
use wf_observer.Common.{
  ℕ, ◌+◌, ◌≤◌, ◌<◌, ◌≡◌, refl, String, Option, none, some, List, ◌++◌, length, ltb, leb, u32_max,
  u64_max, checked_add, nat_eq, arith, Bool-cases, Option-cases, inl, inr, ◌⊎◌,
}
use wf_observer.Common.Attempt.{yields}
use wf_observer.Common.Maps.Laws.{beq_refl}
use wf_observer.Memory.Bytes.{
  to_le_bytes, get_range, get_range-append, length-to_le_bytes, from-to_le_bytes, capacity,
  checked_sub,
}
use wf_observer.Memory.Address.{Rva, rva, rip_target, add_signed, narrow}
use wf_observer.Memory.Record.{field, as_integer, integer}

-- An integer of any width that was written in little-endian order anywhere in a record, aligned or
-- not, is read back from its offset.
pub integer-to_le_bytes :
    (width v : ℕ) (before after : List ℕ) (at : String)
    → v < capacity width
    → length before + width ≤ u64_max
    → integer width
        (record { bytes = before ++ (to_le_bytes width v ++ after); at = at })
        (record { get = length before })
      ≡ yields v
unfolding integer field as_integer checked_add
integer-to_le_bytes width v before after at fits bound =
    let size = length-to_le_bytes width v in
    let found = get_range-append before (to_le_bytes width v) after in
    let ends : checked_add (length before) width ≡ some (length before + width) =
      ground (arith, bound) in
    rw (ends, integer, field)
      (rw
        (subst
          (λ n.
            get_range (before ++ (to_le_bytes width v ++ after)) (length before) (length before + n)
            ≡ some (to_le_bytes width v))
          size found)
        (rw (size, beq_refl width, from-to_le_bytes width v fits) refl))

narrow-value : (o : Option ℕ) (t : Rva) → narrow o ≡ some t → (o ≡ some t.get) × (t.get ≤ u32_max)
unfolding narrow
narrow-value none t e = cc e
narrow-value (some target) t e = elim (Bool-cases (leb target u32_max)) [
  | inl f ↦
      let same : some (rva target) ≡ some t = rw (f, narrow) at e in
      let value : target ≡ t.get = cc same in (rw value refl, ground (arith, value, f))
  | inr f ↦ cc (rw (f, narrow) at e)
]

-- The sum with a displacement, by its sign.
abbrev pub IsDisplaced : ℕ → ℕ → ℕ → Type 0
IsDisplaced next bits target =
    ((bits < 2147483648) × (target ≡ next + bits))
    ⊎ ((2147483648 ≤ bits) × (target + 4294967296 ≡ next + bits))

add_signed-value :
    (next bits target : ℕ)
    → bits ≤ u32_max
    → add_signed next bits ≡ some target
    → IsDisplaced next bits target
unfolding add_signed checked_add checked_sub
add_signed-value next bits target bound e = elim (Bool-cases (ltb bits 2147483648)) [
  | inl f ↦ inl (ground (arith, f), ground (arith, e, f))
  | inr f ↦ inr (ground (arith, f), ground (arith, e, f, bound))
]

-- A target that is found for a displacement in its four bytes is the address after the instruction
-- plus the displacement, taken as a signed integer of 32 bits, with no wrap at either end.
pub rip_target-value :
    (r t : Rva) (instruction_bytes bits : ℕ)
    → bits ≤ u32_max
    → rip_target r instruction_bytes (to_le_bytes 4 bits) ≡ some t
    → (t.get ≤ u32_max) × IsDisplaced (r.get + instruction_bytes) bits t.get
unfolding rip_target checked_add
rip_target-value r t k bits bound e =
    let size = length-to_le_bytes 4 bits in
    let value = from-to_le_bytes 4 bits (omega (arith, bound)) in
    elim (Option-cases (checked_add r.get k)) [
      | inl f ↦ cc (rw (size, f, rip_target) at e)
      | inr (next, f) ↦
          let found : narrow (add_signed next bits) ≡ some t =
            rw (size, f, value, rip_target) at e in
          let (added, narrow_bound) = narrow-value (add_signed next bits) t found in
          let same : next ≡ r.get + k = ground (arith, f) in
          (
            narrow_bound,
            subst (λ n. IsDisplaced n bits t.get) same
                (add_signed-value next bits t.get bound added),
          )
    ]
