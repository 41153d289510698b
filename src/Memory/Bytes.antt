-- ===== src/Memory/Bytes.antt =====
-- Rust's slices of bytes and little-endian integers, with the checked sums of a width.
use Prim.Native.Nat.{◌-◌, ◌/◌, ◌%◌, ◌*◌}
use wf_observer.Common.{
  ℕ, zero, suc, ◌+◌, ◌<◌, ◌≡◌, refl, Bool, true, false, ◌&&◌, Option, none, some, List, [], ◌∷◌,
  ◌++◌, length, ltb, leb, length-append, u32_max, if◌then◌else◌, arith,
}

-- `u32::checked_add`
unfoldable pub checked_add_u32 : ℕ → ℕ → Option ℕ
checked_add_u32 a b = if leb (a + b) u32_max then some (a + b) else none

unfoldable pub checked_sub : ℕ → ℕ → Option ℕ
checked_sub a b = if ltb a b then none else some (a - b)

abbrev pub is_some {ℓ} : {A : Type ℓ} → Option A → Bool
is_some none = false
is_some (some a) = true

module _ {ℓ} {A : Type ℓ} where
  unfoldable pub take : ℕ → List A → List A
  take zero xs = []
  take (suc n) [] = []
  take (suc n) (x ∷ xs) = x ∷ take n xs

  unfoldable pub drop : ℕ → List A → List A
  drop zero xs = xs
  drop (suc n) [] = []
  drop (suc n) (x ∷ xs) = drop n xs

  -- `slice.get(start..end)`
  unfoldable pub get_range : List A → ℕ → ℕ → Option (List A)
  unfolding take drop
  get_range xs start end =
      if leb start end && leb end (length xs)
      then some (take (end - start) (drop start xs))
      else none

  pub take-append : (xs ys : List A) → take (length xs) (xs ++ ys) ≡ xs
  unfolding take
  take-append [] ys = refl
  take-append (x ∷ xs) ys = rw (take-append xs ys) refl

  pub drop-append : (xs ys : List A) → drop (length xs) (xs ++ ys) ≡ ys
  unfolding drop
  drop-append [] ys = refl
  drop-append (x ∷ xs) ys = drop-append xs ys

-- `from_le_bytes`
unfoldable pub from_le_bytes : List ℕ → ℕ
from_le_bytes [] = 0
from_le_bytes (b ∷ bs) = b + 256 * from_le_bytes bs

-- `to_le_bytes` of an integer of so many bytes.
unfoldable pub to_le_bytes : ℕ → ℕ → List ℕ
to_le_bytes zero v = []
to_le_bytes (suc k) v = v % 256 ∷ to_le_bytes k (v / 256)

pub length-to_le_bytes : (k v : ℕ) → length (to_le_bytes k v) ≡ k
unfolding to_le_bytes
length-to_le_bytes zero v = refl
length-to_le_bytes (suc k) v = rw (length-to_le_bytes k (v / 256)) refl

-- How many numbers so many bytes hold.
abbrev pub capacity : ℕ → ℕ
capacity zero = 1
capacity (suc k) = 256 * capacity k

pub from-to_le_bytes : (k v : ℕ) → v < capacity k → from_le_bytes (to_le_bytes k v) ≡ v
unfolding from_le_bytes to_le_bytes
from-to_le_bytes zero v lt = omega (arith, lt)
from-to_le_bytes (suc k) v lt =
    let rest : from_le_bytes (to_le_bytes k (v / 256)) ≡ v / 256 =
      from-to_le_bytes k (v / 256) (omega (arith, lt)) in
    omega (arith, rest)

-- The part of a list that stands at a position.
pub get_range-append :
    {A : Type 0} (before bytes after : List A)
    → get_range (before ++ (bytes ++ after)) (length before) (length before + length bytes)
      ≡ some bytes
unfolding get_range
get_range-append before bytes after =
    let dropped = drop-append before (bytes ++ after) in
    let taken = take-append bytes after in
    let count : length before + length bytes - length before ≡ length bytes = omega arith in
    let total = length-append before (bytes ++ after) in
    let rest = length-append bytes after in rw (count, dropped, taken) (ground (arith, total, rest))
