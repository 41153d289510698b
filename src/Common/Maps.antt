-- ===== src/Common/Maps.antt =====
-- Rust's `BTreeMap`: an association list in key order. A write replaces the entry of a key that is
-- there, and otherwise places a new one before the first greater key.
pub mod Laws
use mathlib.Core.Bool.{Bool, true, false, not}
use mathlib.Core.Option.{Option, none, some}
use mathlib.Core.List.{List, [], ◌∷◌}
use Prim.Native.Nat.{ℕ, Ordering}
use Prim.Native.String.{String, compare}
use wf_observer.Common.Tests.{if◌then◌else◌, ltb}
use wf_observer.Common.Equality.{Eq, ◌==◌}

-- `a < b` of a derived or library `Ord`.
pub record Order {ℓ} (A : Type ℓ) : Type ℓ where
  pub before : A → A → Bool

abbrev pub string_before : String → String → Bool
string_before a b = elim (compare a b) [ Ordering.lt ↦ true | _ ↦ false ]

instance abbrev pub nat_order : Order ℕ
nat_order = record { before = ltb }

instance abbrev pub string_order : Order String
string_order = record { before = string_before }

abbrev pub Map {ℓ κ} : Type ℓ → Type κ → Type (ℓ ⊔ κ)
Map K V = List (K × V)

module _ {ℓ κ} {K : Type ℓ} {V : Type κ} where
  abbrev pub values : Map K V → List V
  values [] = []
  values ((k, v) ∷ m) = v ∷ values m

  abbrev pub keys : Map K V → List K
  keys [] = []
  keys ((k, v) ∷ m) = k ∷ keys m

  unfoldable pub retain : (K → V → Bool) → Map K V → Map K V
  retain keep [] = []
  retain keep ((k, v) ∷ m) = let rest = retain keep m in if keep k v then (k, v) ∷ rest else rest

  unfoldable pub map_values : (V → V) → Map K V → Map K V
  map_values f [] = []
  map_values f ((k, v) ∷ m) = (k, f v) ∷ map_values f m

  -- Every entry has the property.
  abbrev pub Every {μ} : (K → V → Type μ) → Map K V → Type μ
  Every P [] = Unit
  Every P ((k, v) ∷ m) = P k v × Every P m

module _ {ℓ κ} {K : Type ℓ} {V : Type κ} ⦃e : Eq K⦄ where
  unfoldable pub get : Map K V → K → Option V
  get [] k = none
  get ((j, v) ∷ m) k = if j == k then some v else get m k

  unfoldable pub contains_key : Map K V → K → Bool
  contains_key [] k = false
  contains_key ((j, v) ∷ m) k = if j == k then true else contains_key m k

  unfoldable pub remove : Map K V → K → Map K V
  remove m k = retain (λ j _. not (j == k)) m

  unfoldable pub replace : Map K V → K → V → Map K V
  replace [] k v = []
  replace ((j, w) ∷ m) k v = if j == k then (j, v) ∷ m else (j, w) ∷ replace m k v

module _ {ℓ κ} {K : Type ℓ} {V : Type κ} ⦃e : Eq K⦄ ⦃o : Order K⦄ where
  unfoldable pub place : Map K V → K → V → Map K V
  place [] k v = (k, v) ∷ []
  place ((j, w) ∷ m) k v = if o.before k j then (k, v) ∷ (j, w) ∷ m else (j, w) ∷ place m k v

  unfoldable pub insert : Map K V → K → V → Map K V
  unfolding contains_key replace place
  insert m k v = if contains_key m k then replace m k v else place m k v
