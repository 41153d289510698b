-- ===== src/Common/Maps/Laws.antt =====
-- What the operations on maps keep, and what a lookup finds.
use mathlib.Core.Path.{◌≡◌, refl, subst, sym}
use mathlib.Core.Logic.{inl, inr}
use mathlib.Core.Bool.{Bool, true, false, not}
use mathlib.Core.Option.{none, some}
use mathlib.Core.List.{[], ◌∷◌}
use native.Mathlib.Omega.{arith}
use Prim.Native.Nat.{◌≤◌}
use wf_observer.Common.Tests.{if◌then◌else◌, Bool-cases}
use wf_observer.Common.Lists.{length}
use wf_observer.Common.Equality.{Eq, ◌==◌}
use wf_observer.Common.Maps.{
  Map, Order, Every, get, insert, remove, replace, place, retain, contains_key, map_values,
}

module _ {ℓ κ μ} {K : Type ℓ} {V : Type κ} (P : K → V → Type μ) where
  pub Every-retain : (keep : K → V → Bool) (m : Map K V) → Every P m → Every P (retain keep m)
  unfolding retain
  Every-retain keep [] h = tt
  Every-retain keep ((k, v) ∷ m) h = elim (Bool-cases (keep k v)) [
    | inl e ↦ rw e (h.0, Every-retain keep m h.1)
    | inr e ↦ rw e (Every-retain keep m h.1)
  ]

  pub Every-map {ν} :
      (Q : K → V → Type ν) (m : Map K V) → ((k : K) (v : V) → P k v → Q k v) → Every P m → Every Q m
  Every-map Q [] f h = tt
  Every-map Q ((k, v) ∷ m) f h = (f k v h.0, Every-map Q m f h.1)

  pub Every-map_values {ν} :
      (Q : K → V → Type ν) (f : V → V) (m : Map K V)
      → ((k : K) (v : V) → P k v → Q k (f v))
      → Every P m
      → Every Q (map_values f m)
  unfolding map_values
  Every-map_values Q f [] keep h = tt
  Every-map_values Q f ((k, v) ∷ m) keep h = (keep k v h.0, Every-map_values Q f m keep h.1)

module _ {ℓ κ} {K : Type ℓ} {V : Type κ} where
  pub length-retain-le : (keep : K → V → Bool) (m : Map K V) → length (retain keep m) ≤ length m
  unfolding retain
  length-retain-le keep [] = omega arith
  length-retain-le keep ((k, v) ∷ m) = ground (arith, length-retain-le keep m)

module _ {ℓ κ μ} {K : Type ℓ} {V : Type κ} ⦃e : Eq K⦄ (P : K → V → Type μ) where
  pub Every-get : (m : Map K V) (k : K) (v : V) → Every P m → get m k ≡ some v → P k v
  unfolding get
  Every-get [] k v h g = cc
  Every-get ((j, w) ∷ m) k v h g = elim (Bool-cases (j == k)) [
    | inl p ↦
        let here : w ≡ v = ground (arith, rw p at g) in
        subst (λ i. P i v) ((e.beq_iff j k).0 p) (subst (P j) here h.0)
    | inr p ↦ Every-get m k v h.1 (rw p at g)
  ]

  pub Every-replace : (m : Map K V) (k : K) (v : V) → P k v → Every P m → Every P (replace m k v)
  unfolding replace
  Every-replace [] k v p h = tt
  Every-replace ((j, w) ∷ m) k v p h = elim (Bool-cases (j == k)) [
    | inl q ↦ rw q (subst (λ i. P i v) (sym ((e.beq_iff j k).0 q)) p, h.1)
    | inr q ↦ rw q (h.0, Every-replace m k v p h.1)
  ]

module _ {ℓ κ μ} {K : Type ℓ} {V : Type κ} ⦃e : Eq K⦄ ⦃o : Order K⦄ (P : K → V → Type μ) where
  Every-place : (m : Map K V) (k : K) (v : V) → P k v → Every P m → Every P (place m k v)
  unfolding place
  Every-place [] k v p h = (p, tt)
  Every-place ((j, w) ∷ m) k v p h = elim (Bool-cases (o.before k j)) [
    | inl q ↦ rw q (p, (h.0, h.1))
    | inr q ↦ rw q (h.0, Every-place m k v p h.1)
  ]

  pub Every-insert : (m : Map K V) (k : K) (v : V) → P k v → Every P m → Every P (insert m k v)
  unfolding insert
  Every-insert m k v p h = elim (Bool-cases (contains_key m k)) [
    | inl q ↦ rw q (Every-replace P m k v p h)
    | inr q ↦ rw q (Every-place m k v p h)
  ]

module _ {ℓ κ} {K : Type ℓ} {V : Type κ} ⦃e : Eq K⦄ where
  pub get-replace :
      (m : Map K V) (k j : K) (v : V)
      → get (replace m k v) j
        ≡ (if k == j then (if contains_key m k then some v else none) else get m j)
  unfolding get replace contains_key
  get-replace [] k j v = elim (Bool-cases (k == j)) [ inl p ↦ rw p | inr p ↦ rw p ]
  get-replace ((i, w) ∷ m) k j v =
      ground (arith, e.beq_iff i k, e.beq_iff i j, e.beq_iff k j, get-replace m k j v)

  pub get-contains_key : (m : Map K V) (k : K) → contains_key m k ≡ false → get m k ≡ none
  unfolding get contains_key
  get-contains_key [] k h = refl
  get-contains_key ((i, w) ∷ m) k h = ground (arith, get-contains_key m k)

  pub contains_key-get : (m : Map K V) (k : K) (v : V) → get m k ≡ some v → contains_key m k ≡ true
  unfolding get contains_key
  contains_key-get [] k v h = cc
  contains_key-get ((i, w) ∷ m) k v h = ground (arith, contains_key-get m k v)

module _ {ℓ κ} {K : Type ℓ} {V : Type κ} ⦃e : Eq K⦄ ⦃o : Order K⦄ where
  get-place :
      (m : Map K V) (k j : K) (v : V)
      → contains_key m k ≡ false
      → get (place m k v) j ≡ (if k == j then some v else get m j)
  unfolding get place contains_key
  get-place [] k j v h = refl
  get-place ((i, w) ∷ m) k j v h =
      ground (arith, e.beq_iff i k, e.beq_iff i j, e.beq_iff k j, get-place m k j v)

  -- A lookup after an insertion.
  pub get-insert :
      (m : Map K V) (k j : K) (v : V) → get (insert m k v) j ≡ (if k == j then some v else get m j)
  unfolding insert
  get-insert m k j v = elim (Bool-cases (contains_key m k)) [
    | inl q ↦ rw (q, get-replace m k j v, q)
    | inr q ↦ rw (q, get-place m k j v q)
  ]

pub beq_refl {ℓ} : {K : Type ℓ} ⦃e : Eq K⦄ (k : K) → (k == k) ≡ true
beq_refl ⦃e⦄ k = (e.beq_iff k k).1 refl

-- No key stands twice.
abbrev pub Unique {ℓ κ} : {K : Type ℓ} {V : Type κ} ⦃e : Eq K⦄ → Map K V → Type 0
Unique [] = Unit
Unique ((k, v) ∷ m) = (contains_key m k ≡ false) × Unique m

module _ {ℓ κ} {K : Type ℓ} {V : Type κ} ⦃e : Eq K⦄ where
  contains_key-replace :
      (m : Map K V) (k j : K) (v : V) → contains_key (replace m k v) j ≡ contains_key m j
  unfolding contains_key replace
  contains_key-replace [] k j v = refl
  contains_key-replace ((i, w) ∷ m) k j v = ground (arith, contains_key-replace m k j v)

  Unique-replace : (m : Map K V) (k : K) (v : V) → Unique m → Unique (replace m k v)
  unfolding replace
  Unique-replace [] k v u = tt
  Unique-replace ((i, w) ∷ m) k v u =
      ground (arith, contains_key-replace m k i v, Unique-replace m k v u.1)

  -- The other keys of a map that has not the key.
  pub Every-other {μ} :
      (P : K → V → Type μ) (m : Map K V) (k : K)
      → contains_key m k ≡ false
      → Every P m
      → Every (λ j v. P j v × ((k == j) ≡ false)) m
  unfolding contains_key
  Every-other P [] k n h = tt
  Every-other P ((j, v) ∷ m) k n h =
      ((h.0, ground (arith, e.beq_iff j k, e.beq_iff k j)), Every-other P m k (ground arith) h.1)

module _ {ℓ κ} {K : Type ℓ} {V : Type κ} ⦃e : Eq K⦄ ⦃o : Order K⦄ where
  contains_key-place :
      (m : Map K V) (k j : K) (v : V)
      → contains_key (place m k v) j ≡ (if k == j then true else contains_key m j)
  unfolding contains_key place
  contains_key-place [] k j v = refl
  contains_key-place ((i, w) ∷ m) k j v = ground (arith, contains_key-place m k j v)

  Unique-place :
      (m : Map K V) (k : K) (v : V) → contains_key m k ≡ false → Unique m → Unique (place m k v)
  unfolding contains_key place
  Unique-place [] k v n u = (refl, tt)
  Unique-place ((i, w) ∷ m) k v n u = elim (Bool-cases (o.before k i)) [
    | inl q ↦ rw q (n, u)
    | inr q ↦ rw q (
      ground (arith, contains_key-place m k i v, e.beq_iff k i, e.beq_iff i k, u.0),
      Unique-place m k v (ground arith) u.1,
    )
  ]

  pub Unique-insert : (m : Map K V) (k : K) (v : V) → Unique m → Unique (insert m k v)
  unfolding insert
  Unique-insert m k v u = elim (Bool-cases (contains_key m k)) [
    | inl q ↦ rw q (Unique-replace m k v u)
    | inr q ↦ rw q (Unique-place m k v q u)
  ]

module _ {ℓ κ} {K : Type ℓ} {V : Type κ} ⦃e : Eq K⦄ where
  -- What is kept by its key is found as before, and nothing else is found.
  pub get-retain :
      (p : K → Bool) (m : Map K V) (j : K)
      → get (retain (λ k _. p k) m) j ≡ (if p j then get m j else none)
  unfolding get retain
  get-retain p [] j = elim (Bool-cases (p j)) [ inl q ↦ rw q | inr q ↦ rw q ]
  get-retain p ((i, w) ∷ m) j = elim (Bool-cases (i == j)) [
    | inl same ↦
        let here : i ≡ j = (e.beq_iff i j).0 same in
        elim (Bool-cases (p i)) [
          | inl q ↦ rw (q, get, same, subst (λ k. p k ≡ true) here q)
          | inr q ↦ rw (q, get-retain p m j, subst (λ k. p k ≡ false) here q)
        ]
    | inr other ↦ elim (Bool-cases (p i)) [
      | inl q ↦ rw (q, get, other, get-retain p m j)
      | inr q ↦ rw (q, get, other, get-retain p m j)
    ]
  ]

  pub get-remove : (m : Map K V) (k j : K) → get (remove m k) j ≡ (if j == k then none else get m j)
  unfolding remove
  get-remove m k j =
      rw (get-retain (λ (i : K). not (i == k)) m j)
        (elim (Bool-cases (j == k)) [ inl q ↦ rw q | inr q ↦ rw q ])
