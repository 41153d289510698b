-- ===== src/Common/Lists.antt =====
-- Iterator adapters over lists with Boolean tests, and lists measured by native numbers.
use Prim.Native.Nat.{ℕ, suc, ◌+◌, ◌≤◌}
use mathlib.Core.Path.{refl, ap, ◌≡◌}
use mathlib.Core.Logic.{inl, inr}
use mathlib.Core.Bool.{Bool, true, false, ◌&&◌, ◌||◌}
use mathlib.Core.Option.{Option, none, some}
use mathlib.Core.List.{List, [], ◌∷◌, ◌++◌}
use native.Mathlib.Omega.{arith}
use wf_observer.Common.Tests.{if◌then◌else◌, Option-cases}
use wf_observer.Common.Equality.{Eq, ◌==◌}

module _ {ℓ} {A : Type ℓ} where
  abbrev pub length : List A → ℕ
  length [] = 0
  length (x ∷ xs) = suc (length xs)

  unfoldable pub any : (A → Bool) → List A → Bool
  any p [] = false
  any p (x ∷ xs) = p x || any p xs

  unfoldable pub all : (A → Bool) → List A → Bool
  all p [] = true
  all p (x ∷ xs) = p x && all p xs

  unfoldable pub find : (A → Bool) → List A → Option A
  find p [] = none
  find p (x ∷ xs) = if p x then some x else find p xs

  unfoldable pub filter : (A → Bool) → List A → List A
  filter p [] = []
  filter p (x ∷ xs) = let rest = filter p xs in if p x then x ∷ rest else rest

  unfoldable pub sum_by : (A → ℕ) → List A → ℕ
  sum_by f [] = 0
  sum_by f (x ∷ xs) = f x + sum_by f xs

  abbrev pub All {κ} : (A → Type κ) → List A → Type κ
  All P [] = Unit
  All P (x ∷ xs) = P x × All P xs

  pub append_nil : (xs : List A) → xs ++ [] ≡ xs
  append_nil [] = refl
  append_nil (x ∷ xs) = ap (λ ys. x ∷ ys) (append_nil xs)

  pub append_assoc : (xs ys zs : List A) → (xs ++ ys) ++ zs ≡ xs ++ (ys ++ zs)
  append_assoc [] ys zs = refl
  append_assoc (x ∷ xs) ys zs = ap (λ l. x ∷ l) (append_assoc xs ys zs)

  pub All-last {κ} :
      (P : A → Type κ) (xs : List A) (x : A) → All P xs → P x → All P (xs ++ (x ∷ []))
  All-last P [] x h p = (p, tt)
  All-last P (y ∷ ys) x (h, hs) p = (h, All-last P ys x hs p)

  pub length-append : (xs ys : List A) → length (xs ++ ys) ≡ length xs + length ys
  length-append [] ys = omega arith
  length-append (x ∷ xs) ys = omega (arith, length-append xs ys)

  pub length-filter-le : (p : A → Bool) (xs : List A) → length (filter p xs) ≤ length xs
  unfolding filter
  length-filter-le p [] = omega arith
  length-filter-le p (x ∷ xs) = ground (arith, length-filter-le p xs)

module _ {ℓ κ} {A : Type ℓ} {B : Type κ} where
  unfoldable pub filter_map : (A → Option B) → List A → List B
  filter_map f [] = []
  filter_map f (x ∷ xs) =
      let rest = filter_map f xs in elim (f x) [ none ↦ rest | some b ↦ b ∷ rest ]

  -- A loop over a list that carries a state.
  unfoldable pub fold : (B → A → B) → B → List A → B
  fold f s [] = s
  fold f s (x ∷ xs) = fold f (f s x) xs

  -- What every step keeps, the loop keeps.
  pub fold_keeps {μ} :
      (P : B → Type μ) (f : B → A → B)
      → ((s : B) (x : A) → P s → P (f s x))
      → (s : B) (xs : List A) → P s
      → P (fold f s xs)
  unfolding fold
  fold_keeps P f step s [] h = h
  fold_keeps P f step s (x ∷ xs) h = fold_keeps P f step (f s x) xs (step s x h)

module _ {ℓ} {A : Type ℓ} ⦃e : Eq A⦄ where
  unfoldable pub contains : List A → A → Bool
  contains [] a = false
  contains (x ∷ xs) a = if x == a then true else contains xs a

module _ {ℓ κ} {A : Type ℓ} {B : Type κ} where
  pub All-filter_map {μ} :
      (P : B → Type μ) (f : A → Option B) (xs : List A)
      → ((x : A) (b : B) → f x ≡ some b → P b)
      → All P (filter_map f xs)
  unfolding filter_map
  All-filter_map P f [] h = tt
  All-filter_map P f (x ∷ xs) h = elim (Option-cases (f x)) [
    | inl e ↦ rw (e, filter_map, All) (All-filter_map P f xs h)
    | inr (b, e) ↦ rw (e, filter_map, All) (h x b e, All-filter_map P f xs h)
  ]

  -- A loop whose step is only taken at elements with the property.
  pub fold_keeps_at {μ ν} :
      (P : B → Type μ) (Q : A → Type ν) (f : B → A → B)
      → ((s : B) (x : A) → Q x → P s → P (f s x))
      → (s : B) (xs : List A) → All Q xs
      → P s
      → P (fold f s xs)
  unfolding fold
  fold_keeps_at P Q f step s [] q h = h
  fold_keeps_at P Q f step s (x ∷ xs) q h = fold_keeps_at P Q f step (f s x) xs q.1 (step s x q.0 h)
