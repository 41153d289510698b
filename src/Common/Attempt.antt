-- ===== src/Common/Attempt.antt =====
-- A result with an error type of its own, as Rust's `Result<A, E>`.
use mathlib.Core.Path.{◌≡◌, refl, subst}
use mathlib.Core.Logic.{◌⊎◌, inl, inr}
use mathlib.Core.Bool.{Bool, true, false}

pub data Attempt {ℓ κ} (E : Type ℓ) (A : Type κ) : Type (ℓ ⊔ κ) where
  yields : A → Attempt E A
  fails : E → Attempt E A

infixl 5 ◌>>=◌ ◌>>◌
abbrev pub ◌>>=◌ {ℓ κ μ} :
    {E : Type ℓ} {A : Type κ} {B : Type μ} → Attempt E A → (A → Attempt E B) → Attempt E B
yields value >>= next = next value
fails error >>= next = fails error

abbrev pub ◌>>◌ {ℓ μ} : {E : Type ℓ} {B : Type μ} → Attempt E (Unit {0}) → Attempt E B → Attempt E B
checked >> next = checked >>= λ _. next

-- An error unless the condition holds.
abbrev pub require {ℓ} : {E : Type ℓ} → Bool → E → Attempt E (Unit {0})
require true error = yields tt
require false error = fails error

pub Attempt-cases {ℓ κ} :
    {E : Type ℓ} {A : Type κ} (m : Attempt E A)
    → ((error : E) × (m ≡ fails error)) ⊎ ((value : A) × (m ≡ yields value))
Attempt-cases (yields value) = inr (value, refl)
Attempt-cases (fails error) = inl (error, refl)

-- What holds of the value that is yielded, if one is.
abbrev pub Ensures {ℓ κ μ} : {E : Type ℓ} {A : Type κ} → (A → Type μ) → Attempt E A → Type μ
Ensures P (yields value) = P value
Ensures P (fails error) = Unit

pub Ensures-map {ℓ κ μ ν} :
    {E : Type ℓ} {A : Type κ} (P : A → Type μ) (Q : A → Type ν) (m : Attempt E A)
    → ((a : A) → P a → Q a)
    → Ensures P m
    → Ensures Q m
Ensures-map P Q (yields a) f h = f a h
Ensures-map P Q (fails error) f h = tt

pub Ensures-bind {ℓ κ μ ν} :
    {E : Type ℓ} {A : Type κ} {B : Type μ} (P : B → Type ν) (m : Attempt E A)
    (next : A → Attempt E B)
    → ((a : A) → m ≡ yields a → Ensures P (next a))
    → Ensures P (m >>= next)
Ensures-bind P (yields a) next h = h a refl
Ensures-bind P (fails error) next h = tt

pub Ensures-require {ℓ μ ν} :
    {E : Type ℓ} {B : Type μ} (P : B → Type ν) (condition : Bool) (error : E) (next : Attempt E B)
    → (condition ≡ true → Ensures P next)
    → Ensures P (require condition error >> next)
Ensures-require P true error next h = h refl
Ensures-require P false error next h = tt

pub Ensures-value {ℓ κ μ} :
    {E : Type ℓ} {A : Type κ} (P : A → Type μ) (m : Attempt E A) (value : A)
    → Ensures P m
    → m ≡ yields value
    → P value
Ensures-value P m value h e = subst (Ensures P) e h
