-- ===== src/Wire/Error.antt =====
-- crates/protocol/src/v1/error.rs: the rejection of a request, and a request's result.
use mathlib.Core.Path.{◌≡◌, refl, subst}
use wf_observer.Common.{ℕ, String, List, ◌⊎◌, inl, inr}
use wf_observer.Wire.Identity.{TopicRef}
use wf_observer.Wire.Health.{UnavailableReason}
use wf_observer.Wire.Stream.{Resource}

pub data RequestError : Type 0 where
  service_restarted : String → RequestError
  unknown_session : String → RequestError
  unknown_provider : String → RequestError
  unknown_topic : String → String → RequestError
  unsupported_schema : TopicRef → List ℕ → RequestError
  snapshots_unsupported : TopicRef → RequestError
  idle : RequestError
  not_sampled : RequestError
  unavailable : UnavailableReason → RequestError
  invalid_request : String → RequestError
  limit_exceeded : Resource → RequestError

pub data Result {ℓ} (A : Type ℓ) : Type ℓ where
  ok : A → Result A
  err : RequestError → Result A

infixl 5 ◌>>=◌ ◌>>◌
abbrev pub ◌>>=◌ {ℓ κ} : {A : Type ℓ} {B : Type κ} → Result A → (A → Result B) → Result B
ok value >>= next = next value
err rejection >>= next = err rejection

abbrev pub ◌>>◌ {ℓ} : {A : Type ℓ} → Result (Unit {0}) → Result A → Result A
checked >> next = checked >>= λ _. next

-- What holds of the value, if there is one.
abbrev pub Ensures {ℓ κ} : {A : Type ℓ} → (A → Type κ) → Result A → Type κ
Ensures P (ok a) = P a
Ensures P (err e) = Unit

pub Ensures-bind {ℓ κ μ ν} :
    {A : Type ℓ} {B : Type κ} (P : A → Type μ) (Q : B → Type ν) (m : Result A) (f : A → Result B)
    → Ensures P m
    → ((a : A) → P a → Ensures Q (f a))
    → Ensures Q (m >>= f)
Ensures-bind P Q (ok a) f h k = k a h
Ensures-bind P Q (err e) f h k = tt

pub Ensures-ok {ℓ κ} :
    {A : Type ℓ} (P : A → Type κ) (m : Result A) (a : A) → Ensures P m → m ≡ ok a → P a
Ensures-ok P m a h e = subst (Ensures P) e h

pub Result-cases {ℓ} :
    {A : Type ℓ} (r : Result A) → ((e : RequestError) × (r ≡ err e)) ⊎ ((a : A) × (r ≡ ok a))
Result-cases (ok a) = inr (a, refl)
Result-cases (err e) = inl (e, refl)

pub Ensures-map {ℓ κ μ} :
    {A : Type ℓ} (P : A → Type κ) (Q : A → Type μ) (m : Result A)
    → ((a : A) → P a → Q a)
    → Ensures P m
    → Ensures Q m
Ensures-map P Q (ok a) f h = f a h
Ensures-map P Q (err e) f h = tt
