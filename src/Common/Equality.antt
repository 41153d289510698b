-- ===== src/Common/Equality.antt =====
-- Rust's `PartialEq` as an instance argument, with its law.
use Prim.Native.Nat.{ℕ, compare, Ordering}
use Prim.Native.String.{String}
use mathlib.Core.Path.{◌≡◌}
use mathlib.Core.Logic.{◌↔◌, ◌⊎◌, inl, inr}
use mathlib.Core.Bool.{Bool, true, false}
use native.Mathlib.Omega.{arith}
use text.Mathlib.Text.{◌==◌ as str_eq}
use text.Mathlib.TextEquality.{eq_iff}
use wf_observer.Common.Tests.{Bool-cases}

pub record Eq {ℓ} (A : Type ℓ) : Type ℓ where
  pub beq : A → A → Bool
  pub beq_iff : (a b : A) → (beq a b ≡ true) ↔ (a ≡ b)

instance abbrev pub string_eq : Eq String
string_eq = record { beq = str_eq; beq_iff = eq_iff }

abbrev pub nat_beq : ℕ → ℕ → Bool
nat_beq a b = elim (compare a b) [ Ordering.eq ↦ true | _ ↦ false ]

pub nat_beq_iff : (a b : ℕ) → (nat_beq a b ≡ true) ↔ (a ≡ b)
nat_beq_iff a b = ground arith

instance abbrev pub nat_eq : Eq ℕ
nat_eq = record { beq = nat_beq; beq_iff = nat_beq_iff }

infix 50 ◌==◌
abbrev pub ◌==◌ {κ} : {K : Type κ} ⦃equality : Eq K⦄ → K → K → Bool
◌==◌ ⦃equality⦄ = equality.beq

module _ {ℓ} {A : Type ℓ} (e : Eq A) where
  pub ne_of_beq : (a b : A) → e.beq a b ≡ false → ¬ (a ≡ b)
  ne_of_beq a b p q = cc (p, (e.beq_iff a b).1 q)

  abbrev pub decide_eq : (a b : A) → ((e.beq a b ≡ true) ⊎ (e.beq a b ≡ false)) → Dec (a ≡ b)
  decide_eq a b (inl p) = yes ((e.beq_iff a b).0 p)
  decide_eq a b (inr p) = no (ne_of_beq a b p)

  abbrev pub discrete_of : Discrete A
  discrete_of a b = decide_eq a b (Bool-cases (e.beq a b))

abbrev pub String-discrete : Discrete String
String-discrete = discrete_of string_eq

module _ {ℓ} {A : Type ℓ} (d : Discrete A) where
  abbrev pub holds : {a b : A} → Dec (a ≡ b) → Bool
  holds (yes _) = true
  holds (no _) = false

  abbrev pub equal : A → A → Bool
  equal a b = holds (d a b)

  pub equal_iff : (a b : A) → (equal a b ≡ true) ↔ (a ≡ b)
  equal_iff a b = ground arith

  abbrev pub derive_eq : Eq A
  derive_eq = record { beq = equal; beq_iff = equal_iff }
