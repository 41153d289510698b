-- ===== src/Common/Outcome.antt =====
-- A result whose error is a message, as of `anyhow` and `ProviderError::Failed`.
use Prim.Native.String.{String}
use mathlib.Core.Bool.{Bool, true, false}

pub data Fallible {ℓ} (A : Type ℓ) : Type ℓ where
  done : A → Fallible A
  failed : String → Fallible A

abbrev pub ensure : Bool → String → Fallible (Unit {0})
ensure true message = done tt
ensure false message = failed message

abbrev pub and_then {ℓ κ} : {A : Type ℓ} {B : Type κ} → Fallible A → (A → Fallible B) → Fallible B
and_then (done a) f = f a
and_then (failed m) f = failed m
