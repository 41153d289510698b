-- ===== src/Memory/Giving.antt =====
-- crates/provider-sdk/src/memory: what holds of the values that a chain of reads gives, whatever the
-- memory holds.
use wf_observer.Common.{Bool, true, false, Bool-cases, inl, inr, if◌then◌else◌}
use wf_observer.Common.Attempt.{Attempt, yields, fails, Ensures}
use wf_observer.Memory.Reader.{
  Backend, TargetReader, ReadError, Action, resume, ◌>>=◌, read_stable, first_read, second_read,
}

abbrev anything : {A : Type 0} (m : Attempt ReadError A) → Ensures {0, 0, 0} (λ a. Unit) m
anything (yields a) = tt
anything (fails error) = tt

module _ (backend : Backend) where
  abbrev pub Gives : {A : Type 0} → (A → Type 0) → Action backend A → Type 0
  Gives P m = (r : TargetReader backend) → Ensures P (m r).0

  resume-Gives :
      {A B : Type 0} (P : A → Type 0) (Q : B → Type 0)
      (done : Attempt ReadError A × TargetReader backend) (next : A → Action backend B)
      → Ensures P done.0
      → ((a : A) → P a → Gives Q (next a))
      → Ensures Q (resume backend done next).0
  resume-Gives P Q (fails error, r) next h k = tt
  resume-Gives P Q (yields a, r) next h k = k a h r

  pub bind-Gives :
      {A B : Type 0} (P : A → Type 0) (Q : B → Type 0) (m : Action backend A)
      (next : A → Action backend B)
      → Gives P m
      → ((a : A) → P a → Gives Q (next a))
      → Gives Q (◌>>=◌ backend m next)
  bind-Gives P Q m next h k r = resume-Gives P Q (m r) next (h r) k

  -- The first value may be any.
  pub after-Gives :
      {A B : Type 0} (Q : B → Type 0) (m : Action backend A) (next : A → Action backend B)
      → ((a : A) → Gives Q (next a))
      → Gives Q (◌>>=◌ backend m next)
  after-Gives Q m next k = bind-Gives (λ a. Unit) Q m next (λ r. anything (m r).0) (λ a _. k a)

  pub if-Gives :
      {A : Type 0} (Q : A → Type 0) (b : Bool) (m n : Action backend A)
      → Gives Q m
      → Gives Q n
      → Gives Q (if b then m else n)
  if-Gives Q true m n h k = h
  if-Gives Q false m n h k = k

  second-Gives :
      {A : Type 0} (P : A → Type 0) (same : A → A → Bool) (acquire : Action backend A)
      (changed : ReadError) (a : A) (done : Attempt ReadError A × TargetReader backend)
      → Ensures P done.0
      → Ensures P (second_read same acquire changed a done).0
  second-Gives P same acquire changed a (fails error, r) h = tt
  second-Gives P same acquire changed a (yields b, r) h = elim (Bool-cases (same a b)) [
    | inl f ↦ rw f h
    | inr f ↦ rw f tt
  ]

  first-Gives :
      {A : Type 0} (P : A → Type 0) (same : A → A → Bool) (acquire : Action backend A)
      (changed : ReadError) (done : Attempt ReadError A × TargetReader backend)
      → Gives P acquire
      → Ensures P (first_read same acquire changed done).0
  first-Gives P same acquire changed (fails error, r) h = tt
  first-Gives P same acquire changed (yields a, r) h =
      second-Gives P same acquire changed a (acquire r) (h r)

  pub stable-Gives :
      {A : Type 0} (P : A → Type 0) (same : A → A → Bool) (acquire : Action backend A)
      (changed : ReadError)
      → Gives P acquire
      → Gives P (read_stable same acquire changed)
  unfolding read_stable
  stable-Gives P same acquire changed h r = first-Gives P same acquire changed (acquire r) h
