-- ===== src/Memory/Budget.antt =====
-- crates/provider-sdk/src/memory/reader.rs: what a reader asks of the memory is within its limits.
use mathlib.Core.Path.{subst, sym, ◌∙◌}
use wf_observer.Common.{
  ℕ, String, zero, suc, ◌+◌, ◌≤◌, ◌≡◌, refl, Option, none, some, List, [], ◌∷◌, ◌++◌, length,
  sum_by, All, fold, fold_keeps, ltb, checked_add, arith, Bool-cases, Option-cases, inl, inr,
  length-append,
}
use wf_observer.Common.Attempt.{Attempt, yields, fails, Attempt-cases}
use wf_observer.Memory.Bytes.{checked_sub}
use wf_observer.Memory.Address.{Rva, ObjectOffset, VtableSlot}
use wf_observer.Memory.Reader.{
  Backend, TargetReader, ReadLimits, ReadError, Action, validate_range, validate_end, in_range,
  at_range, pure, resume, ◌>>=◌, as_integer, read_unchecked, read_module, read_at,
  read_object_array, read_integer, read_object_integer, read_vtable_slot, require_module_pointer,
  require_vtable_slot, module_address, object_address,
}

-- An address and a length that are asked for: a span that is not empty, within the limits.
abbrev pub IsWithin : ReadLimits → ℕ × ℕ → Type 0
IsWithin limits (address, size) =
    (1 ≤ size) × (limits.min_address ≤ address) × (address + size ≤ limits.max_address + 1)

abbrev size_of : ℕ × ℕ → ℕ
size_of (address, size) = size

module _ (backend : Backend) where
  -- The memory after some reads.
  abbrev pub replay : backend.Memory → List (ℕ × ℕ) → backend.Memory
  replay m [] = m
  replay m ((address, size) ∷ spans) = replay (backend.read_into m address size).1 spans

  -- From one reader the next comes by reads within the limits, which are counted exactly.
  pub record Spends (r r' : TargetReader backend) : Type 0 where
    pub spans : List (ℕ × ℕ)
    pub replayed : r'.memory ≡ replay r.memory spans
    pub within : All (IsWithin r.limits) spans
    pub bytes : sum_by size_of spans + r'.limits.bytes ≡ r.limits.bytes
    pub reads : length spans + r'.limits.reads ≡ r.limits.reads
    pub min_address : r'.limits.min_address ≡ r.limits.min_address
    pub max_address : r'.limits.max_address ≡ r.limits.max_address

  rests : (r : TargetReader backend) → Spends r r
  unfolding sum_by
  rests r = record {
    spans = [];
    replayed = refl;
    within = tt;
    bytes = omega arith;
    reads = omega arith;
    min_address = refl;
    max_address = refl;
  }

  replay-append :
      (m : backend.Memory) (xs ys : List (ℕ × ℕ)) → replay m (xs ++ ys) ≡ replay (replay m xs) ys
  replay-append m [] ys = refl
  replay-append m ((address, size) ∷ xs) ys =
      replay-append (backend.read_into m address size).1 xs ys

  sum_by-append :
      (xs ys : List (ℕ × ℕ)) → sum_by size_of (xs ++ ys) ≡ sum_by size_of xs + sum_by size_of ys
  unfolding sum_by
  sum_by-append [] ys = omega arith
  sum_by-append (x ∷ xs) ys = omega (arith, sum_by-append xs ys)

  both-IsWithin :
      (a b : ReadLimits) (xs ys : List (ℕ × ℕ))
      → b.min_address ≡ a.min_address
      → b.max_address ≡ a.max_address
      → All (IsWithin a) xs
      → All (IsWithin b) ys
      → All (IsWithin a) (xs ++ ys)
  both-IsWithin a b [] [] low high h k = tt
  both-IsWithin a b [] ((address, size) ∷ ys) low high h ((some_bytes, from, to), k) = (
    (some_bytes, omega (arith, low, from), omega (arith, high, to)),
    both-IsWithin a b [] ys low high tt k,
  )
  both-IsWithin a b (x ∷ xs) ys low high (h, hs) k = (h, both-IsWithin a b xs ys low high hs k)

  then-Spends : (r r' r'' : TargetReader backend) → Spends r r' → Spends r' r'' → Spends r r''
  then-Spends r r' r'' a b = record {
    spans = a.spans ++ b.spans;
    replayed =
        b.replayed
        ∙ (λ i. replay (a.replayed i) b.spans)
        ∙ sym (replay-append r.memory a.spans b.spans);
    within =
        both-IsWithin r.limits r'.limits a.spans b.spans a.min_address a.max_address a.within
          b.within;
    bytes = omega (arith, a.bytes, b.bytes, sum_by-append a.spans b.spans);
    reads = omega (arith, a.reads, b.reads, length-append a.spans b.spans);
    min_address = b.min_address ∙ a.min_address;
    max_address = b.max_address ∙ a.max_address;
  }

  abbrev Acts : {A : Type 0} → Action backend A → Type 0
  Acts m = (r : TargetReader backend) → Spends r (m r).1

  resume-Spends :
      {A B : Type 0} (r : TargetReader backend) (done : Attempt ReadError A × TargetReader backend)
      (next : A → Action backend B)
      → Spends r done.1
      → ((a : A) → Acts (next a))
      → Spends r (resume backend done next).1
  resume-Spends r (fails error, r') next h k = h
  resume-Spends r (yields a, r') next h k = then-Spends r r' (next a r').1 h (k a r')

  bind-Acts :
      {A B : Type 0} (m : Action backend A) (next : A → Action backend B)
      → Acts m
      → ((a : A) → Acts (next a))
      → Acts (◌>>=◌ backend m next)
  bind-Acts m next h k r = resume-Spends r (m r) next (h r) k

  bind-pure :
      {A B : Type 0} (f : TargetReader backend → Attempt ReadError A) (next : A → Action backend B)
      → ((r : TargetReader backend) (a : A) → f r ≡ yields a → Spends r (next a r).1)
      → Acts (◌>>=◌ backend (pure backend f) next)
  bind-pure f next h r = elim (Attempt-cases (f r)) [
    | inl (error, e) ↦ rw e (rests r)
    | inr (a, e) ↦ rw e (h r a e)
  ]

  -- The span is empty, or within the limits.
  abbrev IsRange : ReadLimits → ℕ → ℕ → Type 0
  IsRange limits address zero = Unit
  IsRange limits address (suc n) =
      (limits.min_address ≤ address) × (address + n ≤ limits.max_address)

  in_range-IsRange :
      (r : TargetReader backend) (address n found : ℕ)
      → in_range backend r address n ≡ yields found
      → IsRange r.limits found n
  unfolding validate_range validate_end checked_add
  in_range-IsRange r address zero found e = tt
  in_range-IsRange r address (suc n) found e = (ground (arith, e), ground (arith, e))

  in_range-address :
      (r : TargetReader backend) (address n found : ℕ)
      → in_range backend r address n ≡ yields found
      → found ≡ address
  in_range-address r address n found e = ground (arith, e)

  at_range-IsRange :
      (r : TargetReader backend) (address : Option ℕ) (n found : ℕ)
      → at_range backend r address n ≡ yields found
      → IsRange r.limits found n
  at_range-IsRange r none n found e = cc e
  at_range-IsRange r (some address) n found e = in_range-IsRange r address n found e

  read_unchecked-Spends :
      (r : TargetReader backend) (address n : ℕ)
      → IsRange r.limits address n
      → Spends r (read_unchecked backend address n r).1
  unfolding read_unchecked checked_sub sum_by
  read_unchecked-Spends r address zero h = rests r
  read_unchecked-Spends r address (suc n) (from, to) =
      elim (Bool-cases (ltb r.limits.bytes (suc n))) [
        | inl f ↦ rw (f, read_unchecked) (rests r)
        | inr f ↦ elim (Bool-cases (ltb r.limits.reads 1)) [
          | inl g ↦ rw (f, g, read_unchecked) (rests r)
          | inr g ↦
              rw (f, g, read_unchecked)
                (record {
                  spans = (address, suc n) ∷ [];
                  replayed = refl;
                  within = ((omega arith, from, omega (arith, to)), tt);
                  bytes = ground (arith, f);
                  reads = ground (arith, g);
                  min_address = refl;
                  max_address = refl;
                })
        ]
      ]

  module_address-IsRange :
      (r : TargetReader backend) (offset : Rva) (n found : ℕ)
      → module_address backend offset n r ≡ yields found
      → IsRange r.limits found n
  unfolding module_address
  module_address-IsRange r offset n found e = elim (Option-cases (checked_add offset.get n)) [
    | inl f ↦ cc (rw (f, module_address) at e)
    | inr (end, f) ↦ elim (Bool-cases (ltb r.image_size end)) [
      | inl g ↦ cc (rw (f, g, module_address) at e)
      | inr g ↦
          at_range-IsRange r (checked_add r.module_base offset.get) n found
            (rw (f, g, module_address) at e)
    ]
  ]

  read_module-Acts : (offset : Rva) (n : ℕ) → Acts (read_module backend offset n)
  unfolding read_module
  read_module-Acts offset n =
      bind-pure (module_address backend offset n) (λ address. read_unchecked backend address n)
        (λ r address e.
          read_unchecked-Spends r address n (module_address-IsRange r offset n address e))

  read_at-Acts : (address n : ℕ) → Acts (read_at backend address n)
  unfolding read_at
  read_at-Acts address n =
      bind-pure (λ r. in_range backend r address n) (λ _. read_unchecked backend address n)
        (λ r found e. read_unchecked-Spends r address n (
          subst (λ a. IsRange r.limits a n) (in_range-address r address n found e)
            (in_range-IsRange r address n found e)))

  object_address-IsRange :
      (r : TargetReader backend) (object : ℕ) (offset : ObjectOffset) (n found : ℕ)
      → object_address backend object offset n r ≡ yields found
      → IsRange r.limits found n
  unfolding object_address
  object_address-IsRange r object offset n found e =
      at_range-IsRange r (checked_add object offset.get) n found e

  pure-Acts : {A : Type 0} (f : TargetReader backend → Attempt ReadError A) → Acts (pure backend f)
  pure-Acts f r = rests r

  read_object_array-Acts :
      (object : ℕ) (offset : ObjectOffset) (n : ℕ)
      → Acts (read_object_array backend object offset n)
  unfolding read_object_array
  read_object_array-Acts object offset n =
      bind-Acts (pure backend (object_address backend object offset n))
        (λ address. read_at backend address n) (pure-Acts (object_address backend object offset n))
        (λ address. read_at-Acts address n)

  read_integer-Acts : (width address : ℕ) → Acts (read_integer backend width address)
  unfolding read_integer
  read_integer-Acts width address =
      bind-Acts (read_at backend address width) (as_integer backend) (read_at-Acts address width)
        (λ bytes r. rests r)

  read_object_integer-Acts :
      (width object : ℕ) (offset : ObjectOffset)
      → Acts (read_object_integer backend width object offset)
  unfolding read_object_integer
  read_object_integer-Acts width object offset =
      bind-Acts (read_object_array backend object offset width) (as_integer backend)
        (read_object_array-Acts object offset width) (λ bytes r. rests r)

  read_vtable_slot-Acts :
      (object : ℕ) (slot : VtableSlot) → Acts (read_vtable_slot backend object slot)
  unfolding read_vtable_slot
  read_vtable_slot-Acts object slot =
      bind-Acts (read_integer backend 8 object) _ (read_integer-Acts 8 object) λ vtable.
        bind-Acts (pure backend (object_address backend vtable (record { get = slot.get }) 8)) _
          (pure-Acts (object_address backend vtable (record { get = slot.get }) 8))
          (λ address. read_integer-Acts 8 address)

  require_module_pointer-Acts :
      (actual : ℕ) (expected : Rva) (at : String)
      → Acts (require_module_pointer backend actual expected at)
  unfolding require_module_pointer
  require_module_pointer-Acts actual expected at =
      bind-Acts (pure backend (module_address backend expected 1)) _
        (pure-Acts (module_address backend expected 1)) (λ address r. rests r)

  require_vtable_slot-Acts :
      (object : ℕ) (slot : VtableSlot) (expected : Rva) (at : String)
      → Acts (require_vtable_slot backend object slot expected at)
  unfolding require_vtable_slot
  require_vtable_slot-Acts object slot expected at =
      bind-Acts (read_vtable_slot backend object slot) _ (read_vtable_slot-Acts object slot)
        (λ actual. require_module_pointer-Acts actual expected at)

  -- What is called of a reader.
  pub data Call : Type 0 where
    reads_module : Rva → ℕ → Call
    reads_at : ℕ → ℕ → Call
    reads_object : ℕ → ObjectOffset → ℕ → Call
    reads_integer : ℕ → ℕ → Call
    reads_object_integer : ℕ → ℕ → ObjectOffset → Call
    reads_slot : ℕ → VtableSlot → Call
    requires_pointer : ℕ → Rva → String → Call
    requires_slot : ℕ → VtableSlot → Rva → String → Call

  unfoldable pub call : TargetReader backend → Call → TargetReader backend
  unfolding read_module read_at read_object_array read_integer read_object_integer read_vtable_slot
      require_module_pointer require_vtable_slot
  call r (Call.reads_module offset n) = (read_module backend offset n r).1
  call r (Call.reads_at address n) = (read_at backend address n r).1
  call r (Call.reads_object object offset n) = (read_object_array backend object offset n r).1
  call r (Call.reads_integer width address) = (read_integer backend width address r).1
  call r (Call.reads_object_integer width object offset) =
      (read_object_integer backend width object offset r).1
  call r (Call.reads_slot object slot) = (read_vtable_slot backend object slot r).1
  call r (Call.requires_pointer actual expected at) =
      (require_module_pointer backend actual expected at r).1
  call r (Call.requires_slot object slot expected at) =
      (require_vtable_slot backend object slot expected at r).1

  call-Spends : (r : TargetReader backend) (c : Call) → Spends r (call r c)
  unfolding call
  call-Spends r (Call.reads_module offset n) = read_module-Acts offset n r
  call-Spends r (Call.reads_at address n) = read_at-Acts address n r
  call-Spends r (Call.reads_object object offset n) = read_object_array-Acts object offset n r
  call-Spends r (Call.reads_integer width address) = read_integer-Acts width address r
  call-Spends r (Call.reads_object_integer width object offset) =
      read_object_integer-Acts width object offset r
  call-Spends r (Call.reads_slot object slot) = read_vtable_slot-Acts object slot r
  call-Spends r (Call.requires_pointer actual expected at) =
      require_module_pointer-Acts actual expected at r
  call-Spends r (Call.requires_slot object slot expected at) =
      require_vtable_slot-Acts object slot expected at r

  -- Whatever is called of a reader, failures included, the memory is asked only for spans that are
  -- not empty and lie within the reader's address limits, their lengths and the bytes left make up
  -- the byte budget, and their number and the reads left make up the read budget.
  pub calls-Spends : (r : TargetReader backend) (calls : List Call) → Spends r (fold call r calls)
  calls-Spends r calls =
      fold_keeps (Spends r) call
        (λ r' c spent. then-Spends r r' (call r' c) spent (call-Spends r' c)) r calls (rests r)
