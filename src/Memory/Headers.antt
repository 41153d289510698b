-- ===== src/Memory/Headers.antt =====
-- crates/provider-sdk/src/pe/headers.rs: the headers of a mapped executable, read through a callback
-- that has a state of its own.
use wf_observer.Common.{
  ℕ, ◌+◌, ◌-◌, ◌≤◌, ◌≡◌, refl, sym, ap, Bool, true, false, not, ◌&&◌, Option, none, some, List, [],
  ◌∷◌, leb, checked_add, u64_max, if◌then◌else◌, ◌==◌, nat_eq, arith, Bool-cases, Option-cases, inl,
  inr,
}
use wf_observer.Common.Attempt.{Attempt, yields, fails, Ensures, Ensures-value}
use wf_observer.Delta.{hash_eq}
use wf_observer.Memory.Bytes.{take, drop, from_le_bytes, checked_add_u32, is_some}

pub record ImageHeaders : Type 0 where
  pub timestamp : ℕ
  pub image_size : ℕ

pub data HeaderError (E : Type 0) : Type 0 where
  read : E → HeaderError E
  invalid_image : HeaderError E

-- A part of a buffer.
unfoldable pub part : List ℕ → ℕ → ℕ → List ℕ
unfolding take drop
part bytes start count = take count (drop start bytes)

unfoldable pub number : List ℕ → ℕ → ℕ → ℕ
unfolding part from_le_bytes
number bytes start count = from_le_bytes (part bytes start count)

-- The offset of the PE header, if the DOS header has one that is admitted.
unfoldable pub is_dos : List ℕ → Bool
unfolding part number
is_dos dos =
    part dos 0 2 == (77 ∷ 90 ∷ []) && leb 64 (number dos 60 4) && leb (number dos 60 4) 1048576

abbrev pub ends_within : Option ℕ → ℕ → Bool
ends_within none size = false
ends_within (some end) size = leb end size

unfoldable pub is_pe : ℕ → ℕ → List ℕ → Bool
unfolding part number checked_add_u32
is_pe base offset pe =
    part pe 0 4 == (80 ∷ 69 ∷ 0 ∷ 0 ∷ [])
    && part pe 4 2 == (100 ∷ 134 ∷ [])
    && leb 60 (number pe 20 2)
    && part pe 24 2 == (11 ∷ 2 ∷ [])
    && not (number pe 80 4 == 0)
    && ends_within (checked_add_u32 offset (24 + number pe 20 2)) (number pe 80 4)
    && is_some (checked_add base (number pe 80 4 - 1))

unfoldable pub headers_of : List ℕ → ImageHeaders
unfolding number
headers_of pe = record { timestamp = number pe 8 4; image_size = number pe 80 4 }

-- The sizes that the last checks admit.
bounds_of :
    (signature machine magic : Bool) (base offset optional size : ℕ)
    → (signature
        && machine
        && leb 60 optional
        && magic
        && not (size == 0)
        && ends_within (checked_add_u32 offset (24 + optional)) size
        && is_some (checked_add base (size - 1)))
      ≡ true
    → (offset + 84 ≤ size) × (base + size ≤ u64_max + 1)
unfolding checked_add checked_add_u32
bounds_of true true true base offset optional size e = (ground (arith, e), ground (arith, e))
bounds_of true true false base offset optional size e = ground (arith, e)
bounds_of true false magic base offset optional size e = cc e
bounds_of false machine magic base offset optional size e = cc e

le_of_leb : (a b : ℕ) → leb a b ≡ true → a ≤ b
le_of_leb a b e = ground (arith, e)

dos_checks : (a b c : Bool) → (a && b && c) ≡ true → (a ≡ true) × (b ≡ true) × (c ≡ true)
dos_checks a b c e = (ground (arith, e), ground (arith, e), ground (arith, e))

-- The checks of the PE header's first bytes: its signature, the machine and the magic number.
pe_checks :
    (a b c d e f g : Bool)
    → (a && b && c && d && e && f && g) ≡ true
    → (a ≡ true) × (b ≡ true) × (d ≡ true)
pe_checks true true c true e f g h = (refl, refl, refl)
pe_checks true true c false e f g h = ground (arith, h)
pe_checks true false c d e f g h = cc h
pe_checks false b c d e f g h = cc h

module _ {E S : Type 0} (acquire : S → ℕ → ℕ → Attempt E (List ℕ) × S) (base : ℕ) where
  -- The PE header, at its address.
  unfoldable pub accept_pe : ℕ → Attempt E (List ℕ) × S → Attempt (HeaderError E) ImageHeaders × S
  unfolding is_pe headers_of
  accept_pe offset (fails error, s) = (fails (HeaderError.read error), s)
  accept_pe offset (yields pe, s) =
      (if is_pe base offset pe then yields (headers_of pe) else fails HeaderError.invalid_image, s)

  abbrev pub read_pe : ℕ → Option ℕ → S → Attempt (HeaderError E) ImageHeaders × S
  read_pe offset none s = (fails HeaderError.invalid_image, s)
  read_pe offset (some address) s = accept_pe offset (acquire s address 84)

  unfoldable pub accept_dos : Attempt E (List ℕ) × S → Attempt (HeaderError E) ImageHeaders × S
  unfolding is_dos number accept_pe
  accept_dos (fails error, s) = (fails (HeaderError.read error), s)
  accept_dos (yields dos, s) =
      if is_dos dos
      then read_pe (number dos 60 4) (checked_add base (number dos 60 4)) s
      else (fails HeaderError.invalid_image, s)

  unfoldable pub read_amd64_headers : S → Attempt (HeaderError E) ImageHeaders × S
  unfolding accept_dos
  read_amd64_headers s = accept_dos (acquire s base 64)

  -- What was read of an accepted image: the DOS header at its base, whose offset of the PE header is
  -- within the first MiB, and the PE header there, which gives the headers; the image has room for
  -- what was read and lies in the address space.
  pub record IsImage (start : S) (headers : ImageHeaders) : Type 0 where
    pub dos : List ℕ
    pub pe : List ℕ
    pub offset : ℕ
    pub dos_read : (acquire start base 64).0 ≡ yields dos
    pub dos_signature : part dos 0 2 ≡ 77 ∷ 90 ∷ []
    pub offset_read : offset ≡ number dos 60 4
    pub at_least : 64 ≤ offset
    pub at_most : offset ≤ 1048576
    pub pe_read : (acquire (acquire start base 64).1 (base + offset) 84).0 ≡ yields pe
    pub pe_signature : part pe 0 4 ≡ 80 ∷ 69 ∷ 0 ∷ 0 ∷ []
    pub is_amd64 : part pe 4 2 ≡ 100 ∷ 134 ∷ []
    pub is_pe32_plus : part pe 24 2 ≡ 11 ∷ 2 ∷ []
    pub timestamp_read : headers.timestamp ≡ number pe 8 4
    pub image_size_read : headers.image_size ≡ number pe 80 4
    pub span : offset + 84 ≤ headers.image_size
    pub image : base + headers.image_size ≤ u64_max + 1

  accept_pe-Ensures :
      (start : S) (dos : List ℕ) (address : ℕ)
      → (acquire start base 64).0 ≡ yields dos
      → is_dos dos ≡ true
      → address ≡ base + number dos 60 4
      → (acquired : Attempt E (List ℕ) × S)
      → acquired ≡ acquire (acquire start base 64).1 address 84
      → Ensures (IsImage start) (accept_pe (number dos 60 4) acquired).0
  unfolding accept_pe is_dos is_pe headers_of
  accept_pe-Ensures start dos address got accepted at_pe (fails error, s) same = tt
  accept_pe-Ensures start dos address got accepted at_pe (yields pe, s) same =
      elim (Bool-cases (is_pe base (number dos 60 4) pe)) [
        | inr f ↦ rw f tt
        | inl f ↦
            let (span, image) =
              bounds_of (part pe 0 4 == (80 ∷ 69 ∷ 0 ∷ 0 ∷ [])) (part pe 4 2 == (100 ∷ 134 ∷ []))
                (part pe 24 2 == (11 ∷ 2 ∷ [])) base (number dos 60 4) (number pe 20 2)
                (number pe 80 4) f in
            let (signature, machine, magic) =
              pe_checks (part pe 0 4 == (80 ∷ 69 ∷ 0 ∷ 0 ∷ [])) (part pe 4 2 == (100 ∷ 134 ∷ []))
                (leb 60 (number pe 20 2)) (part pe 24 2 == (11 ∷ 2 ∷ []))
                (not (number pe 80 4 == 0))
                (ends_within (checked_add_u32 (number dos 60 4) (24 + number pe 20 2))
                  (number pe 80 4))
                (is_some (checked_add base (number pe 80 4 - 1))) f in
            let (mz, low, high) =
              dos_checks (part dos 0 2 == (77 ∷ 90 ∷ [])) (leb 64 (number dos 60 4))
                (leb (number dos 60 4) 1048576) accepted in
            rw f (record {
              dos = dos;
              pe = pe;
              offset = number dos 60 4;
              dos_read = got;
              dos_signature = (hash_eq.beq_iff (part dos 0 2) (77 ∷ 90 ∷ [])).0 mz;
              offset_read = refl;
              at_least = le_of_leb 64 (number dos 60 4) low;
              at_most = le_of_leb (number dos 60 4) 1048576 high;
              pe_read = rw (sym at_pe) (ap (λ r. r.0) (sym same));
              pe_signature = (hash_eq.beq_iff (part pe 0 4) (80 ∷ 69 ∷ 0 ∷ 0 ∷ [])).0 signature;
              is_amd64 = (hash_eq.beq_iff (part pe 4 2) (100 ∷ 134 ∷ [])).0 machine;
              is_pe32_plus = (hash_eq.beq_iff (part pe 24 2) (11 ∷ 2 ∷ [])).0 magic;
              timestamp_read = refl;
              image_size_read = refl;
              span = span;
              image = image;
            })
      ]

  accept_dos-Ensures :
      (start : S) (acquired : Attempt E (List ℕ) × S)
      → acquired ≡ acquire start base 64
      → Ensures (IsImage start) (accept_dos acquired).0
  unfolding accept_dos checked_add
  accept_dos-Ensures start (fails error, s) same = tt
  accept_dos-Ensures start (yields dos, s) same = elim (Bool-cases (is_dos dos)) [
    | inr f ↦ rw (f, accept_dos) tt
    | inl f ↦ elim (Option-cases (checked_add base (number dos 60 4))) [
      | inl g ↦ rw (f, g, accept_dos) tt
      | inr (address, g) ↦
          rw (f, g, accept_dos)
            (accept_pe-Ensures start dos address (ap (λ r. r.0) (sym same)) f (ground (arith, g))
              (acquire s address 84) (ap (λ r. acquire r.1 address 84) same))
    ]
  ]

  -- Whatever the memory holds, headers that are accepted are those that the PE header gives, which
  -- was read at the offset that the DOS header gives, at most 1 MiB from the base; both have their
  -- signatures, and the image has room for the PE header as far as it was read and ends within the
  -- address space.
  pub read_amd64_headers-IsImage :
      (s : S) (headers : ImageHeaders)
      → (read_amd64_headers s).0 ≡ yields headers
      → IsImage s headers
  unfolding read_amd64_headers
  read_amd64_headers-IsImage s headers e =
      Ensures-value (IsImage s) (read_amd64_headers s).0 headers
        (accept_dos-Ensures s (acquire s base 64) refl) e
