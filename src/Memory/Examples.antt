-- ===== src/Memory/Examples.antt =====
-- crates/provider-sdk/src/memory: a record, an instruction, an image and a reader on which the
-- theorems are applied.
use wf_observer.Common.{
  ℕ, ◌+◌, ◌≡◌, ◌≤◌, refl, Option, none, some, List, [], ◌∷◌, ◌++◌, fold, arith, ◌==◌, nat_eq,
  if◌then◌else◌, u32_max,
}
use wf_observer.Common.Attempt.{Attempt, yields, fails}
use wf_observer.Memory.Bytes.{to_le_bytes}
use wf_observer.Memory.Address.{rva, rip_target}
use wf_observer.Memory.Record.{integer}
use wf_observer.Memory.Reader.{Backend, TargetReader}
use wf_observer.Memory.Budget.{Spends, Call, call, calls-Spends}
use wf_observer.Memory.Headers.{IsImage, read_amd64_headers, read_amd64_headers-IsImage}
use wf_observer.Memory.RoundTrip.{IsDisplaced, integer-to_le_bytes, rip_target-value}

integer-to_le_bytes_example :
    integer 2
      (record { bytes = 9 ∷ (to_le_bytes 2 515 ++ (7 ∷ [])); at = "record" })
      (record { get = 1 })
    ≡ yields 515
integer-to_le_bytes_example =
    integer-to_le_bytes 2 515 (9 ∷ []) (7 ∷ []) "record" (omega arith) (omega arith)

-- A displacement of -16.
backwards : rip_target (rva 256) 7 (to_le_bytes 4 4294967280) ≡ some (rva 247)
unfolding rip_target to_le_bytes wf_observer.Memory.Bytes.from_le_bytes
backwards = refl

rip_target-value_example : (247 ≤ u32_max) × IsDisplaced 263 4294967280 247
rip_target-value_example = rip_target-value (rva 256) (rva 247) 7 4294967280 (omega arith) backwards

abbrev dos : List ℕ
dos =
    77 ∷ 90 ∷ 0 ∷ 0 ∷ 0 ∷ 0 ∷ 0 ∷ 0 ∷ 0 ∷ 0 ∷ 0 ∷ 0 ∷ 0 ∷ 0 ∷ 0 ∷ 0 ∷ 0 ∷ 0 ∷ 0 ∷ 0 ∷ 0 ∷ 0 ∷ 0 ∷ 0
    ∷ 0 ∷ 0 ∷ 0 ∷ 0 ∷ 0 ∷ 0 ∷ 0 ∷ 0 ∷ 0 ∷ 0 ∷ 0 ∷ 0 ∷ 0 ∷ 0 ∷ 0 ∷ 0 ∷ 0 ∷ 0 ∷ 0 ∷ 0 ∷ 0 ∷ 0 ∷ 0 ∷ 0
    ∷ 0 ∷ 0 ∷ 0 ∷ 0 ∷ 0 ∷ 0 ∷ 0 ∷ 0 ∷ 0 ∷ 0 ∷ 0 ∷ 0 ∷ 128 ∷ 0 ∷ 0 ∷ 0 ∷ []

abbrev pe : List ℕ
pe =
    80 ∷ 69 ∷ 0 ∷ 0 ∷ 100 ∷ 134 ∷ 0 ∷ 0 ∷ 7 ∷ 0 ∷ 0 ∷ 0 ∷ 0 ∷ 0 ∷ 0 ∷ 0 ∷ 0 ∷ 0 ∷ 0 ∷ 0 ∷ 240 ∷ 0
    ∷ 0 ∷ 0 ∷ 11 ∷ 2 ∷ 0 ∷ 0 ∷ 0 ∷ 0 ∷ 0 ∷ 0 ∷ 0 ∷ 0 ∷ 0 ∷ 0 ∷ 0 ∷ 0 ∷ 0 ∷ 0 ∷ 0 ∷ 0 ∷ 0 ∷ 0 ∷ 0 ∷ 0
    ∷ 0 ∷ 0 ∷ 0 ∷ 0 ∷ 0 ∷ 0 ∷ 0 ∷ 0 ∷ 0 ∷ 0 ∷ 0 ∷ 0 ∷ 0 ∷ 0 ∷ 0 ∷ 0 ∷ 0 ∷ 0 ∷ 0 ∷ 0 ∷ 0 ∷ 0 ∷ 0 ∷ 0
    ∷ 0 ∷ 0 ∷ 0 ∷ 0 ∷ 0 ∷ 0 ∷ 0 ∷ 0 ∷ 0 ∷ 0 ∷ 0 ∷ 16 ∷ 0 ∷ 0 ∷ []

-- A mapped image at 4096, which counts the reads that it serves.
abbrev image : ℕ → ℕ → ℕ → Attempt ℕ (List ℕ) × ℕ
image count address size = (yields (if address == 4096 then dos else pe), count + 1)

accepted :
    (read_amd64_headers image 4096 0).0 ≡ yields (record { timestamp = 7; image_size = 4096 })
unfolding read_amd64_headers wf_observer.Delta.Hash-discrete native.Mathlib.Decide.ℕ_discrete
    wf_observer.Common.checked_add
accepted = refl

read_amd64_headers-IsImage_example :
    IsImage image 4096 0 (record { timestamp = 7; image_size = 4096 })
read_amd64_headers-IsImage_example =
    read_amd64_headers-IsImage image 4096 0 (record { timestamp = 7; image_size = 4096 }) accepted

-- A memory whose state is the number of its reads, and that fails at one address.
abbrev counting : Backend
counting = record {
  Memory = ℕ;
  read_into = λ count address size.
      (if address == 5000 then fails "gone" else yields (1 ∷ 2 ∷ []), count + 1);
}

abbrev reader : TargetReader counting
reader = record {
  memory = 0;
  module_base = 4096;
  image_size = 512;
  limits = record { min_address = 4096; max_address = 8191; bytes = 6; reads = 3 };
}

abbrev calls : List (Call counting)
calls =
    Call.reads_module (rva 16) 2
    ∷ Call.reads_at 5000 2
    ∷ Call.reads_at 100 2
    ∷ Call.requires_slot 4500 (record { get = 8 }) (rva 16) "slot"
    ∷ []

calls-Spends_example : Spends counting reader (fold (call counting) reader calls)
calls-Spends_example = calls-Spends counting reader calls
