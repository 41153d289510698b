-- ===== src/Warframe/Text.antt =====
-- crates/games/warframe/provider/src/native_string.rs and target.rs: the game's strings of 16 bytes, in
-- place or elsewhere. `from_utf8` is the standard library's, `none` for its error.
use Prim.Native.Char.{Char, code}
use Prim.Native.String.{String, ◌∷◌, [] as empty}
use Prim.Native.Nat.{◌%◌}
use wf_observer.Common.{
  ℕ, ◌-◌, ◌*◌, Bool, not, ◌&&◌, Option, none, some, List, contains, ltb, leb, u64_max,
  if◌then◌else◌, ◌==◌, nat_eq, string_eq,
}
use wf_observer.Common.Attempt.{Attempt, yields, fails}
use wf_observer.Delta.{hash_eq}
use wf_observer.Memory.Bytes.{take, drop, from_le_bytes}
use wf_observer.Memory.Address.{ObjectOffset}
use wf_observer.Memory.Reader.{
  Backend, ReadLimits, ReadError, Action, pure, ◌>>=◌, object_address, read_at, read_stable,
}

abbrev pub read_limits : ReadLimits
read_limits = record {
  min_address = 1;
  max_address = 140737488355327;
  bytes = 32 * 1024 * 1024;
  reads = 64 * 1024;
}

pub data Storage : Type 0 where
  inline : ℕ → Storage
  external : ℕ → ℕ → Storage

abbrev pub length_of : Storage → ℕ
length_of (Storage.inline n) = n
length_of (Storage.external pointer n) = n

-- The byte at a position; a header has 16.
abbrev pub byte_at : List ℕ → ℕ → ℕ
byte_at bytes i = from_le_bytes (take 1 (drop i bytes))

unfoldable pub external_of : ℕ → ℕ → Attempt ReadError Storage
external_of pointer length =
    if not (length == 0) && pointer == 0
    then fails (ReadError.invalid_data "native string pointer")
    else yields (Storage.external pointer length)

unfoldable pub storage_of : List ℕ → Attempt ReadError Storage
unfolding from_le_bytes take drop external_of
storage_of header =
    if leb (byte_at header 15) 15
    then yields (Storage.inline (15 - byte_at header 15))
    else if byte_at header 15 == 255
    then external_of (from_le_bytes (take 8 header))
        (from_le_bytes (take 4 (drop 8 header)) % 268435456)
    else fails (ReadError.invalid_data "native string representation")

unfoldable pub bounded : ℕ → Attempt ReadError Storage → Attempt ReadError Storage
bounded maximum (fails error) = fails error
bounded maximum (yields storage) =
    if ltb maximum (length_of storage)
    then fails (ReadError.limit_exceeded "native string length")
    else yields storage

unfoldable pub decode_header : List ℕ → ℕ → Attempt ReadError Storage
unfolding storage_of bounded
decode_header header maximum = bounded maximum (storage_of header)

unfoldable pub encoded_length : List ℕ → Attempt ReadError ℕ
unfolding decode_header
encoded_length header = elim (decode_header header u64_max) [
  | fails error ↦ fails error
  | yields storage ↦ yields (length_of storage)
]

-- The platform's icon behind a name.
unfoldable pub is_icon : Char → Bool
is_icon c = leb 57344 (code c) && leb (code c) 63743

abbrev pub trim : Char → String → String
trim c empty = if is_icon c then empty else c ∷ empty
trim c (d ∷ rest) = c ∷ d ∷ rest

unfoldable pub player_name : String → String
unfolding is_icon
player_name empty = empty
player_name (c ∷ s) = trim c (player_name s)

module _ (backend : Backend) (from_utf8 : List ℕ → Option String) where
  abbrev pub contents : List ℕ → Storage → Action backend (List ℕ)
  contents header (Storage.inline n) = pure backend (λ r. yields (take n header))
  contents header (Storage.external pointer n) = read_at backend pointer n

  abbrev pub text_of : List ℕ → Attempt ReadError String
  text_of bytes =
      if contains bytes 0
      then fails (ReadError.invalid_data "native string NUL")
      else elim (from_utf8 bytes) [
        | none ↦ fails (ReadError.invalid_data "native string UTF-8")
        | some text ↦ yields text
      ]

  -- One reading of a string's header and contents.
  unfoldable pub read_once : ℕ → ℕ → Action backend String
  unfolding decode_header read_at take
  read_once address maximum = ◌>>=◌ backend (read_at backend address 16) λ header.
      ◌>>=◌ backend (pure backend (λ r. decode_header header maximum)) λ storage.
        ◌>>=◌ backend (contents header storage) λ bytes.
          ◌>>=◌ backend (read_at backend address 16) λ again. pure backend (λ r.
            if not (again == header)
            then fails (ReadError.unstable "native string header")
            else text_of bytes)

  unfoldable pub read_string : ℕ → ObjectOffset → ℕ → Action backend String
  unfolding object_address read_once
  read_string object offset maximum =
      ◌>>=◌ backend (pure backend (object_address backend object offset 16)) λ address.
        read_stable (λ a b. a == b) (read_once address maximum)
          (ReadError.unstable "native string contents")
