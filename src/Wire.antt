-- ===== src/Wire.antt =====
-- Go's encoding/binary over a byte buffer, as formulatel/f123/f123.go uses it: little-endian
-- scalars, fixed arrays and structs, read field by field in declaration order from exactly as
-- many bytes as the type is long. A byte is a number below 256, a float32 its bit pattern.
pub mod Scalars
pub mod Arrays
pub mod Reads
use formulatel.Common.{
  ℕ, zero, suc, ◌+◌, ◌*◌, ◌/◌, ◌%◌, ◌<◌, ◌≡◌, List, [], ◌∷◌, ◌++◌, Option, none, some, length, take,
  drop, replicate, ltb, ◌==◌, if◌then◌else◌,
}
use formulatel.Common.Int.{ℤ, signed}

abbrev pub Decoder {ℓ} : Type ℓ → Type ℓ
Decoder A = List ℕ → A × List ℕ

abbrev pub pure {ℓ} : {A : Type ℓ} → A → Decoder A
pure a bs = (a, bs)

infixl 5 ◌>>=◌
unfoldable pub ◌>>=◌ {ℓ κ} :
    {A : Type ℓ} {B : Type κ}
    → (List ℕ → A × List ℕ)
    → (A → List ℕ → B × List ℕ)
    → List ℕ
    → B × List ℕ
◌>>=◌ m f bs = let r = m bs in f r.0 r.1

-- A byte past the end reads as 0; `binary_read` never asks for one.
unfoldable pub get_u8 : Decoder ℕ
get_u8 [] = (0, [])
get_u8 (b ∷ bs) = (b, bs)

unfoldable pub get_u16 : Decoder ℕ
unfolding ◌>>=◌
get_u16 = do lo ← get_u8; hi ← get_u8; pure (lo + 256 * hi)

unfoldable pub get_u32 : Decoder ℕ
unfolding ◌>>=◌
get_u32 = do lo ← get_u16; hi ← get_u16; pure (lo + 65536 * hi)

unfoldable pub get_u64 : Decoder ℕ
unfolding ◌>>=◌
get_u64 = do lo ← get_u32; hi ← get_u32; pure (lo + 4294967296 * hi)

unfoldable pub get_i8 : Decoder ℤ
unfolding ◌>>=◌
get_i8 = do b ← get_u8; pure (signed 128 b)

unfoldable pub get_i16 : Decoder ℤ
unfolding ◌>>=◌
get_i16 = do b ← get_u16; pure (signed 32768 b)

-- A fixed array `[n]T`.
unfoldable pub get_array {ℓ} : {A : Type ℓ} → Decoder A → ℕ → Decoder (List A)
get_array d zero bs = ([], bs)
get_array d (suc n) bs = let rest = get_array d n (d bs).1 in ((d bs).0 ∷ rest.0, rest.1)

-- What `binary.Read` knows of a type: its size in bytes, and how its bytes are read.
pub record Layout {ℓ} (A : Type ℓ) : Type ℓ where
  pub size : ℕ
  pub decode : List ℕ → A × List ℕ

-- The zero value that `new(T)` or `&T{}` holds.
unfoldable pub zero_value {ℓ} : {A : Type ℓ} → Layout A → A
zero_value l = (l.decode (replicate l.size 0)).0

-- The errors of `io.ReadFull`.
pub data ReadError : Type 0 where
  eof unexpected_eof : ReadError

-- `binary.Read` into a fresh value: the value, the error, and the bytes left unread.
pub record ReadResult {ℓ} (A : Type ℓ) : Type ℓ where
  pub value : A
  pub error : Option ReadError
  pub rest : List ℕ

unfoldable pub binary_read {ℓ} : {A : Type ℓ} → Layout A → List ℕ → ReadResult A
unfolding zero_value
binary_read l bs =
    if ltb (length bs) l.size
    then record {
      value = zero_value l;
      error = if length bs == 0 then some eof else some unexpected_eof;
      rest = [];
    }
    else record { value = (l.decode (take l.size bs)).0; error = none; rest = drop l.size bs }
