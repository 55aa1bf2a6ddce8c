-- ===== src/Wire/Types.antt =====
-- The types of src/proto_wire.hpp and the ranges of its integers.
use androidtvremote_native.Common.{ℕ, zero, suc, ◌^◌, ◌<◌, List, [], ◌∷◌, ◌++◌, All}

abbrev pub IsByte : ℕ → Type 0
IsByte b = b < 256

pub IsByte-append : (xs ys : List ℕ) → All IsByte xs → All IsByte ys → All IsByte (xs ++ ys)
IsByte-append [] ys h k = k
IsByte-append (x ∷ xs) ys (h, hs) k = (h, IsByte-append xs ys hs k)

abbrev pub IsU32 : ℕ → Type 0
IsU32 n = n < 2 ^ 32

abbrev pub IsU64 : ℕ → Type 0
IsU64 n = n < 2 ^ 64

-- `unknown` is a value of the enumeration's underlying type that has no enumerator; the cast of a
-- key's low bits can give 3, 4, 6 and 7.
pub data WireType : Type 0 where
  varint fixed64 length_delimited fixed32 : WireType
  unknown : ℕ → WireType

pub record Field : Type 0 where
  pub number : ℕ
  pub type : WireType
  pub varint : ℕ
  pub bytes : List ℕ

-- `static_cast<std::uint8_t>(type)`.
abbrev pub to_byte : WireType → ℕ
to_byte WireType.varint = 0
to_byte WireType.fixed64 = 1
to_byte WireType.length_delimited = 2
to_byte WireType.fixed32 = 5
to_byte (WireType.unknown n) = n

-- `static_cast<WireType>(bits)`.
abbrev pub to_wire_type : ℕ → WireType
to_wire_type zero = WireType.varint
to_wire_type (suc zero) = WireType.fixed64
to_wire_type (suc (suc zero)) = WireType.length_delimited
to_wire_type (suc (suc (suc (suc (suc zero))))) = WireType.fixed32
to_wire_type n = WireType.unknown n
