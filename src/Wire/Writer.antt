-- ===== src/Wire/Writer.antt =====
-- `Writer` of src/proto_wire.cpp, and `frame`. A writer is its only member, the vector `data_`.
pub mod Encoding
use mathlib.Core.Logic.{dite}
use mathlib.Core.WellFounded.{Acc}
use native.Mathlib.Decide.{dec_le}
use androidtvremote_native.Common.{
  ℕ, ◌*◌, ◌/◌, ◌%◌, ◌^◌, ◌≤◌, ◌<◌, bit_and, bit_or, List, [], ◌∷◌, ◌++◌, length, lt_wf, arith,
}
use androidtvremote_native.Wire.Types.{WireType, to_byte}

abbrev pub Writer : Type 0
Writer = List ℕ

pub shift_shrinks : (value : ℕ) → 0x80 ≤ value → value / 128 < value
shift_shrinks value h = omega arith

-- `while (value >= 0x80)`; `value >>= 7` is `value / 128`.
varint_loop : Writer → (value : ℕ) → Acc ◌<◌ value → Writer
varint_loop out value (Acc.intro _ smaller) =
    dite (dec_le 0x80 value)
      (λ more.
        varint_loop (out ++ (bit_or (bit_and value 0x7f) 0x80 % 256) ∷ []) (value / 128)
          (smaller _ (shift_shrinks value more)))
      (λ _. out ++ (value % 256) ∷ [])

unfoldable pub varint : Writer → ℕ → Writer
unfolding varint_loop lt_wf dec_le
varint out value = varint_loop out value (lt_wf.apply value)

unfoldable pub key : Writer → ℕ → WireType → Writer
key out number type = varint out (bit_or (number * 2 ^ 3 % 2 ^ 64) (to_byte type))

unfoldable pub varint_field : Writer → ℕ → ℕ → Writer
varint_field out number value = varint (key out number WireType.varint) value

unfoldable pub bytes_field : Writer → ℕ → List ℕ → Writer
bytes_field out number value =
    varint (key out number WireType.length_delimited) (length value) ++ value

unfoldable pub string_field : Writer → ℕ → List ℕ → Writer
string_field out number value = bytes_field out number value

unfoldable pub message_field : Writer → ℕ → Writer → Writer
message_field out number nested = bytes_field out number nested

-- The loop of `frame` is that of `Writer::varint`, written out once more on its own vector.
unfoldable pub frame : List ℕ → List ℕ
frame payload = varint [] (length payload) ++ payload
