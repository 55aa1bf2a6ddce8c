-- ===== src/Wire/Reader.antt =====
-- `Reader` of src/proto_wire.cpp.
pub mod Varint
pub mod Fields
use androidtvremote_native.Common.{
  ℕ, zero, suc, ◌+◌, ◌-◌, ◌*◌, ◌/◌, ◌%◌, ◌^◌, bit_and, bit_or, Bool, true, false, not, ◌&&◌, ◌||◌,
  Option, none, some, List, [], ◌∷◌, length, take, drop, ltb, leb, ◌==◌, if◌then◌else◌,
}
use androidtvremote_native.Wire.Types.{WireType, Field, to_wire_type}

pub record Reader : Type 0 where
  pub bytes : List ℕ
  pub offset : ℕ
  pub ok : Bool

-- `Reader(bytes)`, with the initialisers of the other members.
abbrev pub new : List ℕ → Reader
new bytes = record { bytes = bytes; offset = 0; ok = true }

-- `ok_ = false`.
abbrev pub fail : Reader → Reader
fail r = record r { ok = false }

abbrev pub advance : Reader → ℕ → Reader
advance r n = record r { offset = r.offset + n }

-- The bytes from `offset_` on.
abbrev pub rest : Reader → List ℕ
rest r = drop r.offset r.bytes

-- `value | static_cast<std::uint64_t>(byte & 0x7fU) << shift`.
abbrev pub add_group : ℕ → ℕ → ℕ → ℕ
add_group value byte shift = bit_or value (bit_and byte 0x7f * 2 ^ shift % 2 ^ 64)

-- The loop of `readVarint`: the list holds the bytes from `offset_` on. A result `none` is the
-- return value `false`, after which no caller reads the number.
unfoldable pub read_varint_loop : List ℕ → Reader → ℕ → ℕ → Reader × Option ℕ
read_varint_loop [] r value shift = (fail r, none)
read_varint_loop (byte ∷ bytes) r value shift =
    let value' = add_group value byte shift in
    let more = read_varint_loop bytes (advance r 1) value' (shift + 7) in
    if leb shift 63
    then (if bit_and byte 0x80 == 0 then (advance r 1, some value') else more)
    else (fail r, none)

unfoldable pub read_varint : Reader → Reader × Option ℕ
read_varint r = read_varint_loop (rest r) r 0 0

-- `bytes_.subspan(offset_, width)` behind its guard. In C++ `bytes_.size() - offset_` wraps where
-- the offset is past the size; `Wire.Reader.Fields` is about the offset.
unfoldable pub read_span : Reader → ℕ → WireType → ℕ → Reader × Option Field
read_span r number type width = if ltb (length r.bytes - r.offset) width then (fail r, none) else (
  advance r width,
  some (record { number = number; type = type; varint = 0; bytes = take width (rest r) }),
)

abbrev varint_value : ℕ → Reader × Option ℕ → Reader × Option Field
varint_value number (r, none) = (r, none)
varint_value number (r, some value) =
    (r, some (record { number = number; type = WireType.varint; varint = value; bytes = [] }))

abbrev delimited_value : ℕ → Reader × Option ℕ → Reader × Option Field
delimited_value number (r, none) = (fail r, none)
delimited_value number (r, some size) = read_span r number WireType.length_delimited size

-- The `switch (field.type)` of `Reader::next`.
unfoldable pub read_value : Reader → ℕ → WireType → Reader × Option Field
read_value r number WireType.varint = varint_value number (read_varint r)
read_value r number WireType.fixed64 = read_span r number WireType.fixed64 8
read_value r number WireType.length_delimited = delimited_value number (read_varint r)
read_value r number WireType.fixed32 = read_span r number WireType.fixed32 4
read_value r number (WireType.unknown bits) = (fail r, none)

abbrev pub next_key : Reader × Option ℕ → Reader × Option Field
next_key (r, none) = (r, none)
next_key (r, some key) =
    let number = key / 2 ^ 3 % 2 ^ 32 in
    if number == 0 then (fail r, none) else read_value r number (to_wire_type (bit_and key 0x07))

-- `none` is the return value `false`; the field that a failed call leaves half set is not read.
unfoldable pub next : Reader → Reader × Option Field
next r = if not r.ok || leb (length r.bytes) r.offset then (r, none) else next_key (read_varint r)
