-- ===== src/Wire/Search.antt =====
-- The loops `while (reader.next(field))` of src/proto_wire.cpp: `findVarint`, `findBytes` and
-- `hasField`; and `decodeVarintPrefix`.
pub mod Loop
pub mod Agreement
use androidtvremote_native.Common.{
  ℕ, zero, suc, ◌+◌, ◌*◌, ◌%◌, ◌^◌, bit_and, bit_or, Bool, true, false, ◌&&◌, Option, none, some,
  List, [], ◌∷◌, length, ltb, ◌==◌, if◌then◌else◌,
}
use androidtvremote_native.Wire.Types.{WireType, Field}
use androidtvremote_native.Wire.Reader.{Reader, new, next, add_group}

-- How a loop over the fields ends. `out_of_fuel` is no outcome of the program.
pub data Scan {ℓ} (A : Type ℓ) : Type ℓ where
  found : A → Scan A
  missing : Scan A
  out_of_fuel : Scan A

abbrev pub to_option {ℓ} : {A : Type ℓ} → Scan A → Option A
to_option (found a) = some a
to_option missing = none
to_option out_of_fuel = none

-- The body of the loop returns `a`, or goes on at `r`.
abbrev pub visited {ℓ} : {A : Type ℓ} → Option A → (Reader → Scan A) → Reader → Scan A
visited (some a) again r = found a
visited none again r = again r

abbrev pub scan_next {ℓ} :
    {A : Type ℓ} → (Field → Option A) → (Reader → Scan A) → Reader × Option Field → Scan A
scan_next visit again (r, none) = missing
scan_next visit again (r, some field) = visited (visit field) again r

module _ {ℓ} {A : Type ℓ} (visit : Field → Option A) where
  -- `while (reader.next(field)) { … }`, where the body returns or goes on to the next field.
  unfoldable pub scan : ℕ → Reader → Scan A
  scan zero r = out_of_fuel
  scan (suc fuel) r = scan_next visit (scan fuel) (next r)

  -- Each field takes a byte at least, so one round more than there are bytes is enough.
  unfoldable pub scan_message : List ℕ → Scan A
  scan_message message = scan (suc (length message)) (new message)

abbrev pub is_varint : WireType → Bool
is_varint WireType.varint = true
is_varint _ = false

abbrev pub is_length_delimited : WireType → Bool
is_length_delimited WireType.length_delimited = true
is_length_delimited _ = false

abbrev pub visit_varint : ℕ → Field → Option ℕ
visit_varint number field =
    if field.number == number && is_varint field.type then some field.varint else none

abbrev pub visit_bytes : ℕ → Field → Option (List ℕ)
visit_bytes number field =
    if field.number == number && is_length_delimited field.type then some field.bytes else none

abbrev pub visit_number : ℕ → Field → Option Bool
visit_number number field = if field.number == number then some true else none

unfoldable pub find_varint : List ℕ → ℕ → Option ℕ
find_varint message number = to_option (scan_message (visit_varint number) message)

unfoldable pub find_bytes : List ℕ → ℕ → Option (List ℕ)
find_bytes message number = to_option (scan_message (visit_bytes number) message)

abbrev pub found_or_false : Option Bool → Bool
found_or_false none = false
found_or_false (some b) = b

unfoldable pub has_field : List ℕ → ℕ → Bool
has_field message number = found_or_false (to_option (scan_message (visit_number number) message))

-- The result of `decodeVarintPrefix` with its two out-parameters.
pub record Prefix : Type 0 where
  pub decoded : Bool
  pub value : ℕ
  pub prefix_length : ℕ

-- The range-based loop; at its end `prefixLength` is set to 0.
unfoldable pub decode_varint_prefix_loop : List ℕ → ℕ → ℕ → ℕ → Prefix
decode_varint_prefix_loop [] value prefix_length shift = record {
  decoded = false;
  value = value;
  prefix_length = 0;
}
decode_varint_prefix_loop (byte ∷ bytes) value prefix_length shift =
    let value' = add_group value byte shift in
    let more = decode_varint_prefix_loop bytes value' (prefix_length + 1) (shift + 7) in
    if ltb 63 shift
    then record { decoded = false; value = value; prefix_length = prefix_length }
    else (if bit_and byte 0x80 == 0
        then record { decoded = true; value = value'; prefix_length = prefix_length + 1 }
        else more)

unfoldable pub decode_varint_prefix : List ℕ → Prefix
decode_varint_prefix bytes = decode_varint_prefix_loop bytes 0 0 0
