-- ===== src/Tests/Codec.antt =====
-- The wire format on short messages.
use androidtvremote_native.Common.{◌≡◌, ◌≢◌, [], ◌∷◌, arith}
use androidtvremote_native.Wire.Reader.{new, next}
use androidtvremote_native.Wire.Reader.Fields.{FieldResult, next_result}
use androidtvremote_native.Wire.Reader.{read_varint, rest}
use androidtvremote_native.Wire.Reader.Varint.{read_number, varint_prefix, read_varint_lem}
use androidtvremote_native.Wire.Search.{
  scan_message, to_option, out_of_fuel, visit_varint, decode_varint_prefix,
}
use androidtvremote_native.Wire.Search.Loop.{scan_message-ne-out_of_fuel}
use androidtvremote_native.Wire.Search.Agreement.{SameNumber, decode_varint_prefix-SameNumber}
use androidtvremote_native.Wire.Message.{number, bytes, write, first}
use androidtvremote_native.Wire.Message.RoundTrip.{scan_message-write}

-- The number 150 takes two bytes.
read_varint_lem_example :
    read_varint (new (150 ∷ 1 ∷ 7 ∷ []))
    ≡ read_number 10
        (new (150 ∷ 1 ∷ 7 ∷ []))
        (rest (new (150 ∷ 1 ∷ 7 ∷ [])))
        0
        0
        (varint_prefix (rest (new (150 ∷ 1 ∷ 7 ∷ []))))
read_varint_lem_example = read_varint_lem (new (150 ∷ 1 ∷ 7 ∷ []))

next_result_example : FieldResult (new (8 ∷ 150 ∷ 1 ∷ [])) (next (new (8 ∷ 150 ∷ 1 ∷ [])))
next_result_example = next_result (new (8 ∷ 150 ∷ 1 ∷ [])) (omega arith)

scan_message-ne-out_of_fuel_example :
    scan_message (visit_varint 2) (8 ∷ 150 ∷ 1 ∷ 16 ∷ []) ≢ out_of_fuel
scan_message-ne-out_of_fuel_example =
    scan_message-ne-out_of_fuel (visit_varint 2) (8 ∷ 150 ∷ 1 ∷ 16 ∷ [])

decode_varint_prefix-SameNumber_example :
    SameNumber (decode_varint_prefix (172 ∷ 2 ∷ 0 ∷ [])) (read_varint (new (172 ∷ 2 ∷ 0 ∷ [])))
decode_varint_prefix-SameNumber_example = decode_varint_prefix-SameNumber (172 ∷ 2 ∷ 0 ∷ [])

scan_message-write_example :
    to_option (
      scan_message
        (visit_varint 2)
        (write [] (number 1 300 ∷ bytes 5 (1 ∷ 2 ∷ []) ∷ number 2 200 ∷ [])))
    ≡ first (visit_varint 2) (number 1 300 ∷ bytes 5 (1 ∷ 2 ∷ []) ∷ number 2 200 ∷ [])
scan_message-write_example =
    scan_message-write (visit_varint 2) (number 1 300 ∷ bytes 5 (1 ∷ 2 ∷ []) ∷ number 2 200 ∷ [])
      (omega arith)
