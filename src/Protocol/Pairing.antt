-- ===== src/Protocol/Pairing.antt =====
-- The pairing messages and the tests on the messages of the television.
pub mod Replies
use androidtvremote_native.Common.{ℕ, Bool, Option, List, [], codes}
use androidtvremote_native.Wire.Writer.{
  Writer, varint_field, bytes_field, string_field, message_field,
}
use androidtvremote_native.Wire.Search.{find_varint, has_field}

-- protocol_version 2 and STATUS_OK stand before the inner message.
unfoldable pub pairing_outer : ℕ → Writer → Writer
pairing_outer number inner = message_field (varint_field (varint_field [] 1 2) 2 200) number inner

unfoldable pub pairing_request : List ℕ → List ℕ
pairing_request client_name =
    pairing_outer 10 (string_field (string_field [] 1 (codes "atvremote")) 2 client_name)

-- HEXADECIMAL, and six symbols.
abbrev pub encoding : Writer
encoding = varint_field (varint_field [] 1 3) 2 6

unfoldable pub pairing_options : List ℕ
pairing_options = pairing_outer 20 (varint_field (message_field [] 1 encoding) 3 1)

unfoldable pub pairing_configuration : List ℕ
pairing_configuration = pairing_outer 30 (varint_field (message_field [] 1 encoding) 2 1)

unfoldable pub pairing_secret : List ℕ → List ℕ
pairing_secret secret_bytes = pairing_outer 40 (bytes_field [] 1 secret_bytes)

unfoldable pub pairing_status : List ℕ → Option ℕ
pairing_status message = find_varint message 2

unfoldable pub has_pairing_request_ack : List ℕ → Bool
has_pairing_request_ack message = has_field message 11

unfoldable pub has_pairing_options : List ℕ → Bool
has_pairing_options message = has_field message 20

unfoldable pub has_configuration_ack : List ℕ → Bool
has_configuration_ack message = has_field message 31

unfoldable pub has_secret_ack : List ℕ → Bool
has_secret_ack message = has_field message 41
