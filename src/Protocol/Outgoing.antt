-- ===== src/Protocol/Outgoing.antt =====
-- The messages that the remote sends.
pub mod Contents
use androidtvremote_native.Common.{ℕ, ◌+◌, ◌-◌, ◌%◌, ◌^◌, List, [], length, codes}
use androidtvremote_native.Types.{Direction, direction_value, sign_extend}
use androidtvremote_native.Wire.Writer.{varint_field, bytes_field, string_field, message_field}

abbrev pub feature_ping : ℕ
feature_ping = 1

abbrev pub feature_key : ℕ
feature_key = 2

abbrev pub feature_ime : ℕ
feature_ime = 4

abbrev pub feature_voice : ℕ
feature_voice = 8

abbrev pub feature_power : ℕ
feature_power = 32

abbrev pub feature_volume : ℕ
feature_volume = 64

abbrev pub feature_app_link : ℕ
feature_app_link = 512

unfoldable pub remote_configure_response : ℕ → List ℕ
remote_configure_response active_features =
    let device =
      string_field
        (string_field (string_field (varint_field [] 3 1) 4 (codes "1")) 5 (codes "atvremote")) 6
        (codes "1.0.0") in
    let configure = message_field (varint_field [] 1 (sign_extend active_features)) 2 device in
    message_field [] 1 configure

unfoldable pub remote_set_active_response : ℕ → List ℕ
remote_set_active_response active_features =
    message_field [] 2 (varint_field [] 1 (sign_extend active_features))

-- `static_cast<std::uint64_t>(static_cast<std::uint32_t>(value))` is the bit pattern itself.
unfoldable pub remote_ping_response : ℕ → List ℕ
remote_ping_response value = message_field [] 9 (varint_field [] 1 value)

unfoldable pub remote_key : ℕ → Direction → List ℕ
remote_key key_code direction =
    message_field [] 10 (varint_field (varint_field [] 1 key_code) 2 (direction_value direction))

-- `static_cast<std::int32_t>(text.size()) - 1`, as a bit pattern.
abbrev pub last_position : List ℕ → ℕ
last_position text = (length text % 2 ^ 32 + 2 ^ 32 - 1) % 2 ^ 32

unfoldable pub remote_text : List ℕ → ℕ → ℕ → List ℕ
remote_text text ime_counter field_counter =
    let pos = last_position text in
    let ime_object = string_field (varint_field (varint_field [] 1 pos) 2 pos) 3 text in
    let edit_info = message_field (varint_field [] 1 1) 2 ime_object in
    let batch =
      message_field (varint_field (varint_field [] 1 ime_counter) 2 field_counter) 3 edit_info in
    message_field [] 21 batch

unfoldable pub remote_app_link : List ℕ → List ℕ
remote_app_link app_link = message_field [] 90 (string_field [] 1 app_link)

unfoldable pub remote_voice_begin : ℕ → List ℕ
remote_voice_begin session_id = message_field [] 30 (varint_field [] 1 session_id)

unfoldable pub remote_voice_payload : ℕ → List ℕ → List ℕ
remote_voice_payload session_id samples =
    message_field [] 31 (bytes_field (varint_field [] 1 session_id) 2 samples)

unfoldable pub remote_voice_end : ℕ → List ℕ
remote_voice_end session_id = message_field [] 32 (varint_field [] 1 session_id)
