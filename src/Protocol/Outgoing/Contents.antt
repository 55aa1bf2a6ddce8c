-- ===== src/Protocol/Outgoing/Contents.antt =====
-- What a reader of the remote's messages finds in them.
use androidtvremote_native.Common.{
  ℕ, ◌-◌, ◌<◌, ◌^◌, ◌≡◌, some, List, [], ◌∷◌, length, All, ◌∙◌, ap, codes, arith,
}
use androidtvremote_native.Types.{Direction, direction_value, sign_extend, IsI32}
use androidtvremote_native.Wire.Types.{IsU32, IsU64}
use androidtvremote_native.Wire.Writer.{message_field, string_field}
use androidtvremote_native.Wire.Search.{find_bytes}
use androidtvremote_native.Wire.Message.{Item, number, bytes, IsItem, write, weight}
use androidtvremote_native.Wire.Message.RoundTrip.{find_varint-write, find_bytes-write}
use androidtvremote_native.Wire.Message.Nested.{bytes_at, varint_at, length-write-le-weight}
use androidtvremote_native.Protocol.Incoming.{as_i32}
use androidtvremote_native.Protocol.Outgoing.{
  remote_configure_response, remote_set_active_response, remote_ping_response, remote_key,
  last_position, remote_text, remote_app_link, remote_voice_begin, remote_voice_payload,
  remote_voice_end,
}

-- A message that holds one message.
module _ (n : ℕ) (is : List Item) (pos : 0 < n) (small : IsU32 n) (ok : All IsItem is)
    (light : weight is < 2 ^ 63) where
  fits : IsU64 (length (write [] is))
  fits = omega (arith, length-write-le-weight is ok)

  find_bytes-message : find_bytes (message_field [] n (write [] is)) n ≡ some (write [] is)
  unfolding message_field
  find_bytes-message =
      find_bytes-write (bytes n (write [] is) ∷ []) n ((pos, small, fits), tt) ∙ ground arith

-- A reader of a key message finds the key code, a bit pattern of 32 bits, and the direction.
pub remote_key_contents :
    (key_code : ℕ) (direction : Direction)
    → IsI32 key_code
    → (varint_at (remote_key key_code direction) (10 ∷ []) 1 ≡ some key_code)
      × (varint_at (remote_key key_code direction) (10 ∷ []) 2 ≡ some (direction_value direction))
unfolding remote_key
remote_key_contents key_code direction h =
    let is : List Item = number 1 key_code ∷ number 2 (direction_value direction) ∷ [] in
    let small : direction_value direction < 4 = ground arith in
    let ok : All IsItem is = omega arith in
    let inner = find_bytes-message 10 is (omega arith) (omega arith) ok (omega arith) in
    (rw inner (find_varint-write is 1 ok), rw inner (find_varint-write is 2 ok))

sign_extend-as_i32 : (w : ℕ) → IsI32 w → as_i32 (some (sign_extend w)) ≡ w
sign_extend-as_i32 w h = ground arith

sign_extend-lt : (w : ℕ) → IsI32 w → IsU64 (sign_extend w)
sign_extend-lt w h = ground arith

-- The features of a configuration response, 32 bits, come back as the int32_t that they were, and
-- the device description has the service's name and version.
remote_configure_response_contents :
    (features : ℕ)
    → IsI32 features
    → let message = remote_configure_response features in
      (as_i32 (varint_at message (1 ∷ []) 1) ≡ features)
      × (bytes_at message (1 ∷ 2 ∷ []) 5 ≡ some (codes "atvremote"))
      × (bytes_at message (1 ∷ 2 ∷ []) 6 ≡ some (codes "1.0.0"))
unfolding remote_configure_response string_field message_field
remote_configure_response_contents features h =
    let device : List Item =
      number 3 1
      ∷ bytes 4 (codes "1")
      ∷ bytes 5 (codes "atvremote")
      ∷ bytes 6 (codes "1.0.0")
      ∷ [] in
    let wide : IsU64 (sign_extend features) = sign_extend-lt features h in
    let ok : All IsItem device = omega arith in
    let short = length-write-le-weight device ok in
    let is : List Item = number 1 (sign_extend features) ∷ bytes 2 (write [] device) ∷ [] in
    let oks : All IsItem is = omega (arith, short) in
    let outer = find_bytes-message 1 is (omega arith) (omega arith) oks (omega (arith, short)) in
    let inner = find_bytes-write is 2 oks in
    (
      rw (outer, find_varint-write is 1 oks) (sign_extend-as_i32 features h),
      rw (outer, inner) (find_bytes-write device 5 ok),
      rw (outer, inner) (find_bytes-write device 6 ok),
    )

pub remote_set_active_response_contents :
    (features : ℕ)
    → IsI32 features
    → as_i32 (varint_at (remote_set_active_response features) (2 ∷ []) 1) ≡ features
unfolding remote_set_active_response
remote_set_active_response_contents features h =
    let wide : IsU64 (sign_extend features) = sign_extend-lt features h in
    let is : List Item = number 1 (sign_extend features) ∷ [] in
    let ok : All IsItem is = omega arith in
    rw
      (
        find_bytes-message 2 is (omega arith) (omega arith) ok (omega arith),
        find_varint-write is 1 ok,
      )
      (sign_extend-as_i32 features h)

pub remote_ping_response_contents :
    (value : ℕ) → IsI32 value → varint_at (remote_ping_response value) (9 ∷ []) 1 ≡ some value
unfolding remote_ping_response
remote_ping_response_contents value h =
    let is : List Item = number 1 value ∷ [] in
    let ok : All IsItem is = omega arith in
    rw (find_bytes-message 9 is (omega arith) (omega arith) ok (omega arith))
      (find_varint-write is 1 ok)

-- A text message for a text that is not empty and is shorter than 2 GiB holds the text, the
-- position of its last byte twice, and both counters, which are bit patterns of 32 bits.
pub remote_text_contents :
    (text : List ℕ) (ime_counter field_counter : ℕ)
    → 0 < length text
    → length text < 2 ^ 31
    → IsI32 ime_counter
    → IsI32 field_counter
    → let message = remote_text text ime_counter field_counter in
      (varint_at message (21 ∷ []) 1 ≡ some ime_counter)
      × (varint_at message (21 ∷ []) 2 ≡ some field_counter)
      × (bytes_at message (21 ∷ 3 ∷ 2 ∷ []) 3 ≡ some text)
      × (varint_at message (21 ∷ 3 ∷ 2 ∷ []) 1 ≡ some (length text - 1))
      × (varint_at message (21 ∷ 3 ∷ 2 ∷ []) 2 ≡ some (length text - 1))
unfolding remote_text string_field message_field
remote_text_contents text ime_counter field_counter h0 h hi hf =
    let pos : ℕ = last_position text in
    let at_end : last_position text ≡ length text - 1 = omega arith in
    let object : List Item = number 1 pos ∷ number 2 pos ∷ bytes 3 text ∷ [] in
    let ok1 : All IsItem object = omega arith in
    let short1 = length-write-le-weight object ok1 in
    let edit : List Item = number 1 1 ∷ bytes 2 (write [] object) ∷ [] in
    let ok2 : All IsItem edit = omega (arith, short1) in
    let short2 = length-write-le-weight edit ok2 in
    let batch : List Item =
      number 1 ime_counter ∷ number 2 field_counter ∷ bytes 3 (write [] edit) ∷ [] in
    let ok3 : All IsItem batch = omega (arith, short1, short2) in
    let outer =
      find_bytes-message 21 batch (omega arith) (omega arith) ok3 (omega (arith, short1, short2)) in
    let middle = find_bytes-write batch 3 ok3 in
    let inner = find_bytes-write edit 2 ok2 in
    (
      rw outer (find_varint-write batch 1 ok3),
      rw outer (find_varint-write batch 2 ok3),
      rw (outer, middle, inner) (find_bytes-write object 3 ok1),
      rw (outer, middle, inner) (find_varint-write object 1 ok1 ∙ ap some at_end),
      rw (outer, middle, inner) (find_varint-write object 2 ok1 ∙ ap some at_end),
    )

-- A link that is shorter than 4 GiB is field 1 of the message under field 90.
remote_app_link_contents :
    (app_link : List ℕ)
    → length app_link < 2 ^ 32
    → bytes_at (remote_app_link app_link) (90 ∷ []) 1 ≡ some app_link
unfolding remote_app_link string_field
remote_app_link_contents app_link h =
    let is : List Item = bytes 1 app_link ∷ [] in
    let ok : All IsItem is = omega arith in
    rw (find_bytes-message 90 is (omega arith) (omega arith) ok (omega arith))
      (find_bytes-write is 1 ok)

-- The three messages of a voice session carry its id, of 32 bits, and the payload the samples,
-- which are fewer than 2 ^ 32 bytes.
remote_voice_contents :
    (session_id : ℕ) (samples : List ℕ)
    → IsI32 session_id
    → length samples < 2 ^ 32
    → (varint_at (remote_voice_begin session_id) (30 ∷ []) 1 ≡ some session_id)
      × (varint_at (remote_voice_payload session_id samples) (31 ∷ []) 1 ≡ some session_id)
      × (bytes_at (remote_voice_payload session_id samples) (31 ∷ []) 2 ≡ some samples)
      × (varint_at (remote_voice_end session_id) (32 ∷ []) 1 ≡ some session_id)
unfolding remote_voice_begin remote_voice_payload remote_voice_end
remote_voice_contents session_id samples h hs =
    let is : List Item = number 1 session_id ∷ [] in
    let ok : All IsItem is = omega arith in
    let with_samples : List Item = number 1 session_id ∷ bytes 2 samples ∷ [] in
    let oks : All IsItem with_samples = omega arith in
    let payload =
      find_bytes-message 31 with_samples (omega arith) (omega arith) oks (omega arith) in
    (
      rw (find_bytes-message 30 is (omega arith) (omega arith) ok (omega arith))
          (find_varint-write is 1 ok),
      rw payload (find_varint-write with_samples 1 oks),
      rw payload (find_bytes-write with_samples 2 oks),
      rw (find_bytes-message 32 is (omega arith) (omega arith) ok (omega arith))
          (find_varint-write is 1 ok),
    )
