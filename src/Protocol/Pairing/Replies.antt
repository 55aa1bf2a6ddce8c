-- ===== src/Protocol/Pairing/Replies.antt =====
-- What the tests of the pairing protocol say of a message that was built by `pairingOuter`.
use androidtvremote_native.Common.{
  ℕ, ◌+◌, ◌<◌, ◌≤◌, ◌^◌, ◌≡◌, refl, some, List, [], ◌∷◌, length, ◌==◌, All, ◌∙◌, codes, arith,
}
use androidtvremote_native.Wire.Types.{IsU32, IsU64}
use androidtvremote_native.Wire.Writer.{Writer, message_field, string_field, bytes_field}
use androidtvremote_native.Wire.Search.{has_field, find_bytes}
use androidtvremote_native.Wire.Message.{Item, number, bytes, IsItem, write}
use androidtvremote_native.Wire.Message.RoundTrip.{
  find_varint-write, find_bytes-write, has_field-write,
}
use androidtvremote_native.Wire.Message.Nested.{bytes_at, length-write-le-weight}
use androidtvremote_native.Protocol.Pairing.{
  pairing_outer, pairing_request, pairing_secret, pairing_status, has_pairing_request_ack,
  has_pairing_options, has_configuration_ack, has_secret_ack,
}

abbrev outer_items : ℕ → Writer → List Item
outer_items n inner = number 1 2 ∷ number 2 200 ∷ bytes n inner ∷ []

pairing_outer-write :
    (n : ℕ) (inner : Writer) → pairing_outer n inner ≡ write [] (outer_items n inner)
unfolding pairing_outer message_field
pairing_outer-write n inner = refl

module _ (n : ℕ) (inner : Writer) (high : 2 < n) (small : IsU32 n)
    (fits : IsU64 (length inner)) where
  items : All IsItem (outer_items n inner)
  items = omega arith

  has_field-pairing_outer : (m : ℕ) → 2 < m → has_field (pairing_outer n inner) m ≡ (n == m)
  has_field-pairing_outer m hm =
      rw (pairing_outer-write n inner, has_field-write (outer_items n inner) m items) (ground arith)

  -- A pairing message whose inner message, with a length of 64 bits, stands under a number above 2
  -- that fits in 32 bits has status 200, passes the test for that number and no other of the four,
  -- and holds the inner message.
  pub pairing_outer_tests :
      (pairing_status (pairing_outer n inner) ≡ some 200)
      × (has_pairing_request_ack (pairing_outer n inner) ≡ (n == 11))
      × (has_pairing_options (pairing_outer n inner) ≡ (n == 20))
      × (has_configuration_ack (pairing_outer n inner) ≡ (n == 31))
      × (has_secret_ack (pairing_outer n inner) ≡ (n == 41))
      × (find_bytes (pairing_outer n inner) n ≡ some inner)
  unfolding pairing_status has_pairing_request_ack has_pairing_options has_configuration_ack
      has_secret_ack
  pairing_outer_tests = (
    rw (pairing_outer-write n inner) (find_varint-write (outer_items n inner) 2 items),
    has_field-pairing_outer 11 (omega arith),
    has_field-pairing_outer 20 (omega arith),
    has_field-pairing_outer 31 (omega arith),
    has_field-pairing_outer 41 (omega arith),
    rw (pairing_outer-write n inner)
        (find_bytes-write (outer_items n inner) n items ∙ ground arith),
  )

-- A short message stays short.
pub length-pairing_outer :
    (n : ℕ) (inner : Writer)
    → 2 < n
    → IsU32 n
    → IsU64 (length inner)
    → length (pairing_outer n inner) ≤ 60 + length inner
length-pairing_outer n inner high small fits =
    rw (pairing_outer-write n inner)
      (omega (arith, length-write-le-weight (outer_items n inner) (items n inner high small fits)))

-- A secret message has status 200 and holds the secret, if that is shorter than 2 ^ 32 bytes, under
-- field 1 of the message under field 40.
pairing_secret_contents :
    (secret : List ℕ)
    → length secret < 2 ^ 32
    → (pairing_status (pairing_secret secret) ≡ some 200)
      × (bytes_at (pairing_secret secret) (40 ∷ []) 1 ≡ some secret)
unfolding pairing_secret
pairing_secret_contents secret h =
    let is : List Item = bytes 1 secret ∷ [] in
    let ok : All IsItem is = omega arith in
    let short : IsU64 (length (bytes_field [] 1 secret)) =
      omega (arith, length-write-le-weight is ok) in
    let (status, _, _, _, _, inner) =
      pairing_outer_tests 40 (bytes_field [] 1 secret) (omega arith) (omega arith) short in
    (status, rw inner (find_bytes-write is 1 ok))

-- A pairing request has status 200 and names the protocol's service and the client, if the client's
-- name is shorter than 2 ^ 32 bytes.
pairing_request_contents :
    (client_name : List ℕ)
    → length client_name < 2 ^ 32
    → (pairing_status (pairing_request client_name) ≡ some 200)
      × (bytes_at (pairing_request client_name) (10 ∷ []) 1 ≡ some (codes "atvremote"))
      × (bytes_at (pairing_request client_name) (10 ∷ []) 2 ≡ some client_name)
unfolding pairing_request string_field
pairing_request_contents client_name h =
    let is : List Item = bytes 1 (codes "atvremote") ∷ bytes 2 client_name ∷ [] in
    let ok : All IsItem is = omega arith in
    let short : IsU64 (length (write [] is)) = omega (arith, length-write-le-weight is ok) in
    let (status, _, _, _, _, inner) =
      pairing_outer_tests 10 (write [] is) (omega arith) (omega arith) short in
    (status, rw inner (find_bytes-write is 1 ok), rw inner (find_bytes-write is 2 ok))
