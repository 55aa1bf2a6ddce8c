-- ===== src/Wire/Message/Nested.antt =====
-- Messages inside messages, and how long a message is.
use androidtvremote_native.Common.{
  ℕ, ◌≤◌, Option, none, some, List, [], ◌∷◌, ◌++◌, length, All, length-append, arith,
}
use androidtvremote_native.Wire.Types.{WireType}
use androidtvremote_native.Wire.Writer.Encoding.{groups, length-groups, key_of}
use androidtvremote_native.Wire.Search.{find_varint, find_bytes}
use androidtvremote_native.Wire.Message.{
  Item, number, bytes, IsItem, write, encode, item_bytes, weight,
}
use androidtvremote_native.Wire.Message.RoundTrip.{write-encode}

abbrev pub then_find {ℓ} : {A : Type ℓ} → Option (List ℕ) → (List ℕ → Option A) → Option A
then_find none f = none
then_find (some m) f = f m

-- The message that is found by going down through fields with these numbers.
abbrev pub descend : List ℕ → List ℕ → Option (List ℕ)
descend message [] = some message
descend message (n ∷ path) = then_find (find_bytes message n) (λ inner. descend inner path)

abbrev pub varint_at : List ℕ → List ℕ → ℕ → Option ℕ
varint_at message path n = then_find (descend message path) (λ inner. find_varint inner n)

abbrev pub bytes_at : List ℕ → List ℕ → ℕ → Option (List ℕ)
bytes_at message path n = then_find (descend message path) (λ inner. find_bytes inner n)

length-encode : (is : List Item) → length (encode is) ≤ weight is
length-encode [] = omega arith
length-encode (number n v ∷ is) =
    let k : ℕ = key_of n WireType.varint in
    omega (
      arith,
      length-encode is,
      length-append (item_bytes (number n v)) (encode is),
      length-append (groups 9 k) (groups 9 v),
      length-groups 9 k,
      length-groups 9 v,
    )
length-encode (bytes n value ∷ is) =
    let k : ℕ = key_of n WireType.length_delimited in
    omega (
      arith,
      length-encode is,
      length-append (item_bytes (bytes n value)) (encode is),
      length-append (groups 9 k) (groups 9 (length value) ++ value),
      length-append (groups 9 (length value)) value,
      length-groups 9 k,
      length-groups 9 (length value),
    )

pub length-write-le-weight : (is : List Item) → All IsItem is → length (write [] is) ≤ weight is
length-write-le-weight is h = rw (write-encode [] is h) (length-encode is)
