-- ===== src/Wire/Message.antt =====
-- Messages as lists of items: what a client of the writer puts in, and what a client of the reader
-- gets out. The round trip through bytes is stated once, here, for all messages of the protocol.
pub mod RoundTrip
pub mod Nested
use androidtvremote_native.Common.{
  ℕ, ◌+◌, ◌<◌, List, [], ◌∷◌, ◌++◌, Option, none, some, length, All,
}
use androidtvremote_native.Wire.Types.{WireType, Field, IsU32, IsU64}
use androidtvremote_native.Wire.Writer.{Writer, varint_field, bytes_field}
use androidtvremote_native.Wire.Writer.Encoding.{varint_bytes, bytes_bytes}

-- The two kinds of field that the writer has.
pub data Item : Type 0 where
  number : ℕ → ℕ → Item
  bytes : ℕ → List ℕ → Item

-- A field number of protobuf that is not 0, and a value that fits.
abbrev pub IsItem : Item → Type 0
IsItem (number n v) = (0 < n) × IsU32 n × IsU64 v
IsItem (bytes n value) = (0 < n) × IsU32 n × IsU64 (length value)

abbrev pub to_field : Item → Field
to_field (number n v) = record { number = n; type = WireType.varint; varint = v; bytes = [] }
to_field (bytes n value) = record {
  number = n;
  type = WireType.length_delimited;
  varint = 0;
  bytes = value;
}

abbrev pub write_item : Writer → Item → Writer
write_item out (number n v) = varint_field out n v
write_item out (bytes n value) = bytes_field out n value

abbrev pub write : Writer → List Item → Writer
write out [] = out
write out (i ∷ is) = write (write_item out i) is

abbrev pub item_bytes : Item → List ℕ
item_bytes (number n v) = varint_bytes n v
item_bytes (bytes n value) = bytes_bytes n value

abbrev pub encode : List Item → List ℕ
encode [] = []
encode (i ∷ is) = item_bytes i ++ encode is

-- The first item for which a search answers.
abbrev pub or_else {ℓ} : {A : Type ℓ} → Option A → Option A → Option A
or_else (some a) o = some a
or_else none o = o

abbrev pub first {ℓ} : {A : Type ℓ} → (Field → Option A) → List Item → Option A
first visit [] = none
first visit (i ∷ is) = or_else (visit (to_field i)) (first visit is)

-- A bound on the bytes that the items take: a key and a number take ten bytes each at most.
abbrev pub weight : List Item → ℕ
weight [] = 0
weight (number n v ∷ is) = 20 + weight is
weight (bytes n value ∷ is) = 20 + length value + weight is
