-- ===== src/Wire/Message/RoundTrip.antt =====
-- Reading what was written.
use androidtvremote_native.Common.{
  ℕ, zero, suc, ◌+◌, ◌-◌, ◌/◌, ◌%◌, ◌^◌, ◌≤◌, ◌<◌, bit_and, ◌≡◌, refl, sym, ap, ◌∙◌, true, false,
  Option, none, some, List, [], ◌∷◌, ◌++◌, length, take, drop, All, ◌==◌, append-nil, append_assoc,
  length-append, length-drop, drop-drop, drop-length_append, take-length_append, arith,
}
use androidtvremote_native.Common.Bits.{low_three}
use androidtvremote_native.Wire.Types.{WireType, Field, IsU32, IsU64, to_byte, to_wire_type}
use androidtvremote_native.Wire.Writer.{Writer, varint_field, bytes_field}
use androidtvremote_native.Wire.Writer.Encoding.{
  groups, length-groups, key_of, varint_bytes, bytes_bytes, varint_field-bytes, bytes_field-bytes,
}
use androidtvremote_native.Wire.Reader.{
  Reader, new, advance, rest, read_varint, read_span, read_value, next_key, next,
}
use androidtvremote_native.Wire.Reader.Varint.{
  varint_prefix, group_value, read_number, read_varint_lem,
}
use androidtvremote_native.Wire.Message.{
  Item, number, bytes, IsItem, to_field, write, item_bytes, encode, or_else, first,
}
use androidtvremote_native.Wire.Search.{
  Scan, found, missing, visited, to_option, scan, scan_message, visit_varint, visit_bytes,
  visit_number, found_or_false, find_varint, find_bytes, has_field,
}

-- The encodings of the integers and the decoder's description of them fit together.
varint_prefix-groups :
    (k v : ℕ) (t : List ℕ) → v < 128 ^ suc k → varint_prefix (groups k v ++ t) ≡ some (groups k v)
unfolding varint_prefix groups
varint_prefix-groups zero v t h = ground arith
varint_prefix-groups (suc k) v t h =
    ground (arith, varint_prefix-groups k (v / 128) t (omega arith))

group_value-groups : (k v : ℕ) → v < 128 ^ suc k → group_value (groups k v) ≡ v
unfolding group_value groups
group_value-groups zero v h = ground arith
group_value-groups (suc k) v h = ground (arith, group_value-groups k (v / 128) (omega arith))

pub read_varint-groups :
    (r : Reader) (v : ℕ) (t : List ℕ)
    → rest r ≡ groups 9 v ++ t
    → IsU64 v
    → read_varint r ≡ (advance r (length (groups 9 v)), some v)
unfolding read_number
read_varint-groups r v t e h =
    rw (read_varint_lem r, e, varint_prefix-groups 9 v t (omega arith))
      (ground (arith, length-groups 9 v, group_value-groups 9 v))

pub rest-advance :
    (r : Reader) (xs t : List ℕ) → rest r ≡ xs ++ t → rest (advance r (length xs)) ≡ t
rest-advance r xs t e =
    sym (drop-drop (length xs) r.offset r.bytes) ∙ ap (drop (length xs)) e ∙ drop-length_append xs t

length-rest :
    (r : Reader) (xs t : List ℕ)
    → rest r ≡ xs ++ t
    → length xs + length t ≡ length r.bytes - r.offset
length-rest r xs t e = omega (arith, length-drop r.offset r.bytes, ap length e, length-append xs t)

-- The call of `next` at a field's key goes on to the field's value.
next_key-number :
    (r : Reader) (n : ℕ) (type : WireType)
    → (0 < n) × IsU32 n
    → to_byte type < 8
    → next_key (r, some (key_of n type)) ≡ read_value r n (to_wire_type (to_byte type))
next_key-number r n type h ht =
    let high : key_of n type / 2 ^ 3 % 2 ^ 32 ≡ n = omega arith in
    let low : bit_and (key_of n type) 0x07 ≡ to_byte type =
      omega (arith, low_three (key_of n type)) in
    let nonzero : (n == 0) ≡ false = ground arith in rw (high, low, nonzero)

next_of_key :
    (r : Reader) (n : ℕ) (type : WireType) (t : List ℕ)
    → r.ok ≡ true
    → rest r ≡ groups 9 (key_of n type) ++ t
    → (0 < n) × IsU32 n
    → to_byte type < 8
    → next r
      ≡ read_value (advance r (length (groups 9 (key_of n type)))) n (to_wire_type (to_byte type))
unfolding next
next_of_key r n type t ok e h ht = ground (
  arith,
  length-rest r (groups 9 (key_of n type)) t e,
  length-groups 9 (key_of n type),
  read_varint-groups r (key_of n type) t e,
  next_key-number (advance r (length (groups 9 (key_of n type)))) n type h ht,
)

next-varint_item :
    (r : Reader) (n v : ℕ) (t : List ℕ)
    → r.ok ≡ true
    → rest r ≡ varint_bytes n v ++ t
    → IsItem (number n v)
    → next r ≡ (advance r (length (varint_bytes n v)), some (to_field (number n v)))
unfolding read_value
next-varint_item r n v t ok e (pos, small, fits) =
    let head : List ℕ = groups 9 (key_of n WireType.varint) in
    let s : Reader = advance r (length head) in
    let e' : rest r ≡ head ++ (groups 9 v ++ t) = e ∙ append_assoc head (groups 9 v) t in
    next_of_key r n WireType.varint (groups 9 v ++ t) ok e' (pos, small) (omega arith)
    ∙ rw (read_varint-groups s v t (rest-advance r head _ e') fits)
        (ground (arith, length-append head (groups 9 v)))

-- `subspan` at the position.
read_span-append :
    (r : Reader) (n : ℕ) (type : WireType) (value t : List ℕ)
    → rest r ≡ value ++ t
    → read_span r n type (length value) ≡ (
      advance r (length value),
      some (record { number = n; type = type; varint = 0; bytes = value }),
    )
unfolding read_span
read_span-append r n type value t e =
    ground (arith, length-rest r value t e, ap (take (length value)) e, take-length_append value t)

next-bytes_item :
    (r : Reader) (n : ℕ) (value t : List ℕ)
    → r.ok ≡ true
    → rest r ≡ bytes_bytes n value ++ t
    → IsItem (bytes n value)
    → next r ≡ (advance r (length (bytes_bytes n value)), some (to_field (bytes n value)))
unfolding read_value read_span
next-bytes_item r n value t ok e (pos, small, fits) =
    let head : List ℕ = groups 9 (key_of n WireType.length_delimited) in
    let size : List ℕ = groups 9 (length value) in
    let s : Reader = advance r (length head) in
    let e1 : rest r ≡ head ++ (size ++ (value ++ t)) =
      e ∙ append_assoc head (size ++ value) t ∙ ap (λ l. head ++ l) (append_assoc size value t) in
    let e2 : rest s ≡ size ++ (value ++ t) = rest-advance r head _ e1 in
    next_of_key r n WireType.length_delimited (size ++ (value ++ t)) ok e1 (pos, small)
      (omega arith)
    ∙ rw (read_varint-groups s (length value) (value ++ t) e2 fits) (
        read_span-append (advance s (length size)) n WireType.length_delimited value t
          (rest-advance s size _ e2)
        ∙ ground (arith, length-append head (size ++ value), length-append size value))

-- One item.
pub next-item :
    (r : Reader) (i : Item) (t : List ℕ)
    → r.ok ≡ true
    → rest r ≡ item_bytes i ++ t
    → IsItem i
    → next r ≡ (advance r (length (item_bytes i)), some (to_field i))
next-item r (number n v) t ok e h = next-varint_item r n v t ok e h
next-item r (bytes n value) t ok e h = next-bytes_item r n value t ok e h

-- What the writer holds after a list of items.
pub write-encode : (out : Writer) (is : List Item) → All IsItem is → write out is ≡ out ++ encode is
write-encode out [] h = sym (append-nil out)
write-encode out (number n v ∷ is) (h, hs) =
    write-encode (varint_field out n v) is hs
    ∙ rw (varint_field-bytes out n v h.1 h.2) (append_assoc out (varint_bytes n v) (encode is))
write-encode out (bytes n value ∷ is) (h, hs) =
    write-encode (bytes_field out n value) is hs
    ∙ rw (bytes_field-bytes out n value h.1 h.2)
        (append_assoc out (bytes_bytes n value) (encode is))

length-item_bytes : (i : Item) → 1 ≤ length (item_bytes i)
length-item_bytes (number n v) = omega (
  arith,
  length-append (groups 9 (key_of n WireType.varint)) (groups 9 v),
  length-groups 9 (key_of n WireType.varint),
)
length-item_bytes (bytes n value) =
    let k : ℕ = key_of n WireType.length_delimited in
    omega (arith, length-append (groups 9 k) (groups 9 (length value) ++ value), length-groups 9 k)

next_end : (r : Reader) → rest r ≡ [] → next r ≡ (r, none)
unfolding next
next_end r e = ground (arith, length-drop r.offset r.bytes, ap length e)

module _ {ℓ} {A : Type ℓ} (visit : Field → Option A) where
  abbrev outcome : Option A → Scan A
  outcome none = missing
  outcome (some a) = found a

  scan-encode :
      (is : List Item) (fuel : ℕ) (r : Reader)
      → r.ok ≡ true
      → rest r ≡ encode is
      → All IsItem is
      → length (encode is) < fuel
      → scan visit fuel r ≡ outcome (first visit is)
  unfolding scan
  scan-encode is zero r ok e h hf = absurd (omega arith)
  scan-encode [] (suc fuel) r ok e h hf = rw (next_end r e)
  scan-encode (i ∷ is) (suc fuel) r ok e (hi, his) hf = rw (next-item r i (encode is) ok e hi) (
      go (advance r (length (item_bytes i))) (visit (to_field i)) (
        scan-encode is fuel (advance r (length (item_bytes i))) ok
          (rest-advance r (item_bytes i) (encode is) e) his
          (omega (arith, length-item_bytes i, length-append (item_bytes i) (encode is)))))
    where
      go :
          (s : Reader) (o : Option A)
          → scan visit fuel s ≡ outcome (first visit is)
          → visited o (scan visit fuel) s ≡ outcome (or_else o (first visit is))
      go s (some a) later = refl
      go s none later = later

  -- For items whose field numbers are not 0 and fit in 32 bits and whose numbers and lengths fit in
  -- 64 bits: the loop over the fields of the message that the writer makes of them returns what
  -- `visit` answers first on the items, in the order of writing.
  pub scan_message-write :
      (is : List Item)
      → All IsItem is
      → to_option (scan_message visit (write [] is)) ≡ first visit is
  unfolding scan_message
  scan_message-write is h =
      rw
        (
          write-encode [] is h,
          scan-encode is (suc (length (encode is))) (new (encode is)) refl refl h (omega arith),
        )
        (go (first visit is))
    where
      go : (o : Option A) → to_option (outcome o) ≡ o
      go none = refl
      go (some a) = refl

module _ (is : List Item) (n : ℕ) (h : All IsItem is) where
  pub find_varint-write : find_varint (write [] is) n ≡ first (visit_varint n) is
  unfolding find_varint
  find_varint-write = scan_message-write (visit_varint n) is h

  pub find_bytes-write : find_bytes (write [] is) n ≡ first (visit_bytes n) is
  unfolding find_bytes
  find_bytes-write = scan_message-write (visit_bytes n) is h

  pub has_field-write : has_field (write [] is) n ≡ found_or_false (first (visit_number n) is)
  unfolding has_field
  has_field-write = ap found_or_false (scan_message-write (visit_number n) is h)
