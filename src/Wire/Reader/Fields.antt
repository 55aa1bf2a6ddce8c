-- ===== src/Wire/Reader/Fields.antt =====
-- What `Reader::next` does to the position, and the fields it returns, on any input.
use androidtvremote_native.Common.{
  ℕ, ◌+◌, ◌-◌, ◌/◌, ◌%◌, ◌^◌, ◌≤◌, ◌<◌, ◌≡◌, inl, inr, refl, true, Option, none, some, List, length,
  take, drop, leb, ltb, ◌==◌, length-drop, Bool-cases, not, ◌||◌, arith,
}
use androidtvremote_native.Wire.Types.{WireType, Field, IsU64, IsU32}
use androidtvremote_native.Wire.Reader.{
  Reader, rest, read_varint, read_span, read_value, varint_value, delimited_value, next_key, next,
}
use androidtvremote_native.Wire.Reader.Varint.{
  varint_prefix, prefix_pos, length-prefix, read_number, read_varint_lem,
}

-- The position is inside the bytes, so `bytes_.size() - offset_` never wraps.
abbrev pub IsValid : Reader → Type 0
IsValid r = r.offset ≤ length r.bytes

-- `r'` is `r` some bytes further on, over the same bytes.
pub record Later (r r' : Reader) : Type 0 where
  pub bytes : r'.bytes ≡ r.bytes
  pub forward : r.offset ≤ r'.offset
  pub inside : IsValid r'

-- A number that is read is a uint64 and moves the position by one byte at least.
abbrev VarintResult : Reader → Reader × Option ℕ → Type 0
VarintResult r (r', none) = Later r r'
VarintResult r (r', some v) = Later r r' × IsU64 v × (r.offset < r'.offset) × (r'.ok ≡ r.ok)

read_number_result :
    (r : Reader) (o : Option (List ℕ))
    → IsValid r
    → varint_prefix (rest r) ≡ o
    → VarintResult r (read_number 10 r (rest r) 0 0 o)
unfolding read_number
read_number_result r none h e = ground (arith, length-drop r.offset r.bytes)
read_number_result r (some p) h e =
    ground (arith, length-drop r.offset r.bytes, prefix_pos (rest r) e, length-prefix (rest r) e)

read_varint_result : (r : Reader) → IsValid r → VarintResult r (read_varint r)
read_varint_result r h =
    rw (read_varint_lem r) (read_number_result r (varint_prefix (rest r)) h refl)

-- A field that is read has a number from 1 to 2 ^ 32 - 1 and a uint64; its bytes are the `width`
-- bytes of the message that end at the new position.
pub record FieldRead (r r' : Reader) (f : Field) : Type 0 where
  pub later : Later r r'
  pub progress : r.offset < r'.offset
  pub still_ok : r'.ok ≡ true
  pub numbered : (0 < f.number) × IsU32 f.number
  pub fits : IsU64 f.varint
  pub span :
      (start : ℕ) × (width : ℕ) × (f.bytes ≡ take width (drop start r.bytes))
      × (r.offset < start)
      × (start + width ≡ r'.offset)

abbrev pub FieldResult : Reader → Reader × Option Field → Type 0
FieldResult r (r', none) = Later r r'
FieldResult r (r', some f) = FieldRead r r' f

-- `r` is where the call of `next` began and `s` where the key ended.
record AfterKey (r s : Reader) (number : ℕ) : Type 0 where
  later : Later r s
  progress : r.offset < s.offset
  still_ok : s.ok ≡ true
  numbered : (0 < number) × IsU32 number

read_span_result :
    (r s : Reader) (number : ℕ) (type : WireType) (width : ℕ)
    → AfterKey r s number
    → FieldResult r (read_span s number type width)
unfolding read_span
read_span_result r s number type width h =
    elim (Bool-cases (ltb (length s.bytes - s.offset) width)) [
      | inl e ↦ rw e (ground arith)
      | inr e ↦ rw e (record {
        later = ground arith;
        progress = ground arith;
        still_ok = h.still_ok;
        numbered = h.numbered;
        fits = omega arith;
        span = (s.offset, width, rw (h.later.bytes), h.progress, refl);
      })
    ]

varint_value_result :
    (r s : Reader) (number : ℕ) (o : Reader × Option ℕ)
    → AfterKey r s number
    → VarintResult s o
    → FieldResult r (varint_value number o)
varint_value_result r s number (s', none) h v = ground arith
varint_value_result r s number (s', some n) h v = record {
  later = ground arith;
  progress = ground arith;
  still_ok = ground arith;
  numbered = h.numbered;
  fits = v.1;
  span = (s'.offset, 0, refl, ground arith, omega arith);
}

delimited_value_result :
    (r s : Reader) (number : ℕ) (o : Reader × Option ℕ)
    → AfterKey r s number
    → VarintResult s o
    → FieldResult r (delimited_value number o)
delimited_value_result r s number (s', none) h v = ground arith
delimited_value_result r s number (s', some n) h v =
    read_span_result r s' number WireType.length_delimited n (ground arith)

read_value_result :
    (r s : Reader) (number : ℕ) (type : WireType)
    → AfterKey r s number
    → FieldResult r (read_value s number type)
unfolding read_value
read_value_result r s number WireType.varint h =
    varint_value_result r s number (read_varint s) h (read_varint_result s h.later.inside)
read_value_result r s number WireType.fixed64 h = read_span_result r s number WireType.fixed64 8 h
read_value_result r s number WireType.length_delimited h =
    delimited_value_result r s number (read_varint s) h (read_varint_result s h.later.inside)
read_value_result r s number WireType.fixed32 h = read_span_result r s number WireType.fixed32 4 h
read_value_result r s number (WireType.unknown n) h = ground arith

next_key_result :
    (r : Reader) (o : Reader × Option ℕ)
    → r.ok ≡ true
    → VarintResult r o
    → FieldResult r (next_key o)
next_key_result r (s, none) ok v = v
next_key_result r (s, some key) ok v = elim (Bool-cases (key / 2 ^ 3 % 2 ^ 32 == 0)) [
  | inl e ↦ rw e (ground arith)
  | inr e ↦ rw e (read_value_result r s (key / 2 ^ 3 % 2 ^ 32) _ (ground arith))
]

-- From a position inside the bytes, `next` leaves the position inside the same bytes and never
-- moves it back. With a field it moves on, the reader is still good, the field's number is from 1
-- to 2 ^ 32 - 1, its value fits in 64 bits, and its bytes are a stretch of the message that ends at
-- the new position.
pub next_result : (r : Reader) → IsValid r → FieldResult r (next r)
unfolding next
next_result r h = elim (Bool-cases (not r.ok || leb (length r.bytes) r.offset)) [
  | inl e ↦ rw e (ground arith)
  | inr e ↦ rw e (next_key_result r (read_varint r) (ground arith) (read_varint_result r h))
]
