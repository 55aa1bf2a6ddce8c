-- ===== src/Wire/Search/Agreement.antt =====
-- `decodeVarintPrefix` agrees with `Reader::readVarint`.
use androidtvremote_native.Common.{
  ℕ, ◌+◌, ◌≡◌, refl, Option, none, some, List, [], ◌∷◌, true, false, arith,
}
use androidtvremote_native.Wire.Reader.{
  Reader, new, advance, read_varint_loop, read_varint, add_group,
}
use androidtvremote_native.Wire.Search.{Prefix, decode_varint_prefix_loop, decode_varint_prefix}

-- The two loops return the same verdict and, if it is true, the same number and length.
abbrev pub SameNumber : Prefix → Reader × Option ℕ → Type 0
SameNumber p (r, none) = p.decoded ≡ false
SameNumber p (r, some v) = (p.decoded ≡ true) × (p.value ≡ v) × (p.prefix_length ≡ r.offset)

loops_agree :
    (bytes : List ℕ) (r : Reader) (value shift : ℕ)
    → SameNumber
        (decode_varint_prefix_loop bytes value r.offset shift)
        (read_varint_loop bytes r value shift)
unfolding decode_varint_prefix_loop read_varint_loop
loops_agree [] r value shift = refl
loops_agree (b ∷ bytes) r value shift =
    ground (arith, loops_agree bytes (advance r 1) (add_group value b shift) (shift + 7))

-- On any bytes, `decodeVarintPrefix` succeeds exactly when `readVarint` does on a new reader of
-- these bytes, and then with the same number and the length by which the reader advances.
pub decode_varint_prefix-SameNumber :
    (bytes : List ℕ) → SameNumber (decode_varint_prefix bytes) (read_varint (new bytes))
unfolding decode_varint_prefix read_varint
decode_varint_prefix-SameNumber bytes = loops_agree bytes (new bytes) 0 0
