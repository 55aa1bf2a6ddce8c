-- ===== src/Wire/Writer/Encoding.antt =====
-- What the writer appends, in plain arithmetic.
use mathlib.Core.WellFounded.{Acc}
use androidtvremote_native.Common.{
  ℕ, zero, suc, ◌+◌, ◌*◌, ◌/◌, ◌%◌, ◌^◌, ◌≤◌, ◌<◌, bit_and, bit_or, ◌≡◌, List, [], ◌∷◌, ◌++◌,
  length, arith, append_assoc, All, if◌then◌else◌, ltb, lt_wf,
}
use androidtvremote_native.Common.Bits.{low_seven, set_top_bit, bit_or_high}
use androidtvremote_native.Wire.Types.{WireType, to_byte, IsByte, IsU32, IsU64}
use androidtvremote_native.Wire.Writer.{
  Writer, varint_loop, varint, key, varint_field, bytes_field, frame,
}

-- The groups of seven bits of `v`, lowest first, at most `k + 1` of them; each but the last has
-- the top bit set.
unfoldable pub groups : ℕ → ℕ → List ℕ
groups zero v = v ∷ []
groups (suc k) v =
    let rest = groups k (v / 128) in if ltb v 128 then v ∷ [] else (v % 128 + 128) ∷ rest

inner_byte : (v : ℕ) → bit_or (bit_and v 0x7f) 0x80 % 256 ≡ v % 128 + 128
inner_byte v = rw low_seven (omega (arith, set_top_bit (v % 128) (omega arith)))

varint_loop-groups :
    (k : ℕ) (out : Writer) (v : ℕ) (w : Acc ◌<◌ v)
    → v < 128 ^ suc k
    → varint_loop out v w ≡ out ++ groups k v
unfolding varint_loop groups
varint_loop-groups zero out v (Acc.intro _ smaller) h = ground arith
varint_loop-groups (suc k) out v (Acc.intro _ smaller) h =
    let head : List ℕ = (v % 128 + 128) ∷ [] in
    grind (
      arith,
      inner_byte v,
      λ (w : Acc ◌<◌ (v / 128)). varint_loop-groups k (out ++ head) (v / 128) w (omega arith),
      append_assoc out head (groups k (v / 128)),
    )

-- `varint` keeps what was written and appends the groups of any uint64.
pub varint-groups : (out : Writer) (v : ℕ) → IsU64 v → varint out v ≡ out ++ groups 9 v
unfolding varint
varint-groups out v h = varint_loop-groups 9 out v (lt_wf.apply v) (omega arith)

pub groups-All : (k v : ℕ) → v < 128 ^ suc k → All IsByte (groups k v)
unfolding groups
groups-All zero v h = omega arith
groups-All (suc k) v h = ground (arith, groups-All k (v / 128) (omega arith))

pub length-groups : (k v : ℕ) → (1 ≤ length (groups k v)) × (length (groups k v) ≤ k + 1)
unfolding groups
length-groups zero v = omega arith
length-groups (suc k) v = ground (arith, length-groups k (v / 128))

-- The key of a field whose number fits 32 bits, as a number.
abbrev pub key_of : ℕ → WireType → ℕ
key_of number type = number * 8 + to_byte type

pub key-groups :
    (out : Writer) (number : ℕ) (type : WireType)
    → IsU32 number
    → to_byte type < 8
    → key out number type ≡ out ++ groups 9 (key_of number type)
unfolding key
key-groups out number type h t = rw (bits) (varint-groups out (key_of number type) (omega arith))
  where
    fits : number * 2 ^ 3 % 2 ^ 64 ≡ number * 2 ^ 3
    fits = omega arith

    bits : bit_or (number * 2 ^ 3 % 2 ^ 64) (to_byte type) ≡ key_of number type
    bits = rw (fits) (bit_or_high 3 number (to_byte type) t)

-- The fields as bytes: a key, then the value's groups, or its length's groups and the value.
abbrev pub varint_bytes : ℕ → ℕ → List ℕ
varint_bytes number value = groups 9 (key_of number WireType.varint) ++ groups 9 value

abbrev pub bytes_bytes : ℕ → List ℕ → List ℕ
bytes_bytes number value =
    groups 9 (key_of number WireType.length_delimited) ++ (groups 9 (length value) ++ value)

pub varint_field-bytes :
    (out : Writer) (number value : ℕ)
    → IsU32 number
    → IsU64 value
    → varint_field out number value ≡ out ++ varint_bytes number value
unfolding varint_field
varint_field-bytes out number value hn hv =
    rw
      (
        varint-groups (key out number WireType.varint) value hv,
        key-groups out number WireType.varint hn (omega arith),
      )
      (append_assoc out _ _)

pub bytes_field-bytes :
    (out : Writer) (number : ℕ) (value : List ℕ)
    → IsU32 number
    → IsU64 (length value)
    → bytes_field out number value ≡ out ++ bytes_bytes number value
unfolding bytes_field
bytes_field-bytes out number value hn hv =
    rw
      (
        varint-groups (key out number WireType.length_delimited) (length value) hv,
        key-groups out number WireType.length_delimited hn (omega arith),
      )
      (simp append_assoc)

pub frame-groups :
    (payload : List ℕ)
    → IsU64 (length payload)
    → frame payload ≡ groups 9 (length payload) ++ payload
unfolding frame
frame-groups payload h = rw (varint-groups [] (length payload) h)
