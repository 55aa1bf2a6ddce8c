-- ===== src/Certificate/Hex/RoundTrip.antt =====
-- Reading back printed bytes, in both cases of the digits, and what a success says of the input.
use androidtvremote_native.Common.{
  ℕ, ◌+◌, ◌-◌, ◌*◌, ◌/◌, ◌%◌, ◌^◌, ◌<◌, ◌≡◌, refl, ap, sym, ◌∙◌, ◌⊎◌, List, [], ◌∷◌, ◌++◌, length,
  ltb, if◌then◌else◌, All, bit_or, append-nil, append_assoc, length-append, arith,
}
use androidtvremote_native.Common.Bits.{bit_or_high}
use androidtvremote_native.Common.Results.{ok, >>=-eq-ok}
use androidtvremote_native.Wire.Types.{IsByte}
use androidtvremote_native.Certificate.Hex.{nibble, hex_loop, hex_to_bytes}

-- A digit, by the letter that stands for 10.
abbrev pub digit : ℕ → ℕ → ℕ
digit ten n = if ltb n 10 then b'0' + n else ten + n - 10

-- The bytes in hexadecimal: `ten` is the code of `a` or `A`.
abbrev pub to_hex : ℕ → List ℕ → List ℕ
to_hex ten [] = []
to_hex ten (b ∷ bs) = digit ten (b / 16) ∷ digit ten (b % 16) ∷ to_hex ten bs

nibble-digit : (ten n : ℕ) → (ten ≡ b'a') ⊎ (ten ≡ b'A') → n < 16 → nibble (digit ten n) ≡ ok n
unfolding nibble
nibble-digit ten n t h = ground arith

join_nibbles : (b : ℕ) → b < 256 → bit_or (b / 16 * 2 ^ 4) (b % 16) % 256 ≡ b
join_nibbles b h = omega (arith, bit_or_high 4 (b / 16) (b % 16) (omega arith))

hex_loop-to_hex :
    (ten : ℕ) (bs out : List ℕ)
    → (ten ≡ b'a') ⊎ (ten ≡ b'A')
    → All IsByte bs
    → hex_loop (to_hex ten bs) out ≡ ok (out ++ bs)
unfolding hex_loop
hex_loop-to_hex ten [] out t h = ap ok (sym (append-nil out))
hex_loop-to_hex ten (b ∷ bs) out t (hb, hbs) =
    rw
      (
        nibble-digit ten (b / 16) t (omega arith),
        nibble-digit ten (b % 16) t (omega arith),
        join_nibbles b hb,
      )
      (hex_loop-to_hex ten bs (out ++ b ∷ []) t hbs ∙ ap ok (append_assoc out (b ∷ []) bs))

even_hex : (ten : ℕ) (bs : List ℕ) → length (to_hex ten bs) ≡ 2 * length bs
even_hex ten [] = refl
even_hex ten (b ∷ bs) = omega (arith, even_hex ten bs)

-- Any bytes that were printed in hexadecimal, with lower or upper case digits, are read back.
pub hex_to_bytes-to_hex :
    (ten : ℕ) (bs : List ℕ)
    → (ten ≡ b'a') ⊎ (ten ≡ b'A')
    → All IsByte bs
    → hex_to_bytes (to_hex ten bs) ≡ ok bs
unfolding hex_to_bytes
hex_to_bytes-to_hex ten bs t h =
    let even : length (to_hex ten bs) % 2 ≡ 0 = omega (arith, even_hex ten bs) in
    rw even (hex_loop-to_hex ten bs [] t h)

-- A success: half as many bytes as characters.
hex_loop-length :
    (hex out bs : List ℕ)
    → length hex % 2 ≡ 0
    → hex_loop hex out ≡ ok bs
    → 2 * length bs ≡ length hex + 2 * length out
unfolding hex_loop
hex_loop-length [] out bs h e = ground arith
hex_loop-length (c ∷ []) out bs h e = absurd (omega arith)
hex_loop-length (c ∷ d ∷ hex) out bs h e =
    let (high, _, e1) = >>=-eq-ok (nibble c) _ e in
    let (low, _, e2) = >>=-eq-ok (nibble d) _ e1 in
    let b : List ℕ = (bit_or (high * 2 ^ 4) low % 256) ∷ [] in
    omega (arith, hex_loop-length hex (out ++ b) bs (omega arith) e2, length-append out b)

pub hex_to_bytes-length : (hex bs : List ℕ) → hex_to_bytes hex ≡ ok bs → 2 * length bs ≡ length hex
unfolding hex_to_bytes
hex_to_bytes-length hex bs e = ground (arith, hex_loop-length hex [] bs)
