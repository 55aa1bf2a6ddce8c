-- ===== src/Certificate/Hex.antt =====
-- `hexToBytes`.
pub mod RoundTrip
use androidtvremote_native.Common.{
  ℕ, ◌+◌, ◌-◌, ◌*◌, ◌%◌, ◌^◌, Bool, true, false, ◌&&◌, not, List, [], ◌∷◌, ◌++◌, length, leb, ◌==◌,
  if◌then◌else◌, codes, bit_or,
}
use androidtvremote_native.Common.Results.{Error, Result, ok, err, invalid_argument, ◌>>=◌}

unfoldable pub nibble : ℕ → Result ℕ
nibble c =
    if leb b'0' c && leb c b'9'
    then ok (c - b'0')
    else if leb b'a' c && leb c b'f'
    then ok (10 + c - b'a')
    else if leb b'A' c && leb c b'F'
    then ok (10 + c - b'A')
    else err (invalid_argument (codes "pairing code is not hexadecimal"))

-- The loop takes two characters a round; that the length is even was tested before.
unfoldable pub hex_loop : List ℕ → List ℕ → Result (List ℕ)
hex_loop [] out = ok out
hex_loop (c ∷ []) out = ok out
hex_loop (c ∷ d ∷ hex) out = do
  high ← nibble c
  low ← nibble d
  hex_loop hex (out ++ (bit_or (high * 2 ^ 4) low % 256) ∷ [])

unfoldable pub hex_to_bytes : List ℕ → Result (List ℕ)
hex_to_bytes hex =
    if not (length hex % 2 == 0)
    then err (invalid_argument (codes "hex string must have an even number of characters"))
    else hex_loop hex []
