-- ===== src/Wire/Reader/Varint.antt =====
-- `readVarint` against a description of base-128 numbers.
use native.Mathlib.Nat.{pow-le-pow_right, mod-eq_of_lt, mod-add-mod}
use native.Mathlib.Numerals.{towards_suc}
use androidtvremote_native.Common.{
  ℕ, zero, suc, ◌+◌, ◌*◌, ◌/◌, ◌%◌, ◌^◌, ◌≤◌, ◌<◌, min, bit_and, ◌≡◌, ap, sym, ◌∙◌, Bool, true,
  false, Option, none, some, List, [], ◌∷◌, length, leb, ◌==◌, ==_iff, le→leb, Bool-cases, ◌⊎◌, inl,
  inr, if◌then◌else◌, arith,
}
use androidtvremote_native.Common.Bits.{low_seven, top_bit, bit_or_fields}
use androidtvremote_native.Wire.Reader.{
  Reader, fail, advance, rest, add_group, read_varint_loop, read_varint,
}

-- A byte whose top bit is clear ends a number.
abbrev pub is_last : ℕ → Bool
is_last b = b / 128 % 2 == 0

abbrev pub cons_prefix : ℕ → Option (List ℕ) → Option (List ℕ)
cons_prefix b none = none
cons_prefix b (some p) = some (b ∷ p)

-- The bytes of the number at the front of a list: up to the first byte that ends one.
unfoldable pub varint_prefix : List ℕ → Option (List ℕ)
varint_prefix [] = none
varint_prefix (b ∷ bs) = if is_last b then some (b ∷ []) else cons_prefix b (varint_prefix bs)

-- The number that a list of seven-bit groups stands for, lowest group first.
unfoldable pub group_value : List ℕ → ℕ
group_value [] = 0
group_value (b ∷ bs) = b % 128 + 128 * group_value bs

shift_seven : (s : ℕ) → 2 ^ (s + 7) ≡ 128 * 2 ^ s
shift_seven s = simp towards_suc (omega arith)

pub prefix_pos : (bs : List ℕ) {p : List ℕ} → varint_prefix bs ≡ some p → 1 ≤ length p
unfolding varint_prefix
prefix_pos [] e = cc
prefix_pos (b ∷ bs) e = ground arith

-- The number's bytes are among those that are there.
pub length-prefix : (bs : List ℕ) {p : List ℕ} → varint_prefix bs ≡ some p → length p ≤ length bs
unfolding varint_prefix
length-prefix [] e = cc
length-prefix (b ∷ bs) e = grind (arith, length-prefix bs)

-- One round adds the group, modulo 2 ^ 64.
add_group_low :
    (acc b s : ℕ)
    → s ≤ 56
    → acc < 2 ^ s
    → (add_group acc b s ≡ acc + b % 128 * 2 ^ s)
      × (acc + b % 128 * 2 ^ s < 2 ^ (s + 7))
      × (2 ^ (s + 7) ≤ 2 ^ 63)
add_group_low acc b s h ha = (sum, below, wide)
  where
    wide : 2 ^ (s + 7) ≤ 2 ^ 63
    wide = pow-le-pow_right {n = 2} (omega arith) {i = s + 7} {j = 63} (omega arith)

    below : acc + b % 128 * 2 ^ s < 2 ^ (s + 7)
    below = grind (arith, shift_seven s)

    whole : b % 128 * 2 ^ s % 2 ^ 64 ≡ b % 128 * 2 ^ s
    whole = mod-eq_of_lt (omega (arith, below, wide))

    sum : add_group acc b s ≡ acc + b % 128 * 2 ^ s
    sum = rw (low_seven, whole) (bit_or_fields s acc (b % 128) ha)

add_group_last : (acc b : ℕ) → acc < 2 ^ 63 → add_group acc b 63 ≡ (acc + b % 128 * 2 ^ 63) % 2 ^ 64
add_group_last acc b ha =
    rw (low_seven, wrapped) (omega (arith, bit_or_fields 63 acc (b % 128 % 2) ha))
  where
    wrapped : b % 128 * 2 ^ 63 % 2 ^ 64 ≡ b % 128 % 2 * 2 ^ 63
    wrapped = omega arith

add_group_wraps :
    (acc b s : ℕ)
    → (s ≤ 56) ⊎ (s ≡ 63)
    → acc < 2 ^ s
    → (add_group acc b s ≡ (acc + b % 128 * 2 ^ s) % 2 ^ 64) × (add_group acc b s < 2 ^ (s + 7))
add_group_wraps acc b s (inl h) ha =
    let (e, lo, hi) = add_group_low acc b s h ha in
    (e ∙ sym (mod-eq_of_lt (omega arith)), omega arith)
add_group_wraps acc b s (inr e) ha =
    rw e (add_group_last acc b (rw e at ha), omega (arith, add_group_last acc b (rw e at ha)))

-- What reading a number does: it takes the bytes of the number if they are at most `rounds`, and
-- otherwise fails behind the last byte it looked at.
unfoldable pub read_number : ℕ → Reader → List ℕ → ℕ → ℕ → Option (List ℕ) → Reader × Option ℕ
read_number rounds r bytes acc shift none = (fail (advance r (min rounds (length bytes))), none)
read_number rounds r bytes acc shift (some p) =
    if leb (length p) rounds
    then (advance r (length p), some ((acc + group_value p * 2 ^ shift) % 2 ^ 64))
    else (fail (advance r rounds), none)

value_step :
    (acc b shift n : ℕ)
    → ((acc + b % 128 * 2 ^ shift) % 2 ^ 64 + n * 2 ^ (shift + 7)) % 2 ^ 64
      ≡ (acc + (b % 128 + 128 * n) * 2 ^ shift) % 2 ^ 64
value_step acc b shift n =
    mod-add-mod (acc + b % 128 * 2 ^ shift) (2 ^ 64) (n * 2 ^ (shift + 7))
    ∙ ap (λ (t : ℕ). t % 2 ^ 64) (omega (arith, ap (λ (t : ℕ). n * t) (shift_seven shift)))

shift_cases : (rounds shift : ℕ) → shift + 7 * suc rounds ≡ 70 → (shift ≤ 56) ⊎ (shift ≡ 63)
shift_cases zero shift h = inr (omega arith)
shift_cases (suc rounds) shift h = inl (omega arith)

loop_last :
    (b : ℕ) (bytes : List ℕ) (r : Reader) (acc shift : ℕ)
    → shift ≤ 63
    → is_last b ≡ true
    → read_varint_loop (b ∷ bytes) r acc shift ≡ (advance r 1, some (add_group acc b shift))
unfolding read_varint_loop
loop_last b bytes r acc shift h e =
    let top : bit_and b 0x80 ≡ 0 = omega (arith, top_bit b, (==_iff (b / 128 % 2) 0).0 e) in
    rw (le→leb shift 63 h, top)

loop_more :
    (b : ℕ) (bytes : List ℕ) (r : Reader) (acc shift : ℕ)
    → shift ≤ 63
    → is_last b ≡ false
    → read_varint_loop (b ∷ bytes) r acc shift
      ≡ read_varint_loop bytes (advance r 1) (add_group acc b shift) (shift + 7)
unfolding read_varint_loop
loop_more b bytes r acc shift h e = ground (arith, top_bit b)

-- A byte that does not end the number joins the number that the other bytes begin with.
read_number_more :
    (rounds : ℕ) (r : Reader) (b : ℕ) (bytes : List ℕ) (acc shift : ℕ) (o : Option (List ℕ))
    → add_group acc b shift ≡ (acc + b % 128 * 2 ^ shift) % 2 ^ 64
    → read_number rounds (advance r 1) bytes (add_group acc b shift) (shift + 7) o
      ≡ read_number (suc rounds) r (b ∷ bytes) acc shift (cons_prefix b o)
unfolding read_number group_value
read_number_more rounds r b bytes acc shift none e = ground arith
read_number_more rounds r b bytes acc shift (some p) e =
    rw e (ground (arith, value_step acc b shift (group_value p)))

-- `rounds` counts how often the test `shift <= 63` can still pass.
read_varint_loop_lem :
    (rounds : ℕ) (bytes : List ℕ) (r : Reader) (acc shift : ℕ)
    → shift + 7 * rounds ≡ 70
    → acc < 2 ^ shift
    → read_varint_loop bytes r acc shift
      ≡ read_number rounds r bytes acc shift (varint_prefix bytes)
unfolding varint_prefix
read_varint_loop_lem rounds [] r acc shift hs ha =
    unfold read_varint_loop read_number in ground arith
read_varint_loop_lem zero (b ∷ bytes) r acc shift hs ha =
    unfold read_varint_loop read_number in ground (arith, prefix_pos (b ∷ bytes))
read_varint_loop_lem (suc rounds) (b ∷ bytes) r acc shift hs ha =
    let (sum, fits) = add_group_wraps acc b shift (shift_cases rounds shift hs) ha in
    elim (Bool-cases (is_last b)) [
      | inl e ↦
          loop_last b bytes r acc shift (omega arith) e
          ∙ rw (e, sum) (unfold read_number group_value in ground arith)
      | inr e ↦
          loop_more b bytes r acc shift (omega arith) e
          ∙ read_varint_loop_lem rounds bytes (advance r 1) (add_group acc b shift) (shift + 7)
              (omega arith) fits
          ∙ rw e (read_number_more rounds r b bytes acc shift (varint_prefix bytes) sum)
    ]

-- `readVarint` takes the bytes up to the first one whose top bit is clear, if these are at most
-- ten, and returns the number that they stand for in base 128 modulo 2 ^ 64; otherwise it fails,
-- behind the last byte that it looked at.
pub read_varint_lem :
    (r : Reader) → read_varint r ≡ read_number 10 r (rest r) 0 0 (varint_prefix (rest r))
unfolding read_varint
read_varint_lem r = read_varint_loop_lem 10 (rest r) r 0 0 (omega arith) (omega arith)
