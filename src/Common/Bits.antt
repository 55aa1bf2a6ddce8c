-- ===== src/Common/Bits.antt =====
-- `|` of disjoint fields and `&` with a low mask as arithmetic, and bounds on `|`.
use Prim.Native.Nat.{
  ℕ, zero, suc, ◌+◌, ◌-◌, ◌*◌, ◌/◌, ◌%◌, ◌^◌, ◌≤◌, ◌<◌, min, max, bit_and, bit_or, digits, bitwise,
  bit_and-bitwise, bit_or-bitwise,
}
use mathlib.Core.Path.{◌≡◌, refl, sym, ap, ◌∙◌}
use native.Mathlib.Nat.{suc-add, pow-suc, pow-succ', one-le-pow, div-div-eq-div-mul}
use native.Mathlib.Omega.{arith}

-- The native operations count the digits to go; a count that is too high changes nothing.
module _ (rest : ℕ → ℕ) (op : ℕ → ℕ → ℕ) where
  exhausted : (count y : ℕ) → digits rest op count 0 y ≡ rest y
  exhausted zero y = refl
  exhausted (suc count) y = refl

  extra_count :
      (count extra x y : ℕ)
      → x ≤ count
      → digits rest op (count + extra) x y ≡ digits rest op count x y
  extra_count count extra zero y enough = exhausted (count + extra) y ∙ sym (exhausted count y)
  extra_count zero extra (suc x) y enough = absurd (omega arith)
  extra_count (suc count) extra (suc x) y enough =
      rw (suc-add count extra, extra_count count extra (suc x / 2) (y / 2) (omega arith))

  bitwise-halves :
      (x y : ℕ)
      → bitwise rest op (suc x) y ≡ 2 * bitwise rest op (suc x / 2) (y / 2) + op (suc x % 2) (y % 2)
  bitwise-halves x y =
      let half : ℕ = suc x / 2 in
      let enough : half + (x - half) ≡ x = omega arith in
      let counted : digits rest op x half (y / 2) ≡ digits rest op half half (y / 2) =
        ap (λ (count : ℕ). digits rest op count half (y / 2)) (sym enough)
        ∙ extra_count half (x - half) half (y / 2) (omega arith) in
      omega (arith, counted)

bit_or_halves : (x y : ℕ) → bit_or x y ≡ 2 * bit_or (x / 2) (y / 2) + max (x % 2) (y % 2)
bit_or_halves zero y = simp bit_or-bitwise (omega arith)
bit_or_halves (suc x) y = simp bit_or-bitwise (bitwise-halves (λ low. low) max x y)

bit_and_halves : (x y : ℕ) → bit_and x y ≡ 2 * bit_and (x / 2) (y / 2) + min (x % 2) (y % 2)
bit_and_halves zero y = simp bit_and-bitwise (omega arith)
bit_and_halves (suc x) y = simp bit_and-bitwise (bitwise-halves (λ low. 0) min x y)

zero-bit_or : (b : ℕ) → bit_or 0 b ≡ b
zero-bit_or b = bit_or-bitwise 0 b

zero-bit_and : (b : ℕ) → bit_and 0 b ≡ 0
zero-bit_and b = bit_and-bitwise 0 b

zero_of_width : (a : ℕ) → a < 2 ^ 0 → a ≡ 0
zero_of_width a h = omega arith

double_shift : (x width : ℕ) → x * 2 ^ suc width ≡ 2 * (x * 2 ^ width)
double_shift x width = omega (arith, ap (λ (power : ℕ). x * power) (pow-suc 2 width))

-- The next three go down by the width, from `a` to `a / 2`. `|` needs no more bits than its operands.
pub bit_or-lt : (k a b : ℕ) → a < 2 ^ k → b < 2 ^ k → bit_or a b < 2 ^ k
bit_or-lt zero a b p q = rw (zero_of_width a p, zero-bit_or) q
bit_or-lt (suc k) a b p q =
    let next =
      bit_or-lt k (a / 2) (b / 2) (omega (arith, pow-suc 2 k)) (omega (arith, pow-suc 2 k)) in
    omega (arith, bit_or_halves a b, pow-suc 2 k, next)

-- `acc | (g << k)` is a sum when `acc` has only bits below `k`.
pub bit_or_fields : (k acc g : ℕ) → acc < 2 ^ k → bit_or acc (g * 2 ^ k) ≡ acc + g * 2 ^ k
bit_or_fields zero acc g fits = rw (zero_of_width acc fits) (omega (arith, zero-bit_or (g * 2 ^ 0)))
bit_or_fields (suc k) acc g fits = ground (
  arith,
  bit_or_halves acc (g * 2 ^ suc k),
  double_shift g k,
  pow-suc 2 k,
  bit_or_fields k (acc / 2) g,
)

bit_and-zero_below : (bound x : ℕ) → x ≤ bound → bit_and x 0 ≡ 0
bit_and-zero_below bound zero h = refl
bit_and-zero_below zero (suc x) h = absurd (omega arith)
bit_and-zero_below (suc bound) (suc x) h =
    let half = bit_and-zero_below bound (suc x / 2) (omega arith) in
    omega (arith, bit_and_halves (suc x) 0, half)

bit_and-zero : (x : ℕ) → bit_and x 0 ≡ 0
bit_and-zero x = bit_and-zero_below x x (omega arith)

bit_and_fields :
    (width high low : ℕ) → low < 2 ^ width → bit_and (high * 2 ^ width + low) (2 ^ width - 1) ≡ low
bit_and_fields zero high low small = rw bit_and-zero (omega arith)
bit_and_fields (suc width) high low small =
    let half = bit_and_fields width high (low / 2) (omega (arith, pow-suc 2 width)) in
    ground (
      arith,
      half,
      one-le-pow width 2,
      pow-suc 2 width,
      double_shift high width,
      bit_and_halves (high * 2 ^ suc width + low) (2 ^ suc width - 1),
    )

-- A mask of `k` low bits is the remainder by `2 ^ k`.
pub bit_and_mask : (width x : ℕ) → bit_and x (2 ^ width - 1) ≡ x % 2 ^ width
bit_and_mask width x =
    ground (arith, bit_and_fields width (x / 2 ^ width) (x % 2 ^ width), one-le-pow width 2)

div_two_pow-suc : (a k : ℕ) → a / 2 ^ suc k ≡ a / 2 / 2 ^ k
div_two_pow-suc a k = rw (pow-succ' 2 k) (sym (div-div-eq-div-mul a 2 (2 ^ k)))

-- A mask of one bit.
bit_and_single : (k a : ℕ) → bit_and a (2 ^ k) ≡ a / 2 ^ k % 2 * 2 ^ k
bit_and_single zero a = omega (arith, bit_and_halves a 1, bit_and-zero (a / 2))
bit_and_single (suc k) a = ground (
  arith,
  bit_and_halves a (2 ^ suc k),
  bit_and_single k (a / 2),
  pow-suc 2 k,
  double_shift (a / 2 / 2 ^ k % 2) k,
  div_two_pow-suc a k,
)

pub top_bit : (b : ℕ) → bit_and b 0x80 ≡ b / 128 % 2 * 128
top_bit b = bit_and_single 7 b

pub set_top_bit : (b : ℕ) → b < 128 → bit_or b 0x80 ≡ b + 128
set_top_bit b h = bit_or_fields 7 b 1 h

pub low_seven : (a : ℕ) → bit_and a 0x7f ≡ a % 128
low_seven a = bit_and_mask 7 a

pub low_three : (a : ℕ) → bit_and a 0x07 ≡ a % 8
low_three a = bit_and_mask 3 a

bit_or-zero_below : (bound x : ℕ) → x ≤ bound → bit_or x 0 ≡ x
bit_or-zero_below bound zero h = refl
bit_or-zero_below zero (suc x) h = absurd (omega arith)
bit_or-zero_below (suc bound) (suc x) h =
    let half = bit_or-zero_below bound (suc x / 2) (omega arith) in
    omega (arith, bit_or_halves (suc x) 0, half)

bit_or-zero : (x : ℕ) → bit_or x 0 ≡ x
bit_or-zero x = bit_or-zero_below x x (omega arith)

-- `(q << k) | r` is a sum when `r` fits `k` bits.
pub bit_or_high : (k q r : ℕ) → r < 2 ^ k → bit_or (q * 2 ^ k) r ≡ q * 2 ^ k + r
bit_or_high zero q r fits = rw (zero_of_width r fits) (omega (arith, bit_or-zero (q * 2 ^ 0)))
bit_or_high (suc k) q r fits =
    ground (
      arith,
      bit_or_halves (q * 2 ^ suc k) r,
      double_shift q k,
      pow-suc 2 k,
      bit_or_high k q (r / 2),
    )
