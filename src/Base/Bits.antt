-- ===== src/Base/Bits.antt =====
-- `|` of disjoint fields and `&` with seven ones, as arithmetic on numbers of every size.
use Prim.Native.Nat.{
  ℕ, zero, suc, ◌+◌, ◌*◌, ◌/◌, ◌%◌, ◌^◌, ◌≤◌, ◌<◌, min, max, digits, bitwise, bit_and, bit_or,
  bit_and-bitwise, bit_or-bitwise,
}
use mathlib.Core.Path.{◌≡◌, refl, ap, ◌∙◌}
use native.Mathlib.Omega.{arith}
use native.Mathlib.Nat.{pow-suc}

module _ (z : ℕ → ℕ) (f : ℕ → ℕ → ℕ) where
  -- Any two counts that reach all digits of the first number give the same result.
  digits-count : (n a m b : ℕ) → a ≤ n → a ≤ m → digits z f n a b ≡ digits z f m a b
  digits-count zero zero zero b hn hm = refl
  digits-count zero zero (suc m) b hn hm = refl
  digits-count (suc n) zero zero b hn hm = refl
  digits-count (suc n) zero (suc m) b hn hm = refl
  digits-count zero (suc a) m b hn hm = elim hn [ ]
  digits-count (suc n) (suc a) zero b hn hm = elim hm [ ]
  digits-count (suc n) (suc a) (suc m) b hn hm =
      ap (λ (t : ℕ). t * 2 + f (suc a % 2) (b % 2))
        (digits-count n (suc a / 2) m (b / 2) (omega arith) (omega arith))

  bitwise_low :
      (a b : ℕ)
      → bitwise z f (suc a) b ≡ bitwise z f (suc a / 2) (b / 2) * 2 + f (suc a % 2) (b % 2)
  bitwise_low a b =
      ap (λ (t : ℕ). t * 2 + f (suc a % 2) (b % 2))
        (digits-count a (suc a / 2) (suc a / 2) (b / 2) (omega arith) (omega arith))

and_low : (a b : ℕ) → bit_and a b ≡ bit_and (a / 2) (b / 2) * 2 + min (a % 2) (b % 2)
and_low zero b = simp bit_and-bitwise (omega arith)
and_low (suc a) b = simp bit_and-bitwise (bitwise_low (λ b. zero) min a b)

or_low : (a b : ℕ) → bit_or a b ≡ bit_or (a / 2) (b / 2) * 2 + max (a % 2) (b % 2)
or_low zero b = simp bit_or-bitwise (omega arith)
or_low (suc a) b = simp bit_or-bitwise (bitwise_low (λ b. b) max a b)

zero-or : (b : ℕ) → bit_or 0 b ≡ b
zero-or b = bit_or-bitwise 0 b

and-zero : (n a : ℕ) → a ≤ n → bit_and a 0 ≡ 0
and-zero n zero h = bit_and-bitwise 0 0
and-zero zero (suc a) h = elim h [ ]
and-zero (suc n) (suc a) h = omega (arith, and_low (suc a) 0, and-zero n (suc a / 2) (omega arith))

-- A mask of one digit more reads one digit more.
and_mask :
    (m k : ℕ)
    → ((a : ℕ) → bit_and a m ≡ a % k)
    → (a : ℕ) → bit_and a (m * 2 + 1) ≡ (a / 2) % k * 2 + a % 2
and_mask m k ih a =
    omega (arith, and_low a (m * 2 + 1), ap (λ (t : ℕ). bit_and (a / 2) t) half, ih (a / 2))
  where
    half : (m * 2 + 1) / 2 ≡ m
    half = omega arith

and_one : (a : ℕ) → bit_and a 1 ≡ a % 2
and_one a = omega (arith, and_low a 1, and-zero (a / 2) (a / 2) (omega arith))

and_three : (a : ℕ) → bit_and a 3 ≡ a % 4
and_three a = omega (arith, and_mask 1 2 and_one a)

and_fifteen : (a : ℕ) → bit_and a 15 ≡ a % 16
and_fifteen a = omega (arith, and_mask 7 8 (λ b. omega (arith, and_mask 3 4 and_three b)) a)

and_63 : (a : ℕ) → bit_and a 63 ≡ a % 64
and_63 a = omega (arith, and_mask 31 32 (λ b. omega (arith, and_mask 15 16 and_fifteen b)) a)

-- `x & 0x7f` is the remainder by 128.
pub and_low_seven : (a : ℕ) → bit_and a 0x7f ≡ a % 128
and_low_seven a = omega (arith, and_mask 63 64 and_63 a)

-- `v | (w << s)` is a sum when `v` fits below bit `s`.
pub or_shifted : (s v w : ℕ) → v < 2 ^ s → bit_or v (w * 2 ^ s) ≡ v + w * 2 ^ s
or_shifted zero zero w h = zero-or (w * 2 ^ 0) ∙ omega arith
or_shifted zero (suc v) w h = absurd (omega arith)
or_shifted (suc s) v w h = omega (
  arith,
  or_low v (w * 2 ^ suc s),
  shifted,
  ap (λ (t : ℕ). bit_or (v / 2) t) half,
  or_shifted s (v / 2) w (omega (arith, pow-suc 2 s)),
)
  where
    shifted : w * 2 ^ suc s ≡ w * 2 ^ s * 2
    shifted = omega (arith, ap (λ (t : ℕ). w * t) (pow-suc 2 s))

    half : w * 2 ^ suc s / 2 ≡ w * 2 ^ s
    half = omega (arith, shifted)

-- `x | 0x80` sets the top bit of a number of seven bits.
pub or_top_bit : (x : ℕ) → x < 128 → bit_or x 0x80 ≡ x + 128
or_top_bit x h = or_shifted 7 x 1 h
