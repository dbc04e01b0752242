-- ===== src/Base/Bits.antt =====
-- The masks and the shift-and-or of the wire format, as arithmetic.
use Prim.Native.Nat.{
  ℕ, zero, suc, ◌+◌, ◌*◌, ◌/◌, ◌%◌, ◌≤◌, ◌<◌, max, bit_and, bit_or, digits, bit_or-bitwise,
}
use mathlib.Core.Path.{◌≡◌, refl, ◌∙◌}
use mathlib.Core.Bool.{Bool, true}
use native.Mathlib.Omega.{arith}
use simple_snmpd.Base.Tests.{◌==◌, if◌then◌else◌, IsByte}

-- Do two functions take the same values on all the numbers below a bound?
module _ (f g : ℕ → ℕ) where
  unfoldable pub agree : ℕ → Bool
  agree zero = true
  agree (suc bound) = let rest = agree bound in if f bound == g bound then rest else Bool.false

  pub agree-below : (bound b : ℕ) → agree bound ≡ true → b < bound → f b ≡ g b
  unfolding agree
  agree-below zero b same lt = absurd (omega arith)
  agree-below (suc bound) b same lt = ground (arith, agree-below bound b)

pub low_bits : (b : ℕ) → IsByte b → bit_and b 0x7f ≡ b % 128
unfolding agree
low_bits b h = agree-below (λ b. bit_and b 0x7f) (λ b. b % 128) 256 b refl h

pub top_bit : (b : ℕ) → IsByte b → bit_and b 0x80 ≡ b / 128 * 128
unfolding agree
top_bit b h = agree-below (λ b. bit_and b 0x80) (λ b. b / 128 * 128) 256 b refl h

-- `x << k` as repeated doubling.
abbrev shift_left : ℕ → ℕ → ℕ
shift_left zero x = x
shift_left (suc k) x = 2 * shift_left k x

-- Nothing but the other number's digits, with or without fuel.
digits-of_zero : (fuel b : ℕ) → digits (λ y. y) max fuel 0 b ≡ b
digits-of_zero zero b = refl
digits-of_zero (suc fuel) b = refl

-- The digits of a number with nothing to combine are the number's own.
digits-zero : (fuel x : ℕ) → x ≤ fuel → digits (λ y. y) max fuel x 0 ≡ x
digits-zero fuel zero enough = digits-of_zero fuel 0
digits-zero zero (suc x) enough = absurd (omega arith)
digits-zero (suc fuel) (suc x) enough = omega (arith, digits-zero fuel (suc x / 2) (omega arith))

-- The lowest digit of an even number is free.
digits-double :
    (fuel n x b : ℕ)
    → n ≡ 2 * x
    → digits (λ y. y) max (suc fuel) n b ≡ digits (λ y. y) max fuel x (b / 2) * 2 + b % 2
digits-double fuel zero x b even =
    let none : x ≡ 0 = omega arith in rw none (omega (arith, digits-of_zero fuel (b / 2)))
digits-double fuel (suc n) x b even =
    let half : suc n / 2 ≡ x = omega arith in
    let low : suc n % 2 ≡ 0 = omega arith in rw (half, low) (omega arith)

-- So are the low places of a shifted number: a number that fits there fills them.
digits-shift_left :
    (k fuel x b : ℕ)
    → shift_left k x ≤ fuel
    → b < shift_left k 1
    → digits (λ y. y) max fuel (shift_left k x) b ≡ shift_left k x + b
digits-shift_left zero fuel x zero enough fits = omega (arith, digits-zero fuel x enough)
digits-shift_left zero fuel x (suc b) enough fits = absurd (omega arith)
digits-shift_left (suc k) zero x b enough fits = omega arith
digits-shift_left (suc k) (suc fuel) x b enough fits = omega (
  arith,
  digits-double fuel (2 * shift_left k x) (shift_left k x) b refl,
  digits-shift_left k fuel x (b / 2) (omega arith) (omega arith),
)

-- `(x << 8) | b` on a byte `b`.
pub bit_or_byte : (x b : ℕ) → IsByte b → bit_or (x * 256) b ≡ x * 256 + b
bit_or_byte x b h =
    let filled = digits-shift_left 8 (shift_left 8 x) x b (omega arith) (omega arith) in
    let shifted : shift_left 8 x ≡ x * 256 = omega arith in
    bit_or-bitwise (x * 256) b ∙ rw shifted at filled
