-- ===== src/Common/Bits.antt =====
-- `|` on numbers whose bits do not meet: it adds. `bit_or` is opened by the lowest digit.
use Prim.Native.Nat.{bit_or, digits, bit_or-bitwise}
use native.Mathlib.Nat.{pow-suc, mul_assoc}
use proxy.Common.{
  sym, ap, ◌∙◌, ℕ, zero, suc, ◌+◌, ◌*◌, ◌/◌, ◌%◌, ◌^◌, ◌≤◌, ◌<◌, ◌≡◌, refl, max, arith,
}

abbrev or_digits : ℕ → ℕ → ℕ → ℕ
or_digits n a b = digits (λ b. b) max n a b

or_digits_fuel : (n m a b : ℕ) → a ≤ n → a ≤ m → or_digits n a b ≡ or_digits m a b
or_digits_fuel zero zero a b p q = refl
or_digits_fuel zero (suc m) zero b p q = refl
or_digits_fuel zero (suc m) (suc a) b p q = absurd (omega arith)
or_digits_fuel (suc n) zero zero b p q = refl
or_digits_fuel (suc n) zero (suc a) b p q = absurd (omega arith)
or_digits_fuel (suc n) (suc m) zero b p q = refl
or_digits_fuel (suc n) (suc m) (suc a) b p q =
    omega (arith, or_digits_fuel n m (suc a / 2) (b / 2) (omega arith) (omega arith))

pub zero-bit_or : (b : ℕ) → bit_or 0 b ≡ b
zero-bit_or b = bit_or-bitwise 0 b

pub bit_or_step : (a b : ℕ) → bit_or a b ≡ bit_or (a / 2) (b / 2) * 2 + max (a % 2) (b % 2)
bit_or_step zero b = omega (arith, zero-bit_or b, zero-bit_or (b / 2))
bit_or_step (suc a) b = omega (
  arith,
  bit_or-bitwise (suc a) b,
  bit_or-bitwise (suc a / 2) (b / 2),
  or_digits_fuel a (suc a / 2) (suc a / 2) (b / 2) (omega arith) (omega arith),
)

bit_or-zero_fuel : (n a : ℕ) → a ≤ n → bit_or a 0 ≡ a
bit_or-zero_fuel n zero h = refl
bit_or-zero_fuel zero (suc a) h = absurd (omega arith)
bit_or-zero_fuel (suc n) (suc a) h =
    omega (arith, bit_or_step (suc a) 0, bit_or-zero_fuel n (suc a / 2) (omega arith))

pub bit_or-zero : (a : ℕ) → bit_or a 0 ≡ a
bit_or-zero a = bit_or-zero_fuel a a (omega arith)

shift_suc : (k x : ℕ) → x * 2 ^ suc k ≡ x * 2 ^ k * 2
shift_suc k x = ap (λ n. x * n) (pow-suc 2 k) ∙ sym (mul_assoc x (2 ^ k) 2)

bit_or_double : (z y : ℕ) → bit_or (z * 2) y ≡ bit_or z (y / 2) * 2 + y % 2
bit_or_double z y =
    let half : z * 2 / 2 ≡ z = omega arith in
    let s = rw half at (bit_or_step (z * 2) y) in omega (arith, s)

-- A number whose low `k` bits are clear, and one below `2 ^ k`.
pub bit_or_disjoint : (k x y : ℕ) → y < 2 ^ k → bit_or (x * 2 ^ k) y ≡ x * 2 ^ k + y
bit_or_disjoint zero x y h =
    let e : y ≡ 0 = omega (arith, h) in rw e (omega (arith, bit_or-zero (x * 2 ^ 0)))
bit_or_disjoint (suc k) x y h = rw (shift_suc k x) (
    omega (
      arith,
      bit_or_double (x * 2 ^ k) y,
      bit_or_disjoint k x (y / 2) (omega (arith, h, pow-suc 2 k)),
    ))
