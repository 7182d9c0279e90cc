-- ===== src/Base/Bits.antt =====
-- The exclusive or with a run of ones is the complement: what `n ^ (n >> 63)` rests on.
use Prim.Native.Nat.{
  ℕ, zero, suc, ◌+◌, ◌-◌, ◌*◌, ◌/◌, ◌%◌, ◌≤◌, ◌<◌, bit_xor, digits, differ, bit_xor-bitwise,
}
use mathlib.Core.Path.{◌≡◌, refl}
use native.Mathlib.Omega.{arith}

-- Any fuel from the first number on gives the same digits.
xor_fuel :
    (n m a b : ℕ) → a ≤ n → a ≤ m → digits (λ y. y) differ n a b ≡ digits (λ y. y) differ m a b
xor_fuel zero zero a b p q = refl
xor_fuel zero (suc m) zero b p q = refl
xor_fuel zero (suc m) (suc a) b p q = absurd (omega arith)
xor_fuel (suc n) zero zero b p q = refl
xor_fuel (suc n) zero (suc a) b p q = absurd (omega arith)
xor_fuel (suc n) (suc m) zero b p q = refl
xor_fuel (suc n) (suc m) (suc a) b p q =
    rw (xor_fuel n m (suc a / 2) (b / 2) (omega arith) (omega arith))

pub zero-bit_xor : (b : ℕ) → bit_xor 0 b ≡ b
zero-bit_xor b = bit_xor-bitwise 0 b

digit_zero : (x : ℕ) → x < 2 → differ 0 x ≡ x
digit_zero x h = refl

bit_xor_step : (a b : ℕ) → bit_xor a b ≡ bit_xor (a / 2) (b / 2) * 2 + differ (a % 2) (b % 2)
bit_xor_step zero b = omega (arith, zero-bit_xor b, zero-bit_xor (b / 2), digit_zero (b % 2))
bit_xor_step (suc a) b = omega (
  arith,
  bit_xor-bitwise (suc a) b,
  bit_xor-bitwise (suc a / 2) (b / 2),
  xor_fuel a (suc a / 2) (suc a / 2) (b / 2) (omega arith),
)

-- 2 ^ k - 1.
pub ones : ℕ → ℕ
ones zero = 0
ones (suc k) = ones k * 2 + 1

differ_one : (x : ℕ) → x < 2 → differ x 1 ≡ 1 - x
differ_one zero h = refl
differ_one (suc zero) h = refl
differ_one (suc (suc x)) h = absurd (omega arith)

half_lem : (n : ℕ) → (n * 2 + 1) / 2 ≡ n
half_lem n = omega arith

odd_lem : (n : ℕ) → (n * 2 + 1) % 2 ≡ 1
odd_lem n = omega arith

differ_zero : (x : ℕ) → differ x 0 ≡ x
differ_zero zero = refl
differ_zero (suc x) = refl

bit_xor-ones : (k a : ℕ) → a ≤ ones k → bit_xor a (ones k) ≡ ones k - a
unfolding ones
bit_xor-ones zero zero h = omega (arith, zero-bit_xor 0)
bit_xor-ones zero (suc a) h = absurd (omega arith)
bit_xor-ones (suc k) a h = omega (
  arith,
  bit_xor_step a (ones k * 2 + 1),
  same_half,
  bit_xor-ones k (a / 2) (omega arith),
  same_digit,
)
  where
    same_half : bit_xor (a / 2) ((ones k * 2 + 1) / 2) ≡ bit_xor (a / 2) (ones k)
    same_half = rw (half_lem (ones k))

    same_digit : differ (a % 2) ((ones k * 2 + 1) % 2) ≡ 1 - a % 2
    same_digit = rw (odd_lem (ones k)) (differ_one (a % 2) (omega arith))

bit_xor-zero : (n a : ℕ) → a ≤ n → bit_xor a 0 ≡ a
bit_xor-zero n zero h = zero-bit_xor 0
bit_xor-zero zero (suc a) h = absurd (omega arith)
bit_xor-zero (suc n) (suc a) h = omega (
  arith,
  bit_xor_step (suc a) 0,
  bit_xor-zero n (suc a / 2) (omega arith),
  differ_zero (suc a % 2),
)

-- The two masks that an arithmetic shift of a 64-bit word by 63 gives.
pub bit_xor_none : (a : ℕ) → bit_xor a 0 ≡ a
bit_xor_none a = bit_xor-zero a a (omega arith)

pub bit_xor_all :
    (a : ℕ)
    → a ≤ 0xffff_ffff_ffff_ffff
    → bit_xor a 0xffff_ffff_ffff_ffff ≡ 0xffff_ffff_ffff_ffff - a
unfolding ones
bit_xor_all a h = bit_xor-ones 64 a h
