-- ===== src/Base/Bits.antt =====
-- Laws of `^` on integers at every width, from the digit recursion that the native operation
-- stands for.
use Prim.Native.Nat.{
  ℕ, zero, suc, ◌+◌, ◌*◌, ◌/◌, ◌%◌, ◌≤◌, ◌<◌, ◌^◌, bit_and, bit_xor, digits, differ,
  bit_and-bitwise, bit_xor-bitwise, min,
}
use mathlib.Core.Path.{◌≡◌, refl, ap, ◌∙◌, sym}
use native.Mathlib.Omega.{arith}
use native.Mathlib.Nat.{pow-suc}

abbrev xor_digits : ℕ → ℕ → ℕ → ℕ
xor_digits n a b = digits (λ b. b) differ n a b

xor_digits_fuel : (n m a b : ℕ) → a ≤ n → a ≤ m → xor_digits n a b ≡ xor_digits m a b
xor_digits_fuel zero zero a b p q = refl
xor_digits_fuel zero (suc m) zero b p q = refl
xor_digits_fuel zero (suc m) (suc a) b p q = absurd (omega arith)
xor_digits_fuel (suc n) zero zero b p q = refl
xor_digits_fuel (suc n) zero (suc a) b p q = absurd (omega arith)
xor_digits_fuel (suc n) (suc m) zero b p q = refl
xor_digits_fuel (suc n) (suc m) (suc a) b p q =
    omega (arith, xor_digits_fuel n m (suc a / 2) (b / 2) (omega arith) (omega arith))

differ_zero : (b : ℕ) → b < 2 → differ 0 b ≡ b
differ_zero zero h = refl
differ_zero (suc zero) h = refl
differ_zero (suc (suc b)) h = absurd (omega arith)

differ_lt : (a b : ℕ) → a < 2 → b < 2 → differ a b < 2
differ_lt zero zero h k = omega arith
differ_lt zero (suc zero) h k = omega arith
differ_lt (suc zero) zero h k = omega arith
differ_lt (suc zero) (suc zero) h k = omega arith
differ_lt (suc (suc a)) b h k = absurd (omega arith)
differ_lt zero (suc (suc b)) h k = absurd (omega arith)
differ_lt (suc zero) (suc (suc b)) h k = absurd (omega arith)

differ_cancel : (a b : ℕ) → a < 2 → b < 2 → differ a (differ a b) ≡ b
differ_cancel zero zero h k = refl
differ_cancel zero (suc zero) h k = refl
differ_cancel (suc zero) zero h k = refl
differ_cancel (suc zero) (suc zero) h k = refl
differ_cancel (suc (suc a)) b h k = absurd (omega arith)
differ_cancel zero (suc (suc b)) h k = absurd (omega arith)
differ_cancel (suc zero) (suc (suc b)) h k = absurd (omega arith)

pub zero-bit_xor : (b : ℕ) → bit_xor 0 b ≡ b
zero-bit_xor b = bit_xor-bitwise 0 b

pub bit_xor_step : (a b : ℕ) → bit_xor a b ≡ bit_xor (a / 2) (b / 2) * 2 + differ (a % 2) (b % 2)
bit_xor_step zero b =
    omega (arith, zero-bit_xor b, zero-bit_xor (b / 2), differ_zero (b % 2) (omega arith))
bit_xor_step (suc a) b = omega (
  arith,
  bit_xor-bitwise (suc a) b,
  bit_xor-bitwise (suc a / 2) (b / 2),
  xor_digits_fuel a (suc a / 2) (suc a / 2) (b / 2) (omega arith) (omega arith),
)

-- Splitting the step into its quotient and its remainder.
xor_half : (a b : ℕ) → bit_xor a b / 2 ≡ bit_xor (a / 2) (b / 2)
xor_half a b =
    omega (arith, bit_xor_step a b, differ_lt (a % 2) (b % 2) (omega arith) (omega arith))

xor_low : (a b : ℕ) → bit_xor a b % 2 ≡ differ (a % 2) (b % 2)
xor_low a b = omega (arith, bit_xor_step a b, differ_lt (a % 2) (b % 2) (omega arith) (omega arith))

cancel_fuel : (n a b : ℕ) → a ≤ n → bit_xor a (bit_xor a b) ≡ b
cancel_fuel n zero b h = zero-bit_xor (bit_xor 0 b) ∙ zero-bit_xor b
cancel_fuel zero (suc a) b h = absurd (omega arith)
cancel_fuel (suc n) (suc a) b h = omega (
  arith,
  bit_xor_step (suc a) (bit_xor (suc a) b),
  ap (λ (t : ℕ). bit_xor (suc a / 2) t) (xor_half (suc a) b),
  ap (λ (t : ℕ). differ (suc a % 2) t) (xor_low (suc a) b),
  differ_cancel (suc a % 2) (b % 2) (omega arith) (omega arith),
  cancel_fuel n (suc a / 2) (b / 2) (omega arith),
)

-- `a ^ (a ^ b)` is `b`.
pub bit_xor_cancel : (a b : ℕ) → bit_xor a (bit_xor a b) ≡ b
bit_xor_cancel a b = cancel_fuel a a b (omega arith)

-- `^` stays within `k` bits.
pub bit_xor-lt : (k a b : ℕ) → a < 2 ^ k → b < 2 ^ k → bit_xor a b < 2 ^ k
bit_xor-lt zero zero b h g = omega (arith, zero-bit_xor b)
bit_xor-lt zero (suc a) b h g = absurd (omega arith)
bit_xor-lt (suc k) a b h g = omega (
  arith,
  bit_xor_step a b,
  differ_lt (a % 2) (b % 2) (omega arith) (omega arith),
  pow-suc 2 k,
  bit_xor-lt k (a / 2) (b / 2) (omega (arith, pow-suc 2 k)) (omega (arith, pow-suc 2 k)),
)

digits-and_zero : (n a : ℕ) → digits (λ b. 0) min n a 0 ≡ 0
digits-and_zero zero a = refl
digits-and_zero (suc n) zero = refl
digits-and_zero (suc n) (suc a) = omega (arith, digits-and_zero n (suc a / 2))

-- `a & 1` is the parity of `a`.
pub bit_and-one : (a : ℕ) → bit_and a 1 ≡ a % 2
bit_and-one zero = refl
bit_and-one (suc a) = omega (arith, bit_and-bitwise (suc a) 1, digits-and_zero a (suc a / 2))

differ_comm : (a b : ℕ) → differ a b ≡ differ b a
differ_comm zero zero = refl
differ_comm zero (suc b) = refl
differ_comm (suc a) zero = refl
differ_comm (suc a) (suc b) = differ_comm a b

bit_xor-zero_fuel : (n a : ℕ) → a ≤ n → bit_xor a 0 ≡ a
bit_xor-zero_fuel n zero h = refl
bit_xor-zero_fuel zero (suc a) h = absurd (omega arith)
bit_xor-zero_fuel (suc n) (suc a) h = omega (
  arith,
  bit_xor_step (suc a) 0,
  differ_comm (suc a % 2) 0,
  differ_zero (suc a % 2) (omega arith),
  bit_xor-zero_fuel n (suc a / 2) (omega arith),
)

comm_fuel : (n a b : ℕ) → a ≤ n → bit_xor a b ≡ bit_xor b a
comm_fuel n zero b h = zero-bit_xor b ∙ sym (bit_xor-zero_fuel b b (omega arith))
comm_fuel zero (suc a) b h = absurd (omega arith)
comm_fuel (suc n) (suc a) b h = omega (
  arith,
  bit_xor_step (suc a) b,
  bit_xor_step b (suc a),
  differ_comm (suc a % 2) (b % 2),
  comm_fuel n (suc a / 2) (b / 2) (omega arith),
)

pub bit_xor_comm : (a b : ℕ) → bit_xor a b ≡ bit_xor b a
bit_xor_comm a b = comm_fuel a a b (omega arith)

-- `^` by the same number on either side is injective.
pub bit_xor_left_injective : (a b c : ℕ) → bit_xor a b ≡ bit_xor a c → b ≡ c
bit_xor_left_injective a b c h = cc (bit_xor_cancel a b, bit_xor_cancel a c)

pub bit_xor_right_injective : (a b c : ℕ) → bit_xor b a ≡ bit_xor c a → b ≡ c
bit_xor_right_injective a b c h =
    bit_xor_left_injective a b c (cc (bit_xor_comm a b, bit_xor_comm a c))
