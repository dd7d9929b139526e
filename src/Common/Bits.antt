-- ===== src/Common/Bits.antt =====
-- The binary digits of a number, and what `&`, `|` and `<<` do to them.
use Prim.Native.Nat.{
  ℕ, zero, suc, ◌+◌, ◌*◌, ◌/◌, ◌%◌, ◌^◌, ◌≤◌, ◌<◌, min, max, digits, bitwise, bit_and, bit_or,
  bit_and-bitwise, bit_or-bitwise,
}
use mathlib.Core.Path.{◌≡◌, refl, sym, ap, ◌∙◌}
use mathlib.Core.Logic.{◌↔◌}
use native.Mathlib.Nat.{pow-suc}
use native.Mathlib.Omega.{arith}
use dpdk_udp_receiver.Common.Tests.{◌==◌, if◌then◌else◌}

module _ (z : ℕ → ℕ) (f : ℕ → ℕ → ℕ) where
  -- `bitwise` counts down from its first number; any count from there on does as well.
  digits_enough : (k n a b : ℕ) → a ≤ n → n ≤ k → digits z f n a b ≡ bitwise z f a b
  digits_enough k zero zero b le lk = refl
  digits_enough k (suc n) zero b le lk = refl
  digits_enough k zero (suc a) b le lk = absurd (omega arith)
  digits_enough zero (suc n) (suc a) b le lk = absurd (omega arith)
  digits_enough (suc k) (suc n) (suc a) b le lk = omega (
    arith,
    digits_enough k n (suc a / 2) (b / 2) (omega arith) (omega arith),
    digits_enough k a (suc a / 2) (b / 2) (omega arith) (omega arith),
  )

  bitwise_halves :
      (a b : ℕ)
      → bitwise z f (suc a) b ≡ bitwise z f (suc a / 2) (b / 2) * 2 + f (suc a % 2) (b % 2)
  bitwise_halves a b =
      omega (arith, digits_enough a a (suc a / 2) (b / 2) (omega arith) (omega arith))

or_halves : (a b : ℕ) → bit_or a b ≡ bit_or (a / 2) (b / 2) * 2 + max (a % 2) (b % 2)
or_halves zero b = omega (arith, bit_or-bitwise 0 b, bit_or-bitwise 0 (b / 2))
or_halves (suc a) b = omega (
  arith,
  bit_or-bitwise (suc a) b,
  bit_or-bitwise (suc a / 2) (b / 2),
  bitwise_halves (λ y. y) max a b,
)

and_halves : (a b : ℕ) → bit_and a b ≡ bit_and (a / 2) (b / 2) * 2 + min (a % 2) (b % 2)
and_halves zero b = omega (arith, bit_and-bitwise 0 b, bit_and-bitwise 0 (b / 2))
and_halves (suc a) b = omega (
  arith,
  bit_and-bitwise (suc a) b,
  bit_and-bitwise (suc a / 2) (b / 2),
  bitwise_halves (λ _. zero) min a b,
)

-- The digit at a place, 0 or 1.
unfoldable pub bit_at : ℕ → ℕ → ℕ
bit_at zero n = n % 2
bit_at (suc k) n = bit_at k (n / 2)

pub bit_at-lt : (k n : ℕ) → bit_at k n < 2
unfolding bit_at
bit_at-lt zero n = omega arith
bit_at-lt (suc k) n = bit_at-lt k (n / 2)

pub bit_at-or : (k a b : ℕ) → bit_at k (bit_or a b) ≡ max (bit_at k a) (bit_at k b)
unfolding bit_at
bit_at-or zero a b = omega (arith, or_halves a b)
bit_at-or (suc k) a b = ap (bit_at k) (omega (arith, or_halves a b)) ∙ bit_at-or k (a / 2) (b / 2)

pub bit_at-and : (k a b : ℕ) → bit_at k (bit_and a b) ≡ min (bit_at k a) (bit_at k b)
unfolding bit_at
bit_at-and zero a b = omega (arith, and_halves a b)
bit_at-and (suc k) a b =
    ap (bit_at k) (omega (arith, and_halves a b)) ∙ bit_at-and k (a / 2) (b / 2)

pub bit_at-zero : (k : ℕ) → bit_at k 0 ≡ 0
unfolding bit_at
bit_at-zero zero = refl
bit_at-zero (suc k) = bit_at-zero k

-- `1 << p` has one digit.
pub bit_at-pow : (k p : ℕ) → bit_at k (2 ^ p) ≡ (if k == p then 1 else 0)
unfolding bit_at
bit_at-pow zero zero = refl
bit_at-pow zero (suc p) = ground (arith, pow-suc 2 p)
bit_at-pow (suc k) zero = bit_at-zero k ∙ ground arith
bit_at-pow (suc k) (suc p) =
    ap (bit_at k) (omega (arith, pow-suc 2 p)) ∙ (bit_at-pow k p ∙ ground arith)

-- A number all of whose digits are 0 is 0.
pub eq-zero_of_bits : (n a : ℕ) → a ≤ n → ((k : ℕ) → bit_at k a ≡ 0) → a ≡ 0
unfolding bit_at
eq-zero_of_bits zero a le h = omega arith
eq-zero_of_bits (suc n) a le h =
    omega (arith, h 0, eq-zero_of_bits n (a / 2) (omega arith) (λ k. h (suc k)))

-- Two numbers have no digit in common.
pub bit_and-zero_iff : (a b : ℕ) → (bit_and a b ≡ 0) ↔ ((k : ℕ) → min (bit_at k a) (bit_at k b) ≡ 0)
bit_and-zero_iff a b = (
  λ e k. sym (bit_at-and k a b) ∙ (ap (bit_at k) e ∙ bit_at-zero k),
  λ h. eq-zero_of_bits (bit_and a b) (bit_and a b) (omega arith) λ k. bit_at-and k a b ∙ h k,
)
