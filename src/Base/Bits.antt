-- ===== src/Base/Bits.antt =====
-- `|`, `&` and `^` as arithmetic, where the operands are fields, masks or all ones.
use Prim.Native.Nat.{
  ℕ, zero, suc, ◌+◌, ◌-◌, ◌*◌, ◌/◌, ◌%◌, ◌^◌, ◌≤◌, ◌<◌, min, max, bit_and, bit_or, bit_xor, digits,
  bitwise, differ, bit_and-bitwise, bit_or-bitwise, bit_xor-bitwise,
}
use mathlib.Core.Path.{◌≡◌, refl, ap}
use native.Mathlib.Nat.{pow-suc, one-le-pow}
use mathlib.Core.Bool.{Bool, true, ◌&&◌}
use native.Mathlib.Omega.{arith}
use lc_clibs.Base.Tests.{◌==◌}

-- Any fuel that reaches the first operand gives the same digits.
module _ (z : ℕ → ℕ) (f : ℕ → ℕ → ℕ) where
  digits-nothing : (x v : ℕ) → digits z f x 0 v ≡ z v
  digits-nothing zero v = refl
  digits-nothing (suc x) v = refl

  any_fuel : (u v x y : ℕ) → u ≤ x → u ≤ y → digits z f x u v ≡ digits z f y u v
  any_fuel zero v x y g h = rw (digits-nothing x v, digits-nothing y v)
  any_fuel (suc u) v zero y g h = absurd (omega arith)
  any_fuel (suc u) v (suc x) zero g h = absurd (omega arith)
  any_fuel (suc u) v (suc x) (suc y) g h =
      ap (λ t. t * 2 + f (suc u % 2) (v % 2))
        (any_fuel (suc u / 2) (v / 2) x y (omega arith) (omega arith))

  lowest_digit :
      (u v : ℕ)
      → bitwise z f (suc u) v ≡ bitwise z f (suc u / 2) (v / 2) * 2 + f (suc u % 2) (v % 2)
  lowest_digit u v =
      ap (λ t. t * 2 + f (suc u % 2) (v % 2))
        (any_fuel (suc u / 2) (v / 2) u (suc u / 2) (omega arith) (omega arith))

-- Induction on the digits.
below_by_halves : (P : ℕ → Type 0) → P 0 → ((a : ℕ) → P (a / 2) → P a) → (n a : ℕ) → a ≤ n → P a
below_by_halves P base step n zero h = base
below_by_halves P base step zero (suc a) h = absurd (omega arith)
below_by_halves P base step (suc n) (suc a) h =
    step (suc a) (below_by_halves P base step n (suc a / 2) (omega arith))

by_halves : (P : ℕ → Type 0) → P 0 → ((a : ℕ) → P (a / 2) → P a) → (a : ℕ) → P a
by_halves P base step a = below_by_halves P base step a a (omega arith)

bit_or_digit : (u v : ℕ) → bit_or u v ≡ bit_or (u / 2) (v / 2) * 2 + max (u % 2) (v % 2)
bit_or_digit zero v = simp bit_or-bitwise (omega arith)
bit_or_digit (suc u) v =
    rw (bit_or-bitwise (suc u) v, bit_or-bitwise (suc u / 2) (v / 2))
      (lowest_digit (λ y. y) max u v)

bit_and_digit : (u v : ℕ) → bit_and u v ≡ bit_and (u / 2) (v / 2) * 2 + min (u % 2) (v % 2)
bit_and_digit zero v = simp bit_and-bitwise (omega arith)
bit_and_digit (suc u) v =
    rw (bit_and-bitwise (suc u) v, bit_and-bitwise (suc u / 2) (v / 2))
      (lowest_digit (λ y. 0) min u v)

bit_or-zero : (a : ℕ) → bit_or a 0 ≡ a
bit_or-zero = by_halves (λ x. bit_or x 0 ≡ x) refl (λ x ih. omega (arith, bit_or_digit x 0, ih))

bit_and-zero : (a : ℕ) → bit_and a 0 ≡ 0
bit_and-zero = by_halves (λ x. bit_and x 0 ≡ 0) refl (λ x ih. omega (arith, bit_and_digit x 0, ih))

double_field : (q k : ℕ) → q * 2 ^ suc k ≡ 2 * (q * 2 ^ k)
double_field q k = omega (arith, ap (λ (t : ℕ). q * t) (pow-suc 2 k))

bit_or_field : (k q r : ℕ) → r < 2 ^ k → bit_or (q * 2 ^ k) r ≡ q * 2 ^ k + r
bit_or_field zero q r fits = ground (arith, bit_or-zero q)
bit_or_field (suc k) q r fits = ground (
  arith,
  bit_or_digit (q * 2 ^ suc k) r,
  double_field q k,
  bit_or_field k q (r / 2) (omega arith),
)

-- `x | r` is a sum where `r` fits below the lowest `k` bits, which are zero in `x`.
pub bit_or_add : (k x r : ℕ) → x % 2 ^ k ≡ 0 → r < 2 ^ k → bit_or x r ≡ x + r
bit_or_add k x r z fits = ground (arith, one-le-pow k 2, bit_or_field k (x / 2 ^ k) r)

bit_and_field : (k q r : ℕ) → r < 2 ^ k → bit_and (q * 2 ^ k + r) (2 ^ k - 1) ≡ r
bit_and_field zero q r fits = ground (arith, bit_and-zero (q * 1 + r))
bit_and_field (suc k) q r fits = ground (
  arith,
  bit_and_digit (q * 2 ^ suc k + r) (2 ^ suc k - 1),
  double_field q k,
  pow-suc 2 k,
  one-le-pow k 2,
  bit_and_field k q (r / 2) (omega arith),
)

-- A mask of the low `k` bits is a remainder.
pub bit_and_mask : (k a : ℕ) → bit_and a (2 ^ k - 1) ≡ a % 2 ^ k
bit_and_mask k a = ground (arith, one-le-pow k 2, bit_and_field k (a / 2 ^ k) (a % 2 ^ k))

bit_xor_digit : (a b : ℕ) → bit_xor a b ≡ bit_xor (a / 2) (b / 2) * 2 + differ (a % 2) (b % 2)
bit_xor_digit zero b = simp bit_xor-bitwise (omega arith)
bit_xor_digit (suc a) b = simp bit_xor-bitwise (lowest_digit (λ y. y) differ a b)

differ-zero : (r : ℕ) → differ r 0 ≡ r
differ-zero zero = refl
differ-zero (suc r) = refl

differ-one : (r : ℕ) → r < 2 → differ r 1 ≡ 1 - r
differ-one zero h = refl
differ-one (suc zero) h = refl
differ-one (suc (suc r)) h = absurd (omega arith)

pub bit_xor-zero : (a : ℕ) → bit_xor a 0 ≡ a
bit_xor-zero =
    by_halves (λ x. bit_xor x 0 ≡ x) refl
      (λ x ih. omega (arith, bit_xor_digit x 0, differ-zero (x % 2), ih))

-- `^` with `k` ones is the complement.
pub bit_xor_ones : (k a : ℕ) → a < 2 ^ k → bit_xor a (2 ^ k - 1) ≡ 2 ^ k - 1 - a
bit_xor_ones zero a h = ground (arith, bit_xor-zero a)
bit_xor_ones (suc k) a h = ground (
  arith,
  bit_xor_digit a (2 ^ suc k - 1),
  pow-suc 2 k,
  one-le-pow k 2,
  differ-one (a % 2),
  bit_xor_ones k (a / 2) (omega (arith, pow-suc 2 k)),
)

-- A function of a byte is known by its 256 values.
module _ (f g : ℕ → ℕ) where
  same_below : ℕ → Bool
  same_below zero = true
  same_below (suc n) = (f n == g n) && same_below n

  same_below→eq : (n : ℕ) → same_below n ≡ true → (i : ℕ) → i < n → f i ≡ g i
  unfolding same_below
  same_below→eq zero e i h = absurd (omega arith)
  same_below→eq (suc n) e i h = ground (arith, same_below→eq n (ground arith) i)

pub byte_bit_7 : (b : ℕ) → b < 256 → bit_and b 0x80 ≡ b / 128 * 128
unfolding same_below
byte_bit_7 = same_below→eq _ _ 256 refl

pub byte_bit_6 : (b : ℕ) → b < 256 → bit_and b 0x40 ≡ b / 64 % 2 * 64
unfolding same_below
byte_bit_6 = same_below→eq _ _ 256 refl

pub byte_bit_5 : (b : ℕ) → b < 256 → bit_and b 0x20 ≡ b / 32 % 2 * 32
unfolding same_below
byte_bit_5 = same_below→eq _ _ 256 refl

pub byte_bit_4 : (b : ℕ) → b < 256 → bit_and b 0x10 ≡ b / 16 % 2 * 16
unfolding same_below
byte_bit_4 = same_below→eq _ _ 256 refl

pub byte_bit_3 : (b : ℕ) → b < 256 → bit_and b 0x08 ≡ b / 8 % 2 * 8
unfolding same_below
byte_bit_3 = same_below→eq _ _ 256 refl

pub byte_bit_2 : (b : ℕ) → b < 256 → bit_and b 0x04 ≡ b / 4 % 2 * 4
unfolding same_below
byte_bit_2 = same_below→eq _ _ 256 refl

pub byte_bit_1 : (b : ℕ) → b < 256 → bit_and b 0x02 ≡ b / 2 % 2 * 2
unfolding same_below
byte_bit_1 = same_below→eq _ _ 256 refl

pub byte_bit_0 : (b : ℕ) → b < 256 → bit_and b 0x01 ≡ b % 2
unfolding same_below
byte_bit_0 = same_below→eq _ _ 256 refl
