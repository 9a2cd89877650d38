-- ===== src/Prelude/Bits.antt =====
-- The bitwise or at variables: disjoint bits add up.
use Prim.Native.Nat.{
  ℕ, zero, suc, ◌+◌, ◌*◌, ◌/◌, ◌%◌, ◌^◌, ◌≤◌, ◌<◌, max, bit_or, digits, bit_or-bitwise,
}
use mathlib.Core.Path.{◌≡◌, refl, ap}
use mathlib.Core.Bool.{Bool, true, ◌&&◌}
use native.Mathlib.Omega.{arith}
use native.Mathlib.Nat.{pow-suc}

-- x >> k and x & (2 ^ k - 1), in the form that `omega` reads.
abbrev pub shr : ℕ → ℕ → ℕ
shr x k = x / 2 ^ k

abbrev pub low_bits : ℕ → ℕ → ℕ
low_bits x k = x % 2 ^ k

-- x << k, before any truncation.
abbrev pub shl : ℕ → ℕ → ℕ
shl x k = x * 2 ^ k

abbrev or_digits : ℕ → ℕ → ℕ → ℕ
or_digits n a b = digits (λ y. y) max n a b

-- The count of digits to go does not matter once it covers the first number.
or_digits_enough : (n m a b : ℕ) → a ≤ n → a ≤ m → or_digits n a b ≡ or_digits m a b
or_digits_enough zero zero a b h k = refl
or_digits_enough zero (suc m) zero b h k = refl
or_digits_enough zero (suc m) (suc a) b h k = absurd (omega arith)
or_digits_enough (suc n) zero zero b h k = refl
or_digits_enough (suc n) zero (suc a) b h k = absurd (omega arith)
or_digits_enough (suc n) (suc m) zero b h k = refl
or_digits_enough (suc n) (suc m) (suc a) b h k =
    omega (arith, or_digits_enough n m (suc a / 2) (b / 2) (omega arith) (omega arith))

zero-bit_or : (b : ℕ) → bit_or 0 b ≡ b
zero-bit_or b = bit_or-bitwise 0 b

-- One digit of a bitwise or.
bit_or-digit : (a b : ℕ) → bit_or a b ≡ bit_or (a / 2) (b / 2) * 2 + max (a % 2) (b % 2)
bit_or-digit zero b = omega (arith, zero-bit_or b, zero-bit_or (b / 2))
bit_or-digit (suc a) b = omega (
  arith,
  bit_or-bitwise (suc a) b,
  bit_or-bitwise (suc a / 2) (b / 2),
  or_digits_enough a (suc a / 2) (suc a / 2) (b / 2) (omega arith) (omega arith),
)

-- `v | (x << k)` is a sum where `v` fits below the shift.
pub bit_or-shl : (k v x : ℕ) → v < 2 ^ k → bit_or v (shl x k) ≡ v + shl x k
bit_or-shl zero zero x h = omega (arith, zero-bit_or (x * 1))
bit_or-shl zero (suc v) x h = absurd (omega arith)
bit_or-shl (suc k) v x h = ground (
  arith,
  bit_or-digit v (x * 2 ^ suc k),
  pow-suc 2 k,
  ap (λ (t : ℕ). x * t) (pow-suc 2 k),
  bit_or-shl k (v / 2) x,
)

bit_or-zero_within : (n a : ℕ) → a ≤ n → bit_or a 0 ≡ a
bit_or-zero_within n zero h = refl
bit_or-zero_within zero (suc a) h = absurd (omega arith)
bit_or-zero_within (suc n) (suc a) h =
    omega (arith, bit_or-digit (suc a) 0, bit_or-zero_within n (suc a / 2) (omega arith))

pub shl-bit_or : (k v x : ℕ) → v < 2 ^ k → bit_or (shl x k) v ≡ shl x k + v
shl-bit_or zero zero x h = omega (arith, bit_or-zero_within (x * 1) (x * 1) (omega arith))
shl-bit_or zero (suc v) x h = absurd (omega arith)
shl-bit_or (suc k) v x h = ground (
  arith,
  bit_or-digit (x * 2 ^ suc k) v,
  pow-suc 2 k,
  ap (λ (t : ℕ). x * t) (pow-suc 2 k),
  shl-bit_or k (v / 2) x,
)

-- Over a small range, every value is checked by evaluation.
abbrev pub all_below : ℕ → (ℕ → Bool) → Bool
all_below zero p = true
all_below (suc n) p = p n && all_below n p

pub all_below_sound : (n : ℕ) (p : ℕ → Bool) (x : ℕ) → all_below n p ≡ true → x < n → p x ≡ true
all_below_sound zero p x h lt = absurd (omega arith)
all_below_sound (suc n) p x h lt = ground (arith, all_below_sound n p x)
