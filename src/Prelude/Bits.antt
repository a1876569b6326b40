-- ===== src/Prelude/Bits.antt =====
-- Shifts and masks of unbounded Python integers as arithmetic: `x >> k` is `x / 2 ^ k`, and `&` with
-- a mask of k ones is the remainder by `2 ^ k`.
use Prim.Native.Nat.{
  ℕ, zero, suc, ◌+◌, ◌-◌, ◌*◌, ◌/◌, ◌%◌, ◌^◌, ◌≤◌, ◌<◌, min, bit_and, digits, bit_and-bitwise,
}
use mathlib.Core.Path.{◌≡◌, refl, ap, ◌∙◌}
use native.Mathlib.Nat.{
  pow-suc, one-le-pow, mul_assoc, add-zero, add-suc, div-div-eq-div-mul, div-add-mod, mod-lt,
  mod-eq_of_lt, mul-add-mod_self_left, mul-add-div, div-eq_of_lt, mod-mod_of_dvd, mul-le-mul_left,
  dvd-mul_right,
}
use native.Mathlib.Omega.{arith}

-- x >> k
abbrev pub shr : ℕ → ℕ → ℕ
shr x k = x / 2 ^ k

-- (1 << k) - 1
abbrev pub mask : ℕ → ℕ
mask k = 2 ^ k - 1

-- The digit recursion that `&` stands for does not depend on its fuel.
abbrev meet : ℕ → ℕ → ℕ → ℕ
meet n a b = digits (λ b. zero) min n a b

meet_fuel : (b : ℕ) (a n m : ℕ) → a ≤ n → a ≤ m → meet n a b ≡ meet m a b
meet_fuel b zero (suc n) (suc m) low high = refl
meet_fuel b zero (suc n) zero low high = refl
meet_fuel b zero zero (suc m) low high = refl
meet_fuel b zero zero zero low high = refl
meet_fuel b (suc a) zero m low high = absurd (omega arith)
meet_fuel b (suc a) (suc n) zero low high = absurd (omega arith)
meet_fuel b (suc a) (suc n) (suc m) low high =
    omega (arith, meet_fuel (b / 2) (suc a / 2) n m (omega arith) (omega arith))

zero-bit_and : (b : ℕ) → bit_and 0 b ≡ 0
zero-bit_and b = bit_and-bitwise 0 b

-- One binary digit of `&`.
bit_and_digit : (a b : ℕ) → bit_and a b ≡ bit_and (a / 2) (b / 2) * 2 + min (a % 2) (b % 2)
bit_and_digit zero b = omega (arith, zero-bit_and b, zero-bit_and (b / 2))
bit_and_digit (suc a) b = omega (
  arith,
  bit_and-bitwise (suc a) b,
  bit_and-bitwise (suc a / 2) (b / 2),
  meet_fuel (b / 2) (suc a / 2) a (suc a / 2) (omega arith) (omega arith),
)

bit_and-zero_below : (n a : ℕ) → a ≤ n → bit_and a 0 ≡ 0
bit_and-zero_below n zero h = refl
bit_and-zero_below zero (suc a) h = absurd (omega arith)
bit_and-zero_below (suc n) (suc a) h =
    omega (arith, bit_and_digit (suc a) 0, bit_and-zero_below n (suc a / 2) (omega arith))

double-pow : (q k : ℕ) → q * 2 ^ suc k ≡ 2 * (q * 2 ^ k)
double-pow q k = omega (arith, ap (λ (t : ℕ). q * t) (pow-suc 2 k))

mask_split : (k q r : ℕ) → r < 2 ^ k → bit_and (q * 2 ^ k + r) (mask k) ≡ r
mask_split zero q r fits = omega (arith, bit_and-zero_below (q * 1 + r) (q * 1 + r) (omega arith))
mask_split (suc k) q r fits = ground (
  arith,
  bit_and_digit (q * 2 ^ suc k + r) (mask (suc k)),
  double-pow q k,
  pow-suc 2 k,
  mask_split k q (r / 2) (omega (arith, pow-suc 2 k)),
)

-- `a & mask` is the remainder.
pub bit_and-mask : (k a : ℕ) → bit_and a (mask k) ≡ a % 2 ^ k
bit_and-mask k a = ground (arith, one-le-pow k 2, mask_split k (a / 2 ^ k) (a % 2 ^ k))

-- One bit of a number.
pub bit_and-bit : (k a : ℕ) → bit_and a (2 ^ k) ≡ a / 2 ^ k % 2 * 2 ^ k
bit_and-bit zero a = omega (arith, bit_and-mask 1 a)
bit_and-bit (suc k) a =
    let halves : a / 2 / 2 ^ k ≡ a / 2 ^ suc k =
      div-div-eq-div-mul a 2 (2 ^ k) ∙ ap (λ (t : ℕ). a / t) (omega (arith, pow-suc 2 k)) in
    let half : 2 ^ suc k / 2 ≡ 2 ^ k = omega (arith, pow-suc 2 k) in
    omega (
      arith,
      bit_and_digit a (2 ^ suc k),
      ap (λ (t : ℕ). bit_and (a / 2) t) half,
      pow-suc 2 k,
      bit_and-bit k (a / 2),
      ap (λ (t : ℕ). t % 2 * 2 ^ k) halves,
      double-pow (a / 2 ^ suc k % 2) k,
    )

pub pow-add : (a b : ℕ) → 2 ^ (a + b) ≡ 2 ^ a * 2 ^ b
pow-add a zero = rw add-zero (omega arith)
pow-add a (suc b) =
    rw (add-suc, pow-suc 2 (a + b), pow-suc 2 b, pow-add a b) (grind (arith, mul_assoc))

pub pow-pos : (k : ℕ) → 0 < 2 ^ k
pow-pos k = one-le-pow k 2 (omega arith)

-- Two shifts are one.
pub shr-shr : (x a b : ℕ) → shr (shr x a) b ≡ shr x (a + b)
shr-shr x a b = rw (div-div-eq-div-mul x (2 ^ a) (2 ^ b), pow-add a b)

-- Dividing commutes with a remainder by a multiple.
module _ (x a b : ℕ) (a_pos : 0 < a) (b_pos : 0 < b) where
  split_twice : x ≡ a * b * (x / a / b) + (a * (x / a % b) + x % a)
  split_twice = omega (arith, div-add-mod x a, ap (λ (t : ℕ). a * t) (div-add-mod (x / a) b))

  low-lt : a * (x / a % b) + x % a < a * b
  low-lt = grind (arith, mod-lt x a_pos, mul-le-mul_left a (mod-lt (x / a) b_pos))

  div-mod_mul : x % (a * b) / a ≡ x / a % b
  div-mod_mul =
      ap (λ t. t % (a * b) / a) split_twice
      ∙ ap (λ t. t / a) (mul-add-mod_self_left (a * b) (x / a / b) (a * (x / a % b) + x % a))
      ∙ ap (λ t. t / a) (mod-eq_of_lt low-lt)
      ∙ mul-add-div a_pos (x / a % b) (x % a)
      ∙ omega (arith, div-eq_of_lt (mod-lt x a_pos))

-- The low `s` bits of a number survive a remainder by `2 ^ (s + t)`.
mod-mod_pow : (x s t : ℕ) → x % 2 ^ (s + t) % 2 ^ s ≡ x % 2 ^ s
mod-mod_pow x s t = rw (pow-add s t) (mod-mod_of_dvd (2 ^ s) x (dvd-mul_right (2 ^ s) (2 ^ t)))

-- A field of `s` bits at `off` depends on the first `off + s` bits only.
pub field_local : (x off s t : ℕ) → shr (x % 2 ^ (off + (s + t))) off % 2 ^ s ≡ shr x off % 2 ^ s
field_local x off s t =
    rw (pow-add off (s + t), div-mod_mul x (2 ^ off) (2 ^ (s + t)) (pow-pos off) (pow-pos (s + t)))
      (mod-mod_pow (shr x off) s t)
