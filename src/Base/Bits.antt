-- ===== src/Base/Bits.antt =====
-- `&`, `|` and `^` of machine words at variables: half by half over a cut at one bit, and masks.
mod Digit
pub mod Xor
use mathlib.Core.Path.{◌≡◌, refl, ap, ◌∙◌}
use Prim.Native.Nat.{
  ℕ, zero, suc, ◌+◌, ◌-◌, ◌*◌, ◌/◌, ◌%◌, ◌^◌, ◌<◌, min, max, differ, bit_and, bit_or, bit_xor,
}
use native.Mathlib.Nat.{pow-suc, one-le-pow, div-lt_iff_lt-mul, div-add-mod', suc-mul}
use Prim.Native.Nat.add
use native.Mathlib.Omega.{arith}
use Digit.{bit_and_digit, bit_or_digit, bit_xor_digit}
pub use Digit.{bit_and-zero, bit_or-zero, zero-bit_and, zero-bit_or, zero-bit_xor}

double_pow : (q k : ℕ) → q * 2 ^ suc k ≡ 2 * (q * 2 ^ k)
double_pow q k = omega (arith, ap (λ (t : ℕ). q * t) (pow-suc 2 k))

-- An operation that works digit by digit works half by half, wherever the words are cut.
module _ (op f : ℕ → ℕ → ℕ) (at_zero : op 0 0 ≡ 0)
    (digit : (a b : ℕ) → op a b ≡ op (a / 2) (b / 2) * 2 + f (a % 2) (b % 2)) where
  op-eq : {a b c d : ℕ} → a ≡ c → b ≡ d → op a b ≡ op c d
  op-eq p q i = op (p i) (q i)

  op-cut :
      (k q r m s : ℕ)
      → r < 2 ^ k
      → s < 2 ^ k
      → op (q * 2 ^ k + r) (m * 2 ^ k + s) ≡ op q m * 2 ^ k + op r s
  op-cut zero q r m s hr hs = ground (
    arith,
    at_zero,
    op-eq {a = r} {b = s} {c = 0} {d = 0} (omega arith) (omega arith),
    op-eq {a = q * 1 + r} {b = m * 1 + s} {c = q} {d = m} (omega arith) (omega arith),
  )
  op-cut (suc k) q r m s hr hs = ground (
    arith,
    digit (q * 2 ^ suc k + r) (m * 2 ^ suc k + s),
    digit r s,
    double_pow q k,
    double_pow m k,
    double_pow (op q m) k,
    pow-suc 2 k,
    op-cut k q (r / 2) m (s / 2) (omega (arith, pow-suc 2 k)) (omega (arith, pow-suc 2 k)),
  )

pub bit_and-cut :
    (k q r m s : ℕ)
    → r < 2 ^ k
    → s < 2 ^ k
    → bit_and (q * 2 ^ k + r) (m * 2 ^ k + s) ≡ bit_and q m * 2 ^ k + bit_and r s
bit_and-cut = op-cut bit_and min refl bit_and_digit

pub bit_or-cut :
    (k q r m s : ℕ)
    → r < 2 ^ k
    → s < 2 ^ k
    → bit_or (q * 2 ^ k + r) (m * 2 ^ k + s) ≡ bit_or q m * 2 ^ k + bit_or r s
bit_or-cut = op-cut bit_or max refl bit_or_digit

pub bit_xor-cut :
    (k q r m s : ℕ)
    → r < 2 ^ k
    → s < 2 ^ k
    → bit_xor (q * 2 ^ k + r) (m * 2 ^ k + s) ≡ bit_xor q m * 2 ^ k + bit_xor r s
bit_xor-cut = op-cut bit_xor differ refl bit_xor_digit

-- A mask of `k` ones keeps what fits `k` bits.
pub bit_and_ones : (k r : ℕ) → r < 2 ^ k → bit_and r (2 ^ k - 1) ≡ r
bit_and_ones zero r h = ground (arith, bit_and-zero r)
bit_and_ones (suc k) r h = ground (
  arith,
  bit_and_digit r (2 ^ suc k - 1),
  pow-suc 2 k,
  one-le-pow k 2,
  bit_and_ones k (r / 2) (omega (arith, pow-suc 2 k)),
)

-- A mask of `k` ones at the low end is the remainder by `2 ^ k`.
pub bit_and_mask : (k a : ℕ) → bit_and a (2 ^ k - 1) ≡ a % 2 ^ k
bit_and_mask k a = ground (
  arith,
  one-le-pow k 2,
  bit_and-zero (a / 2 ^ k),
  bit_and_ones k (a % 2 ^ k),
  bit_and-cut k (a / 2 ^ k) (a % 2 ^ k) 0 (2 ^ k - 1),
)

pow_add : (j k : ℕ) → 2 ^ (j + k) ≡ 2 ^ j * 2 ^ k
pow_add zero k = rw (add.zero k) (omega arith)
pow_add (suc j) k =
    rw (add.suc j k)
      (omega (arith, pow-suc 2 (j + k), ap (λ (t : ℕ). t * 2 ^ k) (pow-suc 2 j), pow_add j k))

pred-mul : (x y : ℕ) → (x - 1) * y ≡ x * y - y
pred-mul zero y = omega arith
pred-mul (suc x) y = let e : suc x - 1 ≡ x = omega arith in rw e (omega (arith, suc-mul x y))

-- Clearing the `k` low bits of a word of `j + k` bits.
pub bit_and_high :
    (j k a : ℕ) → a < 2 ^ (j + k) → bit_and a (2 ^ (j + k) - 1 - (2 ^ k - 1)) ≡ a - a % 2 ^ k
bit_and_high j k a h = ground (
  arith,
  pow_add j k,
  one-le-pow k 2,
  one-le-pow j 2,
  quotient,
  bit_and_ones j (a / 2 ^ k),
  bit_and-zero (a % 2 ^ k),
  bit_and-cut k (a / 2 ^ k) (a % 2 ^ k) (2 ^ j - 1) 0,
  high,
  div-add-mod' a (2 ^ k),
)
  where
    quotient : a / 2 ^ k < 2 ^ j
    quotient =
        (div-lt_iff_lt-mul {x = a} {y = 2 ^ j} (one-le-pow k 2 (omega arith))).1
          (omega (arith, pow_add j k))

    high : (2 ^ j - 1) * 2 ^ k ≡ 2 ^ j * 2 ^ k - 2 ^ k
    high = pred-mul (2 ^ j) (2 ^ k)
