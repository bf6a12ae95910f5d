-- ===== src/Base/Bits/Xor.antt =====
-- `^` of machine words: the group laws, and how it passes shifts.
use Prim.Native.Nat.{ℕ, zero, suc, ◌+◌, ◌-◌, ◌/◌, ◌%◌, ◌^◌, ◌<◌, differ, bit_xor}
use mathlib.Core.Path.{◌≡◌, ap, ap₂, sym, ◌∙◌}
use native.Mathlib.Nat.{pow-suc}
use native.Mathlib.Omega.{arith}
use hyperion_euntime_environ.Base.Bits.Digit.{bit_xor_digit}

-- The two digits of the lowest place.
differ_distance : (a b : ℕ) → differ a b ≡ (a - b) + (b - a)
differ_distance zero b = omega arith
differ_distance (suc a) zero = omega arith
differ_distance (suc a) (suc b) = omega (arith, differ_distance a b)

-- A word is its halves and its lowest digit.
xor_parts :
    (a b : ℕ)
    → (bit_xor a b / 2 ≡ bit_xor (a / 2) (b / 2))
      × (bit_xor a b % 2 ≡ (a % 2 - b % 2) + (b % 2 - a % 2))
xor_parts a b = omega (arith, bit_xor_digit a b, differ_distance (a % 2) (b % 2))

half_bound : (k a : ℕ) → a < 2 ^ suc k → a / 2 < 2 ^ k
half_bound k a h = omega (arith, pow-suc 2 k)

halves-eq : (a b : ℕ) → a / 2 ≡ b / 2 → a % 2 ≡ b % 2 → a ≡ b
halves-eq a b h l = omega arith

zero_xor : (a b : ℕ) → a < 1 → b < 1 → bit_xor a b ≡ 0
zero_xor a b h l = ap₂ bit_xor {x = a} {y = 0} {u = b} {v = 0} (omega arith) (omega arith)

pub bit_xor_bound : (k a b : ℕ) → a < 2 ^ k → b < 2 ^ k → bit_xor a b < 2 ^ k
bit_xor_bound zero a b h l = omega (arith, zero_xor a b h l)
bit_xor_bound (suc k) a b h l = omega (
  arith,
  pow-suc 2 k,
  xor_parts a b,
  bit_xor_bound k (a / 2) (b / 2) (half_bound k a h) (half_bound k b l),
)

bit_xor_comm : (k a b : ℕ) → a < 2 ^ k → b < 2 ^ k → bit_xor a b ≡ bit_xor b a
bit_xor_comm zero a b h l = zero_xor a b h l ∙ sym (zero_xor b a l h)
bit_xor_comm (suc k) a b h l = omega (
  arith,
  xor_parts a b,
  xor_parts b a,
  bit_xor_comm k (a / 2) (b / 2) (half_bound k a h) (half_bound k b l),
)

pub bit_xor_eq_zero : (k a b : ℕ) → a < 2 ^ k → b < 2 ^ k → bit_xor a b ≡ 0 → a ≡ b
bit_xor_eq_zero zero a b h l e = omega arith
bit_xor_eq_zero (suc k) a b h l e =
    let (high, low) = xor_parts a b in
    halves-eq a b
      (bit_xor_eq_zero k (a / 2) (b / 2) (half_bound k a h) (half_bound k b l) (omega arith))
      (omega arith)

pub bit_xor_self : (k a : ℕ) → a < 2 ^ k → bit_xor a a ≡ 0
bit_xor_self zero a h = zero_xor a a h h
bit_xor_self (suc k) a h = omega (arith, xor_parts a a, bit_xor_self k (a / 2) (half_bound k a h))

bit_xor_assoc :
    (k a b c : ℕ)
    → a < 2 ^ k
    → b < 2 ^ k
    → c < 2 ^ k
    → bit_xor (bit_xor a b) c ≡ bit_xor a (bit_xor b c)
bit_xor_assoc zero a b c h l m =
    zero_xor (bit_xor a b) c (bit_xor_bound 0 a b h l) m
    ∙ sym (zero_xor a (bit_xor b c) h (bit_xor_bound 0 b c l m))
bit_xor_assoc (suc k) a b c h l m =
    let (ab, ab_low) = xor_parts a b in
    let (bc, bc_low) = xor_parts b c in
    let (left, left_low) = xor_parts (bit_xor a b) c in
    let (right, right_low) = xor_parts a (bit_xor b c) in
    halves-eq (bit_xor (bit_xor a b) c) (bit_xor a (bit_xor b c))
      (left
        ∙ ap (λ (x : ℕ). bit_xor x (c / 2)) ab
        ∙ bit_xor_assoc k (a / 2) (b / 2) (c / 2) (half_bound k a h) (half_bound k b l)
            (half_bound k c m)
        ∙ ap (λ (x : ℕ). bit_xor (a / 2) x) (sym bc)
        ∙ sym right)
      (omega arith)

-- Four words, with the middle two exchanged.
pub bit_xor_middle :
    (k a b c d : ℕ)
    → a < 2 ^ k
    → b < 2 ^ k
    → c < 2 ^ k
    → d < 2 ^ k
    → bit_xor (bit_xor a b) (bit_xor c d) ≡ bit_xor (bit_xor a c) (bit_xor b d)
bit_xor_middle k a b c d ha hb hc hd =
    bit_xor_assoc k a b (bit_xor c d) ha hb (bit_xor_bound k c d hc hd)
    ∙ ap (λ (x : ℕ). bit_xor a x)
        (sym (bit_xor_assoc k b c d hb hc hd)
          ∙ ap (λ (x : ℕ). bit_xor x d) (bit_xor_comm k b c hb hc)
          ∙ bit_xor_assoc k c b d hc hb hd)
    ∙ sym (bit_xor_assoc k a c (bit_xor b d) ha hc (bit_xor_bound k b d hb hd))
