-- ===== src/Canvas/Line/Distance.antt =====
-- Points that lie some steps apart on one axis, for `draw_line` of src/monitor/SystemMonitor.cpp.
use hyperion_euntime_environ.Base.{
  ℕ, zero, suc, ◌+◌, ◌-◌, ◌*◌, ◌<◌, ◌≤◌, ◌≡◌, refl, ap, subst, true, false, ◌==◌, arith, inl, inr,
  Bool-cases, ◌⊎◌, ℤ, pos, negsuc, pos_part, neg_part, ◌+ℤ◌, ◌-ℤ◌, ◌*ℤ◌, ltb_ℤ, eqb_ℤ, ◌^◌,
  +ℤ_parts, eq_of_parts,
}
use native.Mathlib.Nat.{mul-le-mul}
use hyperion_euntime_environ.Canvas.{is_int, abs, sign}

-- `s` is a step to the right or to the left.
abbrev pub IsUnit : ℤ → Type 0
IsUnit s = (s ≡ pos 1) ⊎ (s ≡ negsuc 0)

-- `to` is `n` steps `s` away from `from`.
unfoldable pub Away : ℤ → ℕ → ℤ → ℤ → Type 0
Away s zero from to = from ≡ to
Away s (suc n) from to = Away s n (from +ℤ s) to

-- The distance of an axis is not zero before the end.
pub Away-right :
    (n : ℕ) (from to : ℤ)
    → Away (pos 1) n from to
    → pos_part to + neg_part from ≡ n + pos_part from + neg_part to
unfolding Away
Away-right zero from to h = omega (arith, ap pos_part h, ap neg_part h)
Away-right (suc n) from to h =
    omega (arith, +ℤ_parts from (pos 1), Away-right n (from +ℤ pos 1) to h)

pub Away-left :
    (n : ℕ) (from to : ℤ)
    → Away (negsuc 0) n from to
    → pos_part to + neg_part from + n ≡ pos_part from + neg_part to
unfolding Away
Away-left zero from to h = omega (arith, ap pos_part h, ap neg_part h)
Away-left (suc n) from to h =
    omega (arith, +ℤ_parts from (negsuc 0), Away-left n (from +ℤ negsuc 0) to h)

pub right-Away :
    (n : ℕ) (from to : ℤ)
    → pos_part to + neg_part from ≡ n + pos_part from + neg_part to
    → Away (pos 1) n from to
unfolding Away
right-Away zero from to h = eq_of_parts from to (omega arith)
right-Away (suc n) from to h =
    right-Away n (from +ℤ pos 1) to (omega (arith, +ℤ_parts from (pos 1)))

pub left-Away :
    (n : ℕ) (from to : ℤ)
    → pos_part to + neg_part from + n ≡ pos_part from + neg_part to
    → Away (negsuc 0) n from to
unfolding Away
left-Away zero from to h = eq_of_parts from to (omega arith)
left-Away (suc n) from to h =
    left-Away n (from +ℤ negsuc 0) to (omega (arith, +ℤ_parts from (negsuc 0)))

-- The test of an axis for its end.
pub eqb_ℤ-Away :
    (s : ℤ) (n : ℕ) (from to : ℤ) → IsUnit s → Away s n from to → eqb_ℤ from to ≡ (n == 0)
eqb_ℤ-Away s n from to (inl e) h =
    ground (arith, Away-right n from to (subst (λ k. Away k n from to) e h))
eqb_ℤ-Away s n from to (inr e) h =
    ground (arith, Away-left n from to (subst (λ k. Away k n from to) e h))

pub sign-IsUnit : (a b : ℤ) → IsUnit (sign a b)
sign-IsUnit a b = elim (Bool-cases (ltb_ℤ a b)) [
  | inl e ↦ rw e (inl refl)
  | inr e ↦ rw e (inr refl)
]

pub abs-sub :
    (a b : ℤ)
    → (ltb_ℤ a b ≡ true → pos_part b + neg_part a ≡ abs (b -ℤ a) + pos_part a + neg_part b)
      × (ltb_ℤ a b ≡ false → pos_part b + neg_part a + abs (b -ℤ a) ≡ pos_part a + neg_part b)
unfolding ◌-ℤ◌
abs-sub a b = (λ h. ground arith, λ h. ground arith)

-- The distance that `draw_line` computes.
pub sign-Away : (a b : ℤ) → Away (sign a b) (abs (b -ℤ a)) a b
sign-Away a b = elim (Bool-cases (ltb_ℤ a b)) [
  | inl e ↦ rw e (right-Away (abs (b -ℤ a)) a b ((abs-sub a b).0 e))
  | inr e ↦ rw e (left-Away (abs (b -ℤ a)) a b ((abs-sub a b).1 e))
]

pub double_parts :
    (a : ℤ) → (pos_part (pos 2 *ℤ a) ≡ 2 * pos_part a) × (neg_part (pos 2 *ℤ a) ≡ 2 * neg_part a)
unfolding ◌*ℤ◌
double_parts a = ground arith

pub minus_parts : (n : ℕ) → (pos_part (pos 0 -ℤ pos n) ≡ 0) × (neg_part (pos 0 -ℤ pos n) ≡ n)
unfolding ◌-ℤ◌
minus_parts n = ground arith

-- No int overflows between points that are not too far away.
pub is_int-true :
    (z : ℤ)
    → pos_part z ≤ neg_part z + (2 ^ 31 - 1)
    → neg_part z ≤ pos_part z + 2 ^ 31
    → is_int z ≡ true
is_int-true z h l = ground arith

pub behind_bound :
    (n k : ℕ) (from to : ℤ)
    → pos_part to + neg_part from ≡ n + pos_part from + neg_part to
    → abs to ≤ k
    → abs from ≤ k + n
behind_bound n k (pos a) (pos b) e h = omega arith
behind_bound n k (pos a) (negsuc b) e h = omega arith
behind_bound n k (negsuc a) (pos b) e h = omega arith
behind_bound n k (negsuc a) (negsuc b) e h = omega arith

pub ahead_bound :
    (n k : ℕ) (from to : ℤ)
    → pos_part to + neg_part from + n ≡ pos_part from + neg_part to
    → abs to ≤ k
    → abs from ≤ k + n
ahead_bound n k (pos a) (pos b) e h = omega arith
ahead_bound n k (pos a) (negsuc b) e h = omega arith
ahead_bound n k (negsuc a) (pos b) e h = omega arith
ahead_bound n k (negsuc a) (negsuc b) e h = omega arith

pub Away-bound :
    (s : ℤ) (n k : ℕ) (from to : ℤ) → IsUnit s → Away s n from to → abs to ≤ k → abs from ≤ k + n
Away-bound s n k from to (inl e) w h =
    behind_bound n k from to (Away-right n from to (subst (λ u. Away u n from to) e w)) h
Away-bound s n k from to (inr e) w h =
    ahead_bound n k from to (Away-left n from to (subst (λ u. Away u n from to) e w)) h

pub product_bound : (n w : ℕ) → n ≤ 24576 → w < 65536 → n * w ≤ 24576 * 65535
product_bound n w h l = mul-le-mul {m₂ = 65535} h (omega (arith, l))
