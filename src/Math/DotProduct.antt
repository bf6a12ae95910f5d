-- ===== src/Math/DotProduct.antt =====
-- The block loop of src/math/Math.cpp with its tail, against the scalar loop.
use hyperion_euntime_environ.Base.{
  ℕ, zero, suc, ◌+◌, ◌-◌, ◌*◌, ◌/◌, ◌%◌, ◌^◌, ◌<◌, ◌≤◌, ◌≡◌, refl, ap, ap₂, sym, ◌∙◌, List, [], ◌∷◌,
  arith, length, take, drop, length-drop, length-take, drop-drop,
}
use hyperion_euntime_environ.Math.{
  sext8_32, vmull_s8, vpaddlq_s16, vaddq_s32, vaddvq_s32, accumulate, block_loop, scalar_loop,
  simd_dot_int8, scalar_dot_int8,
}
use hyperion_euntime_environ.Math.Lanes.{
  Bytes, dot, sum_extended-vmull, length-vmull, vaddvq-vpaddlq, vaddvq-vaddq,
}

scalar_loop-dot :
    (acc : ℕ) (a b : List ℕ) → acc < 2 ^ 32 → scalar_loop acc a b ≡ (acc + dot a b) % 2 ^ 32
scalar_loop-dot acc [] b h = omega arith
scalar_loop-dot acc (x ∷ a) [] h = omega arith
scalar_loop-dot acc (x ∷ a) (y ∷ b) h =
    scalar_loop-dot ((acc + sext8_32 x * sext8_32 y) % 2 ^ 32) a b (omega arith) ∙ omega arith

dot_nil : (a : List ℕ) → dot a [] ≡ 0
dot_nil [] = refl
dot_nil (x ∷ a) = refl

vaddvq_lt : (a : List ℕ) → vaddvq_s32 a < 2 ^ 32
vaddvq_lt [] = omega arith
vaddvq_lt (x ∷ a) = omega arith

-- Cutting both arrays at one place cuts the dot product.
dot-cut :
    (n : ℕ) (a b : List ℕ)
    → dot a b ≡ (dot (take n a) (take n b) + dot (drop n a) (drop n b)) % 2 ^ 32
dot-cut zero [] b = refl
dot-cut zero (x ∷ a) [] = refl
dot-cut zero (x ∷ a) (y ∷ b) = omega arith
dot-cut (suc n) [] b = refl
dot-cut (suc n) (x ∷ a) [] = omega (arith, dot_nil (drop n a))
dot-cut (suc n) (x ∷ a) (y ∷ b) = omega (arith, dot-cut n a b)

Bytes-take : (n : ℕ) (a : List ℕ) → Bytes a → Bytes (take n a)
Bytes-take zero a h = tt
Bytes-take (suc n) [] h = tt
Bytes-take (suc n) (x ∷ a) h = (h.0, Bytes-take n a h.1)

Bytes-drop : (n : ℕ) (a : List ℕ) → Bytes a → Bytes (drop n a)
Bytes-drop zero a h = h
Bytes-drop (suc n) [] h = tt
Bytes-drop (suc n) (x ∷ a) h = Bytes-drop n a h.1

-- Eight lanes of products, added in pairs.
half :
    (a b : List ℕ)
    → Bytes a
    → Bytes b
    → length a ≡ 8
    → length b ≡ 8
    → (vaddvq_s32 (vpaddlq_s16 (vmull_s8 a b)) ≡ dot a b)
      × (length (vpaddlq_s16 (vmull_s8 a b)) ≡ 4)
half a b ba bb la lb =
    let (sum, len) = vaddvq-vpaddlq 4 (vmull_s8 a b) (length-vmull a b (la ∙ sym lb) ∙ la) in
    (sum ∙ sum_extended-vmull a b ba bb, len)

block :
    (acc a b : List ℕ)
    → length acc ≡ 4
    → Bytes a
    → Bytes b
    → length a ≡ 16
    → length b ≡ 16
    → (vaddvq_s32 (accumulate acc a b) ≡ (vaddvq_s32 acc + dot a b) % 2 ^ 32)
      × (length (accumulate acc a b) ≡ 4)
block acc a b hacc ba bb la lb =
    let (low, nlow) =
      half (take 8 a) (take 8 b) (Bytes-take 8 a ba) (Bytes-take 8 b bb)
        (omega (arith, length-take 8 a, la)) (omega (arith, length-take 8 b, lb)) in
    let (high, nhigh) =
      half (drop 8 a) (drop 8 b) (Bytes-drop 8 a ba) (Bytes-drop 8 b bb)
        (omega (arith, length-drop 8 a, la)) (omega (arith, length-drop 8 b, lb)) in
    let lanes_lo = vpaddlq_s16 (vmull_s8 (take 8 a) (take 8 b)) in
    let lanes_hi = vpaddlq_s16 (vmull_s8 (drop 8 a) (drop 8 b)) in
    let (both, nboth) = vaddvq-vaddq lanes_lo lanes_hi (nlow ∙ sym nhigh) in
    let (all, nall) = vaddvq-vaddq acc (vaddq_s32 lanes_lo lanes_hi) (hacc ∙ sym (nboth ∙ nlow)) in
    (omega (arith, all, both, low, high, dot-cut 8 a b), nall ∙ hacc)

loop-dot :
    (n : ℕ) (acc a b : List ℕ)
    → length acc ≡ 4
    → Bytes a
    → Bytes b
    → length a ≡ length b
    → 16 * n ≤ length a
    → scalar_loop (vaddvq_s32 (block_loop n acc a b)) (drop (16 * n) a) (drop (16 * n) b)
      ≡ (vaddvq_s32 acc + dot a b) % 2 ^ 32
loop-dot zero acc a b hacc ba bb e fits = scalar_loop-dot (vaddvq_s32 acc) a b (vaddvq_lt acc)
loop-dot (suc n) acc a b hacc ba bb e fits =
    let (sum, four) =
      block acc (take 16 a) (take 16 b) hacc (Bytes-take 16 a ba) (Bytes-take 16 b bb)
        (length-take 16 a (omega arith)) (length-take 16 b (omega arith)) in
    let vec = accumulate acc (take 16 a) (take 16 b) in
    ap₂ (λ (u v : List ℕ). scalar_loop (vaddvq_s32 (block_loop n vec (drop 16 a) (drop 16 b))) u v)
      (next a) (next b)
    ∙ loop-dot n vec (drop 16 a) (drop 16 b) four (Bytes-drop 16 a ba) (Bytes-drop 16 b bb)
        (length-drop 16 a ∙ ap (λ (i : ℕ). i - 16) e ∙ sym (length-drop 16 b))
        (omega (arith, length-drop 16 a))
    ∙ omega (arith, sum, dot-cut 16 a b)
  where
    next : (l : List ℕ) → drop (16 * suc n) l ≡ drop (16 * n) (drop 16 l)
    next l = ap (λ (i : ℕ). drop i l) (omega arith) ∙ sym (drop-drop (16 * n) 16 l)

-- For two arrays of the same number of signed bytes the NEON block loop with its scalar tail
-- computes what the scalar loop computes, as 32-bit patterns.
pub simd-scalar :
    (a b : List ℕ)
    → Bytes a
    → Bytes b
    → length a ≡ length b
    → simd_dot_int8 a b ≡ scalar_dot_int8 a b
unfolding simd_dot_int8 scalar_dot_int8
simd-scalar a b ba bb e =
    loop-dot (length a / 16) (0 ∷ 0 ∷ 0 ∷ 0 ∷ []) a b refl ba bb e (omega arith)
    ∙ sym (scalar_loop-dot 0 a b (omega arith))
