-- ===== src/Math.antt =====
-- src/math/Math.cpp and `DotProductInt8` of core/math/SIMD.hpp: the dot product of signed bytes by
-- NEON instructions and by the scalar loop. An intN_t is its bit pattern, below 2 ^ N; sums of
-- int32_t wrap.
pub mod Lanes
pub mod DotProduct
use hyperion_euntime_environ.Base.{
  ℕ, zero, suc, ◌+◌, ◌-◌, ◌*◌, ◌/◌, ◌%◌, ◌^◌, Bool, List, [], ◌∷◌, take, drop, ltb, if◌then◌else◌,
  length,
}

-- Sign extension.
unfoldable pub sext8_16 : ℕ → ℕ
sext8_16 x = if ltb x (2 ^ 7) then x else x + (2 ^ 16 - 2 ^ 8)

unfoldable pub sext16_32 : ℕ → ℕ
sext16_32 x = if ltb x (2 ^ 15) then x else x + (2 ^ 32 - 2 ^ 16)

unfoldable pub sext8_32 : ℕ → ℕ
sext8_32 x = if ltb x (2 ^ 7) then x else x + (2 ^ 32 - 2 ^ 8)

-- The NEON instructions, on vectors as lists of lanes.
abbrev pub vmull_s8 : List ℕ → List ℕ → List ℕ
vmull_s8 [] b = []
vmull_s8 (x ∷ a) [] = []
vmull_s8 (x ∷ a) (y ∷ b) = (sext8_16 x * sext8_16 y) % 2 ^ 16 ∷ vmull_s8 a b

abbrev pub vpaddlq_s16 : List ℕ → List ℕ
vpaddlq_s16 [] = []
vpaddlq_s16 (p ∷ []) = []
vpaddlq_s16 (p ∷ q ∷ ps) = (sext16_32 p + sext16_32 q) % 2 ^ 32 ∷ vpaddlq_s16 ps

abbrev pub vaddq_s32 : List ℕ → List ℕ → List ℕ
vaddq_s32 [] b = []
vaddq_s32 (x ∷ a) [] = []
vaddq_s32 (x ∷ a) (y ∷ b) = (x + y) % 2 ^ 32 ∷ vaddq_s32 a b

abbrev pub vaddvq_s32 : List ℕ → ℕ
vaddvq_s32 [] = 0
vaddvq_s32 (x ∷ a) = (x + vaddvq_s32 a) % 2 ^ 32

-- One block of 16 bytes of the loop, where the processor has no dot product instruction.
abbrev pub accumulate : List ℕ → List ℕ → List ℕ → List ℕ
accumulate vec_acc vec_a vec_b =
    let mul_lo = vmull_s8 (take 8 vec_a) (take 8 vec_b) in
    let mul_hi = vmull_s8 (drop 8 vec_a) (drop 8 vec_b) in
    vaddq_s32 vec_acc (vaddq_s32 (vpaddlq_s16 mul_lo) (vpaddlq_s16 mul_hi))

-- The loop over whole blocks.
abbrev pub block_loop : ℕ → List ℕ → List ℕ → List ℕ → List ℕ
block_loop zero vec_acc a b = vec_acc
block_loop (suc n) vec_acc a b =
    block_loop n (accumulate vec_acc (take 16 a) (take 16 b)) (drop 16 a) (drop 16 b)

-- The scalar loop, for the rest or for all of it.
abbrev pub scalar_loop : ℕ → List ℕ → List ℕ → ℕ
scalar_loop accumulator [] b = accumulator
scalar_loop accumulator (x ∷ a) [] = accumulator
scalar_loop accumulator (x ∷ a) (y ∷ b) =
    scalar_loop ((accumulator + sext8_32 x * sext8_32 y) % 2 ^ 32) a b

-- `SIMD_Dot_Int8` on ARM64 without the dot product instruction: the blocks and then the tail, of two
-- arrays of `count` bytes.
unfoldable pub simd_dot_int8 : List ℕ → List ℕ → ℕ
simd_dot_int8 a b =
    let blocks = length a / 16 in
    let vec_acc = block_loop blocks (0 ∷ 0 ∷ 0 ∷ 0 ∷ []) a b in
    scalar_loop (vaddvq_s32 vec_acc) (drop (16 * blocks) a) (drop (16 * blocks) b)

-- `SIMD_Dot_Int8` elsewhere.
unfoldable pub scalar_dot_int8 : List ℕ → List ℕ → ℕ
scalar_dot_int8 a b = scalar_loop 0 a b
