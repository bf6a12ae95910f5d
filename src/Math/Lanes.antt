-- ===== src/Math/Lanes.antt =====
-- The lanes of a block of src/math/Math.cpp: products of bytes in 16 bits, and sums of lanes.
use native.Mathlib.Nat.{mul-le-mul, mul-add, add-mul}
use hyperion_euntime_environ.Base.{
  ℕ, zero, suc, ◌+◌, ◌-◌, ◌*◌, ◌%◌, ◌^◌, ◌<◌, ◌≤◌, ◌≡◌, refl, ap, sym, ◌∙◌, List, [], ◌∷◌, dec_lt,
  arith, length,
}
use hyperion_euntime_environ.Math.{
  sext8_16, sext16_32, sext8_32, vmull_s8, vpaddlq_s16, vaddq_s32, vaddvq_s32,
}

mul_rest : (x w n : ℕ) → n ≤ w → x * (w - n) + x * n ≡ x * w
mul_rest x w n h = sym (mul-add x (w - n) n) ∙ ap (λ (k : ℕ). x * k) (omega arith)

rest_mul : (m w y : ℕ) → m ≤ w → (w - m) * y + m * y ≡ w * y
rest_mul m w y h = sym (add-mul (w - m) m y) ∙ ap (λ (k : ℕ). k * y) (omega arith)

-- A sign-extended byte as an offset from 0 or from the top.
small_byte : (x : ℕ) → x < 128 → (sext8_16 x ≡ x) × (sext8_32 x ≡ x)
unfolding sext8_16 sext8_32
small_byte x h = ground arith

large_byte :
    (x : ℕ)
    → 128 ≤ x
    → x < 256
    → (sext8_16 x ≡ 2 ^ 16 - (256 - x)) × (sext8_32 x ≡ 2 ^ 32 - (256 - x))
unfolding sext8_16 sext8_32
large_byte x h lt = ground arith

product_bound : (m n : ℕ) → m ≤ 128 → n ≤ 128 → m * n ≤ 16384
product_bound m n hm hn = mul-le-mul hm hn

sext-exact : (p : ℕ) → p ≤ 16384 → sext16_32 (p % 2 ^ 16) ≡ p
unfolding sext16_32
sext-exact p h = ground arith

sext_below :
    (p q k : ℕ) → p ≤ 16384 → q + p ≡ k * 2 ^ 16 → sext16_32 (q % 2 ^ 16) ≡ (2 ^ 32 - p) % 2 ^ 32
unfolding sext16_32
sext_below p q k h e = ground arith

below_32 : (p q k : ℕ) → p ≤ 16384 → q + p ≡ k * 2 ^ 32 → (2 ^ 32 - p) % 2 ^ 32 ≡ q % 2 ^ 32
below_32 p q k h e = omega arith

-- Both negative: the product of the distances from the top.
both_large : (w m n : ℕ) → m ≤ w → n ≤ w → (w - m) * (w - n) + m * w ≡ w * (w - n) + m * n
both_large w m n hm hn = omega (arith, rest_mul m w (w - n) hm, mul_rest m w n hn)

-- The 16-bit product of two bytes, sign-extended, is their 32-bit product.
sext_product :
    (x y : ℕ)
    → x < 256
    → y < 256
    → sext16_32 ((sext8_16 x * sext8_16 y) % 2 ^ 16) ≡ (sext8_32 x * sext8_32 y) % 2 ^ 32
sext_product x y hx hy = elim (dec_lt x 128) [
  | yes sx ↦ elim (dec_lt y 128) [
    | yes sy ↦
        rw ((small_byte x sx).0, (small_byte x sx).1, (small_byte y sy).0, (small_byte y sy).1)
          (sext-exact (x * y) (product_bound x y (omega arith) (omega arith))
            ∙ omega (arith, product_bound x y (omega arith) (omega arith)))
    | no ly ↦
        let n = 256 - y in
        let bound = product_bound x n (omega arith) (omega arith) in
        rw
          (
            (small_byte x sx).0,
            (small_byte x sx).1,
            (large_byte y (omega arith) hy).0,
            (large_byte y (omega arith) hy).1,
          )
          (sext_below (x * n) (x * (2 ^ 16 - n)) x bound (mul_rest x (2 ^ 16) n (omega arith))
            ∙ below_32 (x * n) (x * (2 ^ 32 - n)) x bound (mul_rest x (2 ^ 32) n (omega arith)))
  ]
  | no lx ↦ elim (dec_lt y 128) [
    | yes sy ↦
        let m = 256 - x in
        let bound = product_bound m y (omega arith) (omega arith) in
        rw
          (
            (large_byte x (omega arith) hx).0,
            (large_byte x (omega arith) hx).1,
            (small_byte y sy).0,
            (small_byte y sy).1,
          )
          (sext_below (m * y) ((2 ^ 16 - m) * y) y bound
              (omega (arith, rest_mul m (2 ^ 16) y (omega arith)))
            ∙ below_32 (m * y) ((2 ^ 32 - m) * y) y bound
                (omega (arith, rest_mul m (2 ^ 32) y (omega arith))))
    | no ly ↦
        let m = 256 - x in
        let n = 256 - y in
        let bound = product_bound m n (omega arith) (omega arith) in
        rw
          (
            (large_byte x (omega arith) hx).0,
            (large_byte x (omega arith) hx).1,
            (large_byte y (omega arith) hy).0,
            (large_byte y (omega arith) hy).1,
          )
          (ap sext16_32 (omega (arith, both_large (2 ^ 16) m n (omega arith) (omega arith)))
            ∙ sext-exact (m * n) bound
            ∙ omega (arith, both_large (2 ^ 32) m n (omega arith) (omega arith), bound))
  ]
]

-- Every lane is a byte.
abbrev pub Bytes : List ℕ → Type 0
Bytes [] = Unit
Bytes (x ∷ a) = (x < 256) × Bytes a

-- The sum of products of the lanes, as 32-bit patterns.
abbrev pub dot : List ℕ → List ℕ → ℕ
dot [] b = 0
dot (x ∷ a) [] = 0
dot (x ∷ a) (y ∷ b) = (sext8_32 x * sext8_32 y + dot a b) % 2 ^ 32

abbrev sum_extended : List ℕ → ℕ
sum_extended [] = 0
sum_extended (p ∷ ps) = (sext16_32 p + sum_extended ps) % 2 ^ 32

pub sum_extended-vmull : (a b : List ℕ) → Bytes a → Bytes b → sum_extended (vmull_s8 a b) ≡ dot a b
sum_extended-vmull [] b ba bb = refl
sum_extended-vmull (x ∷ a) [] ba bb = refl
sum_extended-vmull (x ∷ a) (y ∷ b) ba bb =
    omega (arith, sext_product x y ba.0 bb.0, sum_extended-vmull a b ba.1 bb.1)

pub length-vmull : (a b : List ℕ) → length a ≡ length b → length (vmull_s8 a b) ≡ length a
length-vmull [] b e = refl
length-vmull (x ∷ a) [] e = omega arith
length-vmull (x ∷ a) (y ∷ b) e = ap suc (length-vmull a b (omega arith))

-- Adding neighbours keeps the sum of an even number of lanes.
pub vaddvq-vpaddlq :
    (n : ℕ) (ps : List ℕ)
    → length ps ≡ 2 * n
    → (vaddvq_s32 (vpaddlq_s16 ps) ≡ sum_extended ps) × (length (vpaddlq_s16 ps) ≡ n)
vaddvq-vpaddlq zero [] e = (refl, refl)
vaddvq-vpaddlq zero (p ∷ ps) e = absurd (omega arith)
vaddvq-vpaddlq (suc n) [] e = absurd (omega arith)
vaddvq-vpaddlq (suc n) (p ∷ []) e = absurd (omega arith)
vaddvq-vpaddlq (suc n) (p ∷ q ∷ ps) e =
    let (sum, len) = vaddvq-vpaddlq n ps (omega arith) in (omega (arith, sum), omega (arith, len))

pub vaddvq-vaddq :
    (a b : List ℕ)
    → length a ≡ length b
    → (vaddvq_s32 (vaddq_s32 a b) ≡ (vaddvq_s32 a + vaddvq_s32 b) % 2 ^ 32)
      × (length (vaddq_s32 a b) ≡ length a)
vaddvq-vaddq [] [] e = (refl, refl)
vaddvq-vaddq [] (y ∷ b) e = absurd (omega arith)
vaddvq-vaddq (x ∷ a) [] e = absurd (omega arith)
vaddvq-vaddq (x ∷ a) (y ∷ b) e =
    let (sum, len) = vaddvq-vaddq a b (omega arith) in (omega (arith, sum), omega (arith, len))
