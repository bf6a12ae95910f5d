-- ===== src/Document/Quantize.antt =====
-- The quantized values of src/core/ProcessingUnit.cpp as signed bytes.
use hyperion_euntime_environ.Base.{
  ℕ, ◌-◌, ◌≡◌, ltb, if◌then◌else◌, arith, ℤ, pos, negsuc, ◌≤ℤ◌, ltb_ℤ, ◌⊎◌, inl, inr, Bool-cases,
  ◌-ℤ◌,
}
use hyperion_euntime_environ.Document.{Arithmetic, int8_byte, clamp_int8, quantize}

-- The int8_t that a byte stands for.
unfoldable pub int8_of : ℕ → ℤ
int8_of b = if ltb b 128 then pos b else negsuc (255 - b)

clamp_int8_bounds : (z : ℤ) → (negsuc 127 ≤ℤ clamp_int8 z) × (clamp_int8 z ≤ℤ pos 127)
unfolding clamp_int8
clamp_int8_bounds z = ground arith

clamp_int8_cases :
    (z : ℤ)
    → (clamp_int8 z ≡ z)
      ⊎ (((clamp_int8 z ≡ negsuc 127) × (z ≤ℤ negsuc 128))
          ⊎ ((clamp_int8 z ≡ pos 127) × (pos 128 ≤ℤ z)))
unfolding clamp_int8
clamp_int8_cases z = elim (Bool-cases (ltb_ℤ z (negsuc 127))) [
  | inl low ↦ inr (inl (ground arith, ground arith))
  | inr not_low ↦ elim (Bool-cases (ltb_ℤ (pos 127) z)) [
    | inl high ↦ inr (inr (ground arith, ground arith))
    | inr not_high ↦ inl (ground arith)
  ]
]

int8_of-int8_byte : (z : ℤ) → negsuc 127 ≤ℤ z → z ≤ℤ pos 127 → int8_of (int8_byte z) ≡ z
unfolding int8_of
int8_of-int8_byte (pos n) l h = ground arith
int8_of-int8_byte (negsuc n) l h = ground arith

-- A quantized value is from -128 to 127 and is what its stored byte stands for as a signed one; it
-- is the rounded value less 128 where that is in this range, and else the nearer end of it.
pub int8_of-quantize :
    (f : Arithmetic) (min_val max_val v : f.Float)
    → let z =
        f.round_int (f.mul (f.div (f.sub v min_val) (f.sub max_val min_val)) (f.of_ℕ 255))
        -ℤ pos 128 in
      (negsuc 127 ≤ℤ quantize f min_val max_val v)
      × (quantize f min_val max_val v ≤ℤ pos 127)
      × (int8_of (int8_byte (quantize f min_val max_val v)) ≡ quantize f min_val max_val v)
      × ((quantize f min_val max_val v ≡ z)
          ⊎ (((quantize f min_val max_val v ≡ negsuc 127) × (z ≤ℤ negsuc 128))
              ⊎ ((quantize f min_val max_val v ≡ pos 127) × (pos 128 ≤ℤ z))))
unfolding quantize
int8_of-quantize f min_val max_val v =
    let z =
      f.round_int (f.mul (f.div (f.sub v min_val) (f.sub max_val min_val)) (f.of_ℕ 255))
      -ℤ pos 128 in
    let (low, high) = clamp_int8_bounds z in
    (low, high, int8_of-int8_byte (clamp_int8 z) low high, clamp_int8_cases z)
