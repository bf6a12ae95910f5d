-- ===== src/Examples/OfMath.antt =====
-- src/math/Math.cpp on 18 bytes, negative ones among them.
use hyperion_euntime_environ.Base.{ℕ, zero, suc, ◌<◌, ◌≡◌, refl, List, ◌∷◌, replicate, arith}
use hyperion_euntime_environ.Math.{simd_dot_int8, scalar_dot_int8}
use hyperion_euntime_environ.Math.Lanes.{Bytes}
use hyperion_euntime_environ.Math.DotProduct.{simd-scalar}

abbrev weights : List ℕ
weights = 128 ∷ 128 ∷ 255 ∷ replicate 15 3

abbrev inputs : List ℕ
inputs = 128 ∷ 127 ∷ 5 ∷ replicate 15 250

Bytes-replicate : (n x : ℕ) → x < 256 → Bytes (replicate n x)
Bytes-replicate zero x h = tt
Bytes-replicate (suc n) x h = (h, Bytes-replicate n x h)

simd-scalar_example : simd_dot_int8 weights inputs ≡ scalar_dot_int8 weights inputs
simd-scalar_example =
    simd-scalar weights inputs
      (omega arith, (omega arith, (omega arith, Bytes-replicate 15 3 (omega arith))))
      (omega arith, (omega arith, (omega arith, Bytes-replicate 15 250 (omega arith)))) refl
