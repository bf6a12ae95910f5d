-- ===== src/Monitor/Random.antt =====
-- `fast_rand` of src/monitor/SystemMonitor.cpp, over all 32-bit words: each of its three stages can be
-- undone.
use hyperion_euntime_environ.Base.{
  ℕ, ◌+◌, ◌*◌, ◌/◌, ◌%◌, ◌^◌, ◌<◌, ◌≡◌, ◌≢◌, bit_xor, refl, sym, ◌∙◌, ap, ap₂, arith,
}
use native.Mathlib.Nat.{div-add-mod', mod-lt, one-le-pow}
use hyperion_euntime_environ.Base.Bits.{bit_xor-cut}
use hyperion_euntime_environ.Base.Bits.Xor.{
  bit_xor_bound, bit_xor_self, bit_xor_eq_zero, bit_xor_middle,
}
use hyperion_euntime_environ.Monitor.{fast_rand, shl13, shr17, shl5}

-- `x ^= f(x)` for a shift f.
module _ (f : ℕ → ℕ) (bounded : (x : ℕ) → x < 2 ^ 32 → f x < 2 ^ 32)
    (additive : (x y : ℕ) → bit_xor (f x) (f y) ≡ f (bit_xor x y))
    (not_fixed : (x : ℕ) → x < 2 ^ 32 → x ≡ f x → x ≡ 0) where
  stage_bound : (x : ℕ) → x < 2 ^ 32 → bit_xor x (f x) < 2 ^ 32
  stage_bound x h = bit_xor_bound 32 x (f x) h (bounded x h)

  stage-injective : (x y : ℕ) → x < 2 ^ 32 → y < 2 ^ 32 → bit_xor x (f x) ≡ bit_xor y (f y) → x ≡ y
  stage-injective x y h l e =
      let z = bit_xor x y in
      let z_bound = bit_xor_bound 32 x y h l in
      let vanishes =
        ap (λ (t : ℕ). bit_xor z t) (sym (additive x y))
        ∙ sym (bit_xor_middle 32 x (f x) y (f y) h (bounded x h) l (bounded y l))
        ∙ ap (λ (t : ℕ). bit_xor t (bit_xor y (f y))) e
        ∙ bit_xor_self 32 (bit_xor y (f y)) (stage_bound y l) in
      bit_xor_eq_zero 32 x y h l
        (not_fixed z z_bound (bit_xor_eq_zero 32 z (f z) z_bound (bounded z z_bound) vanishes))

-- Two words at a cut: their high parts and their low parts.
xor_split :
    (k x y : ℕ)
    → bit_xor x y ≡ bit_xor (x / 2 ^ k) (y / 2 ^ k) * 2 ^ k + bit_xor (x % 2 ^ k) (y % 2 ^ k)
xor_split k x y =
    ap₂ bit_xor (sym (div-add-mod' x (2 ^ k))) (sym (div-add-mod' y (2 ^ k)))
    ∙ bit_xor-cut k (x / 2 ^ k) (x % 2 ^ k) (y / 2 ^ k) (y % 2 ^ k)
        (mod-lt x (one-le-pow k 2 (omega arith))) (mod-lt y (one-le-pow k 2 (omega arith)))

xor_shifted : (k r s : ℕ) → bit_xor (r * 2 ^ k) (s * 2 ^ k) ≡ bit_xor r s * 2 ^ k
xor_shifted k r s =
    ap₂ bit_xor {x = r * 2 ^ k} {y = r * 2 ^ k + 0} {u = s * 2 ^ k} {v = s * 2 ^ k + 0}
      (omega arith) (omega arith)
    ∙ bit_xor-cut k r 0 s 0 (one-le-pow k 2 (omega arith)) (one-le-pow k 2 (omega arith))
    ∙ omega arith

-- The shifts pass through `^`.
shr17-additive : (x y : ℕ) → bit_xor (shr17 x) (shr17 y) ≡ shr17 (bit_xor x y)
shr17-additive x y =
    let low : bit_xor (x % 2 ^ 17) (y % 2 ^ 17) < 2 ^ 17 =
      bit_xor_bound 17 (x % 2 ^ 17) (y % 2 ^ 17) (omega arith) (omega arith) in
    omega (arith, xor_split 17 x y, low)

-- Shifting a word left by k keeps its j low bits, where j + k is its width.
shl-additive :
    (j k x y : ℕ)
    → ((z : ℕ) → (z * 2 ^ k) % 2 ^ 32 ≡ (z % 2 ^ j) * 2 ^ k)
    → bit_xor (x % 2 ^ j) (y % 2 ^ j) ≡ bit_xor x y % 2 ^ j
    → bit_xor ((x * 2 ^ k) % 2 ^ 32) ((y * 2 ^ k) % 2 ^ 32) ≡ (bit_xor x y * 2 ^ k) % 2 ^ 32
shl-additive j k x y low e =
    ap₂ bit_xor (low x) (low y)
    ∙ xor_shifted k (x % 2 ^ j) (y % 2 ^ j)
    ∙ ap (λ (t : ℕ). t * 2 ^ k) e
    ∙ sym (low (bit_xor x y))

shl13-additive : (x y : ℕ) → bit_xor (shl13 x) (shl13 y) ≡ shl13 (bit_xor x y)
shl13-additive x y =
    let low : bit_xor (x % 2 ^ 19) (y % 2 ^ 19) < 2 ^ 19 =
      bit_xor_bound 19 (x % 2 ^ 19) (y % 2 ^ 19) (omega arith) (omega arith) in
    shl-additive 19 13 x y (λ z. omega arith) (omega (arith, xor_split 19 x y, low))

shl5-additive : (x y : ℕ) → bit_xor (shl5 x) (shl5 y) ≡ shl5 (bit_xor x y)
shl5-additive x y =
    let low : bit_xor (x % 2 ^ 27) (y % 2 ^ 27) < 2 ^ 27 =
      bit_xor_bound 27 (x % 2 ^ 27) (y % 2 ^ 27) (omega arith) (omega arith) in
    shl-additive 27 5 x y (λ z. omega arith) (omega (arith, xor_split 27 x y, low))

shl13_not_fixed : (x : ℕ) → x < 2 ^ 32 → x ≡ shl13 x → x ≡ 0
shl13_not_fixed x h e = omega arith

shr17_not_fixed : (x : ℕ) → x < 2 ^ 32 → x ≡ shr17 x → x ≡ 0
shr17_not_fixed x h e = omega arith

shl5_not_fixed : (x : ℕ) → x < 2 ^ 32 → x ≡ shl5 x → x ≡ 0
shl5_not_fixed x h e = omega arith

shl13_bound : (x : ℕ) → x < 2 ^ 32 → shl13 x < 2 ^ 32
shl13_bound x h = omega arith

shr17_bound : (x : ℕ) → x < 2 ^ 32 → shr17 x < 2 ^ 32
shr17_bound x h = omega arith

shl5_bound : (x : ℕ) → x < 2 ^ 32 → shl5 x < 2 ^ 32
shl5_bound x h = omega arith

abbrev first : ℕ → ℕ
first x = bit_xor x (shl13 x)

abbrev second : ℕ → ℕ
second x = bit_xor x (shr17 x)

first_bound : (x : ℕ) → x < 2 ^ 32 → first x < 2 ^ 32
first_bound = stage_bound shl13 shl13_bound shl13-additive shl13_not_fixed

second_bound : (x : ℕ) → x < 2 ^ 32 → second x < 2 ^ 32
second_bound = stage_bound shr17 shr17_bound shr17-additive shr17_not_fixed

pub fast_rand_bound : (x : ℕ) → x < 2 ^ 32 → fast_rand x < 2 ^ 32
unfolding fast_rand
fast_rand_bound x h =
    stage_bound shl5 shl5_bound shl5-additive shl5_not_fixed (second (first x))
      (second_bound (first x) (first_bound x h))

-- The random step can be undone on 32-bit seeds.
fast_rand-injective : (x y : ℕ) → x < 2 ^ 32 → y < 2 ^ 32 → fast_rand x ≡ fast_rand y → x ≡ y
unfolding fast_rand
fast_rand-injective x y h l e =
    stage-injective shl13 shl13_bound shl13-additive shl13_not_fixed x y h l (
      stage-injective shr17 shr17_bound shr17-additive shr17_not_fixed (first x) (first y)
        (first_bound x h) (first_bound y l)
        (stage-injective shl5 shl5_bound shl5-additive shl5_not_fixed (second (first x))
          (second (first y)) (second_bound (first x) (first_bound x h))
          (second_bound (first y) (first_bound y l)) e))

fast_rand_zero : 0 ≡ fast_rand 0
unfolding fast_rand
fast_rand_zero = refl

fast_rand-ne-zero : (x : ℕ) → x < 2 ^ 32 → x ≢ 0 → fast_rand x ≢ 0
fast_rand-ne-zero x h n e = n (fast_rand-injective x 0 h (omega arith) (e ∙ fast_rand_zero))

-- The random step takes different 32-bit seeds to different seeds.
pub fast_rand-ne : (x y : ℕ) → x < 2 ^ 32 → y < 2 ^ 32 → x ≢ y → fast_rand x ≢ fast_rand y
fast_rand-ne x y hx hy ne = λ e. ne (fast_rand-injective x y hx hy e)
