-- ===== src/Slab/Alloc/Request.antt =====
-- How large a block `Allocate` looks for, and where the computation of its size wraps.
use hyperion_euntime_environ.Base.{ℕ, ◌+◌, ◌-◌, ◌/◌, ◌%◌, ◌^◌, ◌<◌, ◌≤◌, ◌≡◌, bit_and, arith}
use hyperion_euntime_environ.Base.Bits.{bit_and-cut, bit_and_ones, bit_and-zero}
use hyperion_euntime_environ.Slab.{add64, sub64, header_size, footer_size, alignment}
use hyperion_euntime_environ.Slab.Alloc.{align_mask, round_up, required_total_size}

-- The mask drops what is over a multiple of 64.
align-eq : (n : ℕ) → n < 2 ^ 64 → bit_and n align_mask ≡ n - n % 64
align-eq n h = ground (
  arith,
  bit_and-cut 6 (n / 64) (n % 64) (2 ^ 58 - 1) 0,
  bit_and_ones 58 (n / 64) (omega arith),
  bit_and-zero (n % 64),
)

pub round_up-eq : (n : ℕ) → n < 2 ^ 64 → round_up n ≡ (n + 63) % 2 ^ 64 - (n + 63) % 2 ^ 64 % 64
unfolding round_up
round_up-eq n h = ground (arith, align-eq (sub64 (add64 n alignment) 1) (omega arith))

payload : ℕ → ℕ
payload size = bit_and (add64 size 63) align_mask

payload-eq : (size : ℕ) → payload size ≡ (size + 63) % 2 ^ 64 - (size + 63) % 2 ^ 64 % 64
unfolding payload
payload-eq size = align-eq (add64 size 63) (omega arith)

required-eq :
    (size : ℕ)
    → required_total_size size
      ≡ (add64 (add64 header_size (payload size)) footer_size + 63) % 2 ^ 64
        - (add64 (add64 header_size (payload size)) footer_size + 63) % 2 ^ 64 % 64
unfolding required_total_size payload
required-eq size = round_up-eq (add64 (add64 header_size (payload size)) footer_size) (omega arith)

-- For a request of up to 2 ^ 64 - 192 bytes the computed block size has room for header, payload
-- and footer, is a multiple of 64, and wastes less than 192 bytes.
pub required_total_size-fits :
    (size : ℕ)
    → size ≤ 2 ^ 64 - 192
    → (size + header_size + footer_size ≤ required_total_size size)
      × (required_total_size size < size + 192)
      × (required_total_size size % alignment ≡ 0)
required_total_size-fits size h = omega (arith, required-eq size, payload-eq size)

-- Beyond that the computation wraps, at first to no bytes at all.
pub required_total_size-zero :
    (size : ℕ) → 2 ^ 64 - 192 < size → size ≤ 2 ^ 64 - 128 → required_total_size size ≡ 0
required_total_size-zero size big h = omega (arith, required-eq size, payload-eq size)
