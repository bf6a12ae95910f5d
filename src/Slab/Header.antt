-- ===== src/Slab/Header.antt =====
-- include/memory/SlabAllocator.hpp: `BlockHeader` and `BlockFooter`, a size with the free bit in its
-- lowest place.
use hyperion_euntime_environ.Base.{
  ℕ, zero, suc, ◌+◌, ◌-◌, ◌/◌, ◌%◌, ◌^◌, ◌<◌, ◌≡◌, refl, bit_and, bit_or, Bool, true, false, not,
  arith, ◌==◌, if◌then◌else◌,
}
use hyperion_euntime_environ.Base.Bits.{
  bit_and-cut, bit_or-cut, bit_and_ones, bit_and_mask, bit_and-zero, bit_or-zero,
}
use hyperion_euntime_environ.Slab.{Memory, write, footer_size}

abbrev free_mask : ℕ
free_mask = 1

-- `~FREE_MASK`
abbrev size_mask : ℕ
size_mask = 2 ^ 64 - 1 - free_mask

unfoldable pub get_size : ℕ → ℕ
get_size size_and_state = bit_and size_and_state size_mask

unfoldable pub is_free : ℕ → Bool
is_free size_and_state = not (bit_and size_and_state free_mask == 0)

-- `Set`
unfoldable pub encode : ℕ → Bool → ℕ
encode size free = bit_or (bit_and size size_mask) (if free then free_mask else 0)

unfoldable pub set_free : ℕ → Bool → ℕ
set_free size_and_state free =
    if free then bit_or size_and_state free_mask else bit_and size_and_state size_mask

unfoldable pub set_size : ℕ → ℕ → ℕ
unfolding is_free
set_size size_and_state size =
    bit_or (bit_and size size_mask) (if is_free size_and_state then free_mask else 0)

-- `GetFooter`: the last word of the block, as its header gives the size.
unfoldable pub footer_offset : Memory → ℕ → ℕ
unfolding get_size
footer_offset m block = block + get_size (m block) - footer_size

unfoldable pub update_footer : Memory → ℕ → Memory
unfolding footer_offset write
update_footer m block = write m (footer_offset m block) (m block)

or_one : (d : ℕ) → d < 2 → bit_or d 1 ≡ 1
or_one zero h = refl
or_one (suc zero) h = refl
or_one (suc (suc d)) h = absurd (omega arith)

-- The free bit as a number.
abbrev pub bit : Bool → ℕ
bit b = if b then 1 else 0

pub get_size-eq : (w : ℕ) → w < 2 ^ 64 → get_size w ≡ w - w % 2
unfolding get_size
get_size-eq w h = ground (
  arith,
  bit_and-cut 1 (w / 2) (w % 2) (2 ^ 63 - 1) 0,
  bit_and_ones 63 (w / 2) (omega arith),
  bit_and-zero (w % 2),
)

pub is_free-eq : (w : ℕ) → is_free w ≡ (w % 2 == 1)
unfolding is_free
is_free-eq w = ground (arith, bit_and_mask 1 w)

pub encode-eq :
    (size : ℕ) (free : Bool) → size < 2 ^ 64 → encode size free ≡ size - size % 2 + bit free
unfolding encode get_size
encode-eq size true h =
    ground (arith, get_size-eq size h, bit_or-cut 1 (size / 2) 0 0 1, bit_or-zero (size / 2))
encode-eq size false h = ground (arith, get_size-eq size h, bit_or-zero (bit_and size size_mask))

pub set_free-eq : (w : ℕ) (free : Bool) → w < 2 ^ 64 → set_free w free ≡ w - w % 2 + bit free
unfolding set_free get_size
set_free-eq w true h =
    ground (arith, bit_or-cut 1 (w / 2) (w % 2) 0 1, bit_or-zero (w / 2), or_one (w % 2))
set_free-eq w false h = ground (arith, get_size-eq w h)

set_size-eq : (w size : ℕ) → w < 2 ^ 64 → size < 2 ^ 64 → set_size w size ≡ size - size % 2 + w % 2
unfolding set_size encode
set_size-eq w size hw hs = ground (arith, encode-eq size (is_free w) hs, is_free-eq w)

-- A header word made from a size below 2 ^ 64 and a flag gives both back, the size without its
-- lowest bit, and changing either, the size to one below 2 ^ 64, leaves the other.
pub header_fields :
    (size size' : ℕ) (free free' : Bool)
    → size < 2 ^ 64
    → size' < 2 ^ 64
    → (get_size (encode size free) ≡ size - size % 2)
      × (is_free (encode size free) ≡ free)
      × (set_free (encode size free) free' ≡ encode size free')
      × (set_size (encode size free) size' ≡ encode size' free)
header_fields size size' true free' h h' = ground (
  arith,
  encode-eq size true h,
  encode-eq size free' h,
  encode-eq size' true h',
  get_size-eq (encode size true) (omega (arith, encode-eq size true h)),
  is_free-eq (encode size true),
  set_free-eq (encode size true) free' (omega (arith, encode-eq size true h)),
  set_size-eq (encode size true) size' (omega (arith, encode-eq size true h)) h',
)
header_fields size size' false free' h h' = ground (
  arith,
  encode-eq size false h,
  encode-eq size free' h,
  encode-eq size' false h',
  get_size-eq (encode size false) (omega (arith, encode-eq size false h)),
  is_free-eq (encode size false),
  set_free-eq (encode size false) free' (omega (arith, encode-eq size false h)),
  set_size-eq (encode size false) size' (omega (arith, encode-eq size false h)) h',
)
