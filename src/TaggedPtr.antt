-- ===== src/TaggedPtr.antt =====
-- include/core/TaggedPtr.hpp: a 48-bit address with a dirty bit, a quantization level and an access
-- count in the 16 bits above it. A pointer is its bit pattern, below 2 ^ 64.
pub mod Fields
pub mod Laws
use hyperion_euntime_environ.Base.{
  ℕ, ◌+◌, ◌-◌, ◌*◌, ◌/◌, ◌%◌, ◌^◌, bit_and, bit_or, Bool, true, false, not, ◌==◌, ltb,
  if◌then◌else◌,
}

abbrev addr_mask : ℕ
addr_mask = 0x0000_FFFF_FFFF_FFFF

abbrev tag_mask : ℕ
tag_mask = 0xFFFF_0000_0000_0000

abbrev pub dirty_bit_mask : ℕ
dirty_bit_mask = 2 ^ 63

abbrev quant_shift : ℕ
quant_shift = 60

abbrev pub quant_mask : ℕ
quant_mask = 0x7 * 2 ^ 60

abbrev access_shift : ℕ
access_shift = 48

abbrev pub access_mask : ℕ
access_mask = 0xFFF * 2 ^ 48

-- `~m` over uintptr_t
abbrev pub complement : ℕ → ℕ
complement m = 2 ^ 64 - 1 - m

-- `TaggedPtr`, with `m_value`
pub record TaggedPtr : Type 0 where
  pub value : ℕ

unfoldable pub from_ptr : ℕ → TaggedPtr
from_ptr raw = record { value = bit_and raw addr_mask }

unfoldable pub get : TaggedPtr → ℕ
get p = bit_and p.value addr_mask

unfoldable pub is_dirty : TaggedPtr → Bool
is_dirty p = not (bit_and p.value dirty_bit_mask == 0)

unfoldable pub set_dirty : TaggedPtr → Bool → TaggedPtr
set_dirty p dirty =
    if dirty
    then record { value = bit_or p.value dirty_bit_mask }
    else record { value = bit_and p.value (complement dirty_bit_mask) }

-- The results of the two getters are cast to uint8_t and uint16_t.
unfoldable pub get_quantization_level : TaggedPtr → ℕ
get_quantization_level p = bit_and p.value quant_mask / 2 ^ quant_shift % 2 ^ 8

-- `level` is a uint8_t.
unfoldable pub set_quantization_level : TaggedPtr → ℕ → TaggedPtr
set_quantization_level p level = record {
  value =
      bit_or (bit_and p.value (complement quant_mask))
        (bit_and level 0x7 * 2 ^ quant_shift % 2 ^ 64);
}

unfoldable pub get_access_count : TaggedPtr → ℕ
get_access_count p = bit_and p.value access_mask / 2 ^ access_shift % 2 ^ 16

-- `count` is a uint16_t.
unfoldable pub set_access_count : TaggedPtr → ℕ → TaggedPtr
set_access_count p count = record {
  value =
      bit_or (bit_and p.value (complement access_mask))
        (bit_and count 0xFFF * 2 ^ access_shift % 2 ^ 64);
}

unfoldable pub increment_access : TaggedPtr → TaggedPtr
unfolding get_access_count set_access_count
increment_access p =
    let current = get_access_count p in
    if ltb current 0xFFF then set_access_count p ((current + 1) % 2 ^ 16) else p
