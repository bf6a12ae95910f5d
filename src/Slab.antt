-- ===== src/Slab.antt =====
-- include/memory/SlabAllocator.hpp: the intrusive slab allocator. This module holds what its parts
-- share: size_t arithmetic, the memory of 64-bit words, and the allocator's own fields.
pub mod Header
pub mod FreeList
pub mod Alloc
pub mod Release
use hyperion_euntime_environ.Base.{ℕ, ◌+◌, ◌-◌, ◌%◌, ◌^◌, ◌==◌, if◌then◌else◌}

-- Sums and differences of uint64_t wrap.
abbrev pub add64 : ℕ → ℕ → ℕ
add64 a b = (a + b) % 2 ^ 64

abbrev pub sub64 : ℕ → ℕ → ℕ
sub64 a b = (a + 2 ^ 64 - b) % 2 ^ 64

-- The managed region, by the offset that `GetPtr` takes: the 64-bit word at each offset. Every access
-- of the allocator is to one word, and two words at different multiples of 8 do not overlap.
abbrev pub Memory : Type 0
Memory = ℕ → ℕ

unfoldable pub write : Memory → ℕ → ℕ → Memory
write m a v x = if x == a then v else m x

-- sizeof(BlockHeader), with its alignas(64), and sizeof(BlockFooter)
abbrev pub header_size : ℕ
header_size = 64

abbrev pub footer_size : ℕ
footer_size = 8

abbrev pub alignment : ℕ
alignment = 64

-- `FreeNode`: the two words at the start of a free block's payload.
abbrev pub next_offset : ℕ → ℕ
next_offset block = block + header_size

abbrev pub prev_offset : ℕ → ℕ
prev_offset block = block + header_size + 8

-- `SlabAllocator`, with the region that it manages. The lock is held through each operation.
pub record Slab : Type 0 where
  pub memory : Memory
  pub base : ℕ
  pub total_size : ℕ
  pub base_offset : ℕ
  pub free_list_head : ℕ
  pub first_block : ℕ
