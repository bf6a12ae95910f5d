-- ===== src/Slab/Alloc.antt =====
-- include/memory/SlabAllocator.hpp: the constructor with `Init`, and `Allocate`.
pub mod Request
pub mod FirstFit
pub mod Heap
pub mod Whole
pub mod Split
pub mod Others
pub mod Relinked
pub mod Taken
pub mod Overflow
pub mod Init
pub mod Outcome
use hyperion_euntime_environ.Base.{
  ℕ, zero, suc, ◌+◌, ◌-◌, ◌%◌, ◌^◌, bit_and, Bool, true, false, Option, none, some, ltb, leb, ◌==◌,
  if◌then◌else◌,
}
use hyperion_euntime_environ.Slab.{
  Slab, Memory, write, add64, sub64, header_size, footer_size, alignment, next_offset, prev_offset,
}
use hyperion_euntime_environ.Slab.Header.{get_size, encode, set_free, update_footer}
use hyperion_euntime_environ.Slab.FreeList.{link_forward, link_back}

-- `~(ALIGNMENT - 1)`, and `~63` sign-extended to size_t
abbrev pub align_mask : ℕ
align_mask = 2 ^ 64 - alignment

unfoldable pub round_up : ℕ → ℕ
round_up n = bit_and (sub64 (add64 n alignment) 1) align_mask

-- `Init`. Where the region is too small it leaves the members as they are, `m_first_block_offset`
-- unset.
unfoldable pub init : Slab → Slab
unfolding round_up update_footer write encode
init s =
    let adjustment = sub64 (round_up s.base) s.base in
    let effective_start = add64 s.base_offset adjustment in
    let effective_size = sub64 s.total_size adjustment in
    let header = write s.memory effective_start (encode effective_size true) in
    let footed = update_footer header effective_start in
    if ltb effective_size (header_size + footer_size) then s else record s {
      memory = write (write footed (next_offset effective_start) 0) (prev_offset effective_start) 0;
      free_list_head = effective_start;
      first_block = effective_start;
    }

-- The constructor. What the region and the unset member hold before is arbitrary.
unfoldable pub construct : Memory → ℕ → ℕ → ℕ → ℕ → Slab
unfolding init
construct memory unset base_addr total_size start_offset = init (record {
  memory = memory;
  base = base_addr;
  total_size = total_size;
  base_offset = start_offset;
  free_list_head = 0;
  first_block = unset;
})

-- The size of the block that a request of `size` bytes takes.
unfoldable pub required_total_size : ℕ → ℕ
unfolding round_up
required_total_size size =
    let payload_size = bit_and (add64 size 63) align_mask in
    round_up (add64 (add64 header_size payload_size) footer_size)

-- The first-fit loop: the offset of the first block of the list that is large enough, 0 at its end.
-- `none` is for a list longer than the fuel.
unfoldable pub first_fit : ℕ → Memory → ℕ → ℕ → Option ℕ
unfolding get_size
first_fit zero m required curr = none
first_fit (suc fuel) m required curr =
    let rest = first_fit fuel m required (m (next_offset curr)) in
    if curr == 0 then some 0 else if leb required (get_size (m curr)) then some curr else rest

-- Splits the block at `curr`: the front is used, the rest takes its place in the free list.
unfoldable pub split_block : Slab → ℕ → ℕ → Slab
unfolding encode get_size update_footer link_forward link_back write
split_block s curr required =
    let remaining = get_size (s.memory curr) - required in
    let m1 = update_footer (write s.memory curr (encode required false)) curr in
    let new_block = add64 curr required in
    let m2 = update_footer (write m1 new_block (encode remaining true)) new_block in
    let m3 = write m2 (prev_offset new_block) (m2 (prev_offset curr)) in
    let m4 = write m3 (next_offset new_block) (m3 (next_offset curr)) in
    let s1 = link_forward (record s { memory = m4 }) (m4 (prev_offset new_block)) new_block in
    link_back s1 (s1.memory (next_offset new_block)) new_block

-- Takes the whole block out of the list. `header->SetUsed(false)`, a member that `BlockHeader` does
-- not have, is left out: `SetFree(false)` below does what its comment says.
unfoldable pub use_whole_block : Slab → ℕ → Slab
unfolding set_free update_footer link_forward link_back write
use_whole_block s curr =
    let s1 = link_forward s (s.memory (prev_offset curr)) (s.memory (next_offset curr)) in
    let s2 = link_back s1 (s1.memory (next_offset curr)) (s1.memory (prev_offset curr)) in
    record s2 {
      memory = update_footer (write s2.memory curr (set_free (s2.memory curr) false)) curr;
    }

-- What happens to the block that the loop found.
unfoldable pub take_block : Slab → ℕ → ℕ → Slab
unfolding split_block use_whole_block get_size
take_block s curr required =
    if leb (header_size + 64 + footer_size) (get_size (s.memory curr) - required)
    then split_block s curr required
    else use_whole_block s curr

-- `Allocate`: the payload's offset, or 0. `none` is for fuel that the free list outruns.
unfoldable pub allocate : ℕ → Slab → ℕ → Option (ℕ × Slab)
allocate fuel s size =
    let required = required_total_size size in
    if size == 0 then some (0, s) else elim (first_fit fuel s.memory required s.free_list_head) [
      | none ↦ none
      | some curr ↦
          if curr == 0
          then some (0, s)
          else some (add64 curr header_size, take_block s curr required)
    ]
