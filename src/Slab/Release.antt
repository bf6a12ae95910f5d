-- ===== src/Slab/Release.antt =====
-- include/memory/SlabAllocator.hpp: `Free`, with its merging to both sides.
pub mod Alone
use hyperion_euntime_environ.Base.{ℕ, ◌-◌, true, ltb, ◌==◌, if◌then◌else◌}
use hyperion_euntime_environ.Slab.{Slab, write, add64, sub64, header_size, footer_size}
use hyperion_euntime_environ.Slab.Header.{get_size, is_free, set_free, set_size, update_footer}
use hyperion_euntime_environ.Slab.FreeList.{insert_head, remove_from_free_list}

-- Marks the block, header and footer.
unfoldable pub mark_free : Slab → ℕ → Slab
unfolding set_free update_footer write
mark_free s block = record s {
  memory = update_footer (write s.memory block (set_free (s.memory block) true)) block;
}

-- Grows a block to `size`, header and footer.
unfoldable grow : Slab → ℕ → ℕ → Slab
unfolding set_size update_footer write
grow s block size = record s {
  memory = update_footer (write s.memory block (set_size (s.memory block) size)) block;
}

-- COALESCE RIGHT
unfoldable pub coalesce_right : Slab → ℕ → Slab
unfolding grow remove_from_free_list get_size is_free
coalesce_right s block =
    let next_block = add64 block (get_size (s.memory block)) in
    let s1 = remove_from_free_list s next_block in
    let merged =
      grow s1 block (add64 (get_size (s1.memory block)) (get_size (s1.memory next_block))) in
    if ltb next_block (add64 s.total_size s.base_offset)
    then (if is_free (s.memory next_block) then merged else s)
    else s

-- COALESCE LEFT, or else the block goes into the free list.
unfoldable pub coalesce_left : Slab → ℕ → Slab
unfolding grow insert_head get_size is_free
coalesce_left s block =
    let prev_footer = s.memory (block - footer_size) in
    let prev_block = sub64 block (get_size prev_footer) in
    let merged =
      grow s prev_block (add64 (get_size (s.memory prev_block)) (get_size (s.memory block))) in
    if ltb s.first_block block
    then (if is_free prev_footer then merged else insert_head s block)
    else insert_head s block

-- `Free`. The size hint is not read.
unfoldable pub free : Slab → ℕ → ℕ → Slab
unfolding mark_free coalesce_right coalesce_left is_free
free s payload_offset size_hint =
    let block = sub64 payload_offset header_size in
    if payload_offset == 0
    then s
    else if is_free (s.memory block)
    then s
    else coalesce_left (coalesce_right (mark_free s block) block) block
