-- ===== src/Slab/FreeList.antt =====
-- include/memory/SlabAllocator.hpp: `InsertHead` and `RemoveFromFreeList`, on the doubly linked list
-- that runs through the payloads of the free blocks. Offset 0 ends it.
pub mod Links
pub mod Bypass
pub mod Removal
pub mod Replace
pub mod Insertion
use hyperion_euntime_environ.Base.{ℕ, Bool, true, false, ◌==◌, if◌then◌else◌}
use hyperion_euntime_environ.Slab.{Slab, Memory, write, next_offset, prev_offset}

-- Point what stands before the list's node at `next`: the node behind `prev`, or the list's head.
unfoldable pub link_forward : Slab → ℕ → ℕ → Slab
link_forward s prev next =
    if prev == 0
    then record s { free_list_head = next }
    else record s { memory = write s.memory (next_offset prev) next }

-- Point what stands behind the list's node back at `prev`, if something does.
unfoldable pub link_back : Slab → ℕ → ℕ → Slab
link_back s next prev =
    if next == 0 then s else record s { memory = write s.memory (prev_offset next) prev }

unfoldable pub insert_head : Slab → ℕ → Slab
unfolding link_back write
insert_head s block =
    let head = s.free_list_head in
    let s1 = record s {
      memory = write (write s.memory (next_offset block) head) (prev_offset block) 0;
    } in
    record (link_back s1 head block) { free_list_head = block }

-- The second test and its operands are read after the first link is made.
unfoldable pub remove_from_free_list : Slab → ℕ → Slab
unfolding link_forward link_back write
remove_from_free_list s block =
    let prev = s.memory (prev_offset block) in
    let s1 = link_forward s prev (s.memory (next_offset block)) in
    link_back s1 (s1.memory (next_offset block)) (s1.memory (prev_offset block))
