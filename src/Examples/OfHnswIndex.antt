-- ===== src/Examples/OfHnswIndex.antt =====
-- core/index/HNSWIndex.hpp: a second node, on a heap with one free block of 320 bytes at 64.
use hyperion_euntime_environ.Base.{◌≡◌, refl, inr, some, ◌==◌, if◌then◌else◌, arith}
use hyperion_euntime_environ.Slab.{Slab, Memory}
use hyperion_euntime_environ.Slab.Header.{get_size}
use hyperion_euntime_environ.Slab.Alloc.{
  allocate, first_fit, required_total_size, round_up, take_block,
}
use hyperion_euntime_environ.HnswIndex.{Index, node_size, insert}
use hyperion_euntime_environ.HnswIndex.Links.{IsLinked, insert-IsLinked}

abbrev one_free : Memory
one_free a = if a == 64 then 321 else 0

abbrev slab : Slab
slab = record {
  memory = one_free;
  base = 4096;
  total_size = 2048;
  base_offset = 64;
  free_list_head = 64;
  first_block = 64;
}

abbrev index : Index
index = record { allocator = slab; entry_point = 1024 }

abbrev taken : Slab
taken = take_block slab 64 320

block_found : allocate 2 slab node_size ≡ some (128, taken)
unfolding allocate first_fit required_total_size round_up get_size
block_found = refl

insert-IsLinked_example :
    (x' : Index) × (insert 2 7 4000 index ≡ some x')
    × (x'.entry_point ≡ 1024)
    × IsLinked taken.memory x'.allocator.memory 1024 128 7 4000
insert-IsLinked_example =
    insert-IsLinked 2 7 4000 128 index taken block_found (omega arith) (omega arith)
      (inr (omega arith)) (omega arith)
