-- ===== src/HnswIndex.antt =====
-- core/index/HNSWIndex.hpp: the neighbour graph, whose nodes are blocks of the slab allocator.
pub mod Links
use hyperion_euntime_environ.Base.{
  ℕ, ◌+◌, ◌-◌, ◌*◌, ◌/◌, ◌%◌, ◌^◌, Bool, true, false, Option, none, some, ltb, ◌==◌, if◌then◌else◌,
}
use hyperion_euntime_environ.Slab.{Slab, Memory, write}
use hyperion_euntime_environ.Slab.Alloc.{allocate}

-- `HNSWIndex`, with its allocator.
pub record Index : Type 0 where
  pub allocator : Slab
  pub entry_point : ℕ

-- sizeof(HNSWNode), and its members' offsets. `id` and `neighbor_count` are the low halves of their
-- words.
abbrev pub node_size : ℕ
node_size = 152

abbrev pub vector_offset_at : ℕ
vector_offset_at = 8

abbrev pub neighbor_count_at : ℕ
neighbor_count_at = 16

abbrev pub neighbors_at : ℕ
neighbors_at = 24

-- A store of a uint32_t to the low half of a word.
abbrev low_half : ℕ → ℕ → ℕ
low_half word v = word / 2 ^ 32 * 2 ^ 32 + v % 2 ^ 32

unfoldable pub neighbor_count : Memory → ℕ → ℕ
neighbor_count m node = m (node + neighbor_count_at) % 2 ^ 32

-- The members of a fresh node.
unfoldable pub write_node : Memory → ℕ → ℕ → ℕ → Memory
unfolding write
write_node m node id vector_offset =
    let m1 = write m node (low_half (m node) id) in
    let m2 = write m1 (node + vector_offset_at) vector_offset in
    write m2 (node + neighbor_count_at) (low_half (m2 (node + neighbor_count_at)) 0)

-- `if (n->neighbor_count < 16) n->neighbors[n->neighbor_count++] = target;`
unfoldable pub add_neighbor : Memory → ℕ → ℕ → Memory
unfolding write neighbor_count
add_neighbor m node target =
    let count = neighbor_count m node in
    let m1 =
      write m (node + neighbor_count_at) (low_half (m (node + neighbor_count_at)) (count + 1)) in
    if ltb count 16 then write m1 (node + neighbors_at + 8 * count) target else m

-- The node is linked with the entry point, or becomes it.
unfoldable pub connect : Index → ℕ → Memory → Index
connect x node m =
    if x.entry_point == 0
    then record x { allocator = record (x.allocator) { memory = m }; entry_point = node }
    else record x {
      allocator = record (x.allocator) {
        memory = add_neighbor (add_neighbor m x.entry_point node) node x.entry_point;
      };
    }

-- `Insert`. The vector's values are not read. `none` is for fuel that the allocator's list outruns.
unfoldable pub insert : ℕ → ℕ → ℕ → Index → Option Index
insert fuel id vector_offset x = elim (allocate fuel x.allocator node_size) [
  | none ↦ none
  | some (node, slab) ↦
      if node == 0
      then some (record x { allocator = slab })
      else some (
          connect (record x { allocator = slab }) node
            (write_node slab.memory node id vector_offset))
]
