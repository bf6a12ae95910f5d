-- ===== src/HnswIndex/Links.antt =====
-- The links that an insertion of core/index/HNSWIndex.hpp makes.
use hyperion_euntime_environ.Base.{
  ℕ, ◌+◌, ◌*◌, ◌%◌, ◌^◌, ◌<◌, ◌≤◌, ◌≡◌, ◌≢◌, refl, ap, sym, ◌∙◌, Bool, false, Option, none, some,
  ◌==◌, if◌then◌else◌, arith, ◌⊎◌, inl, inr, dec_lt,
}
use hyperion_euntime_environ.Slab.{Slab, Memory}
use hyperion_euntime_environ.Slab.Alloc.{allocate}
use hyperion_euntime_environ.HnswIndex.{
  Index, node_size, vector_offset_at, neighbor_count_at, neighbors_at, neighbor_count, write_node,
  add_neighbor, connect, insert,
}

-- Two nodes do not overlap.
abbrev pub Apart : ℕ → ℕ → Type 0
Apart a b = (a + node_size ≤ b) ⊎ (b + node_size ≤ a)

-- A node with room gets the link; a full one is left as it is. Nothing outside the node changes.
add_neighbor_lem :
    (m : Memory) (node target : ℕ)
    → (neighbor_count m node < 16
        → (neighbor_count (add_neighbor m node target) node ≡ neighbor_count m node + 1)
          × (add_neighbor m node target (node + neighbors_at + 8 * neighbor_count m node) ≡ target))
      × (16 ≤ neighbor_count m node → add_neighbor m node target ≡ m)
unfolding add_neighbor
add_neighbor_lem m node target = (λ h. ground arith, λ h. ground arith)

add_neighbor_elsewhere :
    (m : Memory) (node target a : ℕ)
    → (a < node) ⊎ (node + node_size ≤ a)
    → add_neighbor m node target a ≡ m a
unfolding add_neighbor
add_neighbor_elsewhere m node target a apart = ground arith

-- The members other than the links stay.
add_neighbor_members :
    (m : Memory) (node target : ℕ)
    → (add_neighbor m node target node ≡ m node)
      × (add_neighbor m node target (node + vector_offset_at) ≡ m (node + vector_offset_at))
unfolding add_neighbor
add_neighbor_members m node target = ground arith

write_node_lem :
    (m : Memory) (node id vector_offset : ℕ)
    → id < 2 ^ 32
    → (write_node m node id vector_offset node % 2 ^ 32 ≡ id)
      × (write_node m node id vector_offset (node + vector_offset_at) ≡ vector_offset)
      × (neighbor_count (write_node m node id vector_offset) node ≡ 0)
unfolding write_node neighbor_count
write_node_lem m node id vector_offset h = ground arith

write_node_elsewhere :
    (m : Memory) (node id vector_offset a : ℕ)
    → (a < node) ⊎ (node + 24 ≤ a)
    → write_node m node id vector_offset a ≡ m a
unfolding write_node
write_node_elsewhere m node id vector_offset a apart = ground arith

ne_test : (n : ℕ) → n ≢ 0 → (n == 0) ≡ false
ne_test n h = ground arith

-- What an insertion leaves of the memory of the entry point and of a new node.
pub record IsLinked (m m' : Memory) (entry node id vector_offset : ℕ) : Type 0 where
  pub has_id : m' node % 2 ^ 32 ≡ id
  pub has_vector : m' (node + vector_offset_at) ≡ vector_offset
  pub has_one : neighbor_count m' node ≡ 1
  pub link : m' (node + neighbors_at) ≡ entry
  pub back_link :
      ((neighbor_count m entry < 16)
        × (neighbor_count m' entry ≡ neighbor_count m entry + 1)
        × (m' (entry + neighbors_at + 8 * neighbor_count m entry) ≡ node))
      ⊎ ((16 ≤ neighbor_count m entry) × ((a : ℕ) → entry ≤ a → a < entry + node_size → m' a ≡ m a))
  pub rest :
      (a : ℕ)
      → (a < node) ⊎ (node + node_size ≤ a)
      → (a < entry) ⊎ (entry + node_size ≤ a)
      → m' a ≡ m a

module _ (m : Memory) (entry node id vector_offset : ℕ) (apart : Apart entry node)
    (small : id < 2 ^ 32) where
  abbrev placed : Memory
  placed = write_node m node id vector_offset

  abbrev told : Memory
  told = add_neighbor placed entry node

  abbrev linked : Memory
  linked = add_neighbor told node entry

  -- The entry point's words before the node's link to it, and after.
  placed_entry : (a : ℕ) → entry ≤ a → a < entry + node_size → placed a ≡ m a
  placed_entry a l h = write_node_elsewhere m node id vector_offset a (ground (arith, apart))

  linked_entry : (a : ℕ) → entry ≤ a → a < entry + node_size → linked a ≡ told a
  linked_entry a l h = add_neighbor_elsewhere told node entry a (ground (arith, apart))

  told_node : (a : ℕ) → node ≤ a → a < node + node_size → told a ≡ placed a
  told_node a l h = add_neighbor_elsewhere placed entry node a (ground (arith, apart))

  entry_count : neighbor_count placed entry ≡ neighbor_count m entry
  unfolding neighbor_count
  entry_count =
      ap (λ (x : ℕ). x % 2 ^ 32)
        (placed_entry (entry + neighbor_count_at) (omega arith) (omega arith))

  linked_count : neighbor_count linked entry ≡ neighbor_count told entry
  unfolding neighbor_count
  linked_count =
      ap (λ (x : ℕ). x % 2 ^ 32)
        (linked_entry (entry + neighbor_count_at) (omega arith) (omega arith))

  node_count : neighbor_count told node ≡ 0
  unfolding neighbor_count
  node_count =
      ap (λ (x : ℕ). x % 2 ^ 32) (told_node (node + neighbor_count_at) (omega arith) (omega arith))
      ∙ (write_node_lem m node id vector_offset small).2

  back-IsLinked :
      ((neighbor_count m entry < 16)
        × (neighbor_count linked entry ≡ neighbor_count m entry + 1)
        × (linked (entry + neighbors_at + 8 * neighbor_count m entry) ≡ node))
      ⊎ ((16 ≤ neighbor_count m entry)
          × ((a : ℕ) → entry ≤ a → a < entry + node_size → linked a ≡ m a))
  back-IsLinked =
      let (room, full) = add_neighbor_lem placed entry node in
      elim (dec_lt (neighbor_count m entry) 16) [
        | yes h ↦
            let (counted, written) = room (omega (arith, entry_count)) in
            inl (
              h,
              linked_count ∙ counted ∙ ap (λ (x : ℕ). x + 1) entry_count,
              linked_entry (entry + neighbors_at + 8 * neighbor_count m entry) (omega arith)
                    (omega arith)
                  ∙ ap (λ (x : ℕ). told (entry + neighbors_at + 8 * x)) (sym entry_count)
                  ∙ written,
            )
        | no h ↦
            let same : told ≡ placed = full (omega (arith, entry_count)) in
            inr (
              omega arith,
              λ a l u. linked_entry a l u ∙ ap (λ (g : Memory). g a) same ∙ placed_entry a l u,
            )
      ]

  linked-IsLinked : IsLinked m linked entry node id vector_offset
  linked-IsLinked =
      let (id_is, vector_is, empty) = write_node_lem m node id vector_offset small in
      let (room, full) = add_neighbor_lem told node entry in
      let (counted, written) = room (omega (arith, node_count)) in
      let (id_stays, vector_stays) = add_neighbor_members told node entry in
      record {
        has_id =
            ap (λ (x : ℕ). x % 2 ^ 32) (id_stays ∙ told_node node (omega arith) (omega arith))
            ∙ id_is;
        has_vector =
            vector_stays
            ∙ told_node (node + vector_offset_at) (omega arith) (omega arith)
            ∙ vector_is;
        has_one = counted ∙ ap (λ (x : ℕ). x + 1) node_count;
        link =
            ap linked {x = node + neighbors_at}
              {y = node + neighbors_at + 8 * neighbor_count told node} (omega (arith, node_count))
            ∙ written;
        back_link = back-IsLinked;
        rest = λ a p q.
            add_neighbor_elsewhere told node entry a p
            ∙ add_neighbor_elsewhere placed entry node a q
            ∙ write_node_elsewhere m node id vector_offset a (ground (arith, p));
      }

-- Where the allocator finds a block for the new node, apart from the entry point's, `Insert` of a
-- 32-bit id into an index with an entry point keeps the entry point, gives the node its id and
-- vector offset and one link, to the entry point, and adds the node to the entry point's links
-- exactly where these were fewer than 16; the memory outside the two nodes is as the allocator left
-- it.
pub insert-IsLinked :
    (fuel id vector_offset node : ℕ) (x : Index) (slab : Slab)
    → allocate fuel x.allocator node_size ≡ some (node, slab)
    → node ≢ 0
    → x.entry_point ≢ 0
    → Apart x.entry_point node
    → id < 2 ^ 32
    → (x' : Index) × (insert fuel id vector_offset x ≡ some x')
      × (x'.entry_point ≡ x.entry_point)
      × IsLinked slab.memory x'.allocator.memory x.entry_point node id vector_offset
unfolding insert connect
insert-IsLinked fuel id vector_offset node x slab found there entry apart small =
    let m' = linked slab.memory x.entry_point node id vector_offset apart small in
    let y = record x { allocator = slab } in
    let placed_node = write_node slab.memory node id vector_offset in
    (
      record x { allocator = record slab { memory = m' } },
      ap
            (λ (o : Option (ℕ × Slab)). elim o [
              | none ↦ none
              | some (n, s) ↦
                  if n == 0
                  then some (record x { allocator = s })
                  else some (
                      connect (record x { allocator = s }) n
                        (write_node s.memory n id vector_offset))
            ])
            found
          ∙ ap (λ (b : Bool). if b then some y else some (connect y node placed_node))
              (ne_test node there)
          ∙ ap
              (λ (b : Bool). some (
                if b
                then record x {
                  allocator = record slab { memory = placed_node };
                  entry_point = node;
                }
                else record x { allocator = record slab { memory = m' } }))
              (ne_test x.entry_point entry),
      refl,
      linked-IsLinked slab.memory x.entry_point node id vector_offset apart small,
    )
