-- ===== src/Examples/OfSlab.antt =====
-- include/memory/SlabAllocator.hpp on a region of 1024 bytes, and with two free blocks.
use hyperion_euntime_environ.Base.{
  List, inl, ℕ, ◌+◌, ◌-◌, ◌%◌, ◌<◌, ◌≤◌, ◌≡◌, ◌⊎◌, inr, refl, true, some, [], ◌∷◌, ◌++◌, ◌==◌,
  if◌then◌else◌, arith,
}
use hyperion_euntime_environ.Slab.{Slab, Memory, header_size, footer_size, alignment}
use hyperion_euntime_environ.Slab.Header.{get_size, is_free, encode}
use hyperion_euntime_environ.Slab.FreeList.{remove_from_free_list}
use hyperion_euntime_environ.Slab.FreeList.Links.{IsFreeList}
use hyperion_euntime_environ.Slab.FreeList.Removal.{remove_from_free_list-IsFreeList}
use hyperion_euntime_environ.Slab.Release.{free}
use hyperion_euntime_environ.Slab.Release.Alone.{free-IsFreeList}
use hyperion_euntime_environ.Slab.Alloc.{init, required_total_size, allocate}
use hyperion_euntime_environ.Slab.Alloc.Request.{required_total_size-fits}
use hyperion_euntime_environ.Slab.Alloc.FirstFit.{AllSmaller}
use hyperion_euntime_environ.Slab.Alloc.Heap.{IsBlock, IsHeap}
use hyperion_euntime_environ.Slab.Alloc.Taken.{IsTaken}
use hyperion_euntime_environ.Slab.Alloc.Init.{Region, heap_start, heap_size, init_lem}
use hyperion_euntime_environ.Slab.Alloc.Outcome.{allocate-FirstFit}

-- Free blocks of 128 bytes at 64 and of 256 bytes at 192, in this order.
abbrev two_free : Memory
two_free a =
    if a == 64
    then 129
    else if a == 128
    then 192
    else if a == 192
    then 257
    else if a == 264
    then 64
    else 0

abbrev slab : Slab
slab = record {
  memory = two_free;
  base = 4096;
  total_size = 1024;
  base_offset = 64;
  free_list_head = 64;
  first_block = 64;
}

slab-IsFreeList : IsFreeList slab (64 ∷ 192 ∷ [])
slab-IsFreeList = record {
  linked = (refl, omega arith, refl, refl, (refl, omega arith, refl, refl, refl));
  distinct = ((omega arith, tt), (tt, tt));
}

remove_from_free_list-IsFreeList_example :
    IsFreeList (remove_from_free_list slab 192) ((64 ∷ []) ++ [])
remove_from_free_list-IsFreeList_example =
    remove_from_free_list-IsFreeList slab (64 ∷ []) 192 [] slab-IsFreeList

word-IsBlock : IsBlock two_free 64 × IsBlock two_free 192
unfolding get_size
word-IsBlock = (
  record { word = omega arith; sized = refl; large = omega arith; inside = omega arith },
  record { word = omega arith; sized = refl; large = omega arith; inside = omega arith },
)

two_free-IsHeap : IsHeap two_free (64 ∷ 192 ∷ [])
unfolding get_size
two_free-IsHeap = (word-IsBlock.0, (inl (omega arith), tt), (word-IsBlock.1, tt, tt))

allocate-FirstFit_example :
    ((xs : List ℕ) × (b : ℕ) × (ys : List ℕ) × (s' : Slab) × (64 ∷ 192 ∷ [] ≡ xs ++ b ∷ ys)
      × AllSmaller slab.memory (required_total_size 10) xs
      × (required_total_size 10 ≤ get_size (slab.memory b))
      × (allocate 3 slab 10 ≡ some (b + header_size, s'))
      × IsTaken slab s' (required_total_size 10) xs b ys)
    ⊎ (AllSmaller slab.memory (required_total_size 10) (64 ∷ 192 ∷ [])
        × (allocate 3 slab 10 ≡ some (0, slab)))
allocate-FirstFit_example =
    allocate-FirstFit 3 slab 10 (64 ∷ 192 ∷ []) slab-IsFreeList two_free-IsHeap (omega arith)
      (omega arith) (omega arith)

required_total_size-fits_example :
    (100 + header_size + footer_size ≤ required_total_size 100)
    × (required_total_size 100 < 100 + 192)
    × (required_total_size 100 % alignment ≡ 0)
required_total_size-fits_example = required_total_size-fits 100 (omega arith)

slab-Region : Region slab
slab-Region = record {
  base_small = omega arith;
  offset_small = omega arith;
  start_at = refl;
  start_ne = omega arith;
  room = omega arith;
  size_at = refl;
}

init_lem_example :
    IsFreeList (init slab) (heap_start slab ∷ [])
    × ((init slab).first_block ≡ heap_start slab)
    × (get_size ((init slab).memory (heap_start slab)) ≡ heap_size slab)
    × (is_free ((init slab).memory (heap_start slab)) ≡ true)
    × ((init slab).memory (heap_start slab + heap_size slab - footer_size)
        ≡ (init slab).memory (heap_start slab))
init_lem_example = init_lem slab slab-Region

-- One free block of 256 bytes at 64.
abbrev one_free : Slab
one_free = record (slab) { memory = λ a. if a == 64 then 257 else 0 }

-- A block of 128 bytes at 448 is in use, as are its neighbours.
abbrev one_used : Memory
one_used a = if a == 448 then 128 else two_free a

abbrev used_slab : Slab
used_slab = record (slab) { memory = one_used }

used_slab-IsFreeList : IsFreeList used_slab (64 ∷ 192 ∷ [])
used_slab-IsFreeList = record {
  linked = (refl, omega arith, refl, refl, (refl, omega arith, refl, refl, refl));
  distinct = ((omega arith, tt), (tt, tt));
}

free-IsFreeList_example :
    IsFreeList (free used_slab (448 + header_size) 100) (448 ∷ 64 ∷ 192 ∷ [])
    × ((free used_slab (448 + header_size) 100).memory 448 ≡ encode 128 true)
    × ((free used_slab (448 + header_size) 100).memory (448 + 128 - footer_size) ≡ encode 128 true)
unfolding encode is_free
free-IsFreeList_example =
    free-IsFreeList used_slab 448 128 100 (64 ∷ 192 ∷ [])
      (record {
        placed = omega arith;
        aligned = refl;
        sized = refl;
        nonempty = omega arith;
        inside = omega arith;
        header = refl;
        unlisted = (omega arith, (omega arith, tt));
        outside = (omega arith, (omega arith, tt));
      })
      (record { right = inr refl; left = inr refl }) used_slab-IsFreeList
