-- ===== src/Slab/Alloc/Taken.antt =====
-- The free list after `Allocate` has taken the block that it found, whole or split.
use hyperion_euntime_environ.Base.{
  ℕ, ◌+◌, ◌-◌, ◌%◌, ◌<◌, ◌≤◌, ◌≡◌, inl, inr, true, false, List, ◌∷◌, ◌++◌, arith, leb, Bool-cases,
}
use hyperion_euntime_environ.Slab.{Slab}
use hyperion_euntime_environ.Slab.Header.{get_size}
use hyperion_euntime_environ.Slab.FreeList.Links.{IsFreeList}
use hyperion_euntime_environ.Slab.Alloc.{take_block}
use hyperion_euntime_environ.Slab.Alloc.Heap.{IsHeap, HasBlock}
use hyperion_euntime_environ.Slab.Alloc.Whole.{use_whole_block-IsFreeList}
use hyperion_euntime_environ.Slab.Alloc.Relinked.{split_block-IsFreeList}

-- What taking a block of a free list makes of it.
pub data IsTaken (s s' : Slab) (required : ℕ) (xs : List ℕ) (b : ℕ) (ys : List ℕ) : Type 0 where
  whole :
      get_size (s.memory b) < required + 136
      → IsFreeList s' (xs ++ ys)
      → HasBlock s'.memory b (get_size (s.memory b)) false
      → IsTaken s s' required xs b ys
  split :
      required + 136 ≤ get_size (s.memory b)
      → IsFreeList s' (xs ++ (b + required) ∷ ys)
      → HasBlock s'.memory b required false
      → HasBlock s'.memory (b + required) (get_size (s.memory b) - required) true
      → IsTaken s s' required xs b ys

pub take_block-IsTaken :
    (s : Slab) (required b : ℕ) (xs ys : List ℕ)
    → IsFreeList s (xs ++ b ∷ ys)
    → IsHeap s.memory (xs ++ b ∷ ys)
    → required % 64 ≡ 0
    → 128 ≤ required
    → required ≤ get_size (s.memory b)
    → IsTaken s (take_block s b required) required xs b ys
unfolding take_block
take_block-IsTaken s required b xs ys v heap al large enough =
    elim (Bool-cases (leb 136 (get_size (s.memory b) - required))) [
      | inl t ↦
          let room : required + 136 ≤ get_size (s.memory b) = ground arith in
          let (list, used, free) = split_block-IsFreeList s b xs ys v heap required al large room in
          rw t (split room list used free)
      | inr t ↦
          let (list, used) = use_whole_block-IsFreeList s b xs ys v heap in
          rw t (whole (ground arith) list used)
    ]
