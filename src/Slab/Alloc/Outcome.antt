-- ===== src/Slab/Alloc/Outcome.antt =====
-- `Allocate` as a whole: what it returns, for every request.
use hyperion_euntime_environ.Base.{
  ◌+◌, refl, [], ◌∷◌, ◌++◌, ℕ, zero, suc, ◌-◌, ◌^◌, ◌<◌, ◌≤◌, ◌≡◌, ap, ◌∙◌, ◌≢◌, ◌⊎◌, inl, inr,
  subst, some, List, arith, length,
}
use hyperion_euntime_environ.Slab.{Slab, Memory, add64, header_size}
use hyperion_euntime_environ.Slab.Header.{get_size}
use hyperion_euntime_environ.Slab.Alloc.{first_fit, required_total_size, take_block, allocate}
use hyperion_euntime_environ.Slab.Alloc.Request.{required_total_size-fits}
use hyperion_euntime_environ.Slab.Alloc.Heap.{IsHeap, block_in}
use hyperion_euntime_environ.Slab.Alloc.Taken.{IsTaken, take_block-IsTaken}
use hyperion_euntime_environ.Slab.FreeList.Removal.{node_aligned}
use hyperion_euntime_environ.Slab.Alloc.FirstFit.{
  AllSmaller, FirstFit, here, later, end, first_fit-FirstFit,
}
use hyperion_euntime_environ.Slab.FreeList.Links.{IsFreeList}

pub allocate_found :
    (fuel : ℕ) (s : Slab) (size found : ℕ)
    → 0 < size
    → first_fit fuel s.memory (required_total_size size) s.free_list_head ≡ some found
    → found ≢ 0
    → allocate fuel s size
      ≡ some (add64 found header_size, take_block s found (required_total_size size))
unfolding allocate
allocate_found fuel s size found pos e ne = rw e (ground arith)

allocate_none :
    (fuel : ℕ) (s : Slab) (size : ℕ)
    → 0 < size
    → first_fit fuel s.memory (required_total_size size) s.free_list_head ≡ some 0
    → allocate fuel s size ≡ some (0, s)
unfolding allocate
allocate_none fuel s size pos e = rw e (ground arith)

-- The first block that fits, with the blocks in front of it and behind it.
first-split :
    (m : Memory) (required found : ℕ) (os : List ℕ)
    → FirstFit m required os found
    → ((xs : List ℕ) × (ys : List ℕ) × (os ≡ xs ++ found ∷ ys)
        × AllSmaller m required xs
        × (required ≤ get_size (m found)))
      ⊎ ((found ≡ 0) × AllSmaller m required os)
first-split m required zero [] end = inr (refl, tt)
first-split m required (suc n) [] none_first = elim none_first [ ]
first-split m required found (o ∷ os) (here fits) = inl ([], os, refl, tt, fits)
first-split m required found (o ∷ os) (later small first) =
    elim (first-split m required found os first) [
      | inl (xs, ys, e, smaller, fits) ↦
          inl (o ∷ xs, ys, ap (λ (r : List ℕ). o ∷ r) e, (small, smaller), fits)
      | inr (z, smaller) ↦ inr (z, (small, smaller))
    ]

-- A request of 1 to 2 ^ 64 - 192 bytes, on a well-formed free list of fewer blocks than the fuel,
-- whose blocks lie below 2 ^ 64, do not overlap and have multiples of 64 of at least 128 bytes,
-- takes the first block of the list that has the required size and returns its payload. When fewer
-- than 136 bytes would remain, the block leaves the list and its header keeps its size and says it
-- is in use, else its front has the required size and is in use, and a free block with the rest
-- stands in its place in the list; their footers equal the headers, and the list is well-formed. Or
-- every block is too small, 0 is returned and nothing changes.
pub allocate-FirstFit :
    (fuel : ℕ) (s : Slab) (size : ℕ) (blocks : List ℕ)
    → IsFreeList s blocks
    → IsHeap s.memory blocks
    → length blocks < fuel
    → 0 < size
    → size ≤ 2 ^ 64 - 192
    → ((xs : List ℕ) × (b : ℕ) × (ys : List ℕ) × (s' : Slab) × (blocks ≡ xs ++ b ∷ ys)
        × AllSmaller s.memory (required_total_size size) xs
        × (required_total_size size ≤ get_size (s.memory b))
        × (allocate fuel s size ≡ some (b + header_size, s'))
        × IsTaken s s' (required_total_size size) xs b ys)
      ⊎ (AllSmaller s.memory (required_total_size size) blocks
          × (allocate fuel s size ≡ some (0, s)))
allocate-FirstFit fuel s size blocks v heap h pos small =
    let required = required_total_size size in
    let (found, e, first) =
      first_fit-FirstFit fuel s.memory required 0 s.free_list_head blocks v.linked h in
    elim (first-split s.memory required found blocks first) [
      | inl (xs, ys, cut, smaller, fits) ↦
          let list = subst (IsFreeList s) cut v in
          let roomy = subst (IsHeap s.memory) cut heap in
          let (large, close, al) = required_total_size-fits size small in
          let block = block_in s.memory found xs ys roomy in
          let ne = (node_aligned s.memory 0 s.free_list_head found xs ys list.linked).1 in
          inl (
            xs,
            found,
            ys,
            take_block s found required,
            cut,
            smaller,
            fits,
            allocate_found fuel s size found pos e ne
                ∙ ap (λ (a : ℕ). some (a, take_block s found required))
                    {x = add64 found header_size} {y = found + header_size}
                    (omega (arith, block.inside, block.large)),
            take_block-IsTaken s required found xs ys list roomy al (omega (arith, large, al)) fits,
          )
      | inr (z, smaller) ↦ inr (smaller, allocate_none fuel s size pos (e ∙ ap some z))
    ]
