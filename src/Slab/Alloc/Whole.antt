-- ===== src/Slab/Alloc/Whole.antt =====
-- `Allocate` takes a whole block out of the free list.
use hyperion_euntime_environ.Base.{
  ℕ, ◌+◌, ◌-◌, ◌%◌, ◌^◌, ◌<◌, ◌≤◌, ◌≡◌, ◌≢◌, ◌⊎◌, inl, refl, ap, false, sym, ◌∙◌, List, ◌∷◌, ◌++◌,
  arith, ◌==◌, if◌then◌else◌,
}
use hyperion_euntime_environ.Slab.{Slab, Memory, write, prev_offset, footer_size}
use hyperion_euntime_environ.Slab.Header.{
  get_size, is_free, set_free, update_footer, footer_offset, get_size-eq, is_free-eq, set_free-eq,
}
use hyperion_euntime_environ.Slab.FreeList.{remove_from_free_list}
use hyperion_euntime_environ.Slab.FreeList.Links.{Linked-Agree, IsFreeList}
use hyperion_euntime_environ.Slab.FreeList.Bypass.{prev-eq-last, last-aligned, next-aligned}
use hyperion_euntime_environ.Slab.FreeList.Removal.{
  node_aligned, removed-memory, remove_from_free_list-IsFreeList,
}
use hyperion_euntime_environ.Slab.Alloc.{use_whole_block}
use hyperion_euntime_environ.Slab.Alloc.Heap.{
  IsHeap, IsBlock, block_in, off_before, off_behind, off_others, last-Off, marks-Agree, HasBlock,
}

module _ (s : Slab) (b : ℕ) (xs ys : List ℕ) (v : IsFreeList s (xs ++ b ∷ ys))
    (heap : IsHeap s.memory (xs ++ b ∷ ys)) where
  abbrev removed : Memory
  removed = (remove_from_free_list s b).memory

  abbrev header : ℕ
  header = set_free (removed b) false

  abbrev marked : Memory
  marked = update_footer (write removed b header) b

  block : IsBlock s.memory b
  block = block_in s.memory b xs ys heap

  aligned : b % 64 ≡ 0
  aligned = (node_aligned s.memory 0 s.free_list_head b xs ys v.linked).0

  pv_at : s.memory (prev_offset b) % 64 ≡ 0
  pv_at =
      ap (λ (n : ℕ). n % 64) (prev-eq-last s.memory 0 s.free_list_head b xs ys v.linked)
      ∙ last-aligned s.memory 0 s.free_list_head b xs ys refl v.linked

  pv_off :
      (s.memory (prev_offset b) ≡ 0)
      ⊎ ((b + get_size (s.memory b) ≤ s.memory (prev_offset b))
          ⊎ (s.memory (prev_offset b) + 80 ≤ b))
  pv_off =
      let e = prev-eq-last s.memory 0 s.free_list_head b xs ys v.linked in
      ground (
        arith,
        e,
        last-Off b (get_size (s.memory b)) 0 xs (inl refl) (off_before s.memory b xs ys heap),
      )

  kept_header : removed b ≡ s.memory b
  unfolding write
  kept_header =
      ap (λ (m : Memory). m b) (removed-memory s xs b ys v)
      ∙ ground (
        arith,
        pv_off,
        pv_at,
        aligned,
        block.large,
        next-aligned s.memory 0 s.free_list_head b xs ys v.linked,
      )

  header_is :
      (get_size header ≡ get_size (s.memory b)) × (is_free header ≡ false) × (header < 2 ^ 64)
  header_is =
      let w = block.word in
      let e : header ≡ s.memory b - s.memory b % 2 =
        ap (λ (x : ℕ). set_free x false) kept_header
        ∙ set_free-eq (s.memory b) false w
        ∙ omega arith in
      let lt : header < 2 ^ 64 = omega (arith, e, w) in
      (
        get_size-eq header lt ∙ omega (arith, e) ∙ sym (get_size-eq (s.memory b) w),
        is_free-eq header ∙ ground (arith, e),
        lt,
      )

  marked-eq :
      (a : ℕ)
      → marked a ≡ (
          if a == b + get_size (s.memory b) - footer_size
          then header
          else if a == b
          then header
          else removed a)
  unfolding update_footer footer_offset write
  marked-eq a = ground (arith, header_is.0)

  pub use_whole_block-IsFreeList :
      IsFreeList (use_whole_block s b) (xs ++ ys)
      × HasBlock (use_whole_block s b).memory b (get_size (s.memory b)) false
  unfolding use_whole_block remove_from_free_list
  use_whole_block-IsFreeList =
      let r = remove_from_free_list-IsFreeList s xs b ys v in
      let size = get_size (s.memory b) in
      let off =
        off_others b size xs ys (off_before s.memory b xs ys heap)
          (off_behind s.memory b xs ys heap) in
      let keeps : (a : ℕ) → a % 64 ≢ 56 → a ≢ b → marked a ≡ removed a =
        λ a ne nb. marked-eq a ∙ ground (arith, ne, nb, aligned, block.sized, block.large) in
      let at_header : marked b ≡ header = marked-eq b ∙ ground arith in
      (
        record {
          linked =
              Linked-Agree removed marked 0 (remove_from_free_list s b).free_list_head (xs ++ ys)
                (marks-Agree removed marked b size 0 (remove_from_free_list s b).free_list_head
                  (xs ++ ys) keeps (omega (arith, block.large)) aligned r.linked off)
                r.linked;
          distinct = r.distinct;
        },
        record {
          says_size = ap get_size at_header ∙ header_is.0;
          says_free = ap is_free at_header ∙ header_is.1;
          footer = marked-eq (b + size - footer_size) ∙ ground arith ∙ sym at_header;
        },
      )
