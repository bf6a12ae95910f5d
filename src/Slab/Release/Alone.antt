-- ===== src/Slab/Release/Alone.antt =====
-- `Free` of include/memory/SlabAllocator.hpp for a block whose neighbours are in use.
use hyperion_euntime_environ.Base.{
  ℕ, ◌+◌, ◌-◌, ◌%◌, ◌^◌, ◌<◌, ◌≤◌, ◌≡◌, refl, sym, ap, ◌∙◌, subst, ◌≢◌, ◌⊎◌, inl, inr, Bool, true,
  false, List, [], ◌∷◌, arith, ltb, ◌==◌, if◌then◌else◌,
}
use hyperion_euntime_environ.Slab.{
  Slab, Memory, write, add64, sub64, header_size, footer_size, next_offset, prev_offset,
}
use hyperion_euntime_environ.Slab.Header.{
  get_size, is_free, encode, set_free, update_footer, header_fields,
}
use hyperion_euntime_environ.Slab.FreeList.{insert_head}
use hyperion_euntime_environ.Slab.FreeList.Links.{Linked, Fresh, IsFreeList, Agree, Linked-Agree}
use hyperion_euntime_environ.Slab.FreeList.Insertion.{insert_head-IsFreeList, head_aligned}
use hyperion_euntime_environ.Slab.Release.{mark_free, coalesce_right, coalesce_left, free}

-- A block's header lies outside the link words of the blocks of a list.
abbrev Outside : ℕ → List ℕ → Type 0
Outside b [] = Unit
Outside b (o ∷ os) = (next_offset o ≢ b) × Outside b os

-- A block in use, of a multiple of 64 bytes, that the free list does not reach.
pub record InUse (s : Slab) (b size : ℕ) (blocks : List ℕ) : Type 0 where
  pub placed : b ≢ 0
  pub aligned : b % 64 ≡ 0
  pub sized : size % 64 ≡ 0
  pub nonempty : 64 < size
  pub inside : b + size < 2 ^ 64
  pub header : s.memory b ≡ encode size false
  pub unlisted : Fresh b blocks
  pub outside : Outside b blocks

-- Neither neighbour is free: it is the end of the region, or its bit says so.
pub record NoFreeNeighbour (s : Slab) (b size : ℕ) : Type 0 where
  pub right :
      (add64 s.total_size s.base_offset ≤ b + size) ⊎ (is_free (s.memory (b + size)) ≡ false)
  pub left : (b ≤ s.first_block) ⊎ (is_free (s.memory (b - footer_size)) ≡ false)

skip {ℓ} :
    {A : Type ℓ} (b c : Bool) (x y : A)
    → (b ≡ false) ⊎ (c ≡ false)
    → (if b then (if c then x else y) else y) ≡ y
skip true true x y h = ground (arith, h)
skip true false x y h = refl
skip false c x y h = refl

-- The two tests of each side of `Free`.
skip_right :
    (s : Slab) (b next : ℕ)
    → add64 b (get_size (s.memory b)) ≡ next
    → (add64 s.total_size s.base_offset ≤ next) ⊎ (is_free (s.memory next) ≡ false)
    → coalesce_right s b ≡ s
unfolding coalesce_right
skip_right s b next e h =
    skip (ltb (add64 b (get_size (s.memory b))) (add64 s.total_size s.base_offset))
      (is_free (s.memory (add64 b (get_size (s.memory b))))) _ _
      (elim h [
        | inl last ↦ inl (ground (arith, e, last))
        | inr used ↦ inr (ap (λ (n : ℕ). is_free (s.memory n)) e ∙ used)
      ])

skip_left :
    (s : Slab) (b : ℕ)
    → (b ≤ s.first_block) ⊎ (is_free (s.memory (b - footer_size)) ≡ false)
    → coalesce_left s b ≡ insert_head s b
unfolding coalesce_left
skip_left s b h =
    skip (ltb s.first_block b) (is_free (s.memory (b - footer_size))) _ _
      (elim h [ inl first ↦ inl (ground (arith, first)) | inr used ↦ inr used ])

-- `Free` once its block is known to be in use.
abbrev release : Slab → ℕ → Slab
release s block = coalesce_left (coalesce_right (mark_free s block) block) block

free-release :
    (s : Slab) (p hint block : ℕ)
    → sub64 p header_size ≡ block
    → (p == 0) ≡ false
    → is_free (s.memory block) ≡ false
    → free s p hint ≡ release s block
unfolding free
free-release s p hint block e pos used =
    ap (λ (n : ℕ). if p == 0 then s else if is_free (s.memory n) then s else release s n) e
    ∙ ap (λ (c : Bool). if c then s else if is_free (s.memory block) then s else release s block)
        pos
    ∙ ap (λ (c : Bool). if c then s else release s block) used

both_words :
    (m : Memory) (b w size a : ℕ)
    → get_size w ≡ size
    → update_footer (write m b w) b a ≡ (if a == b + size - 8 then w else if a == b then w else m a)
unfolding update_footer write
both_words m b w size a e = ground (arith, e)

module _ (s : Slab) (b size : ℕ) (blocks : List ℕ) (u : InUse s b size blocks) where
  fields :
      (get_size (encode size true) ≡ size)
      × (set_free (encode size false) true ≡ encode size true)
      × (is_free (encode size false) ≡ false)
  fields =
      let f =
        header_fields size size true true (omega (arith, u.inside)) (omega (arith, u.inside)) in
      let g =
        header_fields size size false true (omega (arith, u.inside)) (omega (arith, u.inside)) in
      (f.0 ∙ omega (arith, u.sized), g.2, g.1)

  -- The two words that marking writes.
  abbrev marked : Memory
  marked = (mark_free s b).memory

  mark-eq :
      (a : ℕ)
      → marked a ≡ (
          if a == b + size - 8
          then encode size true
          else if a == b
          then encode size true
          else s.memory a)
  unfolding mark_free
  mark-eq a =
      ap (λ (w : ℕ). update_footer (write s.memory b w) b a)
        (ap (λ (w : ℕ). set_free w true) u.header ∙ fields.1)
      ∙ both_words s.memory b (encode size true) size a fields.0

  mark-Agree :
      (p c : ℕ) (os : List ℕ) → Linked s.memory p c os → Outside b os → Agree s.memory marked os
  mark-Agree p c [] l h = tt
  mark-Agree p c (o ∷ os) l h = (
    mark-eq (next_offset o) ∙ ground (arith, l.2, h.0, u.aligned, u.sized, u.nonempty),
    mark-eq (prev_offset o) ∙ ground (arith, l.2, u.aligned, u.sized, u.nonempty),
    mark-Agree o (s.memory (next_offset o)) os l.4 h.1,
  )

  marked-IsFreeList : IsFreeList s blocks → IsFreeList (mark_free s b) blocks
  unfolding mark_free
  marked-IsFreeList v = record {
    linked =
        Linked-Agree s.memory marked 0 s.free_list_head blocks
          (mark-Agree 0 s.free_list_head blocks v.linked u.outside) v.linked;
    distinct = v.distinct;
  }

  marked_header : (marked b ≡ encode size true) × (marked (b + size - 8) ≡ encode size true)
  marked_header = (mark-eq b ∙ ground (arith, u.nonempty), mark-eq (b + size - 8) ∙ ground arith)

  marked_beyond : (marked (b + size) ≡ s.memory (b + size)) × (marked (b - 8) ≡ s.memory (b - 8))
  marked_beyond = (
    mark-eq (b + size) ∙ ground (arith, u.nonempty),
    mark-eq (b - 8) ∙ ground (arith, u.nonempty, u.placed),
  )

  mark-fields :
      ((mark_free s b).total_size ≡ s.total_size)
      × ((mark_free s b).base_offset ≡ s.base_offset)
      × ((mark_free s b).first_block ≡ s.first_block)
      × ((mark_free s b).free_list_head ≡ s.free_list_head)
  unfolding mark_free
  mark-fields = (refl, refl, refl, refl)

  right-kept : NoFreeNeighbour s b size → coalesce_right (mark_free s b) b ≡ mark_free s b
  right-kept n =
      skip_right (mark_free s b) b (b + size)
        (ap (λ (w : ℕ). add64 b (get_size w)) marked_header.0
          ∙ ap (add64 b) fields.0
          ∙ omega (arith, u.inside))
        (elim (n.right) [
          | inl last ↦ inl (omega (arith, mark-fields, last))
          | inr used ↦ inr (ap is_free marked_beyond.0 ∙ used)
        ])

  left-inserted :
      NoFreeNeighbour s b size → coalesce_left (mark_free s b) b ≡ insert_head (mark_free s b) b
  left-inserted n = skip_left (mark_free s b) b (elim (n.left) [
    | inl first ↦ inl (omega (arith, mark-fields, first))
    | inr used ↦ inr (ap is_free marked_beyond.1 ∙ used)
  ])

  inserted_words :
      (h : ℕ)
      → (mark_free s b).free_list_head ≡ h
      → h % 64 ≡ 0
      → ((insert_head (mark_free s b) b).memory b ≡ encode size true)
        × ((insert_head (mark_free s b) b).memory (b + size - 8) ≡ encode size true)
  unfolding insert_head
  inserted_words h e at = (
    ground (arith, e, at, u.aligned, u.sized, u.nonempty, marked_header),
    ground (arith, e, at, u.aligned, u.sized, u.nonempty, marked_header),
  )

  free-eq :
      (hint : ℕ)
      → NoFreeNeighbour s b size
      → free s (b + header_size) hint ≡ insert_head (mark_free s b) b
  free-eq hint n =
      free-release s (b + header_size) hint b (omega (arith, u.inside)) (ground arith)
        (ap is_free u.header ∙ fields.2)
      ∙ ap (λ (t : Slab). coalesce_left t b) (right-kept n)
      ∙ left-inserted n

-- `Free` of a block in use, at a multiple of 64 other than 0, of a multiple of 64 and more than 64
-- bytes below 2 ^ 64, that a well-formed free list neither holds nor overlaps with a link word and
-- neither of whose neighbours is free, puts the block in front of the list, which stays well-
-- formed, and makes its header and footer say its size and that it is free.
pub free-IsFreeList :
    (s : Slab) (b size hint : ℕ) (blocks : List ℕ)
    → InUse s b size blocks
    → NoFreeNeighbour s b size
    → IsFreeList s blocks
    → IsFreeList (free s (b + header_size) hint) (b ∷ blocks)
      × ((free s (b + header_size) hint).memory b ≡ encode size true)
      × ((free s (b + header_size) hint).memory (b + size - footer_size) ≡ encode size true)
free-IsFreeList s b size hint blocks u n v =
    let e = free-eq s b size blocks u hint n in
    let marked_list = marked-IsFreeList s b size blocks u v in
    let (at_header, at_footer) =
      inserted_words s b size blocks u (mark_free s b).free_list_head refl (
        head_aligned (mark_free s b).memory 0 (mark_free s b).free_list_head blocks
          marked_list.linked) in
    (
      subst (λ (t : Slab). IsFreeList t (b ∷ blocks)) (sym e)
          (insert_head-IsFreeList (mark_free s b) b blocks u.placed u.aligned u.unlisted
            marked_list),
      ap (λ (t : Slab). t.memory b) e ∙ at_header,
      ap (λ (t : Slab). t.memory (b + size - 8)) e ∙ at_footer,
    )
