-- ===== src/Slab/FreeList/Insertion.antt =====
-- `InsertHead` of include/memory/SlabAllocator.hpp against the list of offsets.
use hyperion_euntime_environ.Base.{
  ℕ, ◌%◌, ◌≡◌, refl, sym, ap, ◌∙◌, subst, ◌≢◌, List, [], ◌∷◌, arith,
}
use hyperion_euntime_environ.Slab.{Slab, Memory, next_offset, prev_offset}
use hyperion_euntime_environ.Slab.FreeList.{insert_head}
use hyperion_euntime_environ.Slab.FreeList.Links.{
  Linked, Fresh, Distinct, IsFreeList, Agree, Linked-Agree,
}

pub head_aligned : (m : Memory) (p c : ℕ) (os : List ℕ) → Linked m p c os → c % 64 ≡ 0
head_aligned m p c [] l = omega arith
head_aligned m p c (o ∷ os) l = omega (arith, l.0, l.2)

head-ne : (m : Memory) (p c b : ℕ) (os : List ℕ) → b ≢ 0 → Fresh b os → Linked m p c os → c ≢ b
head-ne m p c b [] nz f l e = nz (sym e ∙ l)
head-ne m p c b (o ∷ os) nz f l e = f.0 (sym l.0 ∙ e)

module _ (s : Slab) (b : ℕ) (nz : b ≢ 0) (b_at : b % 64 ≡ 0) (head_at : s.free_list_head % 64 ≡ 0)
    (ne : s.free_list_head ≢ b) where
  insert-next_self : (insert_head s b).memory (next_offset b) ≡ s.free_list_head
  unfolding insert_head
  insert-next_self = ground arith

  insert-prev_self : (insert_head s b).memory (prev_offset b) ≡ 0
  unfolding insert_head
  insert-prev_self = ground arith

  insert-prev_head :
      s.free_list_head ≢ 0 → (insert_head s b).memory (prev_offset s.free_list_head) ≡ b
  unfolding insert_head
  insert-prev_head h = ground arith

  insert-next_ne :
      (o : ℕ)
      → o % 64 ≡ 0
      → o ≢ b
      → (insert_head s b).memory (next_offset o) ≡ s.memory (next_offset o)
  unfolding insert_head
  insert-next_ne o al h = ground arith

  insert-prev_ne :
      (o : ℕ)
      → o % 64 ≡ 0
      → o ≢ b
      → o ≢ s.free_list_head
      → (insert_head s b).memory (prev_offset o) ≡ s.memory (prev_offset o)
  unfolding insert_head
  insert-prev_ne o al h k = ground arith

  insert-Agree :
      (p c : ℕ) (os : List ℕ)
      → Linked s.memory p c os
      → Fresh b os
      → Fresh s.free_list_head os
      → Agree s.memory (insert_head s b).memory os
  insert-Agree p c [] l f g = tt
  insert-Agree p c (o ∷ os) l f g = (
    insert-next_ne o l.2 f.0,
    insert-prev_ne o l.2 f.0 g.0,
    insert-Agree o (s.memory (next_offset o)) os l.4 f.1 g.1,
  )

  insert-Linked :
      (os : List ℕ)
      → Fresh b os
      → Distinct os
      → Linked s.memory 0 s.free_list_head os
      → Linked (insert_head s b).memory b s.free_list_head os
  insert-Linked [] f d l = l
  insert-Linked (y ∷ ys) f d l = (
    l.0,
    l.1,
    l.2,
    ap (λ o. (insert_head s b).memory (prev_offset o)) (sym l.0)
        ∙ insert-prev_head (λ e. l.1 (sym l.0 ∙ e)),
    subst (λ c. Linked (insert_head s b).memory y c ys) (sym (insert-next_ne y l.2 f.0))
        (Linked-Agree s.memory (insert_head s b).memory y (s.memory (next_offset y)) ys
          (insert-Agree y (s.memory (next_offset y)) ys l.4 f.1
            (subst (λ o. Fresh o ys) (sym l.0) d.0))
          l.4),
  )

  insert-head : (insert_head s b).free_list_head ≡ b
  unfolding insert_head
  insert-head = refl

-- `InsertHead` of a block at a multiple of 64 other than 0 that is not in a well-formed free list
-- puts it in front and keeps the list well-formed.
pub insert_head-IsFreeList :
    (s : Slab) (b : ℕ) (os : List ℕ)
    → b ≢ 0
    → b % 64 ≡ 0
    → Fresh b os
    → IsFreeList s os
    → IsFreeList (insert_head s b) (b ∷ os)
insert_head-IsFreeList s b os nz al f v = record {
  linked = (
    insert-head s b nz al ha ne,
    nz,
    al,
    insert-prev_self s b nz al ha ne,
    subst (λ c. Linked (insert_head s b).memory b c os) (sym (insert-next_self s b nz al ha ne))
        (insert-Linked s b nz al ha ne os f v.distinct v.linked),
  );
  distinct = (f, v.distinct);
}
  where
    ha : s.free_list_head % 64 ≡ 0
    ha = head_aligned s.memory 0 s.free_list_head os v.linked

    ne : s.free_list_head ≢ b
    ne = head-ne s.memory 0 s.free_list_head b os nz f v.linked
