-- ===== src/Slab/Alloc/Relinked.antt =====
-- The free list after `split_block` of include/memory/SlabAllocator.hpp: the rest of the block stands
-- in its place.
use hyperion_euntime_environ.Base.{
  ℕ, ◌+◌, ◌-◌, ◌%◌, ◌≤◌, ◌≡◌, ◌≢◌, ◌⊎◌, inl, inr, refl, ap, true, false, sym, ◌∙◌, List, [], ◌∷◌,
  ◌++◌, arith, subst, subst₂,
}
use hyperion_euntime_environ.Slab.{Slab, Memory, next_offset, prev_offset}
use hyperion_euntime_environ.Slab.Header.{get_size}
use hyperion_euntime_environ.Slab.FreeList.Links.{
  Linked, Agree, Fresh, Distinct, IsFreeList, Fresh-zero,
}
use hyperion_euntime_environ.Slab.FreeList.Bypass.{
  last, start_past, prev-eq-last, last-aligned, next-aligned, last-Fresh, next-ne,
}
use hyperion_euntime_environ.Slab.FreeList.Removal.{node_aligned, head_past}
use hyperion_euntime_environ.Slab.FreeList.Replace.{Fore, Aft, aft-Linked, replace-Linked}
use hyperion_euntime_environ.Slab.Alloc.{split_block}
use hyperion_euntime_environ.Slab.Alloc.Heap.{
  IsHeap, IsBlock, Off, block_in, off_before, off_behind, last-Off, HasBlock,
}
use hyperion_euntime_environ.Slab.Alloc.Split
use hyperion_euntime_environ.Slab.Alloc.Others.{
  last_behind, Linked-behind, Distinct-behind, Off-Fresh, Distinct-replaced,
}

module _ (s : Slab) (b : ℕ) (xs ys : List ℕ) (v : IsFreeList s (xs ++ b ∷ ys))
    (heap : IsHeap s.memory (xs ++ b ∷ ys)) (required : ℕ) (req_at : required % 64 ≡ 0)
    (req_large : 128 ≤ required) (rest_large : required + 136 ≤ get_size (s.memory b)) where
  abbrev m : Memory
  m = s.memory

  abbrev size : ℕ
  size = get_size (m b)

  abbrev rest : ℕ
  rest = b + required

  at : (b % 64 ≡ 0) × (b ≢ 0)
  at = node_aligned m 0 s.free_list_head b xs ys v.linked

  pv-eq : m (prev_offset b) ≡ last 0 xs
  pv-eq = prev-eq-last m 0 s.free_list_head b xs ys v.linked

  pv_at : m (prev_offset b) % 64 ≡ 0
  pv_at = ap (λ (n : ℕ). n % 64) pv-eq ∙ last-aligned m 0 s.free_list_head b xs ys refl v.linked

  nx_at : m (next_offset b) % 64 ≡ 0
  nx_at = next-aligned m 0 s.free_list_head b xs ys v.linked

  block : IsBlock m b
  block = block_in m b xs ys heap

  before : Off b size xs
  before = off_before m b xs ys heap

  behind : Off b size ys
  behind = off_behind m b xs ys heap

  pv_off : (m (prev_offset b) ≡ 0) ⊎ ((b + size ≤ m (prev_offset b)) ⊎ (m (prev_offset b) + 80 ≤ b))
  pv_off = ground (arith, pv-eq, last-Off b size 0 xs (inl refl) before)

  first_off : (c : ℕ) (os : List ℕ) → Linked m b c os → Off b size os → (c ≡ 0) ⊎ (c ≢ rest)
  first_off c [] l f = inl l
  first_off c (o ∷ os) l f = inr (ground (arith, l.0, f.0))

  tail : Linked m b (m (next_offset b)) ys
  tail = Linked-behind m 0 s.free_list_head b xs ys v.linked

  nx_off : (m (next_offset b) ≡ 0) ⊎ (m (next_offset b) ≢ rest)
  nx_off = first_off (m (next_offset b)) ys tail behind

  abbrev m' : Memory
  m' = Split.relinked s b required at.0 block req_at req_large rest_large pv_at nx_at pv_off nx_off

  kept :
      (a : ℕ)
      → a % 64 ≢ 56
      → a ≢ b
      → a ≢ rest
      → a ≢ next_offset rest
      → a ≢ prev_offset rest
      → (m (prev_offset b) ≡ 0) ⊎ (a ≢ next_offset (m (prev_offset b)))
      → (m (next_offset b) ≡ 0) ⊎ (a ≢ prev_offset (m (next_offset b)))
      → m' a ≡ m a
  kept =
      Split.relinked-eq s b required at.0 block req_at req_large rest_large pv_at nx_at pv_off
        nx_off

  -- A node's links outside the block, where its neighbours are not the block's.
  kept_prev :
      (o : ℕ)
      → o % 64 ≡ 0
      → (b + size ≤ o) ⊎ (o + 80 ≤ b)
      → o ≢ m (next_offset b)
      → m' (prev_offset o) ≡ m (prev_offset o)
  kept_prev o al off ne =
      kept (prev_offset o) (omega (arith, al)) (omega (arith, al, at.0))
        (omega (arith, al, at.0, req_at)) (omega (arith, al, at.0, req_at))
        (ground (arith, off, rest_large)) (inr (omega (arith, al, pv_at))) (inr (omega (arith, ne)))

  kept_next :
      (o : ℕ)
      → o % 64 ≡ 0
      → (b + size ≤ o) ⊎ (o + 80 ≤ b)
      → o ≢ m (prev_offset b)
      → m' (next_offset o) ≡ m (next_offset o)
  kept_next o al off ne =
      kept (next_offset o) (omega (arith, al)) (ground (arith, off, rest_large))
        (ground (arith, off, rest_large)) (ground (arith, off, rest_large))
        (omega (arith, al, at.0, req_at)) (inr (omega (arith, ne))) (inr (omega (arith, al, nx_at)))

  to_rest : m (prev_offset b) ≢ 0 → m' (next_offset (m (prev_offset b))) ≡ rest
  to_rest =
      Split.relinked_fore s b required at.0 block req_at req_large rest_large pv_at nx_at pv_off
        nx_off

  back_to_rest : m (next_offset b) ≢ 0 → m' (prev_offset (m (next_offset b))) ≡ rest
  back_to_rest =
      Split.relinked_aft s b required at.0 block req_at req_large rest_large pv_at nx_at pv_off
        nx_off

  next-start :
      (x c : ℕ) (os : List ℕ)
      → x ≢ 0
      → x % 64 ≡ 0
      → (b + size ≤ x) ⊎ (x + 80 ≤ b)
      → Fresh x (os ++ b ∷ ys)
      → m (prev_offset b) ≡ last x os
      → c ≡ m (next_offset x)
      → m' (next_offset x) ≡ start_past os rest c
  next-start x c [] ne al off f ep ec =
      ap (λ (o : ℕ). m' (next_offset o)) (sym ep) ∙ to_rest (λ z. ne (sym ep ∙ z))
  next-start x c (y ∷ os) ne al off f ep ec =
      kept_next x al off (λ e. last-Fresh x y b os ys f (sym ep ∙ sym e)) ∙ sym ec

  fore :
      (p c : ℕ) (os : List ℕ)
      → Linked m p c (os ++ b ∷ ys)
      → Distinct (os ++ b ∷ ys)
      → Off b size os
      → m (prev_offset b) ≡ last p os
      → Fore m m' rest os
  fore p c [] l d off ep = tt
  fore p c (x ∷ os) l d off ep = (
    kept_prev x l.2 off.0 (next-ne m x (m (next_offset x)) b x os ys l.1 l.4 d.0),
    next-start x (m (next_offset x)) os l.1 l.2 off.0 d.0 ep refl,
    fore x (m (next_offset x)) os l.4 d.1 off.1 ep,
  )

  agree :
      (p c : ℕ) (os : List ℕ)
      → Linked m p c os
      → Fresh (m (prev_offset b)) os
      → Fresh (m (next_offset b)) os
      → Off b size os
      → Agree m m' os
  agree p c [] l f g off = tt
  agree p c (o ∷ os) l f g off = (
    kept_next o l.2 off.0 f.0,
    kept_prev o l.2 off.0 g.0,
    agree o (m (next_offset o)) os l.4 f.1 g.1 off.1,
  )

  aft :
      (os : List ℕ)
      → Linked m b (m (next_offset b)) os
      → Fresh (m (prev_offset b)) os
      → Distinct os
      → Off b size os
      → Aft m m' rest os
  aft [] l f d off = tt
  aft (y ∷ os) l f d off = (
    ap (λ (o : ℕ). m' (prev_offset o)) (sym l.0) ∙ back_to_rest (λ z. l.1 (sym l.0 ∙ z)),
    kept_next y l.2 off.0 f.0,
    agree y (m (next_offset y)) os l.4 f.1 (subst (λ o. Fresh o os) (sym l.0) d.0) off.1,
  )

  Fresh-pv : Fresh (m (prev_offset b)) ys
  Fresh-pv =
      subst (λ o. Fresh o ys) (sym pv-eq)
        (last_behind 0 b xs ys (Fresh-zero m b (m (next_offset b)) ys tail) v.distinct)

  relinked_list : Linked m' 0 (start_past xs rest s.free_list_head) (xs ++ rest ∷ ys)
  relinked_list =
      let (to_next, to_prev) =
        Split.relinked_new s b required at.0 block req_at req_large rest_large pv_at nx_at pv_off
          nx_off in
      replace-Linked m m' rest 0 s.free_list_head b xs ys v.linked
        (fore 0 s.free_list_head xs v.linked v.distinct before pv-eq) (omega (arith, at.1))
        (omega (arith, at.0, req_at)) (to_prev ∙ pv-eq)
        (subst (λ c. Linked m' rest c ys) (sym to_next)
          (aft-Linked m m' rest b (m (next_offset b)) ys tail
            (aft ys tail Fresh-pv (Distinct-behind b xs ys v.distinct) behind)))

  pub split_block-IsFreeList :
      IsFreeList (split_block s b required) (xs ++ rest ∷ ys)
      × HasBlock (split_block s b required).memory b required false
      × HasBlock (split_block s b required).memory rest (size - required) true
  split_block-IsFreeList =
      let same =
        Split.split_block-memory s b required at.0 block req_at req_large rest_large pv_at nx_at
          pv_off nx_off in
      let head =
        Split.split_block-head s b required at.0 block req_at req_large rest_large pv_at nx_at
          pv_off nx_off
        ∙ head_past m s.free_list_head b (m (prev_offset b)) rest xs ys v.linked pv-eq in
      let (used, free) =
        Split.relinked-HasBlock s b required at.0 block req_at req_large rest_large pv_at nx_at
          pv_off nx_off in
      (
        record {
          linked =
              subst₂ (λ (n : Memory) (c : ℕ). Linked n 0 c (xs ++ rest ∷ ys)) (sym same) (sym head)
                relinked_list;
          distinct =
              Distinct-replaced b rest xs ys
                (Off-Fresh b size rest xs (omega arith) (omega (arith, rest_large)) before)
                (Off-Fresh b size rest ys (omega arith) (omega (arith, rest_large)) behind)
                v.distinct;
        },
        subst (λ (n : Memory). HasBlock n b required false) (sym same) used,
        subst (λ (n : Memory). HasBlock n rest (size - required) true) (sym same) free,
      )
