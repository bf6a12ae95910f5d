-- ===== src/Slab/FreeList/Removal.antt =====
-- `RemoveFromFreeList` of include/memory/SlabAllocator.hpp against the list of offsets.
use hyperion_euntime_environ.Base.{
  ap, ℕ, ◌%◌, ◌≡◌, refl, sym, ◌∙◌, subst₂, ◌≢◌, List, [], ◌∷◌, ◌++◌, arith, ◌==◌, if◌then◌else◌,
}
use hyperion_euntime_environ.Slab.{Slab, Memory, write, next_offset, prev_offset}
use hyperion_euntime_environ.Slab.FreeList.{link_forward, remove_from_free_list}
use hyperion_euntime_environ.Slab.FreeList.Links.{Linked, Fresh, Distinct, IsFreeList, Fresh-zero}
use hyperion_euntime_environ.Slab.FreeList.Bypass.{
  bypass, last, start_past, prev-eq-last, last-aligned, next-aligned, last-Fresh, Distinct-past,
  bypass-Linked,
}

Fresh-at : (x b : ℕ) (xs ys : List ℕ) → Fresh x (xs ++ b ∷ ys) → x ≢ b
Fresh-at x b [] ys f e = f.0 (sym e)
Fresh-at x b (y ∷ xs) ys f e = Fresh-at x b xs ys f.1 e

pub last-ne : (p b : ℕ) (xs ys : List ℕ) → p ≢ b → Distinct (xs ++ b ∷ ys) → last p xs ≢ b
last-ne p b [] ys ne d = ne
last-ne p b (x ∷ xs) ys ne d = last-ne x b xs ys (Fresh-at x b xs ys d.0) d.1

pub node_aligned :
    (m : Memory) (p c b : ℕ) (xs ys : List ℕ) → Linked m p c (xs ++ b ∷ ys) → (b % 64 ≡ 0) × (b ≢ 0)
node_aligned m p c b [] ys l = (l.2, l.1)
node_aligned m p c b (x ∷ xs) ys l = node_aligned m x (m (next_offset x)) b xs ys l.4

pub head_past :
    (m : Memory) (c b pv nx : ℕ) (xs ys : List ℕ)
    → Linked m 0 c (xs ++ b ∷ ys)
    → pv ≡ last 0 xs
    → (if pv == 0 then nx else c) ≡ start_past xs nx c
head_past m c b pv nx [] ys l e = rw e
head_past m c b pv nx (x ∷ xs) ys l e =
    ground (arith, e, last-Fresh 0 x b xs ys (Fresh-zero m 0 c ((x ∷ xs) ++ b ∷ ys) l))

-- The reads between the two writes see what stood there before.
module _ (s : Slab) (b : ℕ) (b_at : b % 64 ≡ 0) (pv_at : s.memory (prev_offset b) % 64 ≡ 0)
    (ne : s.memory (prev_offset b) ≢ b) where
  abbrev pv : ℕ
  pv = s.memory (prev_offset b)

  abbrev nx : ℕ
  nx = s.memory (next_offset b)

  forward : Slab
  forward = link_forward s pv nx

  forward-next : forward.memory (next_offset b) ≡ nx
  unfolding forward link_forward write
  forward-next = ground arith

  forward-prev : forward.memory (prev_offset b) ≡ pv
  unfolding forward link_forward write
  forward-prev = ground arith

  remove-memory : (remove_from_free_list s b).memory ≡ bypass s.memory pv nx
  unfolding remove_from_free_list forward
  remove-memory = rw (forward-next, forward-prev) (ground arith)

  remove-head :
      (remove_from_free_list s b).free_list_head ≡ (if pv == 0 then nx else s.free_list_head)
  unfolding remove_from_free_list forward
  remove-head = ground arith

-- `RemoveFromFreeList` of a block of a well-formed free list takes exactly this block out, wherever
-- it stands, and leaves a well-formed list of the others in their order.
pub remove_from_free_list-IsFreeList :
    (s : Slab) (xs : List ℕ) (b : ℕ) (ys : List ℕ)
    → IsFreeList s (xs ++ b ∷ ys)
    → IsFreeList (remove_from_free_list s b) (xs ++ ys)
remove_from_free_list-IsFreeList s xs b ys v = record {
  linked =
      subst₂ (λ m c. Linked m 0 c (xs ++ ys)) (sym (remove-memory s b at.0 pa ne))
        (sym (
          remove-head s b at.0 pa ne
          ∙ head_past s.memory s.free_list_head b (s.memory (prev_offset b))
              (s.memory (next_offset b)) xs ys v.linked ep))
        (bypass-Linked s.memory 0 s.free_list_head b (s.memory (prev_offset b))
          (s.memory (next_offset b)) xs ys pa
          (next-aligned s.memory 0 s.free_list_head b xs ys v.linked)
          (Fresh-zero s.memory 0 s.free_list_head (xs ++ b ∷ ys) v.linked) v.linked v.distinct ep
          refl);
  distinct = Distinct-past b xs ys v.distinct;
}
  where
    at : (b % 64 ≡ 0) × (b ≢ 0)
    at = node_aligned s.memory 0 s.free_list_head b xs ys v.linked

    ep : s.memory (prev_offset b) ≡ last 0 xs
    ep = prev-eq-last s.memory 0 s.free_list_head b xs ys v.linked

    pa : s.memory (prev_offset b) % 64 ≡ 0
    pa = rw ep (last-aligned s.memory 0 s.free_list_head b xs ys (omega arith) v.linked)

    ne : s.memory (prev_offset b) ≢ b
    ne = rw ep (last-ne 0 b xs ys (λ e. at.1 (sym e)) v.distinct)

-- The memory after the removal of a block of a well-formed list.
pub removed-memory :
    (s : Slab) (xs : List ℕ) (b : ℕ) (ys : List ℕ)
    → IsFreeList s (xs ++ b ∷ ys)
    → (remove_from_free_list s b).memory
      ≡ bypass s.memory (s.memory (prev_offset b)) (s.memory (next_offset b))
removed-memory s xs b ys v =
    let at = node_aligned s.memory 0 s.free_list_head b xs ys v.linked in
    let ep = prev-eq-last s.memory 0 s.free_list_head b xs ys v.linked in
    remove-memory s b at.0
      (ap (λ (n : ℕ). n % 64) ep
        ∙ last-aligned s.memory 0 s.free_list_head b xs ys (omega arith) v.linked)
      (λ e. last-ne 0 b xs ys (λ z. at.1 (sym z)) v.distinct (sym ep ∙ e))
