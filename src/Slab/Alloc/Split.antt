-- ===== src/Slab/Alloc/Split.antt =====
-- `Allocate` splits a block: its front is used, and the rest takes its place in the free list.
use hyperion_euntime_environ.Base.{
  ℕ, ◌+◌, ◌-◌, ◌%◌, ◌≤◌, ◌≡◌, ◌≢◌, ◌⊎◌, refl, ap, true, false, sym, ◌∙◌, arith, ◌==◌, if◌then◌else◌,
  ℕ_discrete,
}
use hyperion_euntime_environ.Slab.{
  Slab, Memory, write, add64, next_offset, prev_offset, footer_size,
}
use hyperion_euntime_environ.Slab.Header.{
  get_size, is_free, encode, update_footer, footer_offset, header_fields,
}
use hyperion_euntime_environ.Slab.FreeList.{link_forward, link_back}
use hyperion_euntime_environ.Slab.Alloc.{split_block}
use hyperion_euntime_environ.Slab.Alloc.Heap.{IsBlock, HasBlock}

module _ (s : Slab) (b required : ℕ) (b_at : b % 64 ≡ 0) (block : IsBlock s.memory b)
    (req_at : required % 64 ≡ 0) (req_large : 128 ≤ required)
    (rest_large : required + 136 ≤ get_size (s.memory b))
    (pv_at : s.memory (prev_offset b) % 64 ≡ 0) (nx_at : s.memory (next_offset b) % 64 ≡ 0)
    (pv_off : (s.memory (prev_offset b) ≡ 0)
      ⊎ ((b + get_size (s.memory b) ≤ s.memory (prev_offset b))
          ⊎ (s.memory (prev_offset b) + 80 ≤ b)))
    (nx_off : (s.memory (next_offset b) ≡ 0) ⊎ (s.memory (next_offset b) ≢ b + required)) where
  abbrev size : ℕ
  size = get_size (s.memory b)

  abbrev pv : ℕ
  pv = s.memory (prev_offset b)

  abbrev nx : ℕ
  nx = s.memory (next_offset b)

  -- The block behind the front.
  abbrev rest : ℕ
  rest = b + required

  abbrev used : ℕ
  used = encode required false

  abbrev free : ℕ
  free = encode (size - required) true

  used_is : (get_size used ≡ required) × (is_free used ≡ false)
  used_is =
      let h = header_fields required 0 false true (omega (arith, block.inside)) (omega arith) in
      (h.0 ∙ omega arith, h.1)

  free_is : (get_size free ≡ size - required) × (is_free free ≡ true)
  free_is =
      let h =
        header_fields (size - required) 0 true true (omega (arith, block.inside)) (omega arith) in
      (h.0 ∙ omega (arith, block.sized), h.1)

  abbrev front : Memory
  front = update_footer (write s.memory b used) b

  front-eq :
      (a : ℕ)
      → front a
        ≡ (if a == b + required - footer_size then used else if a == b then used else s.memory a)
  unfolding update_footer footer_offset write
  front-eq a = ground (arith, used_is.0)

  abbrev both : Memory
  both = update_footer (write front rest free) rest

  both-eq :
      (a : ℕ)
      → both a ≡ (if a == b + size - footer_size then free else if a == rest then free else front a)
  unfolding update_footer footer_offset write
  both-eq a = ground (arith, free_is.0)

  -- The new node's links are those of the old one.
  abbrev linked : Memory
  linked = write (write both (prev_offset rest) pv) (next_offset rest) nx

  -- And its neighbours lead to it.
  abbrev pub relinked : Memory
  relinked =
      let m1 = if pv == 0 then linked else write linked (next_offset pv) rest in
      if nx == 0 then m1 else write m1 (prev_offset nx) rest

  both_prev : both (prev_offset b) ≡ pv
  both_prev =
      both-eq (prev_offset b)
      ∙ ground (arith, front-eq (prev_offset b), b_at, req_at, block.sized, block.inside)

  both_next : both (next_offset b) ≡ nx
  both_next =
      both-eq (next_offset b)
      ∙ ground (arith, front-eq (next_offset b), b_at, req_at, block.sized, block.inside)

  -- The end of `split_block`, by the offset of the new block.
  abbrev finished : ℕ → Slab
  finished n =
      let m2 = update_footer (write front n free) n in
      let m3 = write m2 (prev_offset n) (m2 (prev_offset b)) in
      let m4 = write m3 (next_offset n) (m3 (next_offset b)) in
      let s1 = link_forward (record s { memory = m4 }) (m4 (prev_offset n)) n in
      link_back s1 (s1.memory (next_offset n)) n

  split-finished : split_block s b required ≡ finished (add64 b required)
  unfolding split_block
  split-finished = refl

  abbrev forward : Memory → ℕ → Slab
  forward m p = link_forward (record s { memory = m }) p rest

  prev_kept : (v : ℕ) → write both (prev_offset rest) v (next_offset b) ≡ nx
  unfolding write
  prev_kept v = ground (arith, both_next, b_at, req_at)

  linked-eq :
      write
        (write both (prev_offset rest) (both (prev_offset b)))
        (next_offset rest)
        (write both (prev_offset rest) (both (prev_offset b)) (next_offset b))
      ≡ linked
  linked-eq =
      ap
        (λ (x : ℕ).
          write (write both (prev_offset rest) (both (prev_offset b))) (next_offset rest) x)
        (prev_kept (both (prev_offset b)))
      ∙ ap (λ (x : ℕ). write (write both (prev_offset rest) x) (next_offset rest) nx) both_prev

  linked_prev : linked (prev_offset rest) ≡ pv
  unfolding write
  linked_prev = ground arith

  forward_next : (forward linked pv).memory (next_offset rest) ≡ nx
  unfolding link_forward write
  forward_next = ground (arith, pv_off, rest_large)

  finished-eq : finished rest ≡ link_back (forward linked pv) nx rest
  finished-eq =
      ap
        (λ (m : Memory).
          link_back (forward m (m (prev_offset rest)))
            ((forward m (m (prev_offset rest))).memory (next_offset rest)) rest)
        linked-eq
      ∙ ap
          (λ (p : ℕ).
            link_back (forward linked p) ((forward linked p).memory (next_offset rest)) rest)
          linked_prev
      ∙ ap (λ (x : ℕ). link_back (forward linked pv) x rest) forward_next

  split-shape : split_block s b required ≡ link_back (forward linked pv) nx rest
  split-shape =
      split-finished
      ∙ ap finished {x = add64 b required} {y = rest} (omega (arith, block.inside))
      ∙ finished-eq

  shape-memory : (link_back (forward linked pv) nx rest).memory ≡ relinked
  unfolding link_back link_forward
  shape-memory = elim (ℕ_discrete pv 0) [
    | yes z ↦ elim (ℕ_discrete nx 0) [ yes y ↦ ground arith | no y ↦ ground arith ]
    | no z ↦ elim (ℕ_discrete nx 0) [ yes y ↦ ground arith | no y ↦ ground arith ]
  ]

  shape-head :
      (link_back (forward linked pv) nx rest).free_list_head
      ≡ (if pv == 0 then rest else s.free_list_head)
  unfolding link_back link_forward
  shape-head = ground arith

  pub split_block-memory : (split_block s b required).memory ≡ relinked
  split_block-memory = ap (λ (q : Slab). q.memory) split-shape ∙ shape-memory

  pub split_block-head :
      (split_block s b required).free_list_head ≡ (if pv == 0 then rest else s.free_list_head)
  split_block-head = ap (λ (q : Slab). q.free_list_head) split-shape ∙ shape-head

  pub relinked-eq :
      (a : ℕ)
      → a % 64 ≢ 56
      → a ≢ b
      → a ≢ rest
      → a ≢ next_offset rest
      → a ≢ prev_offset rest
      → (pv ≡ 0) ⊎ (a ≢ next_offset pv)
      → (nx ≡ 0) ⊎ (a ≢ prev_offset nx)
      → relinked a ≡ s.memory a
  unfolding write
  relinked-eq a foot nb nr nn np npv nnx =
      ground (arith, both-eq a, front-eq a, npv, nnx, b_at, req_at, block.sized, block.inside)

  pub relinked_new : (relinked (next_offset rest) ≡ nx) × (relinked (prev_offset rest) ≡ pv)
  unfolding write
  relinked_new = (
    ground (arith, pv_off, rest_large, pv_at, nx_at, b_at, req_at),
    ground (arith, pv_at, nx_at, b_at, req_at, nx_off),
  )

  pub relinked_fore : pv ≢ 0 → relinked (next_offset pv) ≡ rest
  unfolding write
  relinked_fore ne = ground (arith, ne, pv_at, nx_at)

  pub relinked_aft : nx ≢ 0 → relinked (prev_offset nx) ≡ rest
  unfolding write
  relinked_aft ne = ground (arith, ne)

  pub relinked-HasBlock :
      HasBlock relinked b required false × HasBlock relinked rest (size - required) true
  unfolding write
  relinked-HasBlock =
      let at_b : relinked b ≡ used =
        ground (arith, both-eq b, front-eq b, pv_off, pv_at, nx_at, b_at, req_at, block.sized) in
      let at_foot : relinked (b + required - footer_size) ≡ used = ground (
        arith,
        both-eq (b + required - footer_size),
        front-eq (b + required - footer_size),
        pv_at,
        nx_at,
        b_at,
        req_at,
        block.sized,
      ) in
      let at_rest : relinked rest ≡ free =
        ground (arith, both-eq rest, pv_off, pv_at, nx_at, b_at, req_at, block.sized) in
      let at_end : relinked (rest + (size - required) - footer_size) ≡ free = ground (
        arith,
        both-eq (rest + (size - required) - footer_size),
        pv_at,
        nx_at,
        b_at,
        req_at,
        block.sized,
      ) in
      (
        record {
          says_size = ap get_size at_b ∙ used_is.0;
          says_free = ap is_free at_b ∙ used_is.1;
          footer = at_foot ∙ sym at_b;
        },
        record {
          says_size = ap get_size at_rest ∙ free_is.0;
          says_free = ap is_free at_rest ∙ free_is.1;
          footer = at_end ∙ sym at_rest;
        },
      )
