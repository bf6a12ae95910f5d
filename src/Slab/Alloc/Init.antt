-- ===== src/Slab/Alloc/Init.antt =====
-- `Init` of include/memory/SlabAllocator.hpp, by the region that it is given.
use hyperion_euntime_environ.Base.{
  ℕ, suc, ◌+◌, ◌-◌, ◌*◌, ◌/◌, ◌%◌, ◌^◌, ◌<◌, ◌≤◌, ◌≡◌, refl, sym, ◌∙◌, ◌≢◌, true, some, [], ◌∷◌,
  arith,
}
use hyperion_euntime_environ.Slab.{
  Slab, Memory, write, add64, sub64, footer_size, next_offset, prev_offset,
}
use hyperion_euntime_environ.Slab.Header.{get_size, is_free, encode, header_fields, update_footer}
use hyperion_euntime_environ.Slab.Alloc.{round_up, init, construct, first_fit, allocate}
use hyperion_euntime_environ.Slab.Alloc.Request.{round_up-eq}
use hyperion_euntime_environ.Slab.FreeList.Links.{IsFreeList}

-- From the base to the next multiple of 64.
abbrev pub adjustment : ℕ → ℕ
adjustment base = (base + 63) / 64 * 64 - base

adjustment-eq : (base : ℕ) → base < 2 ^ 63 → sub64 (round_up base) base ≡ adjustment base
adjustment-eq base h = omega (arith, round_up-eq base (omega arith))

-- A well-placed region: its first aligned offset is a multiple of 64 other than 0, and from there it
-- holds a multiple of 64 of at least 128 bytes.
pub record Region (s : Slab) : Type 0 where
  pub base_small : s.base < 2 ^ 63
  pub offset_small : s.base_offset + s.total_size + 64 < 2 ^ 63
  pub start_at : (s.base_offset + adjustment s.base) % 64 ≡ 0
  pub start_ne : s.base_offset + adjustment s.base ≢ 0
  pub room : adjustment s.base + 128 ≤ s.total_size
  pub size_at : (s.total_size - adjustment s.base) % 64 ≡ 0

abbrev pub heap_start : Slab → ℕ
heap_start s = s.base_offset + adjustment s.base

abbrev pub heap_size : Slab → ℕ
heap_size s = s.total_size - adjustment s.base

module _ (s : Slab) (r : Region s) where
  start_eq : add64 s.base_offset (adjustment s.base) ≡ heap_start s
  start_eq = omega (arith, r.offset_small, r.room)

  size_eq : sub64 s.total_size (adjustment s.base) ≡ heap_size s
  size_eq = omega (arith, r.offset_small, r.room)

  fresh_memory : Memory
  fresh_memory =
      write
        (write
          (update_footer (write s.memory (heap_start s) (encode (heap_size s) true)) (heap_start s))
          (next_offset (heap_start s)) 0)
        (prev_offset (heap_start s)) 0

  init-eq : init s ≡ record s {
    memory = fresh_memory;
    free_list_head = heap_start s;
    first_block = heap_start s;
  }
  unfolding init fresh_memory
  init-eq = ground (
    arith,
    adjustment-eq s.base r.base_small,
    r.base_small,
    r.offset_small,
    r.room,
    start_eq,
    size_eq,
  )

  encoded :
      (get_size (encode (heap_size s) true) ≡ heap_size s)
      × (is_free (encode (heap_size s) true) ≡ true)
  encoded =
      let h =
        header_fields (heap_size s) 0 true true (omega (arith, r.offset_small)) (omega arith) in
      (h.0 ∙ omega (arith, r.size_at), h.1)

  at_header : fresh_memory (heap_start s) ≡ encode (heap_size s) true
  unfolding fresh_memory update_footer write
  at_header = ground (arith, encoded, r.room)

  at_footer : fresh_memory (heap_start s + heap_size s - footer_size) ≡ encode (heap_size s) true
  unfolding fresh_memory update_footer write
  at_footer = ground (arith, encoded, r.room)

  at_next : fresh_memory (next_offset (heap_start s)) ≡ 0
  unfolding fresh_memory write
  at_next = ground arith

  at_prev : fresh_memory (prev_offset (heap_start s)) ≡ 0
  unfolding fresh_memory write
  at_prev = ground arith

  -- On a region whose base is below 2 ^ 63 and whose start offset and size together stay 64 below 2
  -- ^ 63, whose first aligned offset is a multiple of 64 other than 0, with a multiple of 64 of at
  -- least 128 bytes from there, `Init` makes one free block of it all: the free list holds it
  -- alone, the header says its size and that it is free, and the footer equals the header.
  pub init_lem :
      IsFreeList (init s) (heap_start s ∷ [])
      × ((init s).first_block ≡ heap_start s)
      × (get_size ((init s).memory (heap_start s)) ≡ heap_size s)
      × (is_free ((init s).memory (heap_start s)) ≡ true)
      × ((init s).memory (heap_start s + heap_size s - footer_size)
          ≡ (init s).memory (heap_start s))
  init_lem = rw init-eq (
    record { linked = (refl, r.start_ne, r.start_at, at_prev, at_next); distinct = (tt, tt) },
    refl,
    rw at_header encoded.0,
    rw at_header encoded.1,
    at_footer ∙ sym at_header,
  )

zero_head :
    (m : Memory) (unset base total : ℕ)
    → base < 2 ^ 63
    → base % 64 ≡ 0
    → (construct m unset base total 0).free_list_head ≡ 0
unfolding construct
zero_head m unset base total h al = ground (arith, adjustment-eq base h)

-- With an aligned base below 2 ^ 63 and a start offset of 0, every request fails, whatever the size
-- of the region: the first block lies at offset 0, which the free list reads as its end.
pub allocate-construct_zero :
    (m : Memory) (unset base total fuel size : ℕ)
    → base < 2 ^ 63
    → base % 64 ≡ 0
    → allocate (suc fuel) (construct m unset base total 0) size
      ≡ some (0, construct m unset base total 0)
unfolding allocate first_fit
allocate-construct_zero m unset base total fuel size h al =
    ground (arith, zero_head m unset base total h al)
