-- ===== src/Slab/Alloc/Overflow.antt =====
-- A request whose size wraps `Allocate`'s computation of the block size to 0.
use hyperion_euntime_environ.Base.{ℕ, ◌-◌, ◌%◌, ◌≤◌, ◌≡◌, ◌≢◌, true, false}
use hyperion_euntime_environ.Slab.{Slab, Memory, write, next_offset, prev_offset}
use hyperion_euntime_environ.Slab.Header.{get_size, encode, update_footer}
use hyperion_euntime_environ.Slab.FreeList.{link_forward, link_back}
use hyperion_euntime_environ.Slab.Alloc.Heap.{IsBlock}

module _ (s : Slab) (h : ℕ) (h_at : h % 64 ≡ 0) (h_ne : h ≢ 0) (block : IsBlock s.memory h)
    (room : 136 ≤ get_size (s.memory h)) (first : s.memory (prev_offset h) ≡ 0)
    (nx_at : s.memory (next_offset h) % 64 ≡ 0) where
  abbrev size : ℕ
  size = get_size (s.memory h)

  abbrev free : ℕ
  free = encode (size - 0) true

  -- The header of a block of no bytes, and its footer in front of the block.
  abbrev front : Memory
  front = update_footer (write s.memory h (encode 0 false)) h

  abbrev both : Memory
  both = update_footer (write front h free) h

  abbrev finished : ℕ → Slab
  finished n =
      let m2 = update_footer (write front n free) n in
      let m3 = write m2 (prev_offset n) (m2 (prev_offset h)) in
      let m4 = write m3 (next_offset n) (m3 (next_offset h)) in
      let s1 = link_forward (record s { memory = m4 }) (m4 (prev_offset n)) n in
      link_back s1 (s1.memory (next_offset n)) n

  abbrev kept : Memory
  kept =
      let m3 = write both (prev_offset h) (both (prev_offset h)) in
      write m3 (next_offset h) (m3 (next_offset h))

  abbrev headed : ℕ → Slab
  headed p = link_forward (record s { memory = kept }) p h
