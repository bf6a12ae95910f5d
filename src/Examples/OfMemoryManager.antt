-- ===== src/Examples/OfMemoryManager.antt =====
-- src/mm/MemoryManager.cpp with pages of 4 KB and the region at 2 ^ 32.
use hyperion_euntime_environ.Base.{◌+◌, ◌%◌, ◌^◌, ◌≡◌, refl, true, false, inl, [], ◌∷◌, arith}
use hyperion_euntime_environ.MemoryManager.{
  Os, Manager, Expected, done, crashed, page_of, touch, initialize, ghost_magic, header_size,
  vector_count_at, head_offset_at,
}
use hyperion_euntime_environ.MemoryManager.Fault.{touch-crashed, IsCounted, touch_all-IsCounted}
use hyperion_euntime_environ.MemoryManager.Lifecycle.{initialize_lem}

abbrev os : Os
os = record {
  page_bits = 12;
  mmap_result = 0x1_0000_0000;
  sigbus_installs = true;
  sigsegv_installs = true;
  mprotect_succeeds = λ page. true;
}

abbrev idle : Manager
idle = record {
  base_addr = 0;
  running = false;
  fault_count = 0;
  resident_pages = 0;
  open_pages = [];
  memory = λ a. 0;
}

abbrev running : Manager
running = record (idle) { base_addr = 0x1_0000_0000; running = true }

initialize_lem_example :
    (t : Manager) × (initialize os idle ≡ done (Expected.ok tt, t))
    × (t.running ≡ true)
    × (t.base_addr ≡ os.mmap_result)
    × (t.memory os.mmap_result ≡ ghost_magic)
    × (t.memory (os.mmap_result + vector_count_at) ≡ 0)
    × (t.memory (os.mmap_result + head_offset_at) ≡ header_size)
    × (t.open_pages ≡ os.mmap_result ∷ [])
    × (t.fault_count ≡ (idle.fault_count + 1) % 2 ^ 64)
    × (initialize os t ≡ done (Expected.ok tt, t))
initialize_lem_example =
    initialize_lem os
      (record {
        page_small = omega arith;
        page_large = omega arith;
        placed = omega arith;
        fits = omega arith;
        page_start = refl;
        opens = λ page. refl;
        installs = (refl, refl);
      })
      idle refl

touch-crashed_example : touch os running 4096 ≡ crashed
touch-crashed_example = touch-crashed os running 4096 refl (omega arith) (inl (omega arith))

-- Two addresses in one page and one in another.
abbrev used : Manager
used = record (running) {
  fault_count = 2;
  resident_pages = 2;
  open_pages = 0x1_0000_3000 ∷ 0x1_0000_2000 ∷ [];
}

touch_all-IsCounted_example : IsCounted used
unfolding touch page_of
touch_all-IsCounted_example =
    touch_all-IsCounted os (0x1_0000_2345 ∷ 0x1_0000_2000 ∷ 0x1_0000_3FFF ∷ []) running used
      (record { faults = refl; resident = refl; distinct = tt }) refl
