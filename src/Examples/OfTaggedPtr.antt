-- ===== src/Examples/OfTaggedPtr.antt =====
-- include/core/TaggedPtr.hpp at a dirty pointer of level 5 whose access counter is full.
use hyperion_euntime_environ.Base.{◌%◌, ◌^◌, ◌≡◌, false, arith}
use hyperion_euntime_environ.TaggedPtr.{
  TaggedPtr, set_dirty, set_quantization_level, set_access_count,
}
use hyperion_euntime_environ.TaggedPtr.Laws.{view, IsWord, view-setters}

abbrev full : TaggedPtr
full = record { value = 0xDFFF_0000_1234_5678 }

view-setters_example :
    (IsWord (set_dirty full false)
      × (view (set_dirty full false) ≡ record (view full) { dirty = false }))
    × (IsWord (set_quantization_level full 9)
        × (view (set_quantization_level full 9) ≡ record (view full) { quant = 9 % 2 ^ 3 }))
    × (IsWord (set_access_count full 7)
        × (view (set_access_count full 7) ≡ record (view full) { access = 7 % 2 ^ 12 }))
view-setters_example = view-setters full false 9 7 (omega arith)
