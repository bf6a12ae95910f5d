-- ===== src/TaggedPtr/Laws.antt =====
-- The operations of include/core/TaggedPtr.hpp by what the getters show.
use hyperion_euntime_environ.Base.{
  ℕ, ◌+◌, ◌%◌, ◌^◌, ◌<◌, ◌≡◌, sym, ap, subst, ◌∙◌, Bool, true, false, arith, min, ◌==◌,
}
use hyperion_euntime_environ.Base.Bits.{bit_and_mask}
use hyperion_euntime_environ.TaggedPtr.{
  TaggedPtr, from_ptr, get, is_dirty, set_dirty, get_quantization_level, set_quantization_level,
  get_access_count, set_access_count, increment_access,
}
use hyperion_euntime_environ.TaggedPtr.Fields.{
  Fields, Fit, pack, fields, fields-Fit, get-pack, is_dirty-pack, get_quantization_level-pack,
  get_access_count-pack, set_dirty-pack, set_quantization_level-pack, set_access_count-pack,
  increment_access-pack,
}

-- All that the getters show of a pointer.
pub record View : Type 0 where
  pub addr : ℕ
  pub dirty : Bool
  pub quant : ℕ
  pub access : ℕ

abbrev pub view : TaggedPtr → View
view p = record {
  addr = get p;
  dirty = is_dirty p;
  quant = get_quantization_level p;
  access = get_access_count p;
}

-- The pattern lies in 64 bits.
abbrev pub IsWord : TaggedPtr → Type 0
IsWord p = p.value < 2 ^ 64

view-pack :
    (f : Fields)
    → Fit f
    → view (pack f)
      ≡ record { addr = f.addr; dirty = f.dirty == 1; quant = f.quant; access = f.access }
view-pack f ff = ground (
  arith,
  get-pack f ff,
  is_dirty-pack f ff,
  get_quantization_level-pack f ff,
  get_access_count-pack f ff,
)

-- A statement about every packed word is one about every word.
by_fields :
    (P : TaggedPtr → Type 0) (p : TaggedPtr) → ((f : Fields) → Fit f → P (pack f)) → IsWord p → P p
by_fields P p h w =
    let (e, fit) = fields-Fit p.value w in
    subst (λ (v : ℕ). P (record { value = v })) e (h (fields p.value) fit)

-- The constructor drops everything above bit 47: the address is the pointer's low 48 bits, and the
-- metadata starts at clean, level 0 and count 0.
view-from_ptr :
    (raw : ℕ)
    → view (from_ptr raw) ≡ record { addr = raw % 2 ^ 48; dirty = false; quant = 0; access = 0 }
unfolding from_ptr
view-from_ptr raw =
    ap (λ (v : ℕ). view (record { value = v })) (bit_and_mask 48 raw ∙ omega arith)
    ∙ view-pack (record { dirty = 0; quant = 0; access = 0; addr = raw % 2 ^ 48 }) (omega arith)

-- A word that packs fitting fields shows just those.
packed :
    (q : TaggedPtr) (g : Fields)
    → q ≡ pack g
    → Fit g
    → IsWord q
      × (view q
          ≡ record { addr = g.addr; dirty = g.dirty == 1; quant = g.quant; access = g.access })
packed q g e fit =
    subst
      (λ r.
        IsWord r
        × (view r
            ≡ record { addr = g.addr; dirty = g.dirty == 1; quant = g.quant; access = g.access }))
      (sym e) (omega (arith, fit), view-pack g fit)

module _ (f : Fields) (ff : Fit f) where
  dirty_packed :
      (b : Bool)
      → IsWord (set_dirty (pack f) b)
        × (view (set_dirty (pack f) b) ≡ record (view (pack f)) { dirty = b })
  dirty_packed true = ground (
    arith,
    view-pack f ff,
    packed (set_dirty (pack f) true) (record f { dirty = 1 }) (set_dirty-pack f ff true)
        (omega (arith, ff)),
  )
  dirty_packed false = ground (
    arith,
    view-pack f ff,
    packed (set_dirty (pack f) false) (record f { dirty = 0 }) (set_dirty-pack f ff false)
        (omega (arith, ff)),
  )

  quant_packed :
      (level : ℕ)
      → IsWord (set_quantization_level (pack f) level)
        × (view (set_quantization_level (pack f) level)
            ≡ record (view (pack f)) { quant = level % 2 ^ 3 })
  quant_packed level = ground (
    arith,
    view-pack f ff,
    packed (set_quantization_level (pack f) level) (record f { quant = level % 2 ^ 3 })
        (set_quantization_level-pack f ff level) (omega (arith, ff)),
  )

  access_packed :
      (count : ℕ)
      → IsWord (set_access_count (pack f) count)
        × (view (set_access_count (pack f) count)
            ≡ record (view (pack f)) { access = count % 2 ^ 12 })
  access_packed count = ground (
    arith,
    view-pack f ff,
    packed (set_access_count (pack f) count) (record f { access = count % 2 ^ 12 })
        (set_access_count-pack f ff count) (omega (arith, ff)),
  )

  increment_packed :
      IsWord (increment_access (pack f))
      × (view (increment_access (pack f))
          ≡ record (view (pack f)) { access = min (get_access_count (pack f) + 1) 0xFFF })
  increment_packed = ground (
    arith,
    view-pack f ff,
    packed (increment_access (pack f)) (record f { access = min (f.access + 1) 0xFFF })
        (increment_access-pack f ff) (omega (arith, ff)),
  )

-- On a 64-bit word each setter keeps the word in 64 bits and changes what its own getter shows, to
-- the given dirty bit, the low 3 bits of the level and the low 12 bits of the count; the address
-- and the other metadata stay.
pub view-setters :
    (p : TaggedPtr) (b : Bool) (level count : ℕ)
    → IsWord p
    → (IsWord (set_dirty p b) × (view (set_dirty p b) ≡ record (view p) { dirty = b }))
      × (IsWord (set_quantization_level p level)
          × (view (set_quantization_level p level) ≡ record (view p) { quant = level % 2 ^ 3 }))
      × (IsWord (set_access_count p count)
          × (view (set_access_count p count) ≡ record (view p) { access = count % 2 ^ 12 }))
view-setters p b level count w = (
  by_fields (λ q. IsWord (set_dirty q b) × (view (set_dirty q b) ≡ record (view q) { dirty = b })) p
      (λ f ff. dirty_packed f ff b) w,
  by_fields
      (λ q.
        IsWord (set_quantization_level q level)
        × (view (set_quantization_level q level) ≡ record (view q) { quant = level % 2 ^ 3 }))
      p (λ f ff. quant_packed f ff level) w,
  by_fields
      (λ q.
        IsWord (set_access_count q count)
        × (view (set_access_count q count) ≡ record (view q) { access = count % 2 ^ 12 }))
      p (λ f ff. access_packed f ff count) w,
)

-- On a 64-bit word `increment_access` counts up to 4095 and stays there; the address, the dirty bit
-- and the level stay.
pub view-increment_access :
    (p : TaggedPtr)
    → IsWord p
    → IsWord (increment_access p)
      × (view (increment_access p)
          ≡ record (view p) { access = min (get_access_count p + 1) 0xFFF })
view-increment_access p w =
    by_fields
      (λ q.
        IsWord (increment_access q)
        × (view (increment_access q)
            ≡ record (view q) { access = min (get_access_count q + 1) 0xFFF }))
      p increment_packed w
