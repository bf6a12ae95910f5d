-- ===== src/TaggedPtr/Fields.antt =====
-- The operations of `TaggedPtr` as updates of the four fields that a word packs.
use hyperion_euntime_environ.Base.{
  ℕ, ◌+◌, ◌-◌, ◌*◌, ◌/◌, ◌%◌, ◌^◌, ◌<◌, ◌≡◌, refl, zero, suc, ◌==◌, ap, ◌∙◌, bit_and, bit_or, Bool,
  true, false, arith, min, if◌then◌else◌,
}
use hyperion_euntime_environ.Base.Bits.{
  bit_and-cut, bit_or-cut, bit_and_mask, bit_and_ones, bit_and-zero, bit_or-zero, zero-bit_or,
}
use hyperion_euntime_environ.TaggedPtr.{
  TaggedPtr, dirty_bit_mask, quant_mask, access_mask, complement, get, is_dirty, set_dirty,
  get_quantization_level, set_quantization_level, get_access_count, set_access_count,
  increment_access,
}

-- The four fields of the layout: bit 63, bits 62 to 60, bits 59 to 48 and bits 47 to 0.
pub record Fields : Type 0 where
  pub dirty : ℕ
  pub quant : ℕ
  pub access : ℕ
  pub addr : ℕ

abbrev pub word : Fields → ℕ
word f = ((f.dirty * 2 ^ 3 + f.quant) * 2 ^ 12 + f.access) * 2 ^ 48 + f.addr

abbrev pub pack : Fields → TaggedPtr
pack f = record { value = word f }

pub record Fit (f : Fields) : Type 0 where
  pub dirty_fits : f.dirty < 2 ^ 1
  pub quant_fits : f.quant < 2 ^ 3
  pub access_fits : f.access < 2 ^ 12
  pub addr_fits : f.addr < 2 ^ 48

-- A mask or a word of four fields acts field by field.
module _ (f g : Fields) (ff : Fit f) (fg : Fit g) where
  bit_and-word :
      bit_and (word f) (word g)
      ≡ word (record {
        dirty = bit_and f.dirty g.dirty;
        quant = bit_and f.quant g.quant;
        access = bit_and f.access g.access;
        addr = bit_and f.addr g.addr;
      })
  bit_and-word = ground (
    arith,
    bit_and-cut 48 ((f.dirty * 2 ^ 3 + f.quant) * 2 ^ 12 + f.access) f.addr
        ((g.dirty * 2 ^ 3 + g.quant) * 2 ^ 12 + g.access) g.addr,
    bit_and-cut 12 (f.dirty * 2 ^ 3 + f.quant) f.access (g.dirty * 2 ^ 3 + g.quant) g.access,
    bit_and-cut 3 f.dirty f.quant g.dirty g.quant,
  )

  bit_or-word :
      bit_or (word f) (word g)
      ≡ word (record {
        dirty = bit_or f.dirty g.dirty;
        quant = bit_or f.quant g.quant;
        access = bit_or f.access g.access;
        addr = bit_or f.addr g.addr;
      })
  bit_or-word = ground (
    arith,
    bit_or-cut 48 ((f.dirty * 2 ^ 3 + f.quant) * 2 ^ 12 + f.access) f.addr
        ((g.dirty * 2 ^ 3 + g.quant) * 2 ^ 12 + g.access) g.addr,
    bit_or-cut 12 (f.dirty * 2 ^ 3 + f.quant) f.access (g.dirty * 2 ^ 3 + g.quant) g.access,
    bit_or-cut 3 f.dirty f.quant g.dirty g.quant,
  )

abbrev mask : ℕ → ℕ → ℕ → ℕ → Fields
mask d q a p = record { dirty = d; quant = q; access = a; addr = p }

or_one : (d : ℕ) → d < 2 → bit_or d 1 ≡ 1
or_one zero h = refl
or_one (suc zero) h = refl
or_one (suc (suc d)) h = absurd (omega arith)

-- Keeping a field keeps it, and clearing it leaves zero.
module _ (f : Fields) (ff : Fit f) where
  dirty_ones : bit_and f.dirty 1 ≡ f.dirty
  dirty_ones = bit_and_ones 1 f.dirty ff.dirty_fits

  quant_ones : bit_and f.quant 7 ≡ f.quant
  quant_ones = bit_and_ones 3 f.quant ff.quant_fits

  access_ones : bit_and f.access 0xFFF ≡ f.access
  access_ones = bit_and_ones 12 f.access ff.access_fits

  addr_ones : bit_and f.addr (2 ^ 48 - 1) ≡ f.addr
  addr_ones = bit_and_ones 48 f.addr ff.addr_fits

  pub get-pack : get (pack f) ≡ f.addr
  unfolding get
  get-pack = ground (
    arith,
    bit_and-word f (mask 0 0 0 (2 ^ 48 - 1)) ff (omega arith),
    bit_and-zero f.dirty,
    bit_and-zero f.quant,
    bit_and-zero f.access,
    addr_ones,
  )

  pub get_quantization_level-pack : get_quantization_level (pack f) ≡ f.quant
  unfolding get_quantization_level
  get_quantization_level-pack = ground (
    arith,
    bit_and-word f (mask 0 7 0 0) ff (omega arith),
    bit_and-zero f.dirty,
    quant_ones,
    bit_and-zero f.access,
    bit_and-zero f.addr,
    ff.quant_fits,
  )

  pub get_access_count-pack : get_access_count (pack f) ≡ f.access
  unfolding get_access_count
  get_access_count-pack = ground (
    arith,
    bit_and-word f (mask 0 0 0xFFF 0) ff (omega arith),
    bit_and-zero f.dirty,
    bit_and-zero f.quant,
    access_ones,
    bit_and-zero f.addr,
    ff.access_fits,
  )

  pub is_dirty-pack : is_dirty (pack f) ≡ (f.dirty == 1)
  unfolding is_dirty
  is_dirty-pack = ground (
    arith,
    bit_and-word f (mask 1 0 0 0) ff (omega arith),
    dirty_ones,
    bit_and-zero f.quant,
    bit_and-zero f.access,
    bit_and-zero f.addr,
    ff.dirty_fits,
  )

  -- A field cleared by a mask of ones elsewhere.
  without_dirty : bit_and (word f) (complement dirty_bit_mask) ≡ word (record f { dirty = 0 })
  without_dirty =
      bit_and-word f (mask 0 7 0xFFF (2 ^ 48 - 1)) ff (omega arith)
      ∙ ground (arith, bit_and-zero f.dirty, quant_ones, access_ones, addr_ones)

  without_quant : bit_and (word f) (complement quant_mask) ≡ word (record f { quant = 0 })
  without_quant =
      bit_and-word f (mask 1 0 0xFFF (2 ^ 48 - 1)) ff (omega arith)
      ∙ ground (arith, dirty_ones, bit_and-zero f.quant, access_ones, addr_ones)

  without_access : bit_and (word f) (complement access_mask) ≡ word (record f { access = 0 })
  without_access =
      bit_and-word f (mask 1 7 0 (2 ^ 48 - 1)) ff (omega arith)
      ∙ ground (arith, dirty_ones, quant_ones, bit_and-zero f.access, addr_ones)

  pub set_dirty-pack :
      (b : Bool) → set_dirty (pack f) b ≡ pack (record f { dirty = if b then 1 else 0 })
  unfolding set_dirty
  set_dirty-pack true =
      ap (λ (v : ℕ). record { value = v })
        (bit_or-word f (mask 1 0 0 0) ff (omega arith)
          ∙ ground (
            arith,
            or_one f.dirty ff.dirty_fits,
            bit_or-zero f.quant,
            bit_or-zero f.access,
            bit_or-zero f.addr,
          ))
  set_dirty-pack false = ap (λ (v : ℕ). record { value = v }) without_dirty

  pub set_quantization_level-pack :
      (level : ℕ)
      → set_quantization_level (pack f) level ≡ pack (record f { quant = level % 2 ^ 3 })
  unfolding set_quantization_level
  set_quantization_level-pack level = ground (
    arith,
    without_quant,
    bit_and_mask 3 level,
    bit_or-word (record f { quant = 0 }) (mask 0 (level % 2 ^ 3) 0 0) (omega (arith, ff))
        (omega arith),
    bit_or-zero f.dirty,
    zero-bit_or (level % 2 ^ 3),
    bit_or-zero f.access,
    bit_or-zero f.addr,
  )

  pub set_access_count-pack :
      (count : ℕ) → set_access_count (pack f) count ≡ pack (record f { access = count % 2 ^ 12 })
  unfolding set_access_count
  set_access_count-pack count = ground (
    arith,
    without_access,
    bit_and_mask 12 count,
    bit_or-word (record f { access = 0 }) (mask 0 0 (count % 2 ^ 12) 0) (omega (arith, ff))
        (omega arith),
    bit_or-zero f.dirty,
    bit_or-zero f.quant,
    zero-bit_or (count % 2 ^ 12),
    bit_or-zero f.addr,
  )

  pub increment_access-pack :
      increment_access (pack f) ≡ pack (record f { access = min (f.access + 1) 0xFFF })
  unfolding increment_access
  increment_access-pack = ground (
    arith,
    get_access_count-pack,
    set_access_count-pack ((f.access + 1) % 2 ^ 16),
    ff.access_fits,
  )

-- Every word of 64 bits packs some fields.
pub fields : ℕ → Fields
fields w = record {
  dirty = w / 2 ^ 63;
  quant = w / 2 ^ 60 % 2 ^ 3;
  access = w / 2 ^ 48 % 2 ^ 12;
  addr = w % 2 ^ 48;
}

pub fields-Fit : (w : ℕ) → w < 2 ^ 64 → (word (fields w) ≡ w) × Fit (fields w)
unfolding fields
fields-Fit w h = omega arith
