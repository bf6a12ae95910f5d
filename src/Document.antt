-- ===== src/Document.antt =====
-- src/core/ProcessingUnit.cpp: `ProcessDocument`, which turns the term counts of a text into a vector
-- of 256 signed bytes and appends it to the region, and the analysis thread's turn with it.
pub mod Bytes
pub mod Quantize
pub mod Append
pub mod Commit
use hyperion_euntime_environ.Base.{
  ℕ, zero, suc, ◌+◌, ◌-◌, ◌*◌, ◌/◌, ◌%◌, ◌^◌, Bool, true, false, Option, none, some, List, [], ◌∷◌,
  ltb, ◌==◌, if◌then◌else◌, set, get_or, replicate, ℤ, pos, negsuc, ◌-ℤ◌, ltb_ℤ, leb_ℤ,
}
use hyperion_euntime_environ.MemoryManager.{
  Os, Manager, Outcome, done, ◌>>=◌, ◌>>◌, nullptr, vector_count_at, head_offset_at, touch, load,
  store,
}
use hyperion_euntime_environ.Tokenizer.{Counts, tokenize}
use hyperion_euntime_environ.ProcessingUnit.{ProcessingUnit, Text, next_document}

-- The single-precision arithmetic of the processor, which the program only uses: a float, its
-- operations, `std::abs(x) < 1e-6`, the int that `static_cast<int>(std::round(x))` gives, and the four
-- bytes of a float.
pub record Arithmetic : Type 1 where
  pub Float : Type 0
  pub of_ℕ : ℕ → Float
  pub add : Float → Float → Float
  pub sub : Float → Float → Float
  pub mul : Float → Float → Float
  pub div : Float → Float → Float
  pub lt : Float → Float → Bool
  pub is_tiny : Float → Bool
  pub round_int : Float → ℤ
  pub bits : Float → ℕ

-- A byte of a 64-bit word, and the word with a byte replaced. The lowest byte is the first.
unfoldable pub byte_of : ℕ → ℕ → ℕ
byte_of word zero = word % 256
byte_of word (suc k) = byte_of (word / 256) k

unfoldable pub with_byte : ℕ → ℕ → ℕ → ℕ
with_byte word zero v = word / 256 * 256 + v
with_byte word (suc k) v = with_byte (word / 256) k v * 256 + word % 256

-- VECTOR_DIM, and `entry_size`
abbrev pub vector_dim : ℕ
vector_dim = 256

abbrev pub entry_size : ℕ
entry_size = 4 + 4 + vector_dim

-- A store of one byte, and of the bytes of a `memcpy`.
module _ (os : Os) where
  unfoldable pub store_byte : Manager → ℕ → ℕ → Outcome Manager
  store_byte m addr v =
      let word = addr - addr % 8 in
      touch os m addr >>= (λ m'. done (record m' {
        memory = λ a. if a == word then with_byte (m'.memory word) (addr % 8) v else m'.memory a;
      }))

  unfoldable pub store_bytes : Manager → ℕ → List ℕ → Outcome Manager
  store_bytes m addr [] = done m
  store_bytes m addr (v ∷ vs) = store_byte m addr v >>= (λ m'. store_bytes m' (suc addr) vs)

-- The four bytes of a float's pattern.
abbrev pub four_bytes : ℕ → List ℕ
four_bytes w = byte_of w 0 ∷ byte_of w 1 ∷ byte_of w 2 ∷ byte_of w 3 ∷ []

-- `static_cast<int8_t>` of an int in its range.
abbrev pub int8_byte : ℤ → ℕ
int8_byte (pos n) = n % 256
int8_byte (negsuc n) = 255 - n % 256

unfoldable pub clamp_int8 : ℤ → ℤ
clamp_int8 result =
    let raised = if ltb_ℤ result (negsuc 127) then negsuc 127 else result in
    if ltb_ℤ (pos 127) raised then pos 127 else raised

module _ (f : Arithmetic) where
  open f use {Float, of_ℕ, add, sub, mul, div, lt, is_tiny, round_int, bits}

  -- The term counts, added up by the bucket of their term. The counts are taken in the order of the
  -- map's iteration.
  unfoldable pub vectorize : Counts → List Float → List Float
  vectorize [] dense_vec = dense_vec
  vectorize ((term_id, count) ∷ counts) dense_vec =
      let bucket = term_id % vector_dim in
      vectorize counts (set dense_vec bucket (add (get_or dense_vec bucket (of_ℕ 0)) (of_ℕ count)))

  -- The least and the greatest of some values and those before them.
  unfoldable pub min_max : List Float → Float → Float → Float × Float
  min_max [] min_val max_val = (min_val, max_val)
  min_max (v ∷ vs) min_val max_val =
      min_max vs (if lt v min_val then v else min_val) (if lt max_val v then v else max_val)

  unfoldable pub scale_of : Float → Float → Float
  scale_of min_val max_val =
      if is_tiny (sub max_val min_val) then of_ℕ 1 else div (sub max_val min_val) (of_ℕ 255)

  -- The quantization of a value, as an int8_t.
  unfoldable pub quantize : Float → Float → Float → ℤ
  unfolding clamp_int8
  quantize min_val max_val v =
      let norm = div (sub v min_val) (sub max_val min_val) in
      let scaled = mul norm (of_ℕ 255) in clamp_int8 (round_int scaled -ℤ pos 128)

  module _ (os : Os) where
    -- The quantizing loop, from the byte at `q_dest` on.
    unfoldable pub quantize_loop : Float → Float → List Float → Manager → ℕ → Outcome Manager
    quantize_loop min_val max_val [] m q_dest = done m
    quantize_loop min_val max_val (v ∷ vs) m q_dest =
        store_byte os m q_dest (int8_byte (quantize min_val max_val v))
        >>= (λ m'. quantize_loop min_val max_val vs m' (suc q_dest))

    -- Scale, bias and vector, one behind the other.
    unfoldable pub write_entry : Float → Float → List Float → Manager → ℕ → Outcome Manager
    write_entry min_val max_val dense_vec m dest = do
      m1 ← store_bytes os m dest (four_bytes (bits (scale_of min_val max_val)))
      m2 ← store_bytes os m1 (dest + 4) (four_bytes (bits min_val))
      quantize_loop min_val max_val dense_vec m2 (dest + 4 + 4)

    -- The new offset is committed, and then the vector is counted.
    unfoldable pub update_header : Manager → Outcome Manager
    update_header m = do
      (offset, m1) ← load os m (m.base_addr + head_offset_at)
      m2 ← store os m1 (m.base_addr + head_offset_at) ((offset + entry_size) % 2 ^ 64)
      (count, m3) ← load os m2 (m.base_addr + vector_count_at)
      store os m3 (m.base_addr + vector_count_at) ((count + 1) % 2 ^ 64)

    unfoldable pub append_vector : List Float → Manager → Outcome Manager
    append_vector dense_vec m =
        let first = get_or dense_vec 0 (of_ℕ 0) in
        let (min_val, max_val) = min_max dense_vec first first in
        load os m (m.base_addr + head_offset_at)
        >>= (λ r. write_entry min_val max_val dense_vec (r.1) (m.base_addr + r.0) >>= update_header)

    abbrev pub process_counts : Counts → Manager → Outcome Manager
    process_counts [] m = done m
    process_counts (c ∷ counts) m =
        let appended = append_vector (vectorize (c ∷ counts) (replicate vector_dim (of_ℕ 0))) m in
        if m.base_addr == nullptr then done m else appended

    unfoldable pub process_document :
        Text → ProcessingUnit → Manager → Outcome (ProcessingUnit × Manager)
    process_document content u m =
        let (counts, tokenizer) = tokenize u.tokenizer content in
        process_counts counts m >>= (λ m'. done (record u { tokenizer = tokenizer }, m'))

    -- A turn of `AnalysisWorker`: a document, or a sleep.
    unfoldable pub analysis_turn : ProcessingUnit → Manager → Outcome (ProcessingUnit × Manager)
    analysis_turn u m = elim ((next_document u).0) [
      | none ↦ done ((next_document u).1, m)
      | some content ↦ process_document content (next_document u).1 m
    ]
