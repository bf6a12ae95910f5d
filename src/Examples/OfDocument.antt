-- ===== src/Examples/OfDocument.antt =====
-- src/core/ProcessingUnit.cpp over an arithmetic of whole numbers.
use hyperion_euntime_environ.Base.{
  ℕ, ◌+◌, ◌-◌, ◌*◌, ◌/◌, ◌≡◌, refl, ap, sym, ◌∙◌, true, false, ◌⊎◌, [], ◌∷◌, replicate, ltb, ◌==◌,
  arith, length, pos, negsuc, ◌-ℤ◌, ◌≤ℤ◌,
}
use hyperion_euntime_environ.MemoryManager.{Os, Manager, done}
use hyperion_euntime_environ.Tokenizer.{tokenize, is_alnum, to_lower}
use hyperion_euntime_environ.ProcessingUnit.{ProcessingUnit, Text}
use hyperion_euntime_environ.Document.{
  Arithmetic, vector_dim, entry_size, int8_byte, vectorize, quantize, process_document,
}
use hyperion_euntime_environ.Document.Quantize.{int8_of, int8_of-quantize}
use hyperion_euntime_environ.Document.Append.{entry}
use hyperion_euntime_environ.Document.Commit.{IsAppended, process_document-IsAppended}

abbrev whole : Arithmetic
whole = record {
  Float = ℕ;
  of_ℕ = λ n. n;
  add = λ x y. x + y;
  sub = λ x y. x - y;
  mul = λ x y. x * y;
  div = λ x y. x / y;
  lt = λ x y. ltb x y;
  is_tiny = λ x. x == 0;
  round_int = λ x. pos x;
  bits = λ x. x;
}

int8_of-quantize_example :
    (negsuc 127 ≤ℤ quantize whole 0 2 1)
    × (quantize whole 0 2 1 ≤ℤ pos 127)
    × (int8_of (int8_byte (quantize whole 0 2 1)) ≡ quantize whole 0 2 1)
    × ((quantize whole 0 2 1 ≡ pos ((1 - 0) / (2 - 0) * 255) -ℤ pos 128)
        ⊎ (((quantize whole 0 2 1 ≡ negsuc 127)
              × (pos ((1 - 0) / (2 - 0) * 255) -ℤ pos 128 ≤ℤ negsuc 128))
            ⊎ ((quantize whole 0 2 1 ≡ pos 127)
                × (pos 128 ≤ℤ pos ((1 - 0) / (2 - 0) * 255) -ℤ pos 128))))
int8_of-quantize_example = int8_of-quantize whole 0 2 1

abbrev os : Os
os = record {
  page_bits = 12;
  mmap_result = 0x1_0000_0000;
  sigbus_installs = true;
  sigsegv_installs = true;
  mprotect_succeeds = λ page. true;
}

abbrev hello : Text
hello = 72 ∷ 105 ∷ []

abbrev unit : ProcessingUnit
unit = record {
  config = record { reset_db = false; show_status = false; debug_mode = false };
  tokenizer = record { stopwords = []; vocab = []; inverse_vocab = []; next_term_id = 1 };
  running = true;
  processing_cooldown = 20;
  input_queue = record { head = 0; tail = 0; buffer = replicate 64 [] };
  ghost_offset = 8192;
}

abbrev region : Manager
region = record {
  base_addr = 0x1_0000_0000;
  running = true;
  fault_count = 1;
  resident_pages = 1;
  open_pages = 0x1_0000_0000 ∷ [];
  memory = λ a. 24;
}

counts_of_hello : (tokenize unit.tokenizer hello).0 ≡ (1, 1) ∷ []
unfolding tokenize is_alnum to_lower
counts_of_hello = refl

process_document-IsAppended_example :
    (m' : Manager) × (process_document whole os hello unit region
      ≡ done (record unit { tokenizer = (tokenize unit.tokenizer hello).1 }, m'))
    × (length (
          entry whole os
            (vectorize whole (tokenize unit.tokenizer hello).0 (replicate vector_dim 0)))
        ≡ entry_size)
    × IsAppended region m' (
        entry whole os (vectorize whole (tokenize unit.tokenizer hello).0 (replicate vector_dim 0)))
process_document-IsAppended_example =
    process_document-IsAppended whole os hello unit region
      (record { mapped = omega arith; fits = omega arith; aligned = refl; opens = λ page. refl })
      (λ e. omega (arith, ap length (sym counts_of_hello ∙ e))) (omega arith) (omega arith)
