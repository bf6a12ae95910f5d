-- ===== src/Examples/OfProcessingUnit.antt =====
-- src/core/ProcessingUnit.cpp with one text in the queue, on a region at 2 ^ 32.
use hyperion_euntime_environ.Base.{
  ◌+◌, ◌-◌, ◌≡◌, refl, true, false, some, List, [], ◌∷◌, replicate, ltb, if◌then◌else◌, arith,
  length,
}
use hyperion_euntime_environ.Ring.Refine.{Holds}
use hyperion_euntime_environ.MemoryManager.{Os, Manager, done, vector_count_at}
use hyperion_euntime_environ.ProcessingUnit.{
  Text, ProcessingUnit, Shown, MemoryView, queue_bits, reset_flag, update,
}
use hyperion_euntime_environ.ProcessingUnit.Ingestion.{
  documents, ingest_all, accept, documents-ingest_all,
}
use hyperion_euntime_environ.ProcessingUnit.Frame.{Served, update-Served}

abbrev hello : Text
hello = 72 ∷ 105 ∷ []

abbrev unit : ProcessingUnit
unit = record {
  config = record { reset_db = false; show_status = false; debug_mode = false };
  tokenizer = record { stopwords = []; vocab = []; inverse_vocab = []; next_term_id = 1 };
  running = true;
  processing_cooldown = 20;
  input_queue = record { head = 0; tail = 1; buffer = hello ∷ replicate 63 [] };
  ghost_offset = 8192;
}

unit-Holds : Holds queue_bits unit.input_queue (hello ∷ [])
unit-Holds = record {
  slots = refl;
  head_in = omega arith;
  count = omega arith;
  tail_at = refl;
  items = (refl, tt);
}

abbrev texts : List Text
texts = [] ∷ reset_flag ∷ hello ∷ []

documents-ingest_all_example :
    documents (length (accept (hello ∷ []) texts)) (ingest_all unit texts)
    ≡ accept (hello ∷ []) texts
documents-ingest_all_example = documents-ingest_all unit (hello ∷ []) texts unit-Holds refl

abbrev os : Os
os = record {
  page_bits = 12;
  mmap_result = 0x1_0000_0000;
  sigbus_installs = true;
  sigsegv_installs = true;
  mprotect_succeeds = λ page. true;
}

abbrev region : Manager
region = record {
  base_addr = 0x1_0000_0000;
  running = true;
  fault_count = 1;
  resident_pages = 1;
  open_pages = 0x1_0000_0000 ∷ [];
  memory = λ a. 3;
}

update-Served_example :
    (frame : Shown) × (u' : ProcessingUnit) × (m' : Manager) × (update os 40 unit region
      ≡ done (some frame, u', m'))
    × (frame.doc_count ≡ region.memory (region.base_addr + vector_count_at))
    × (frame.view
        ≡ (if ltb 0 unit.processing_cooldown then MemoryView.active_ops else MemoryView.idle_ops))
    × (u'.processing_cooldown ≡ unit.processing_cooldown - 1)
    × Served os u' m'
    × (m'.memory ≡ region.memory)
update-Served_example =
    update-Served os unit region 40
      (record {
        mapped = omega arith;
        fits = omega arith;
        opens = λ page. refl;
        offset_inside = omega arith;
        offset_page = refl;
      })
      refl
