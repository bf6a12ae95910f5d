-- ===== src/ProcessingUnit.antt =====
-- include/core/ProcessingUnit.hpp and src/core/ProcessingUnit.cpp: the command line, the ingestion of
-- texts, one frame of `Update`, and the analysis thread's side of the queue.
pub mod CommandLine
pub mod Ingestion
pub mod Frame
use hyperion_euntime_environ.Base.{
  ℕ, ◌+◌, ◌-◌, ◌*◌, ◌%◌, ◌^◌, Bool, true, false, not, ◌&&◌, Option, none, some, List, [], ◌∷◌, ltb,
  ◌==◌, if◌then◌else◌, length,
}
use hyperion_euntime_environ.Ring.{Ring, push, pop}
use hyperion_euntime_environ.Tokenizer.{Token, Tokenizer, token_eq, is_empty}
use hyperion_euntime_environ.MemoryManager.{
  Os, Manager, Outcome, done, ◌>>=◌, nullptr, vector_count_at, touch, load, shutdown,
}

-- A text or an argument, as its bytes.
abbrev pub Text : Type 0
Text = Token

-- `ProcessingUnitConfig`
pub record Config : Type 0 where
  pub reset_db : Bool
  pub show_status : Bool
  pub debug_mode : Bool

-- "--reset" and "--status"
abbrev pub reset_flag : Text
reset_flag = 45 ∷ 45 ∷ 114 ∷ 101 ∷ 115 ∷ 101 ∷ 116 ∷ []

abbrev pub status_flag : Text
status_flag = 45 ∷ 45 ∷ 115 ∷ 116 ∷ 97 ∷ 116 ∷ 117 ∷ 115 ∷ []

abbrev pub parse_arguments : Config → List Text → Config
parse_arguments config [] = config
parse_arguments config (arg ∷ rest) =
    parse_arguments
      (if token_eq arg reset_flag
        then record config { reset_db = true }
        else if token_eq arg status_flag
        then record config { show_status = true }
        else config)
      rest

-- `ParseEngineCLI`, of the arguments behind the program's name.
unfoldable pub parse_engine_cli : List Text → Config
parse_engine_cli args =
    parse_arguments (record { reset_db = false; show_status = false; debug_mode = false }) args

-- The queue has 64 slots.
abbrev pub queue_bits : ℕ
queue_bits = 6

-- `ProcessingUnit`, with the static `ghost_offset` of `Update`. `m_processing_cooldown` is an int
-- that is set to 20 and counted down to 0.
pub record ProcessingUnit : Type 0 where
  pub config : Config
  pub tokenizer : Tokenizer
  pub running : Bool
  pub processing_cooldown : ℕ
  pub input_queue : Ring Text
  pub ghost_offset : ℕ

unfoldable pub start : ProcessingUnit → ProcessingUnit
start u = if u.config.show_status then u else record u { running = true }

-- The result of the queue's `push` is not looked at.
unfoldable pub ingest : ProcessingUnit → Text → ProcessingUnit
ingest u text =
    if is_empty text
    then u
    else record u { processing_cooldown = 20; input_queue = (push queue_bits u.input_queue text).1 }

-- One turn of `AnalysisWorker`: the document that it goes on to process, or none, when it sleeps.
unfoldable pub next_document : ProcessingUnit → Option Text × ProcessingUnit
next_document u =
    let (content_opt, queue) = pop queue_bits u.input_queue in
    if u.running then (content_opt, record u { input_queue = queue }) else (none, u)

-- `Shutdown`, with the memory manager's.
unfoldable pub stop : ProcessingUnit × Manager → ProcessingUnit × Manager
stop (u, m) = if not u.running then (u, m) else (record u { running = false }, shutdown m)

-- What a frame shows.
pub data MemoryView : Type 0 where
  active_ops idle_ops : MemoryView

pub record Shown : Type 0 where
  pub doc_count : ℕ
  pub vocabulary_size : ℕ
  pub page_faults : ℕ
  pub resident_pages : ℕ
  pub view : MemoryView

abbrev pub probe_span : ℕ
probe_span = 1024 * 1024 * 64

abbrev pub shown : ProcessingUnit → ℕ → Manager → Shown
shown u doc_count m = record {
  doc_count = doc_count;
  vocabulary_size = length u.tokenizer.vocab;
  page_faults = m.fault_count;
  resident_pages = m.resident_pages;
  view = if ltb 0 u.processing_cooldown then MemoryView.active_ops else MemoryView.idle_ops;
}

abbrev pub cool_down : ProcessingUnit → ProcessingUnit
cool_down u = record u { processing_cooldown = u.processing_cooldown - 1 }

module _ (os : Os) where
  unfoldable pub read_doc_count : Manager → Outcome (ℕ × Manager)
  read_doc_count m =
      if m.base_addr == nullptr
      then done (0, m)
      else load os m ((m.base_addr + vector_count_at) % 2 ^ 64)

  -- The random touch of the region, given what `rand` returns.
  unfoldable pub probe : ℕ → ProcessingUnit → Manager → Outcome (ProcessingUnit × Manager)
  probe rand u m =
      let moved = record u { ghost_offset = (u.ghost_offset + 4096) % probe_span } in
      if (rand % 10 == 0) && not (m.base_addr == nullptr)
      then touch os m ((m.base_addr + u.ghost_offset) % 2 ^ 64) >>= (λ m'. done (moved, m'))
      else done (u, m)

  -- `Update`
  unfoldable pub update :
      ℕ → ProcessingUnit → Manager → Outcome (Option Shown × ProcessingUnit × Manager)
  unfolding read_doc_count probe
  update rand u m = if not u.running then done (none, u, m) else do
    (doc_count, m1) ← read_doc_count m
    (u2, m2) ← probe rand u m1
    done (some (shown u doc_count m1), cool_down u2, m2)
