-- ===== src/Program.antt =====
-- src/main.cpp: the start of the program, the two fibers that run it, and the analysis thread beside
-- them, over the parts that the other modules model.
pub mod Room
pub mod Turns
pub mod SelfTest
pub mod Boot
use Prim.Native.String
use Prim.Native.String.{String}
use hyperion_euntime_environ.Base.{
  ℕ, zero, suc, ◌+◌, ◌-◌, ◌*◌, ◌%◌, ◌^◌, Bool, true, false, not, ◌&&◌, Option, none, some, List, [],
  ◌∷◌, ◌++◌, ◌==◌, if◌then◌else◌, length, replicate,
}
use hyperion_euntime_environ.Base.Text.{codes, to_decimal}
use hyperion_euntime_environ.MemoryManager.{
  Os, Manager, Outcome, done, crashed, ◌>>=◌, ok, unexpected, run_self_test,
}
use hyperion_euntime_environ.MemoryManager
use hyperion_euntime_environ.ProcessingUnit.{
  ProcessingUnit, Shown, MemoryView, Text, active_ops, idle_ops, update, ingest, start,
  parse_engine_cli, queue_bits,
}
use hyperion_euntime_environ.Monitor.{
  Monitor, Piece, update_status_stats, update_ghost_stats, update_memory_view, update_input_text,
  trigger_input_flash,
}
use hyperion_euntime_environ.Monitor
use hyperion_euntime_environ.Monitor.Present.{Terminal, obey_all}
use hyperion_euntime_environ.Frame.{render}
use hyperion_euntime_environ.Scheduler.{Processor, Scheduler, init, spawn, yield}
use hyperion_euntime_environ.InputIngest.{Clipboard, check}
use hyperion_euntime_environ.Document.{Arithmetic, analysis_turn}
use hyperion_euntime_environ.Tokenizer.{is_empty, created}
use hyperion_euntime_environ.Ring.{fresh}
use hyperion_euntime_environ.Canvas.{blank}

-- Everything that the fibers share, with the terminal that the frames go to.
pub record World : Type 0 where
  pub g_running : Bool
  pub scheduler : Scheduler
  pub ghost : Manager
  pub unit : ProcessingUnit
  pub monitor : Monitor
  pub clipboard : Clipboard
  pub terminal : Terminal

-- What `Update` tells the monitor.
abbrev pub opcodes : MemoryView → List ℕ
opcodes active_ops =
    0xC5 ∷ 0xFC ∷ 0x58 ∷ 0xC0 ∷ 0xC5 ∷ 0xFC ∷ 0x59 ∷ 0xC9 ∷ 0x62 ∷ 0xF1 ∷ 0x7C ∷ 0x48 ∷ 0x58 ∷ 0xC2
    ∷ 0x90 ∷ 0x90 ∷ []
opcodes idle_ops = 0xF3 ∷ 0x90 ∷ 0x48 ∷ 0x39 ∷ 0xC0 ∷ 0x75 ∷ 0xFB ∷ 0x90 ∷ 0x90 ∷ 0x90 ∷ []

abbrev pub stats_text : Shown → List ℕ
stats_text s =
    codes "Docs: "
    ++ (to_decimal s.doc_count
        ++ (codes " | Vocab: " ++ (to_decimal s.vocabulary_size ++ codes " | Threads: 2 [ACTIVE]")))

unfoldable pub tell : Option Shown → Monitor → Monitor
tell none m = m
tell (some s) m =
    update_memory_view (some (opcodes s.view))
      (update_ghost_stats s.page_faults s.resident_pages (update_status_stats (stats_text s) m))

-- The poll and the read of a key: `q` ends the loop.
unfoldable pub take_key : Option ℕ → World → World
take_key none w = w
take_key (some c) w = if c == b'q' then record w { g_running = false } else w

-- The frame is drawn and sent.
unfoldable pub refresh : World → World
refresh w =
    let (pieces, monitor) = render w.scheduler w.ghost w.monitor in
    record w { monitor = monitor; terminal = obey_all w.monitor.width pieces w.terminal }

-- Switches to the next fiber.
abbrev pub hand_over : World → World
hand_over w = record w { scheduler = yield w.scheduler }

-- `ProcessingUnit::Ingest`, with the monitor's part.
unfoldable pub ingest_text : Text → World → World
ingest_text text w = if is_empty text then w else record w {
  unit = ingest w.unit text;
  monitor = trigger_input_flash (update_input_text text w.monitor);
}

module _ (f : Arithmetic) (os : Os) where
  -- One round of `UI_Fiber_Func`, given the key that is read, if any, and what `rand` returns.
  unfoldable pub ui_turn : Option ℕ → ℕ → World → Outcome World
  ui_turn key rand w =
      let w1 = take_key key w in
      update os rand w1.unit w1.ghost >>= (λ r. done (
        hand_over
          (refresh (record w1 { unit = r.1; ghost = r.2; monitor = tell (r.0) w1.monitor }))))

  -- One round of `InputIngest_Fiber_Func`.
  unfoldable pub clipboard_turn : ℕ → Option (List (List ℕ)) → World → World
  clipboard_turn now pipe w =
      let (clip, clipboard) = check now pipe w.clipboard in
      let w1 = record w { clipboard = clipboard } in
      hand_over (elim clip [ none ↦ w1 | some text ↦ ingest_text text w1 ])

  -- One round of the analysis thread.
  unfoldable pub thread_turn : World → Outcome World
  thread_turn w =
      analysis_turn f os w.unit w.ghost >>= (λ r. done (record w { unit = r.0; ghost = r.1 }))

  pub data Turn : Type 0 where
    ui : Option ℕ → ℕ → Turn
    clip : ℕ → Option (List (List ℕ)) → Turn
    analysis : Turn

  -- A fiber's loop is left once the program does not run any more.
  unfoldable pub turn : Turn → World → Outcome World
  turn (ui key rand) w = if w.g_running then ui_turn key rand w else done (hand_over w)
  turn (clip now pipe) w =
      if w.g_running then done (clipboard_turn now pipe w) else done (hand_over w)
  turn analysis w = thread_turn w

  unfoldable pub turns : List Turn → World → Outcome World
  turns [] w = done w
  turns (t ∷ ts) w = turn t w >>= turns ts

-- The constructor of the processing unit, without the memory manager's `initialize`.
abbrev pub fresh_unit : List Text → ProcessingUnit
fresh_unit args = record {
  config = parse_engine_cli args;
  tokenizer = created;
  running = false;
  processing_cooldown = 0;
  input_queue = fresh queue_bits [];
  ghost_offset = 0;
}

-- What the process is given: the processor, its arguments, the window's size, the time, the stacks of the two fibers,
-- the address of `S_Entry` and those of the fibers' tasks.
pub record Given : Type 0 where
  pub processor : Processor
  pub args : List Text
  pub window : Option (ℕ × ℕ)
  pub now : ℕ
  pub ui_stack : ℕ
  pub clip_stack : ℕ
  pub s_entry : ℕ
  pub ui_task : ℕ
  pub clip_task : ℕ

abbrev pub empty_scheduler : Scheduler → Scheduler
empty_scheduler k = record k { fibers = []; current_fiber = none; current_idx = 0 }

-- Both fibers, or the exit of a spawn.
unfoldable pub spawn_fibers : Given → Scheduler → Option Scheduler
spawn_fibers g k = elim (spawn k "UI_Fiber" g.ui_stack g.s_entry (some g.ui_task)) [
  | none ↦ none
  | some k' ↦ spawn k' "Clip_Fib" g.clip_stack g.s_entry (some g.clip_task)
]

-- The monitor, the fibers and the thread: the last steps of `main` before its endless `Run`. The
-- terminal is the one that `initialize` has cleared.
unfoldable pub launch : Given → Scheduler → Manager → Option World
unfolding spawn_fibers
launch g k ghost =
    let monitor = Monitor.initialize g.window (Monitor.make_monitor g.now) in
    elim (spawn_fibers g k) [
      | none ↦ none
      | some k' ↦ some (record {
        g_running = true;
        scheduler = k';
        ghost = ghost;
        unit = start (fresh_unit g.args);
        monitor = monitor;
        clipboard = record { last_clip = []; last_check = g.now };
        terminal = record {
          row = 1;
          column = 1;
          shown = replicate (monitor.width * monitor.height) blank;
        };
      })
    ]

-- `main` after the scheduler's `Init`: the region is set up and tested, and the processing unit asks for it once more.
-- No world is for a return or an exit.
unfoldable pub boot_from : Os → Given → Scheduler → Manager → Outcome (Option World)
unfolding launch
boot_from os g k ghost = MemoryManager.initialize os ghost >>= (λ r. elim (r.0) [
  | unexpected e ↦ done none
  | ok _ ↦ run_self_test os (r.1) >>= (λ t.
      if t.0
      then (MemoryManager.initialize os (t.1)
          >>= (λ q. elim (q.0) [ unexpected e ↦ done none | ok _ ↦ done (launch g k (q.1)) ]))
      else done none)
])

-- `main` up to `Run`. A trap of `Init` ends the process.
unfoldable pub boot : Os → Given → Scheduler → Manager → Outcome (Option World)
boot os g k ghost = elim (init g.processor (empty_scheduler k)) [
  | none ↦ crashed
  | some k' ↦ boot_from os g k' ghost
]
