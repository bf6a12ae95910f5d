-- ===== src/Examples/OfProgram.antt =====
-- src/main.cpp: a start on a granted region, and three turns.
use hyperion_euntime_environ.Base.{
  ◌<◌, ◌^◌, ℕ, ◌+◌, ◌-◌, ◌*◌, ◌/◌, ◌≡◌, refl, true, false, some, none, List, [], ◌∷◌, ltb, ◌==◌,
  arith, pos,
}
use hyperion_euntime_environ.MemoryManager.{Os, Manager, done}
use hyperion_euntime_environ.Scheduler.{Scheduler, Processor}
use hyperion_euntime_environ.Document.{Arithmetic}
use hyperion_euntime_environ.Frame.Session.{IsInStep}
use hyperion_euntime_environ.Program.{World, Turn, turns, Given, boot}
use hyperion_euntime_environ.Program.Boot.{boot-turns}
use hyperion_euntime_environ.Program.Turns.{AllTyped}
use hyperion_euntime_environ.InputIngest.Printable.{Printable}

abbrev whole : Arithmetic
whole = record {
  Float = ℕ;
  of_ℕ = λ n. n;
  add = λ x y. x + y;
  sub = λ x y. x - y;
  mul = λ x y. x * y;
  div = λ x y. x / y;
  lt = λ x y. ltb x y;
  is_tiny = λ x. x == 0;
  round_int = λ x. pos x;
  bits = λ x. x;
}

abbrev os : Os
os = record {
  page_bits = 12;
  mmap_result = 0x1_0000_0000;
  sigbus_installs = true;
  sigsegv_installs = true;
  mprotect_succeeds = λ page. true;
}

abbrev given : Given
given = record {
  processor = Processor.x86_64 true;
  args = [];
  window = some (80, 24);
  now = 7;
  ui_stack = 0x2_0000_0000;
  clip_stack = 0x3_0000_0000;
  s_entry = 4096;
  ui_task = 8192;
  clip_task = 8256;
}

abbrev empty : Scheduler
empty = record {
  fibers = [];
  current_fiber = none;
  current_idx = 0;
  cpu = record { rbx = 1; rbp = 2; r12 = 3; r13 = 4; r14 = 5; r15 = 6; rsp = 4096; rip = 7 };
  memory = λ a. 0;
}

abbrev idle : Manager
idle = record {
  base_addr = 0;
  running = false;
  fault_count = 0;
  resident_pages = 0;
  open_pages = [];
  memory = λ a. 0;
}

abbrev three_turns : List (Turn whole os)
three_turns =
    Turn.clip 300_000_000 (some ((72 ∷ 105 ∷ []) ∷ [])) ∷ Turn.analysis ∷ Turn.ui (some b'q') 5 ∷ []

three_typed : AllTyped os whole three_turns
three_typed =
    (((((omega arith), (omega arith)), (((omega arith), (omega arith)), tt)), tt), (tt, (tt, tt)))

boot-turns_example :
    (w : World) × (w' : World) × (boot os given empty idle ≡ done (some w))
    × (turns whole os three_turns w ≡ done w')
    × IsInStep w'.monitor w'.terminal
    × (w'.monitor.scroll_offset < 2 ^ 31)
    × Printable w'.monitor.input_text
boot-turns_example =
    boot-turns whole os given empty idle three_turns refl
      (record {
        page_small = omega arith;
        page_large = omega arith;
        placed = omega arith;
        fits = omega arith;
        page_start = refl;
        opens = λ page. refl;
        installs = (refl, refl);
      })
      refl refl (omega arith) (omega arith) (omega arith) (omega arith) three_typed (omega arith)
