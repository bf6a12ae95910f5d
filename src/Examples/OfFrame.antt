-- ===== src/Examples/OfFrame.antt =====
-- src/monitor/SystemMonitor.cpp: frames in a window of 10 columns and 14 rows.
use hyperion_euntime_environ.Base.{
  ◌<◌, ◌^◌, ℕ, zero, suc, ◌≡◌, refl, true, some, none, List, [], ◌∷◌, replicate, arith, get_or,
}
use hyperion_euntime_environ.Canvas.{blank}
use hyperion_euntime_environ.Canvas.Cells.{look}
use hyperion_euntime_environ.Canvas.Text.{byte_at}
use hyperion_euntime_environ.Monitor.{Monitor, make_monitor, initialize}
use hyperion_euntime_environ.Monitor.Present.{obey_all}
use hyperion_euntime_environ.Frame.{draw_frame, render}
use hyperion_euntime_environ.Frame.Validity.{IsValid}
use hyperion_euntime_environ.Frame.Session.{
  Call, IsInStep, session, cleared, render-shows, session-initialize,
}
use hyperion_euntime_environ.Frame.Bars.{header_text, status_text, draw_frame-bars}
use hyperion_euntime_environ.Scheduler.{Scheduler}
use hyperion_euntime_environ.MemoryManager.{Manager}

abbrev scheduler : Scheduler
scheduler = record {
  fibers = [];
  current_fiber = none;
  current_idx = 0;
  cpu = record { rbx = 1; rbp = 2; r12 = 3; r13 = 4; r14 = 5; r15 = 6; rsp = 4096; rip = 7 };
  memory = λ a. 0;
}

abbrev ghost : Manager
ghost = record {
  base_addr = 0x1_0000_0000;
  running = true;
  fault_count = 1;
  resident_pages = 1;
  open_pages = 0x1_0000_0000 ∷ [];
  memory = λ a. 3;
}

abbrev started : Monitor
started = record {
  running = true;
  width = 10;
  height = 14;
  front_buffer = replicate 140 blank;
  back_buffer = replicate 140 blank;
  header_info = [];
  stats_info = [];
  input_text = [];
  jit_cache = [];
  page_faults = 0;
  resident_pages = 0;
  flash_timer = 0;
  ghost_heat_map = replicate 1024 0;
  spinner_idx = 0;
  rand_seed = 5;
  scroll_offset = 0;
}

replicate_zero : (n i : ℕ) → let zeros : List ℕ = replicate n 0 in get_or zeros i 0 ≡ 0
replicate_zero zero i = refl
replicate_zero (suc n) zero = refl
replicate_zero (suc n) (suc i) = replicate_zero n i

started-IsValid : IsValid started
started-IsValid = record {
  front_cells = refl;
  back_cells = refl;
  blocks = refl;
  heat_bound = λ i h. omega (arith, replicate_zero 1024 i);
  spinner_bound = omega arith;
  flash_bound = omega arith;
  seed_bound = omega arith;
}

render-shows_example :
    ((obey_all 10 (render scheduler ghost started).0 (cleared started)).shown
      ≡ (draw_frame scheduler ghost started).back_buffer)
    × ((render scheduler ghost started).1.front_buffer
        ≡ (draw_frame scheduler ghost started).back_buffer)
    × IsValid (render scheduler ghost started).1
render-shows_example = render-shows scheduler ghost started (cleared started) started-IsValid refl

draw_frame-bars_example :
    (look 10 14 3 0 (draw_frame scheduler ghost started).back_buffer
      ≡ byte_at 2 (header_text started) 3 (some blank))
    × (look 10 14 3 13 (draw_frame scheduler ghost started).back_buffer
        ≡ byte_at 2 (status_text scheduler ghost) 3 (some blank))
draw_frame-bars_example =
    draw_frame-bars scheduler ghost started 3 started-IsValid (omega arith) (omega arith)
      (omega arith)

abbrev calls : List Call
calls = Call.stats (65 ∷ []) ∷ Call.frame scheduler ghost ∷ Call.flash ∷ []

session-initialize_example :
    IsInStep
      (session calls
        (initialize (some (10, 14)) (make_monitor 5))
        (cleared (initialize (some (10, 14)) (make_monitor 5)))).0
      (session calls
        (initialize (some (10, 14)) (make_monitor 5))
        (cleared (initialize (some (10, 14)) (make_monitor 5)))).1
    × ((session calls
          (initialize (some (10, 14)) (make_monitor 5))
          (cleared (initialize (some (10, 14)) (make_monitor 5)))).0.scroll_offset
        < 2 ^ 31)
session-initialize_example = session-initialize 5 (some (10, 14)) calls (omega arith) (omega arith)
