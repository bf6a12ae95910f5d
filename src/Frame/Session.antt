-- ===== src/Frame/Session.antt =====
-- A session with the terminal monitor of src/monitor/SystemMonitor.cpp: any calls after `initialize`,
-- in any order, and the terminal that obeys what the frames send.
use hyperion_euntime_environ.Base.{
  ℕ, zero, suc, ◌+◌, ◌*◌, ◌^◌, ◌<◌, ◌≤◌, ◌≡◌, refl, ap, sym, ◌∙◌, Option, none, some, List, [], ◌∷◌,
  ◌==◌, length, get_or, arith, inl, inr, Bool-cases, replicate, length-replicate,
}
use hyperion_euntime_environ.Canvas.{blank}
use hyperion_euntime_environ.Monitor.{
  Monitor, Piece, buffer_size, make_monitor, resize, sized, initialize, set_header_info,
  update_status_stats, update_ghost_stats, update_memory_view, update_input_text,
  trigger_input_flash, present, settle,
}
use hyperion_euntime_environ.Monitor.Present.{Terminal, obey_all, present-shows}
use hyperion_euntime_environ.Frame.{draw_frame, render}
use hyperion_euntime_environ.Frame.Scroll.{render-scroll}
use hyperion_euntime_environ.Frame.Validity.{IsValid}
use hyperion_euntime_environ.Frame.Drawing.{draw_frame-IsDrawing}
use hyperion_euntime_environ.Scheduler.{Scheduler}
use hyperion_euntime_environ.MemoryManager.{Manager}

-- A call of the monitor, with what it reads.
pub data Call : Type 0 where
  header stats input : List ℕ → Call
  ghost_stats : ℕ → ℕ → Call
  memory_view : Option (List ℕ) → Call
  flash : Call
  frame : Scheduler → Manager → Call

unfoldable pub feed : Call → Monitor → Monitor
feed (header info) m = set_header_info info m
feed (stats text) m = update_status_stats text m
feed (input text) m = update_input_text text m
feed (ghost_stats faults resident) m = update_ghost_stats faults resident m
feed (memory_view bytes) m = update_memory_view bytes m
feed flash m = trigger_input_flash m
feed (frame k g) m = (render k g m).1

unfoldable pub sent : Call → Monitor → List Piece
sent (frame k g) m = (render k g m).0
sent _ m = []

-- The monitor and the terminal after some calls.
unfoldable pub session : List Call → Monitor → Terminal → Monitor × Terminal
session [] m t = (m, t)
session (c ∷ calls) m t = session calls (feed c m) (obey_all m.width (sent c m) t)

-- `present` leaves all but the front buffer alone.
settle-IsValid : (ps : List Piece) (m : Monitor) → IsValid m → IsValid (settle ps m)
unfolding settle
settle-IsValid [] m v = v
settle-IsValid (p ∷ ps) m v = record {
  front_cells = v.back_cells;
  back_cells = v.back_cells;
  blocks = v.blocks;
  heat_bound = v.heat_bound;
  spinner_bound = v.spinner_bound;
  flash_bound = v.flash_bound;
  seed_bound = v.seed_bound;
}

present-IsValid : (m : Monitor) → IsValid m → IsValid (present m).1
unfolding present
present-IsValid m v = settle-IsValid _ m v

-- Where the monitor is well-formed and the terminal shows the front buffer, a terminal that obeys
-- what `render` sends, only the cells that changed, shows the frame that was drawn; the front
-- buffer is that frame then, and the monitor is well-formed.
pub render-shows :
    (k : Scheduler) (g : Manager) (m : Monitor) (t : Terminal)
    → IsValid m
    → t.shown ≡ m.front_buffer
    → ((obey_all m.width (render k g m).0 t).shown ≡ (draw_frame k g m).back_buffer)
      × ((render k g m).1.front_buffer ≡ (draw_frame k g m).back_buffer)
      × IsValid (render k g m).1
unfolding render
render-shows k g m t v e =
    let drawn = draw_frame k g m in
    let d = draw_frame-IsDrawing k g m v in
    let same = d.valid.front_cells ∙ sym d.valid.back_cells in
    let (shows, front, back) = present-shows drawn same t (e ∙ sym d.same_front) in
    (
      ap (λ (w : ℕ). (obey_all w (present drawn).0 t).shown) (sym d.same_width) ∙ shows,
      front,
      present-IsValid drawn d.valid,
    )

-- What a call keeps: the monitor is well-formed, and its front buffer is what the terminal shows.
pub record IsInStep (m : Monitor) (t : Terminal) : Type 0 where
  pub valid : IsValid m
  pub in_step : t.shown ≡ m.front_buffer

-- New texts and counters that are not drawn.
texts-IsInStep :
    (m : Monitor) (t : Terminal) (info status text code : List ℕ) (faults resident timer : ℕ)
    → timer ≤ 12
    → IsInStep m t
    → IsInStep
        (record m {
          header_info = info;
          stats_info = status;
          input_text = text;
          jit_cache = code;
          page_faults = faults;
          resident_pages = resident;
          flash_timer = timer;
        })
        t
texts-IsInStep m t info status text code faults resident timer h s =
    let v = s.valid in
    record {
      valid = record {
        front_cells = v.front_cells;
        back_cells = v.back_cells;
        blocks = v.blocks;
        heat_bound = v.heat_bound;
        spinner_bound = v.spinner_bound;
        flash_bound = h;
        seed_bound = v.seed_bound;
      };
      in_step = s.in_step;
    }

module _ (m : Monitor) (t : Terminal) (s : IsInStep m t) where
  memory_view-IsInStep : (bytes : Option (List ℕ)) → IsInStep (update_memory_view bytes m) t
  unfolding update_memory_view
  memory_view-IsInStep none = s
  memory_view-IsInStep (some bytes) = elim (Bool-cases (length bytes == 0)) [
    | inl e ↦ rw e s
    | inr e ↦ rw e (
        texts-IsInStep m t m.header_info m.stats_info m.input_text bytes m.page_faults
          m.resident_pages m.flash_timer s.valid.flash_bound s)
  ]

  pub feed-IsInStep : (c : Call) → IsInStep (feed c m) (obey_all m.width (sent c m) t)
  unfolding feed sent set_header_info update_status_stats update_input_text update_ghost_stats
      trigger_input_flash obey_all
  feed-IsInStep (header info) =
      texts-IsInStep m t info m.stats_info m.input_text m.jit_cache m.page_faults m.resident_pages
        m.flash_timer s.valid.flash_bound s
  feed-IsInStep (stats text) =
      texts-IsInStep m t m.header_info text m.input_text m.jit_cache m.page_faults m.resident_pages
        m.flash_timer s.valid.flash_bound s
  feed-IsInStep (input text) =
      texts-IsInStep m t m.header_info m.stats_info text m.jit_cache m.page_faults m.resident_pages
        m.flash_timer s.valid.flash_bound s
  feed-IsInStep (ghost_stats faults resident) =
      texts-IsInStep m t m.header_info m.stats_info m.input_text m.jit_cache faults resident
        m.flash_timer s.valid.flash_bound s
  feed-IsInStep (memory_view bytes) = memory_view-IsInStep bytes
  feed-IsInStep flash =
      texts-IsInStep m t m.header_info m.stats_info m.input_text m.jit_cache m.page_faults
        m.resident_pages 12 (omega arith) s
  feed-IsInStep (frame k g) =
      let (shows, front, valid) = render-shows k g m t s.valid s.in_step in
      record { valid = valid; in_step = shows ∙ sym front }

session-IsInStep :
    (calls : List Call) (m : Monitor) (t : Terminal)
    → IsInStep m t
    → IsInStep (session calls m t).0 (session calls m t).1
unfolding session
session-IsInStep [] m t s = s
session-IsInStep (c ∷ calls) m t s =
    session-IsInStep calls (feed c m) (obey_all m.width (sent c m) t) (feed-IsInStep m t s c)

-- A fresh monitor, and the terminal that `initialize` has cleared.
length-resize : (xs : List ℕ) (n : ℕ) → length (resize xs n) ≡ n
unfolding resize
length-resize xs zero = refl
length-resize [] (suc n) = ap suc (length-resize [] n)
length-resize (x ∷ xs) (suc n) = ap suc (length-resize xs n)

resize_empty_at : (n i : ℕ) → get_or (resize [] n) i 0 ≡ 0
unfolding resize
resize_empty_at zero i = refl
resize_empty_at (suc n) zero = refl
resize_empty_at (suc n) (suc i) = resize_empty_at n i

abbrev pub cleared : Monitor → Terminal
cleared m = record { row = 1; column = 1; shown = replicate (m.width * m.height) blank }

-- No product of a row and the width that `render` computes overflows an int, in a window of this
-- size: no coordinate lies further than 32 cells outside it.
abbrev pub FitsInt : Option (ℕ × ℕ) → Type 0
FitsInt none = Unit {0}
FitsInt (some (columns, rows)) = (columns + 32) * (rows + 32) < 2 ^ 31

size_in_window : (columns rows : ℕ) → FitsInt (some (columns, rows)) → columns * rows < 2 ^ 31
size_in_window columns rows h = omega arith

buffer_size-eq :
    (columns rows : ℕ) → columns * rows < 2 ^ 31 → buffer_size columns rows ≡ columns * rows
buffer_size-eq columns rows h = ground arith

sized-IsInStep :
    (now columns rows : ℕ)
    → columns * rows < 2 ^ 31
    → IsInStep
        (sized columns rows (make_monitor now))
        (cleared (sized columns rows (make_monitor now)))
unfolding make_monitor sized
sized-IsInStep now columns rows h = record {
  valid = record {
    front_cells =
        length-replicate {0} (buffer_size columns rows) blank ∙ buffer_size-eq columns rows h;
    back_cells =
        length-replicate {0} (buffer_size columns rows) blank ∙ buffer_size-eq columns rows h;
    blocks = length-resize [] 1024;
    heat_bound = λ i h. omega (arith, resize_empty_at 1024 i);
    spinner_bound = omega arith;
    flash_bound = omega arith;
    seed_bound = omega arith;
  };
  in_step = ap (λ (n : ℕ). replicate n blank) (sym (buffer_size-eq columns rows h));
}

pub initialize-IsInStep :
    (now : ℕ) (window : Option (ℕ × ℕ))
    → FitsInt window
    → IsInStep
        (initialize window (make_monitor now))
        (cleared (initialize window (make_monitor now)))
unfolding initialize
initialize-IsInStep now none h = sized-IsInStep now 80 24 (omega arith)
initialize-IsInStep now (some (columns, rows)) h =
    sized-IsInStep now columns rows (size_in_window columns rows h)

-- The frames that are drawn, counted by an int.
feed-scroll : (c : Call) (m : Monitor) → (feed c m).scroll_offset ≤ m.scroll_offset + 1
unfolding feed set_header_info update_status_stats update_input_text update_ghost_stats
    trigger_input_flash update_memory_view
feed-scroll (header info) m = omega arith
feed-scroll (stats text) m = omega arith
feed-scroll (input text) m = omega arith
feed-scroll (ghost_stats faults resident) m = omega arith
feed-scroll (memory_view none) m = omega arith
feed-scroll (memory_view (some bytes)) m = ground arith
feed-scroll flash m = omega arith
feed-scroll (frame k g) m = omega (arith, render-scroll k g m)

session-scroll :
    (calls : List Call) (m : Monitor) (t : Terminal)
    → (session calls m t).0.scroll_offset ≤ m.scroll_offset + length calls
unfolding session
session-scroll [] m t = omega arith
session-scroll (c ∷ calls) m t =
    omega (arith, feed-scroll c m, session-scroll calls (feed c m) (obey_all m.width (sent c m) t))

pub initialize-scroll :
    (now : ℕ) (window : Option (ℕ × ℕ)) → (initialize window (make_monitor now)).scroll_offset ≡ 0
unfolding initialize sized make_monitor
initialize-scroll now none = refl
initialize-scroll now (some (columns, rows)) = refl

pub initialize-input :
    (now : ℕ) (window : Option (ℕ × ℕ)) → (initialize window (make_monitor now)).input_text ≡ []
unfolding initialize sized make_monitor
initialize-input now none = refl
initialize-input now (some (columns, rows)) = refl

-- In a window of which 32 rows and columns more still have fewer than 2 ^ 31 cells, so that no
-- `int` overflows, and for any feeders and `render`, fewer than 2 ^ 31, called after `initialize`
-- in any order, the monitor stays well-formed: two buffers of the window's size, 1024 heats of 5 at
-- most, and counters in their ranges, that of the frames below 2 ^ 31; and a terminal that was
-- clear and obeyed all that was sent shows the front buffer.
pub session-initialize :
    (now : ℕ) (window : Option (ℕ × ℕ)) (calls : List Call)
    → FitsInt window
    → length calls < 2 ^ 31
    → let m = initialize window (make_monitor now) in
      IsInStep (session calls m (cleared m)).0 (session calls m (cleared m)).1
      × ((session calls m (cleared m)).0.scroll_offset < 2 ^ 31)
session-initialize now window calls fits few =
    let m = initialize window (make_monitor now) in
    (
      session-IsInStep calls m (cleared m) (initialize-IsInStep now window fits),
      omega (arith, session-scroll calls m (cleared m), initialize-scroll now window),
    )
