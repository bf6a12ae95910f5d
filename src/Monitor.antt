-- ===== src/Monitor.antt =====
-- include/monitor/SystemMonitor.hpp and src/monitor/SystemMonitor.cpp: the state of the terminal
-- monitor, its random numbers, its feeders and `present`, which sends the changed cells out.
pub mod Random
pub mod Present
use Prim.Native.String
use Prim.Native.String.{String}
use hyperion_euntime_environ.Base.{
  ℕ, zero, suc, ◌+◌, ◌-◌, ◌*◌, ◌/◌, ◌%◌, ◌^◌, bit_xor, Bool, true, false, Option, none, some, List,
  [], ◌∷◌, ◌++◌, ltb, ◌==◌, if◌then◌else◌, length, replicate,
}
use hyperion_euntime_environ.Canvas.{Cell, blank}

-- `SystemMonitor`, with `scroll_offset`, a static variable of `draw_jit_stream`. The counters and the
-- heats are `int`s that never fall below zero.
pub record Monitor : Type 0 where
  pub running : Bool
  pub width : ℕ
  pub height : ℕ
  pub front_buffer : List Cell
  pub back_buffer : List Cell
  pub header_info : List ℕ
  pub stats_info : List ℕ
  pub input_text : List ℕ
  pub jit_cache : List ℕ
  pub page_faults : ℕ
  pub resident_pages : ℕ
  pub flash_timer : ℕ
  pub ghost_heat_map : List ℕ
  pub spinner_idx : ℕ
  pub rand_seed : ℕ
  pub scroll_offset : ℕ

-- A monitor that is constructed when the clock says `now`.
unfoldable pub make_monitor : ℕ → Monitor
make_monitor now = record {
  running = false;
  width = 80;
  height = 24;
  front_buffer = [];
  back_buffer = [];
  header_info = [];
  stats_info = [];
  input_text = [];
  jit_cache = [];
  page_faults = 0;
  resident_pages = 0;
  flash_timer = 0;
  ghost_heat_map = [];
  spinner_idx = 0;
  rand_seed = now % 2 ^ 32;
  scroll_offset = 0;
}

-- Xorshift32. The shifts are those of a uint32_t.
abbrev pub shl13 : ℕ → ℕ
shl13 x = (x * 2 ^ 13) % 2 ^ 32

abbrev pub shr17 : ℕ → ℕ
shr17 x = x / 2 ^ 17

abbrev pub shl5 : ℕ → ℕ
shl5 x = (x * 2 ^ 5) % 2 ^ 32

-- `fast_rand`: the new seed is also the number it returns.
unfoldable pub fast_rand : ℕ → ℕ
fast_rand x = let x1 = bit_xor x (shl13 x) in let x2 = bit_xor x1 (shr17 x1) in bit_xor x2 (shl5 x2)

-- `resize`: the first n, with zeros after them.
unfoldable pub resize : List ℕ → ℕ → List ℕ
resize xs zero = []
resize [] (suc n) = 0 ∷ resize [] n
resize (x ∷ xs) (suc n) = x ∷ resize xs n

-- `size_t size = m_width * m_height`: the product is a 32-bit int, and the int is converted.
abbrev pub buffer_size : ℕ → ℕ → ℕ
buffer_size columns rows =
    let product = (columns * rows) % 2 ^ 32 in
    if ltb product (2 ^ 31) then product else product + (2 ^ 64 - 2 ^ 32)

-- The buffers and caches of a window's size.
unfoldable pub sized : ℕ → ℕ → Monitor → Monitor
sized columns rows m = record m {
  width = columns;
  height = rows;
  front_buffer = replicate (buffer_size columns rows) blank;
  back_buffer = replicate (buffer_size columns rows) blank;
  running = true;
  ghost_heat_map = resize m.ghost_heat_map 1024;
  jit_cache = resize m.jit_cache 100;
}

-- `initialize`, given the window's columns and rows if the terminal tells them. What it writes clears
-- the screen.
unfoldable pub initialize : Option (ℕ × ℕ) → Monitor → Monitor
initialize none m = sized 80 24 m
initialize (some (columns, rows)) m = sized columns rows m

-- `shutdown`: the screen is cleared and the terminal's mode restored.
unfoldable pub shutdown : Monitor → Monitor
shutdown m = record m { running = false }

unfoldable pub set_header_info : List ℕ → Monitor → Monitor
set_header_info info m = record m { header_info = info }

unfoldable pub update_status_stats : List ℕ → Monitor → Monitor
update_status_stats stats m = record m { stats_info = stats }

unfoldable pub update_ghost_stats : ℕ → ℕ → Monitor → Monitor
update_ghost_stats faults resident m = record m { page_faults = faults; resident_pages = resident }

-- The bytes at `ptr`, or none for a null pointer.
unfoldable pub update_memory_view : Option (List ℕ) → Monitor → Monitor
update_memory_view none m = m
update_memory_view (some bytes) m = if length bytes == 0 then m else record m { jit_cache = bytes }

unfoldable pub update_input_text : List ℕ → Monitor → Monitor
update_input_text text m = record m { input_text = text }

unfoldable pub trigger_input_flash : Monitor → Monitor
trigger_input_flash m = record m { flash_timer = 12 }

-- The pieces of the string that goes to the terminal: `move_to row column` is the escape sequence
-- `\033[row;columnH`.
pub data Piece : Type 0 where
  move_to : ℕ → ℕ → Piece
  glyph : Cell → Piece

abbrev pub same_bytes : List ℕ → List ℕ → Bool
same_bytes [] [] = true
same_bytes [] (y ∷ ys) = false
same_bytes (x ∷ xs) [] = false
same_bytes (x ∷ xs) (y ∷ ys) = if x == y then same_bytes xs ys else false

module _ (m_width : ℕ) where
  -- The loop of `compute_buffer_diff` from the cell i on. Both buffers have one length.
  unfoldable pub diff_from : ℕ → List Cell → List Cell → List Piece
  diff_from i [] back = []
  diff_from i (f ∷ front) [] = []
  diff_from i (f ∷ front) (b ∷ back) =
      let rest = diff_from (suc i) front back in
      if same_bytes f b then rest else move_to (i / m_width + 1) (i % m_width + 1) ∷ glyph b ∷ rest

  unfoldable pub compute_buffer_diff : List Cell → List Cell → List Piece
  compute_buffer_diff front back = diff_from 0 front back

-- The front buffer is brought up to date only where something is sent.
unfoldable pub settle : List Piece → Monitor → Monitor
settle [] m = m
settle (p ∷ ps) m = record m { front_buffer = m.back_buffer }

-- `present`: what is written, and the monitor after it.
unfoldable pub present : Monitor → List Piece × Monitor
present m =
    let diff = compute_buffer_diff m.width m.front_buffer m.back_buffer in (diff, settle diff m)
