-- ===== src/Panel.antt =====
-- src/monitor/SystemMonitor.cpp: the layout of `render`, and the heat map's panel.
pub mod Heat
pub mod Layout
use Prim.Native.String
use Prim.Native.String.{String}
use hyperion_euntime_environ.Base.{
  ℕ, zero, suc, ◌+◌, ◌-◌, ◌*◌, ◌/◌, ◌%◌, ◌^◌, bit_and, bit_or, Bool, true, false, ◌&&◌, ◌||◌,
  Option, none, some, List, [], ◌∷◌, ◌++◌, map, ltb, leb, ◌==◌, if◌then◌else◌, length, set, get_or,
  take, ℤ, pos, negsuc, pos_part, to_size, ◌+ℤ◌, ◌-ℤ◌, ◌*ℤ◌, quot, rem, ltb_ℤ, leb_ℤ,
}
use hyperion_euntime_environ.Base.Text.{codes}
use hyperion_euntime_environ.Canvas.{Cell, Rect, blank, put, draw_text, draw_box}
use hyperion_euntime_environ.Canvas
use hyperion_euntime_environ.Monitor.{Monitor, fast_rand}

-- The rectangles of `render`.
abbrev panel_width : ℕ → ℤ
panel_width m_width = pos (m_width / 2) -ℤ pos 2

abbrev panel_height : ℕ → ℤ
panel_height m_height = pos m_height -ℤ pos 12

unfoldable pub ghost_rect : ℕ → ℕ → Rect
ghost_rect m_width m_height = record {
  x = pos 1;
  y = pos 2;
  w = panel_width m_width;
  h = panel_height m_height;
}

unfoldable pub fibers_rect : ℕ → ℕ → Rect
fibers_rect m_width m_height = record {
  x = panel_width m_width +ℤ pos 3;
  y = pos 2;
  w = panel_width m_width;
  h = panel_height m_height;
}

unfoldable pub jit_rect : ℕ → ℕ → Rect
jit_rect m_width m_height = record {
  x = pos 1;
  y = panel_height m_height +ℤ pos 3;
  w = panel_width m_width;
  h = pos m_height -ℤ (panel_height m_height +ℤ pos 3) -ℤ pos 2;
}

unfoldable pub input_rect : ℕ → ℕ → Rect
input_rect m_width m_height = record {
  x = panel_width m_width +ℤ pos 3;
  y = pos m_height -ℤ pos 4;
  w = panel_width m_width;
  h = pos 3;
}

-- `draw_text` and `draw_box` on the monitor's back buffer.
unfoldable pub text_on : ℤ → ℤ → List ℕ → Monitor → Monitor
text_on x y text m = record m { back_buffer = draw_text m.width m.height m.back_buffer x y text }

unfoldable pub box_on : Rect → Monitor → Monitor
box_on rect m = record m { back_buffer = draw_box m.width m.height rect m.back_buffer }

-- `draw_ghost_map`: the heat falls by one,
unfoldable pub decay : List ℕ → List ℕ
decay heats = map (λ h. if ltb 0 h then h - 1 else h) heats

-- one block in ten frames is pinged,
unfoldable pub ping : ℕ → List ℕ → List ℕ × ℕ
ping seed heats =
    let s1 = fast_rand seed in
    let s2 = fast_rand s1 in
    if ltb (s1 % 100) 10 then (set heats (s2 % length heats) 5, s2) else (heats, s1)

-- and the blocks below the resident count are kept warm.
unfoldable pub simmer_one : ℕ → ℕ → ℕ × ℕ
simmer_one seed h =
    let s = fast_rand seed in
    if ltb h 2 then (if s % 20 == 0 then (4, s) else (1, s)) else (h, seed)

unfoldable pub simmer : ℕ → ℕ → List ℕ → List ℕ × ℕ
simmer zero seed heats = (heats, seed)
simmer (suc resident) seed [] = ([], seed)
simmer (suc resident) seed (h ∷ heats) =
    let (h', s) = simmer_one seed h in
    let (heats', s') = simmer resident s heats in (h' ∷ heats', s')

unfoldable pub update_heat : ℕ → ℕ → List ℕ → List ℕ × ℕ
update_heat resident seed heats =
    let (heats', s) = ping seed (decay heats) in simmer resident s heats'

unfoldable pub heat_glyph : ℕ → Cell
heat_glyph heat =
    if leb 5 heat
    then Canvas.glyph 0x96 0x88
    else if heat == 4
    then Canvas.glyph 0x96 0x93
    else if heat == 3
    then Canvas.glyph 0x96 0x92
    else if heat == 2
    then Canvas.glyph 0x96 0x91
    else blank

module _ (m_width : ℕ) (rect : Rect) where
  -- The loop over the map's cells, with the rounds left and the round i.
  unfoldable pub heat_loop : ℕ → ℕ → List ℕ → List Cell → List Cell
  heat_loop zero i heats cells = cells
  heat_loop (suc rounds) i [] cells = cells
  heat_loop (suc rounds) i (h ∷ heats) cells =
      let row = quot i (rect.w -ℤ pos 2) in
      let col = pos (rem i (rect.w -ℤ pos 2)) in
      heat_loop rounds (suc i) heats (
        put cells ((rect.y +ℤ pos 1 +ℤ row) *ℤ pos m_width +ℤ (rect.x +ℤ pos 1 +ℤ col))
          (heat_glyph h))

abbrev pub with_heat : List ℕ × ℕ → Monitor → Monitor
with_heat (heats, seed) m = record m { ghost_heat_map = heats; rand_seed = seed }

unfoldable pub draw_ghost_map : ℕ → Rect → Monitor → Monitor
draw_ghost_map resident rect m =
    let m1 = text_on (rect.x +ℤ pos 2) rect.y (codes " GHOST MAP (1024TB) ") (box_on rect m) in
    let m2 = with_heat (update_heat resident m1.rand_seed m1.ghost_heat_map) m1 in
    record m2 {
      back_buffer =
          heat_loop m2.width rect (pos_part ((rect.w -ℤ pos 2) *ℤ (rect.h -ℤ pos 2))) 0
            m2.ghost_heat_map m2.back_buffer;
    }
