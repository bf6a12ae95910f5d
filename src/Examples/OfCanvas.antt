-- ===== src/Examples/OfCanvas.antt =====
-- src/monitor/SystemMonitor.cpp on a screen of 6 columns and 4 rows.
use hyperion_euntime_environ.Base.{
  ℕ, ◌<◌, ◌≡◌, refl, ◌⊎◌, some, List, [], ◌∷◌, replicate, ◌==◌, if◌then◌else◌, arith, length,
  get_elem?, pos, ◌+ℤ◌, ◌-ℤ◌, ◌*ℤ◌,
}
use hyperion_euntime_environ.Canvas.{Cell, blank, dot, draw_box, draw_text, draw_line}
use hyperion_euntime_environ.Canvas.Cells.{look}
use hyperion_euntime_environ.Canvas.Box.{rect_of, bordered, look-draw_box}
use hyperion_euntime_environ.Canvas.Text.{byte_at, look-draw_text}
use hyperion_euntime_environ.Canvas.Line.{draw_line-total}

abbrev screen : List Cell
screen = replicate 24 blank

look-draw_box_example :
    look 6 4 3 2 (draw_box 6 4 (rect_of 1 0 3 3) screen)
    ≡ bordered 1 0 3 3 3 2 (look 6 4 3 2 screen)
look-draw_box_example =
    look-draw_box 6 4 3 2 (omega arith) (omega arith) 1 0 3 3 (omega arith) (omega arith)
      (omega arith) (omega arith) screen refl

abbrev letters : List ℕ
letters = 65 ∷ 66 ∷ []

look-draw_text_example :
    look 6 4 3 1 (draw_text 6 4 screen (pos 2) (pos 1) letters)
    ≡ (if 1 == 1 then byte_at 2 letters 3 (look 6 4 3 1 screen) else look 6 4 3 1 screen)
look-draw_text_example = look-draw_text 6 4 3 1 (omega arith) (omega arith) 1 screen 2 letters refl

draw_line-total_example :
    (result : List Cell) × (draw_line 6 8 (pos 1) (pos 0) (pos 5) (pos 3) screen ≡ some result)
    × (length result ≡ length screen)
    × ((j : ℕ)
        → j < length screen
        → (pos 0 *ℤ pos 6 +ℤ pos 1 ≡ pos j) ⊎ (pos 3 *ℤ pos 6 +ℤ pos 5 ≡ pos j)
        → get_elem? result j ≡ some dot)
unfolding ◌-ℤ◌
draw_line-total_example =
    draw_line-total 6 8 (pos 1) (pos 0) (pos 5) (pos 3) screen (omega arith)
      (omega arith, omega arith) (omega arith, omega arith) (omega arith)
