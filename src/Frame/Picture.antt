-- ===== src/Frame/Picture.antt =====
-- What a frame of src/monitor/SystemMonitor.cpp shows on the first and the last row: no panel reaches
-- them, whatever texts and fibers there are.
use hyperion_euntime_environ.Base.{
  ℕ, ◌+◌, ◌*◌, ◌<◌, ◌≤◌, ◌≡◌, ◌≢◌, refl, ap₂, ◌∙◌, Option, List, ◌==◌, if◌then◌else◌, length, arith,
  ◌⊎◌, ℤ, pos, ◌+ℤ◌, ◌*ℤ◌, pos-add,
}
use hyperion_euntime_environ.Canvas.{Cell, Rect, put, draw_text, draw_box}
use hyperion_euntime_environ.Canvas.Cells.{look, look-put-at}
use hyperion_euntime_environ.Canvas.Text.{byte_at, look-draw_text}
use hyperion_euntime_environ.Canvas.Box.{rect_of, look-draw_box}
use hyperion_euntime_environ.Monitor.{Monitor}
use hyperion_euntime_environ.Panel.{text_on, box_on}
use hyperion_euntime_environ.Frame.Validity.{IsDrawing, text_on-IsDrawing, box_on-IsDrawing}

module _ (m0 : Monitor) (cx cy : ℕ) (hcx : cx < m0.width) (hcy : cy < m0.height) where
  -- A drawing that shows `old` at the cell.
  pub record IsKept (old : Option Cell) (m : Monitor) : Type 0 where
    pub drawing : IsDrawing m0 m
    pub kept : look m0.width m0.height cx cy m.back_buffer ≡ old

  pub back_cells : (m : Monitor) → IsDrawing m0 m → length m.back_buffer ≡ m0.width * m0.height
  back_cells m d = d.valid.back_cells ∙ ap₂ (λ (w h : ℕ). w * h) d.same_width d.same_height

  abbrev pub cell : List Cell → Option Cell
  cell cells = look m0.width m0.height cx cy cells

  pub look-text_on :
      (x y : ℕ) (column row : ℤ) (text : List ℕ) (m : Monitor)
      → IsDrawing m0 m
      → column ≡ pos x
      → row ≡ pos y
      → cell (text_on column row text m).back_buffer
        ≡ (if cy == y then byte_at x text cx (cell m.back_buffer) else cell m.back_buffer)
  unfolding text_on
  look-text_on x y column row text m d ex ey =
      ap₂ (λ (w h : ℕ). cell (draw_text w h m.back_buffer column row text)) d.same_width
        d.same_height
      ∙ ap₂ (λ (a b : ℤ). cell (draw_text m0.width m0.height m.back_buffer a b text)) ex ey
      ∙ look-draw_text m0.width m0.height cx cy hcx hcy y m.back_buffer x text (back_cells m d)

  -- A text on another row.
  pub text_on-IsKept :
      (old : Option Cell) (x y : ℕ) (column row : ℤ) (text : List ℕ) (m : Monitor)
      → column ≡ pos x
      → row ≡ pos y
      → cy ≢ y
      → IsKept old m
      → IsKept old (text_on column row text m)
  text_on-IsKept old x y column row text m ex ey other k = record {
    drawing = text_on-IsDrawing m0 column row text m k.drawing;
    kept = ground (arith, look-text_on x y column row text m k.drawing ex ey, k.kept);
  }

  -- A cell that is written elsewhere.
  pub put-kept :
      (cells : List Cell) (row column : ℤ) (y x : ℕ) (c : Cell)
      → length cells ≡ m0.width * m0.height
      → x < m0.width
      → row ≡ pos y
      → column ≡ pos x
      → cy ≢ y
      → cell (put cells (row *ℤ pos m0.width +ℤ column) c) ≡ cell cells
  put-kept cells row column y x c len hx er ec other =
      ground
        (arith, look-put-at m0.width m0.height cx cy hcx hcy cells row column y x c len hx er ec)

  module _ (x y w h : ℕ) (w_pos : 1 ≤ w) (h_pos : 1 ≤ h) (hx : x + w ≤ m0.width)
      (above : cy < y ⊎ y + h ≤ cy) (hy : y + h ≤ m0.height) where
    abbrev panel : Rect
    panel = rect_of x y w h

    pub box_on-IsKept :
        (old : Option Cell) (m : Monitor) → IsKept old m → IsKept old (box_on panel m)
    unfolding box_on
    box_on-IsKept old m k = record {
      drawing = box_on-IsDrawing m0 panel m k.drawing;
      kept =
          ap₂ (λ (a b : ℕ). cell (draw_box a b panel m.back_buffer)) k.drawing.same_width
            k.drawing.same_height
          ∙ ground (
            arith,
            look-draw_box m0.width m0.height cx cy hcx hcy x y w h w_pos h_pos hx hy m.back_buffer
                (back_cells m k.drawing),
            k.kept,
          );
    }

    -- The title of a panel, on its border.
    pub title-IsKept :
        (old : Option Cell) (text : List ℕ) (m : Monitor)
        → IsKept old m
        → IsKept old (text_on (pos x +ℤ pos 2) (pos y) text (box_on panel m))
    title-IsKept old text m k =
        text_on-IsKept old (x + 2) y (pos x +ℤ pos 2) (pos y) text (box_on panel m) (pos-add x 2)
          refl (ground (arith, above)) (box_on-IsKept old m k)
