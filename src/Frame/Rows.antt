-- ===== src/Frame/Rows.antt =====
-- The titles, the heat map and the lines of a panel of src/monitor/SystemMonitor.cpp stay in its rows.
use native.Mathlib.Nat.{div-lt_iff_lt-mul, mod-lt, mul_comm}
use hyperion_euntime_environ.Base.{
  ℕ, zero, suc, ◌+◌, ◌-◌, ◌*◌, ◌/◌, ◌%◌, ◌<◌, ◌≤◌, ◌≡◌, refl, ap, ap₂, ◌∙◌, Option, List, [], ◌∷◌,
  length, arith, ◌⊎◌, ℤ, pos, pos_part, ◌+ℤ◌, ◌-ℤ◌, ◌*ℤ◌, quot, rem, pos-add, pos-sub, pos-mul,
}
use hyperion_euntime_environ.Base.Text.{codes}
use hyperion_euntime_environ.Canvas.{Cell, Rect, put}
use hyperion_euntime_environ.Canvas.Cells.{length-put}
use hyperion_euntime_environ.Canvas.Box.{rect_of}
use hyperion_euntime_environ.Monitor.{Monitor}
use hyperion_euntime_environ.Panel.{
  text_on, box_on, heat_loop, heat_glyph, draw_ghost_map, update_heat,
}
use hyperion_euntime_environ.Frame.Validity.{draw_ghost_map-IsDrawing}
use hyperion_euntime_environ.Frame.Picture.{
  IsKept, cell, back_cells, text_on-IsKept, put-kept, title-IsKept,
}

-- A cell of a map of a columns and b rows.
inner_place : (i a b : ℕ) → i < a * b → (i / a < b) × (i % a < a)
inner_place i zero b l = absurd (omega arith)
inner_place i (suc a) b l =
    let some_columns : 0 < suc a = omega arith in
    (
      (div-lt_iff_lt-mul {x = i} {y = b} some_columns).1 (omega (arith, mul_comm b (suc a))),
      mod-lt i some_columns,
    )

module _ (m0 : Monitor) (cx cy : ℕ) (hcx : cx < m0.width) (hcy : cy < m0.height) (x y w h : ℕ)
    (w_two : 2 ≤ w) (h_two : 2 ≤ h) (hx : x + w ≤ m0.width) (above : cy < y ⊎ y + h ≤ cy)
    (hy : y + h ≤ m0.height) where
  abbrev pub panel : Rect
  panel = rect_of x y w h

  abbrev inner_w : ℤ
  inner_w = pos w -ℤ pos 2

  abbrev heat_row : ℕ → ℤ
  heat_row i = pos y +ℤ pos 1 +ℤ quot i inner_w

  abbrev heat_column : ℕ → ℤ
  heat_column i = pos x +ℤ pos 1 +ℤ pos (rem i inner_w)

  heat_row-pos : (i : ℕ) → heat_row i ≡ pos (y + 1 + i / (w - 2))
  unfolding quot
  heat_row-pos i =
      ap (λ (d : ℤ). pos y +ℤ pos 1 +ℤ quot i d) (pos-sub w 2 w_two)
      ∙ ap (λ (a : ℤ). a +ℤ pos (i / (w - 2))) (pos-add y 1)
      ∙ pos-add (y + 1) (i / (w - 2))

  heat_column-pos : (i : ℕ) → heat_column i ≡ pos (x + 1 + i % (w - 2))
  unfolding rem
  heat_column-pos i =
      ap (λ (d : ℤ). pos x +ℤ pos 1 +ℤ pos (rem i d)) (pos-sub w 2 w_two)
      ∙ ap (λ (a : ℤ). a +ℤ pos (i % (w - 2))) (pos-add x 1)
      ∙ pos-add (x + 1) (i % (w - 2))

  heat_loop-kept :
      (rounds i : ℕ) (heats : List ℕ) (cells : List Cell)
      → i + rounds ≤ (w - 2) * (h - 2)
      → length cells ≡ m0.width * m0.height
      → cell m0 cx cy hcx hcy (heat_loop m0.width panel rounds i heats cells)
        ≡ cell m0 cx cy hcx hcy cells
  unfolding heat_loop
  heat_loop-kept zero i heats cells l len = refl
  heat_loop-kept (suc rounds) i [] cells l len = refl
  heat_loop-kept (suc rounds) i (t ∷ heats) cells l len =
      let place = heat_row i *ℤ pos m0.width +ℤ heat_column i in
      heat_loop-kept rounds (suc i) heats (put cells place (heat_glyph t)) (omega arith)
        (length-put cells place (heat_glyph t) ∙ len)
      ∙ put-kept m0 cx cy hcx hcy cells (heat_row i) (heat_column i) (y + 1 + i / (w - 2))
          (x + 1 + i % (w - 2)) (heat_glyph t) len
          (omega (arith, (inner_place i (w - 2) (h - 2) (omega arith)).1)) (heat_row-pos i)
          (heat_column-pos i)
          (ground (arith, above, (inner_place i (w - 2) (h - 2) (omega arith)).0))

  abbrev pub Kept : Option Cell → Monitor → Type 0
  Kept old m = IsKept m0 cx cy hcx hcy old m

  pub titled :
      (old : Option Cell) (text : List ℕ) (m : Monitor)
      → Kept old m
      → Kept old (text_on (pos x +ℤ pos 2) (pos y) text (box_on panel m))
  titled = title-IsKept m0 cx cy hcx hcy x y w h (omega arith) (omega arith) hx above hy

  area : pos_part (inner_w *ℤ (pos h -ℤ pos 2)) ≡ (w - 2) * (h - 2)
  area =
      ap₂ (λ (a b : ℤ). pos_part (a *ℤ b)) (pos-sub w 2 w_two) (pos-sub h 2 h_two)
      ∙ ap pos_part (pos-mul (w - 2) (h - 2))

  pub draw_ghost_map-IsKept :
      (resident : ℕ) (old : Option Cell) (m : Monitor)
      → Kept old m
      → Kept old (draw_ghost_map resident panel m)
  unfolding draw_ghost_map
  draw_ghost_map-IsKept resident old m k =
      let m1 = text_on (pos x +ℤ pos 2) (pos y) (codes " GHOST MAP (1024TB) ") (box_on panel m) in
      let k1 : Kept old m1 = titled old (codes " GHOST MAP (1024TB) ") m k in
      let heats = (update_heat resident m1.rand_seed m1.ghost_heat_map).0 in
      record {
        drawing = draw_ghost_map-IsDrawing m0 resident panel m k.drawing;
        kept =
            ap₂ (λ (a n : ℕ). cell m0 cx cy hcx hcy (heat_loop a panel n 0 heats m1.back_buffer))
              k1.drawing.same_width area
            ∙ heat_loop-kept ((w - 2) * (h - 2)) 0 heats m1.back_buffer (omega arith)
                (back_cells m0 cx cy hcx hcy m1 k1.drawing)
            ∙ k1.kept;
      }

  pub inner_text :
      (old : Option Cell) (dx dy : ℕ) (text : List ℕ) (m : Monitor)
      → dy < h
      → Kept old m
      → Kept old (text_on (pos x +ℤ pos dx) (pos y +ℤ pos dy) text m)
  inner_text old dx dy text m l k =
      text_on-IsKept m0 cx cy hcx hcy old (x + dx) (y + dy) (pos x +ℤ pos dx) (pos y +ℤ pos dy) text
        m (pos-add x dx) (pos-add y dy) (ground (arith, above)) k
