-- ===== src/Canvas.antt =====
-- src/monitor/SystemMonitor.cpp: the drawing calls on the back buffer of the terminal monitor. A
-- coordinate is an integer, and a cell holds the bytes of one glyph.
pub mod Cells
pub mod Text
pub mod Box
pub mod Line
use hyperion_euntime_environ.Base.{
  ◌^◌, ◌-◌, ℕ, zero, suc, ◌+◌, ◌*◌, ◌<◌, Bool, true, false, ◌&&◌, ◌||◌, Option, none, some, List,
  [], ◌∷◌, ltb, leb, ◌==◌, if◌then◌else◌, length, set, ℤ, pos, negsuc, pos_part, neg_part, to_size,
  ◌+ℤ◌, ◌-ℤ◌, ◌*ℤ◌, ltb_ℤ, leb_ℤ, eqb_ℤ,
}

-- The std::string of a cell, as bytes.
abbrev pub Cell : Type 0
Cell = List ℕ

-- `BoxChars`, in UTF-8
abbrev pub glyph : ℕ → ℕ → Cell
glyph b c = 0xE2 ∷ b ∷ c ∷ []

abbrev pub h_line : Cell
h_line = glyph 0x94 0x80

abbrev pub v_line : Cell
v_line = glyph 0x94 0x82

abbrev pub tl_corner : Cell
tl_corner = glyph 0x94 0x8C

abbrev pub tr_corner : Cell
tr_corner = glyph 0x94 0x90

abbrev pub bl_corner : Cell
bl_corner = glyph 0x94 0x94

abbrev pub br_corner : Cell
br_corner = glyph 0x94 0x98

abbrev pub blank : Cell
blank = 32 ∷ []

abbrev pub dot : Cell
dot = 46 ∷ []

pub record Rect : Type 0 where
  pub x : ℤ
  pub y : ℤ
  pub w : ℤ
  pub h : ℤ

-- `if (idx < m_back_buffer.size()) m_back_buffer[idx] = c`: the index is compared as a size_t.
unfoldable pub put : List Cell → ℤ → Cell → List Cell
put cells idx c = if ltb (to_size idx) (length cells) then set cells (to_size idx) c else cells

unfoldable pub clear_buffer : List Cell → List Cell
clear_buffer [] = []
clear_buffer (c ∷ cells) = blank ∷ clear_buffer cells

-- `m_width` and `m_height` come from a winsize, so they are not negative.
module _ (m_width m_height : ℕ) where
  -- A byte of a text on row y, which is clipped to the row.
  unfoldable pub write_byte : List Cell → ℤ → ℤ → ℕ → List Cell
  write_byte cells y cx b =
      if leb_ℤ (pos 0) cx && ltb_ℤ cx (pos m_width)
      then put cells (y *ℤ pos m_width +ℤ cx) (b ∷ [])
      else cells

  -- The loop of `draw_text`, with the column that the next byte goes to.
  unfoldable pub text_loop : List Cell → ℤ → ℤ → List ℕ → List Cell
  text_loop cells y cx [] = cells
  text_loop cells y cx (b ∷ bs) = text_loop (write_byte cells y cx b) y (cx +ℤ pos 1) bs

  unfoldable pub draw_text : List Cell → ℤ → ℤ → List ℕ → List Cell
  draw_text cells x y text =
      if ltb_ℤ y (pos 0) || leb_ℤ (pos m_height) y then cells else text_loop cells y x text

  -- `(row) * m_width + (column)`
  abbrev pub at : ℤ → ℤ → ℤ
  at row column = row *ℤ pos m_width +ℤ column

  abbrev pub last_row : Rect → ℤ
  last_row rect = rect.y +ℤ rect.h -ℤ pos 1

  abbrev pub last_column : Rect → ℤ
  last_column rect = rect.x +ℤ rect.w -ℤ pos 1

  -- The two loops of `draw_box`, with the rounds left and the round i.
  unfoldable pub horizontal : ℕ → ℕ → Rect → List Cell → List Cell
  horizontal zero i rect cells = cells
  horizontal (suc n) i rect cells = horizontal n (suc i) rect (
      put (put cells (at rect.y (rect.x +ℤ pos i)) h_line) (at (last_row rect) (rect.x +ℤ pos i))
        h_line)

  unfoldable pub vertical : ℕ → ℕ → Rect → List Cell → List Cell
  vertical zero i rect cells = cells
  vertical (suc n) i rect cells = vertical n (suc i) rect (
      put (put cells (at (rect.y +ℤ pos i) rect.x) v_line) (at (rect.y +ℤ pos i) (last_column rect))
        v_line)

  unfoldable pub corners : Rect → List Cell → List Cell
  corners rect cells =
      put
        (put (put (put cells (at rect.y rect.x) tl_corner) (at rect.y (last_column rect)) tr_corner)
          (at (last_row rect) rect.x) bl_corner)
        (at (last_row rect) (last_column rect)) br_corner

  unfoldable pub draw_box : Rect → List Cell → List Cell
  draw_box rect cells =
      corners rect (vertical (pos_part rect.h) 0 rect (horizontal (pos_part rect.w) 0 rect cells))

abbrev pub abs : ℤ → ℕ
abs a = pos_part a + neg_part a

abbrev pub sign : ℤ → ℤ → ℤ
sign a b = if ltb_ℤ a b then pos 1 else negsuc 0

-- Whether a value is that of an int.
abbrev pub is_int : ℤ → Bool
is_int z = leb_ℤ (negsuc (2 ^ 31 - 1)) z && leb_ℤ z (pos (2 ^ 31 - 1))

-- The variables of `draw_line`'s loop.
pub record Pen : Type 0 where
  pub x0 : ℤ
  pub y0 : ℤ
  pub err : ℤ

-- The two updates of a round, both by the `e2` from its beginning.
unfoldable pub move_x : ℤ → ℤ → ℤ → Pen → Pen
move_x sx dy e2 p = if leb_ℤ dy e2 then record p { err = p.err +ℤ dy; x0 = p.x0 +ℤ sx } else p

unfoldable pub move_y : ℤ → ℤ → ℤ → Pen → Pen
move_y sy dx e2 p = if leb_ℤ e2 dx then record p { err = p.err +ℤ dx; y0 = p.y0 +ℤ sy } else p

module _ (m_width : ℕ) (sx sy dx dy x1 y1 : ℤ) where
  unfoldable pub advance : Pen → Pen
  advance p = let e2 = pos 2 *ℤ p.err in move_y sy dx e2 (move_x sx dy e2 p)

  unfoldable pub plot : Pen → List Cell → List Cell
  plot p cells =
      let idx = p.y0 *ℤ pos m_width +ℤ p.x0 in
      if leb_ℤ (pos 0) idx && ltb_ℤ idx (pos (length cells))
      then set cells (pos_part idx) dot
      else cells

  -- The int arithmetic of a round: the cell's index, and what the step computes.
  unfoldable pub cell_fits : Pen → Bool
  cell_fits p = is_int (p.y0 *ℤ pos m_width) && is_int (p.y0 *ℤ pos m_width +ℤ p.x0)

  abbrev pub pen_fits : Pen → Bool
  pen_fits p = is_int p.err && (is_int p.x0 && is_int p.y0)

  unfoldable pub step_fits : Pen → Bool
  unfolding advance
  step_fits p =
      is_int (pos 2 *ℤ p.err)
      && (pen_fits (move_x sx dy (pos 2 *ℤ p.err) p) && pen_fits (advance p))

  -- `none`: the fuel ran out, or an int overflowed, which leaves the source's behaviour undefined.
  unfoldable pub line_loop : ℕ → Pen → List Cell → Option (List Cell)
  line_loop zero p cells = none
  line_loop (suc fuel) p cells =
      let rest = line_loop fuel (advance p) (plot p cells) in
      if cell_fits p
      then (if eqb_ℤ p.x0 x1 && eqb_ℤ p.y0 y1
          then some (plot p cells)
          else if step_fits p
          then rest
          else none)
      else none

unfoldable pub draw_line : ℕ → ℕ → ℤ → ℤ → ℤ → ℤ → List Cell → Option (List Cell)
draw_line m_width fuel x0 y0 x1 y1 cells =
    let dx = pos (abs (x1 -ℤ x0)) in
    let dy = pos 0 -ℤ pos (abs (y1 -ℤ y0)) in
    let drawn =
      line_loop m_width (sign x0 x1) (sign y0 y1) dx dy x1 y1 fuel
        (record { x0 = x0; y0 = y0; err = dx +ℤ dy }) cells in
    if is_int (x1 -ℤ x0) && (is_int (y1 -ℤ y0) && (is_int dx && (is_int dy && is_int (dx +ℤ dy))))
    then drawn
    else none
