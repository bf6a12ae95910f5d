-- ===== src/Canvas/Box.antt =====
-- What `draw_box` of src/monitor/SystemMonitor.cpp paints, cell by cell.
use hyperion_euntime_environ.Base.{
  ℕ, zero, suc, ◌+◌, ◌-◌, ◌*◌, ◌<◌, ◌≤◌, ◌≡◌, refl, ◌∙◌, ◌&&◌, ◌||◌, Option, some, List, ltb, leb,
  ◌==◌, if◌then◌else◌, arith, length, pos, ◌+ℤ◌, pos-add, pos-sub,
}
use hyperion_euntime_environ.Canvas.{
  Cell, Rect, put, h_line, v_line, tl_corner, tr_corner, bl_corner, br_corner, at, last_row,
  last_column, horizontal, vertical, corners, draw_box,
}
use hyperion_euntime_environ.Canvas.Cells.{length-put, look, look-put-at}

-- A rectangle at a place given by numbers.
abbrev pub rect_of : ℕ → ℕ → ℕ → ℕ → Rect
rect_of x y w h = record { x = pos x; y = pos y; w = pos w; h = pos h }

-- The glyph of a box's border at a cell, or what was there.
abbrev pub bordered : (x y w h cx cy : ℕ) → Option Cell → Option Cell
bordered x y w h cx cy old =
    let last_x = x + w - 1 in
    let last_y = y + h - 1 in
    let inside_x = leb x cx && leb cx last_x in
    let inside_y = leb y cy && leb cy last_y in
    if cy == last_y && cx == last_x
    then some br_corner
    else if cy == last_y && cx == x
    then some bl_corner
    else if cy == y && cx == last_x
    then some tr_corner
    else if cy == y && cx == x
    then some tl_corner
    else if inside_y && (cx == x || cx == last_x)
    then some v_line
    else if inside_x && (cy == y || cy == last_y)
    then some h_line
    else old

-- The lengths of what is painted.
module _ (width height : ℕ) (rect : Rect) where
  length-horizontal :
      (n i : ℕ) (cells : List Cell) → length (horizontal width height n i rect cells) ≡ length cells
  unfolding horizontal
  length-horizontal zero i cells = refl
  length-horizontal (suc n) i cells =
      let top = put cells (at width height rect.y (rect.x +ℤ pos i)) h_line in
      let both = put top (at width height (last_row width height rect) (rect.x +ℤ pos i)) h_line in
      simp (length-horizontal n (suc i) both, length-put)

  length-vertical :
      (n i : ℕ) (cells : List Cell) → length (vertical width height n i rect cells) ≡ length cells
  unfolding vertical
  length-vertical zero i cells = refl
  length-vertical (suc n) i cells =
      let left = put cells (at width height (rect.y +ℤ pos i) rect.x) v_line in
      let both =
        put left (at width height (rect.y +ℤ pos i) (last_column width height rect)) v_line in
      simp (length-vertical n (suc i) both, length-put)

  length-corners : (cells : List Cell) → length (corners width height rect cells) ≡ length cells
  unfolding corners
  length-corners cells = simp length-put

  pub length-draw_box :
      (cells : List Cell) → length (draw_box width height rect cells) ≡ length cells
  unfolding draw_box
  length-draw_box cells = simp (length-corners, length-vertical, length-horizontal)

-- A rectangle on the screen, read at a cell.
module _ (width height : ℕ) (cx cy : ℕ) (hcx : cx < width) (hcy : cy < height) where
  module _ (x y w h : ℕ) (w_pos : 1 ≤ w) (h_pos : 1 ≤ h) (hx : x + w ≤ width)
      (hy : y + h ≤ height) where
    abbrev rect : Rect
    rect = rect_of x y w h

    last_row-pos : last_row width height rect ≡ pos (y + h - 1)
    last_row-pos = rw (pos-add y h) (pos-sub (y + h) 1 (omega arith))

    last_column-pos : last_column width height rect ≡ pos (x + w - 1)
    last_column-pos = rw (pos-add x w) (pos-sub (x + w) 1 (omega arith))

    look-horizontal :
        (n i : ℕ) (cells : List Cell)
        → length cells ≡ width * height
        → i + n ≡ w
        → look width height cx cy (horizontal width height n i rect cells) ≡ (
            if leb (x + i) cx && ltb cx (x + w) && (cy == y || cy == y + h - 1)
            then some h_line
            else look width height cx cy cells)
    unfolding horizontal
    look-horizontal zero i cells len e = ground arith
    look-horizontal (suc n) i cells len e =
        let top_at = at width height (pos y) (pos x +ℤ pos i) in
        let top = put cells top_at h_line in
        let bottom_at = at width height (last_row width height rect) (pos x +ℤ pos i) in
        let top_len = length-put cells top_at h_line ∙ len in
        ground (
          arith,
          look-put-at width height cx cy hcx hcy cells (pos y) (pos x +ℤ pos i) y (x + i) h_line len
              (omega arith) refl (pos-add x i),
          look-put-at width height cx cy hcx hcy top (last_row width height rect) (pos x +ℤ pos i)
              (y + h - 1) (x + i) h_line top_len (omega arith) last_row-pos (pos-add x i),
          look-horizontal n (suc i) (put top bottom_at h_line)
              (length-put top bottom_at h_line ∙ top_len) (omega arith),
        )

    look-vertical :
        (n i : ℕ) (cells : List Cell)
        → length cells ≡ width * height
        → i + n ≡ h
        → look width height cx cy (vertical width height n i rect cells) ≡ (
            if leb (y + i) cy && ltb cy (y + h) && (cx == x || cx == x + w - 1)
            then some v_line
            else look width height cx cy cells)
    unfolding vertical
    look-vertical zero i cells len e = ground arith
    look-vertical (suc n) i cells len e =
        let left_at = at width height (pos y +ℤ pos i) (pos x) in
        let left = put cells left_at v_line in
        let right_at = at width height (pos y +ℤ pos i) (last_column width height rect) in
        let left_len = length-put cells left_at v_line ∙ len in
        ground (
          arith,
          look-put-at width height cx cy hcx hcy cells (pos y +ℤ pos i) (pos x) (y + i) x v_line len
              (omega arith) (pos-add y i) refl,
          look-put-at width height cx cy hcx hcy left (pos y +ℤ pos i)
              (last_column width height rect) (y + i) (x + w - 1) v_line left_len (omega arith)
              (pos-add y i) last_column-pos,
          look-vertical n (suc i) (put left right_at v_line)
              (length-put left right_at v_line ∙ left_len) (omega arith),
        )

    -- The last write at a cell is the one that is seen.
    look-corners :
        (cells : List Cell)
        → length cells ≡ width * height
        → look width height cx cy (corners width height rect cells) ≡ (
            if cy == y + h - 1 && cx == x + w - 1
            then some br_corner
            else if cy == y + h - 1 && cx == x
            then some bl_corner
            else if cy == y && cx == x + w - 1
            then some tr_corner
            else if cy == y && cx == x
            then some tl_corner
            else look width height cx cy cells)
    unfolding corners
    look-corners cells len =
        let row = last_row width height rect in
        let column = last_column width height rect in
        let tl = put cells (at width height (pos y) (pos x)) tl_corner in
        let tr = put tl (at width height (pos y) column) tr_corner in
        let bl = put tr (at width height row (pos x)) bl_corner in
        let tl_len = length-put cells (at width height (pos y) (pos x)) tl_corner ∙ len in
        let tr_len = length-put tl (at width height (pos y) column) tr_corner ∙ tl_len in
        let bl_len = length-put tr (at width height row (pos x)) bl_corner ∙ tr_len in
        ground (
          arith,
          look-put-at width height cx cy hcx hcy cells (pos y) (pos x) y x tl_corner len
              (omega arith) refl refl,
          look-put-at width height cx cy hcx hcy tl (pos y) column y (x + w - 1) tr_corner tl_len
              (omega arith) refl last_column-pos,
          look-put-at width height cx cy hcx hcy tr row (pos x) (y + h - 1) x bl_corner tr_len
              (omega arith) last_row-pos refl,
          look-put-at width height cx cy hcx hcy bl row column (y + h - 1) (x + w - 1) br_corner
              bl_len (omega arith) last_row-pos last_column-pos,
        )

    -- A box that lies within the screen, of at least one row and one column, is drawn as its
    -- border, the corners over the lines, and changes no other cell.
    pub look-draw_box :
        (cells : List Cell)
        → length cells ≡ width * height
        → look width height cx cy (draw_box width height rect cells)
          ≡ bordered x y w h cx cy (look width height cx cy cells)
    unfolding draw_box
    look-draw_box cells len =
        let across = horizontal width height w 0 rect cells in
        let across_len = length-horizontal width height rect w 0 cells ∙ len in
        let down = vertical width height h 0 rect across in
        ground (
          arith,
          look-corners down (length-vertical width height rect h 0 across ∙ across_len),
          look-vertical h 0 across across_len (omega arith),
          look-horizontal w 0 cells len (omega arith),
        )
