-- ===== src/Canvas/Text.antt =====
-- What `draw_text` of src/monitor/SystemMonitor.cpp writes, cell by cell.
use hyperion_euntime_environ.Base.{
  ℕ, zero, suc, ◌*◌, ◌<◌, ◌≡◌, refl, ap, ◌∙◌, ◌&&◌, Option, some, List, [], ◌∷◌, ◌==◌,
  if◌then◌else◌, arith, length, get_elem?, ℤ, pos, ◌+ℤ◌, pos-add,
}
use hyperion_euntime_environ.Canvas.{
  Cell, at, write_byte, text_loop, draw_text, clear_buffer, blank,
}
use hyperion_euntime_environ.Canvas.Cells.{length-put, look, look-put-at}

-- The byte that a text from column x on has at a column, or what was there.
abbrev pub byte_at : ℕ → List ℕ → ℕ → Option Cell → Option Cell
byte_at x [] cx old = old
byte_at x (b ∷ bs) cx old = if cx == x then some (b ∷ []) else byte_at (suc x) bs cx old

byte_at_left :
    (x : ℕ) (bs : List ℕ) (cx : ℕ) (old : Option Cell) → cx < x → byte_at x bs cx old ≡ old
byte_at_left x [] cx old h = refl
byte_at_left x (b ∷ bs) cx old h = ground (arith, byte_at_left (suc x) bs cx old (omega arith))

module _ (width height : ℕ) where
  length-write_byte :
      (cells : List Cell) (y cx : ℤ) (b : ℕ)
      → length (write_byte width height cells y cx b) ≡ length cells
  unfolding write_byte
  length-write_byte cells y cx b = ground (arith, length-put cells (at width height y cx) (b ∷ []))

  length-text_loop :
      (cells : List Cell) (y cx : ℤ) (bs : List ℕ)
      → length (text_loop width height cells y cx bs) ≡ length cells
  unfolding text_loop
  length-text_loop cells y cx [] = refl
  length-text_loop cells y cx (b ∷ bs) =
      length-text_loop (write_byte width height cells y cx b) y (cx +ℤ pos 1) bs
      ∙ length-write_byte cells y cx b

  pub length-draw_text :
      (cells : List Cell) (x y : ℤ) (bs : List ℕ)
      → length (draw_text width height cells x y bs) ≡ length cells
  unfolding draw_text
  length-draw_text cells x y bs = ground (arith, length-text_loop cells y x bs)

module _ (width height : ℕ) (cx cy : ℕ) (hcx : cx < width) (hcy : cy < height) (y : ℕ) where
  look-write_byte :
      (cells : List Cell) (x : ℕ) (column : ℤ) (b : ℕ)
      → length cells ≡ width * height
      → column ≡ pos x
      → look width height cx cy (write_byte width height cells (pos y) column b)
        ≡ (if cy == y && cx == x then some (b ∷ []) else look width height cx cy cells)
  unfolding write_byte
  look-write_byte cells x column b len e =
      ground (arith, look-put-at width height cx cy hcx hcy cells (pos y) column y x (b ∷ []) len)

  look-text_loop :
      (cells : List Cell) (x : ℕ) (column : ℤ) (bs : List ℕ)
      → length cells ≡ width * height
      → column ≡ pos x
      → look width height cx cy (text_loop width height cells (pos y) column bs) ≡ (
          if cy == y
          then byte_at x bs cx (look width height cx cy cells)
          else look width height cx cy cells)
  unfolding text_loop
  look-text_loop cells x column [] len e = ground arith
  look-text_loop cells x column (b ∷ bs) len e =
      let next = write_byte width height cells (pos y) column b in
      ground (
        arith,
        look-write_byte cells x column b len e,
        pos-add x 1,
        look-text_loop next (suc x) (column +ℤ pos 1) bs
            (length-write_byte width height cells (pos y) column b ∙ len)
            (ap (λ (k : ℤ). k +ℤ pos 1) e ∙ pos-add x 1 ∙ ap pos (omega arith)),
        byte_at_left (suc x) bs cx (some (b ∷ [])),
      )

  -- A text drawn in a row of the screen fills the columns from its first one on with its bytes, up
  -- to the row's end, and changes no other cell.
  pub look-draw_text :
      (cells : List Cell) (x : ℕ) (text : List ℕ)
      → length cells ≡ width * height
      → look width height cx cy (draw_text width height cells (pos x) (pos y) text) ≡ (
          if cy == y
          then byte_at x text cx (look width height cx cy cells)
          else look width height cx cy cells)
  unfolding draw_text
  look-draw_text cells x text len = ground (arith, look-text_loop cells x (pos x) text len refl)

-- A cleared buffer has its length, and every cell is blank.
pub length-clear_buffer : (cells : List Cell) → length (clear_buffer cells) ≡ length cells
unfolding clear_buffer
length-clear_buffer [] = refl
length-clear_buffer (c ∷ cells) = ap suc (length-clear_buffer cells)

pub get_elem?-clear_buffer :
    (cells : List Cell) (i : ℕ) → i < length cells → get_elem? (clear_buffer cells) i ≡ some blank
unfolding clear_buffer
get_elem?-clear_buffer [] i h = absurd (omega arith)
get_elem?-clear_buffer (c ∷ cells) zero h = refl
get_elem?-clear_buffer (c ∷ cells) (suc i) h = get_elem?-clear_buffer cells i (omega arith)
