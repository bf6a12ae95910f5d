-- ===== src/Canvas/Cells.antt =====
-- Reading a cell of src/monitor/SystemMonitor.cpp's buffer after a guarded write, and the places of
-- the cells in the buffer.
use hyperion_euntime_environ.Base.{
  ℕ, ◌+◌, ◌*◌, ◌<◌, ◌≡◌, ap, ap₂, ◌∙◌, Bool, ◌&&◌, Option, some, List, ◌==◌, if◌then◌else◌, arith,
  length, set, get_elem?, length-set, get_elem?-set_self, get_elem?-set_ne, ℤ, pos, to_size,
  pos-add, pos-mul,
}
use hyperion_euntime_environ.Canvas.{Cell, put, at}

pub length-put : (cells : List Cell) (idx : ℤ) (c : Cell) → length (put cells idx c) ≡ length cells
unfolding put
length-put cells idx c = ground (arith, length-set {0} cells (to_size idx) c)

get_elem?-put :
    (cells : List Cell) (i j : ℕ) (c : Cell)
    → j < length cells
    → get_elem? (put cells (pos i) c) j ≡ (if i == j then some c else get_elem? cells j)
unfolding put
get_elem?-put cells i j c h = ground (
  arith,
  get_elem?-set_self {0} cells j c,
  get_elem?-set_ne {0} cells i j c,
  ap (λ (k : ℕ). get_elem? (set cells k c) j) {x = i} {y = j},
)

pub place_inside : (w h x y : ℕ) → x < w → y < h → y * w + x < w * h
place_inside w h x y hx hy = grind arith

-- Two cells of the screen have the same place only when they are the same.
place-eq : (w x y cx cy : ℕ) → x < w → cx < w → (y * w + x == cy * w + cx) ≡ (y == cy && x == cx)
place-eq w x y cx cy hx hc = ground (
  arith,
  place_inside w cy x y hx,
  place_inside w y cx cy hc,
  ap (λ (k : ℕ). k * w) {x = y} {y = cy},
)

-- What the screen shows at a cell.
abbrev pub look : ℕ → ℕ → ℕ → ℕ → List Cell → Option Cell
look width height cx cy cells = get_elem? cells (cy * width + cx)

-- A write on the screen, read at a cell.
module _ (width height : ℕ) (cx cy : ℕ) (hcx : cx < width) (hcy : cy < height) where
  at-pos : (y x : ℕ) → at width height (pos y) (pos x) ≡ pos (y * width + x)
  at-pos y x = rw (pos-mul y width) (pos-add (y * width) x)

  look-put :
      (cells : List Cell) (y x : ℕ) (c : Cell)
      → length cells ≡ width * height
      → x < width
      → look width height cx cy (put cells (at width height (pos y) (pos x)) c)
        ≡ (if y == cy && x == cx then some c else look width height cx cy cells)
  look-put cells y x c len hx =
      ap (λ (k : ℤ). look width height cx cy (put cells k c)) (at-pos y x)
      ∙ get_elem?-put cells (y * width + x) (cy * width + cx) c
          (omega (arith, place_inside width height cx cy hcx hcy))
      ∙ ap (λ (b : Bool). if b then some c else look width height cx cy cells)
          (place-eq width x y cx cy hx hcx)

  -- The same at a row and a column that are computed.
  pub look-put-at :
      (cells : List Cell) (row column : ℤ) (y x : ℕ) (c : Cell)
      → length cells ≡ width * height
      → x < width
      → row ≡ pos y
      → column ≡ pos x
      → look width height cx cy (put cells (at width height row column) c)
        ≡ (if y == cy && x == cx then some c else look width height cx cy cells)
  look-put-at cells row column y x c len hx r k =
      ap₂ (λ (a b : ℤ). look width height cx cy (put cells (at width height a b) c)) r k
      ∙ look-put cells y x c len hx
