-- ===== src/Canvas/Line.antt =====
-- `draw_line` of src/monitor/SystemMonitor.cpp ends, and paints the points that it joins.
mod Distance
mod Heading
use hyperion_euntime_environ.Base.{
  ◌^◌, neg_part, ℕ, zero, suc, ◌+◌, ◌-◌, ◌*◌, ◌<◌, ◌≤◌, ◌≡◌, ◌≢◌, refl, ap, ap₂, sym, subst, ◌∙◌,
  Bool, true, false, ◌&&◌, Option, none, some, List, [], ◌∷◌, ltb, leb, ◌==◌, if◌then◌else◌, arith,
  length, get_elem?, inl, inr, Bool-cases, ◌⊎◌, leb→le, set, get_elem?-set_self, get_elem?-set_ne,
  length-set, get_elem?-inside, ℤ, pos, negsuc, pos_part, neg_part, ◌+ℤ◌, ◌-ℤ◌, ◌*ℤ◌, pos-add,
  leb_ℤ, ltb_ℤ, eqb_ℤ, +ℤ_parts, -ℤ_parts, eq_of_parts, int_laws,
}
use native.Mathlib.Nat.{mul_comm}
use hyperion_euntime_environ.Canvas.{
  Cell, dot, Pen, is_int, cell_fits, pen_fits, step_fits, move_x, move_y, advance, plot, line_loop,
  draw_line, abs, sign,
}
use Distance.{
  is_int-true, Away-bound, product_bound, double_parts, IsUnit, Away, eqb_ℤ-Away, sign-IsUnit,
  sign-Away, minus_parts,
}
use Heading.{moved-IsHeaded, Balanced, IsHeaded, advance-Nearer}

-- A painted cell stays painted, and the point of the pen is painted if the buffer has it.
module _ (m_width : ℕ) (sx sy dx dy x1 y1 : ℤ) (p : Pen) (cells : List Cell) where
  abbrev plotted : List Cell
  plotted = plot m_width sx sy dx dy x1 y1 p cells

  length-plot : length plotted ≡ length cells
  unfolding plot
  length-plot = ground (arith, length-set {0} cells (pos_part (p.y0 *ℤ pos m_width +ℤ p.x0)) dot)

  plot_keeps : (j : ℕ) → get_elem? cells j ≡ some dot → get_elem? plotted j ≡ some dot
  unfolding plot
  plot_keeps j h =
      let i = pos_part (p.y0 *ℤ pos m_width +ℤ p.x0) in
      ground (
        arith,
        get_elem?-inside {0} cells j dot h,
        get_elem?-set_self {0} cells j dot,
        get_elem?-set_ne {0} cells i j dot,
        ap (λ (k : ℕ). get_elem? (set cells k dot) j) {x = i} {y = j},
      )

  plot_here :
      (j : ℕ)
      → p.y0 *ℤ pos m_width +ℤ p.x0 ≡ pos j
      → j < length cells
      → get_elem? plotted j ≡ some dot
  unfolding plot
  plot_here j e h = ground (arith, get_elem?-set_self {0} cells j dot)

module _ (m_width : ℕ) (sx sy : ℤ) (x_unit : IsUnit sx) (y_unit : IsUnit sy) (dx dy : ℕ)
    (x1 y1 : ℤ) where
  abbrev run : ℕ → Pen → List Cell → Option (List Cell)
  run = line_loop m_width sx sy (pos dx) (pos 0 -ℤ pos dy) x1 y1

  -- What the loop has done when it ends.
  record IsDrawn (p : Pen) (cells result : List Cell) : Type 0 where
    starts :
        (j : ℕ)
        → p.y0 *ℤ pos m_width +ℤ p.x0 ≡ pos j
        → j < length cells
        → get_elem? result j ≡ some dot
    same_length : length result ≡ length cells
    keeps : (j : ℕ) → get_elem? cells j ≡ some dot → get_elem? result j ≡ some dot
    reaches :
        (j : ℕ) → y1 *ℤ pos m_width +ℤ x1 ≡ pos j → j < length cells → get_elem? result j ≡ some dot

  abbrev at_end : Pen → Bool
  at_end p = eqb_ℤ p.x0 x1 && eqb_ℤ p.y0 y1

  abbrev painted : Pen → List Cell → List Cell
  painted = plot m_width sx sy (pos dx) (pos 0 -ℤ pos dy) x1 y1

  abbrev next : Pen → Pen
  next = advance m_width sx sy (pos dx) (pos 0 -ℤ pos dy) x1 y1

  arrived : (p : Pen) (cells : List Cell) → at_end p ≡ true → IsDrawn p cells (painted p cells)
  arrived p cells t =
      let ex : p.x0 ≡ x1 = eq_of_parts p.x0 x1 (ground arith) in
      let ey : p.y0 ≡ y1 = eq_of_parts p.y0 y1 (ground arith) in
      record {
        starts = plot_here m_width sx sy (pos dx) (pos 0 -ℤ pos dy) x1 y1 p cells;
        same_length = length-plot m_width sx sy (pos dx) (pos 0 -ℤ pos dy) x1 y1 p cells;
        keeps = plot_keeps m_width sx sy (pos dx) (pos 0 -ℤ pos dy) x1 y1 p cells;
        reaches = λ j e h.
            plot_here m_width sx sy (pos dx) (pos 0 -ℤ pos dy) x1 y1 p cells j
              (ap₂ (λ (a b : ℤ). b *ℤ pos m_width +ℤ a) ex ey ∙ e) h;
      }

  -- What the rest of the loop draws after one plot is drawn over the cells before it.
  IsDrawn-painted :
      (p : Pen) (cells result : List Cell)
      → IsDrawn (next p) (painted p cells) result
      → IsDrawn p cells result
  IsDrawn-painted p cells result d =
      let len = length-plot m_width sx sy (pos dx) (pos 0 -ℤ pos dy) x1 y1 p cells in
      record {
        starts = λ j e h.
            d.keeps j (plot_here m_width sx sy (pos dx) (pos 0 -ℤ pos dy) x1 y1 p cells j e h);
        same_length = d.same_length ∙ len;
        keeps = λ j h.
            d.keeps j (plot_keeps m_width sx sy (pos dx) (pos 0 -ℤ pos dy) x1 y1 p cells j h);
        reaches = λ j e h. d.reaches j e (omega (arith, len));
      }

  not_there :
      (a b : ℕ) (p : Pen) → IsHeaded m_width sx sy dx dy x1 y1 a b p → at_end p ≡ false → 0 < a + b
  not_there a b p h t =
      ground
        (arith, eqb_ℤ-Away sx a p.x0 x1 x_unit h.columns, eqb_ℤ-Away sy b p.y0 y1 y_unit h.rows)

  -- Between points that are near enough in a window that is narrow enough every int of a round fits.
  module _ (narrow : m_width < 2 ^ 16) (near_x : abs x1 ≤ 8192) (near_y : abs y1 ≤ 8192)
      (dx_small : dx ≤ 16384) (dy_small : dy ≤ 16384) where
    headed_x : (a b : ℕ) (p : Pen) → IsHeaded m_width sx sy dx dy x1 y1 a b p → abs p.x0 ≤ 24576
    headed_x a b p h =
        omega (arith, Away-bound sx a 8192 p.x0 x1 x_unit h.columns near_x, h.columns_bound)

    headed_y : (a b : ℕ) (p : Pen) → IsHeaded m_width sx sy dx dy x1 y1 a b p → abs p.y0 ≤ 24576
    headed_y a b p h =
        omega (arith, Away-bound sy b 8192 p.y0 y1 y_unit h.rows near_y, h.rows_bound)

    headed-pen_fits :
        (a b : ℕ) (p : Pen)
        → IsHeaded m_width sx sy dx dy x1 y1 a b p
        → pen_fits m_width sx sy (pos dx) (pos 0 -ℤ pos dy) x1 y1 p ≡ true
    headed-pen_fits a b p h =
        rw
          (
            is_int-true p.err (omega (arith, h.high)) (omega (arith, h.low)),
            is_int-true p.x0 (omega (arith, headed_x a b p h)) (omega (arith, headed_x a b p h)),
            is_int-true p.y0 (omega (arith, headed_y a b p h)) (omega (arith, headed_y a b p h)),
          )
          refl

    row_parts :
        (y : ℤ)
        → abs y ≤ 24576
        → (pos_part (y *ℤ pos m_width) ≤ 24576 * 65535)
          × (neg_part (y *ℤ pos m_width) ≤ 24576 * 65535)
    unfolding ◌*ℤ◌
    row_parts (pos n) h = ground (arith, product_bound n m_width (omega (arith, h)) narrow)
    row_parts (negsuc n) h = ground (arith, product_bound (suc n) m_width (omega (arith, h)) narrow)

    headed-cell_fits :
        (a b : ℕ) (p : Pen)
        → IsHeaded m_width sx sy dx dy x1 y1 a b p
        → cell_fits m_width sx sy (pos dx) (pos 0 -ℤ pos dy) x1 y1 p ≡ true
    unfolding cell_fits
    headed-cell_fits a b p h =
        let row = p.y0 *ℤ pos m_width in
        let (up, down) = row_parts p.y0 (headed_y a b p h) in
        let x = headed_x a b p h in
        rw
          (
            is_int-true row (omega (arith, up)) (omega (arith, down)),
            is_int-true (row +ℤ p.x0) (omega (arith, up, down, x, +ℤ_parts row p.x0))
                (omega (arith, up, down, x, +ℤ_parts row p.x0)),
          )
          refl

    headed-step_fits :
        (a b : ℕ) (p : Pen)
        → IsHeaded m_width sx sy dx dy x1 y1 a b p
        → 0 < a + b
        → step_fits m_width sx sy (pos dx) (pos 0 -ℤ pos dy) x1 y1 p ≡ true
    unfolding step_fits
    headed-step_fits a b p h far =
        let (a', moved) = moved-IsHeaded m_width sx sy dx dy x1 y1 a b p h far in
        let (a2, b2, advanced, less) = advance-Nearer m_width sx sy dx dy x1 y1 a b p h far in
        let e2 = pos 2 *ℤ p.err in
        rw
          (
            is_int-true e2 (omega (arith, double_parts p.err, h.high))
                (omega (arith, double_parts p.err, h.low)),
            headed-pen_fits a' b (move_x sx (pos 0 -ℤ pos dy) e2 p) moved,
            headed-pen_fits a2 b2 (next p) advanced,
          )
          refl

    line_loop-total :
        (fuel a b : ℕ) (p : Pen) (cells : List Cell)
        → IsHeaded m_width sx sy dx dy x1 y1 a b p
        → a + b < fuel
        → (result : List Cell) × (run fuel p cells ≡ some result) × IsDrawn p cells result
    unfolding line_loop
    line_loop-total zero a b p cells h k = absurd (omega arith)
    line_loop-total (suc fuel) a b p cells h k = elim (Bool-cases (at_end p)) [
      | inl t ↦ (painted p cells, rw (headed-cell_fits a b p h, t) refl, arrived p cells t)
      | inr t ↦
          let far = not_there a b p h t in
          let (a', b', h', less) = advance-Nearer m_width sx sy dx dy x1 y1 a b p h far in
          let (result, e, d) =
            line_loop-total fuel a' b' (next p) (painted p cells) h' (omega arith) in
          (
            result,
            rw (headed-cell_fits a b p h, t, headed-step_fits a b p h far) e,
            IsDrawn-painted p cells result d,
          )
    ]

start-Balanced : (a b : ℕ) → Balanced a b a b (pos a +ℤ (pos 0 -ℤ pos b))
unfolding Balanced
start-Balanced a b = omega (arith, +ℤ_parts (pos a) (pos 0 -ℤ pos b), minus_parts b, mul_comm a b)

first_heading :
    (m_width : ℕ) (x0 y0 x1 y1 : ℤ)
    → IsHeaded m_width
        (sign x0 x1)
        (sign y0 y1)
        (abs (x1 -ℤ x0))
        (abs (y1 -ℤ y0))
        x1
        y1
        (abs (x1 -ℤ x0))
        (abs (y1 -ℤ y0))
        (record { x0 = x0; y0 = y0; err = pos (abs (x1 -ℤ x0)) +ℤ (pos 0 -ℤ pos (abs (y1 -ℤ y0))) })
first_heading m_width x0 y0 x1 y1 =
    let a = abs (x1 -ℤ x0) in
    let b = abs (y1 -ℤ y0) in
    record {
      columns = sign-Away x0 x1;
      rows = sign-Away y0 y1;
      columns_bound = omega arith;
      rows_bound = omega arith;
      balanced = start-Balanced a b;
      high = omega (arith, +ℤ_parts (pos a) (pos 0 -ℤ pos b), minus_parts b);
      low = omega (arith, +ℤ_parts (pos a) (pos 0 -ℤ pos b), minus_parts b);
    }

abs_sub_bound : (a b : ℤ) → abs a ≤ 8192 → abs b ≤ 8192 → abs (b -ℤ a) ≤ 16384
unfolding ◌-ℤ◌
abs_sub_bound a b h k = ground arith

small-is_int : (z : ℤ) → abs z ≤ 32768 → is_int z ≡ true
small-is_int z h = is_int-true z (omega (arith, h)) (omega (arith, h))

start_fits :
    (x0 y0 x1 y1 : ℤ)
    → abs (x1 -ℤ x0) ≤ 16384
    → abs (y1 -ℤ y0) ≤ 16384
    → let dx = pos (abs (x1 -ℤ x0)) in
      let dy = pos 0 -ℤ pos (abs (y1 -ℤ y0)) in
      (is_int (x1 -ℤ x0) && (is_int (y1 -ℤ y0) && (is_int dx && (is_int dy && is_int (dx +ℤ dy)))))
      ≡ true
start_fits x0 y0 x1 y1 h k =
    let a = abs (x1 -ℤ x0) in
    let b = abs (y1 -ℤ y0) in
    let dy = pos 0 -ℤ pos b in
    rw
      (
        small-is_int (x1 -ℤ x0) (omega (arith, h)),
        small-is_int (y1 -ℤ y0) (omega (arith, k)),
        small-is_int (pos a) (omega (arith, h)),
        is_int-true dy (omega (arith, minus_parts b)) (omega (arith, minus_parts b, k)),
        is_int-true (pos a +ℤ dy) (omega (arith, minus_parts b, +ℤ_parts (pos a) dy, h, k))
            (omega (arith, minus_parts b, +ℤ_parts (pos a) dy, h, k)),
      )
      refl

-- In a window of fewer than 65536 columns, for any two points with coordinates of absolute value
-- 8192 at most, the loop of `draw_line` ends within one step more than the sum of their distances
-- on both axes, without an `int` overflow on the way, and where the cells that it computes for the
-- two end points exist, these are dotted; the buffer keeps its length.
pub draw_line-total :
    (m_width fuel : ℕ) (x0 y0 x1 y1 : ℤ) (cells : List Cell)
    → m_width < 2 ^ 16
    → (abs x0 ≤ 8192) × (abs y0 ≤ 8192)
    → (abs x1 ≤ 8192) × (abs y1 ≤ 8192)
    → abs (x1 -ℤ x0) + abs (y1 -ℤ y0) < fuel
    → (result : List Cell) × (draw_line m_width fuel x0 y0 x1 y1 cells ≡ some result)
      × (length result ≡ length cells)
      × ((j : ℕ)
          → j < length cells
          → (y0 *ℤ pos m_width +ℤ x0 ≡ pos j) ⊎ (y1 *ℤ pos m_width +ℤ x1 ≡ pos j)
          → get_elem? result j ≡ some dot)
unfolding draw_line
draw_line-total m_width fuel x0 y0 x1 y1 cells narrow (hx0, hy0) (hx1, hy1) enough =
    let a = abs (x1 -ℤ x0) in
    let b = abs (y1 -ℤ y0) in
    let p : Pen = record { x0 = x0; y0 = y0; err = pos a +ℤ (pos 0 -ℤ pos b) } in
    let da = abs_sub_bound x0 x1 hx0 hx1 in
    let db = abs_sub_bound y0 y1 hy0 hy1 in
    let (result, e, d) =
      line_loop-total m_width (sign x0 x1) (sign y0 y1) (sign-IsUnit x0 x1) (sign-IsUnit y0 y1) a b
        x1 y1 narrow hx1 hy1 da db fuel a b p cells (first_heading m_width x0 y0 x1 y1) enough in
    (
      result,
      rw (start_fits x0 y0 x1 y1 da db) e,
      d.same_length,
      λ j h. λ which. elim which [ inl e0 ↦ d.starts j e0 h | inr e1 ↦ d.reaches j e1 h ],
    )
