-- ===== src/Canvas/Line/Heading.antt =====
-- The error term of `draw_line` in src/monitor/SystemMonitor.cpp: no step leads past the end point, on
-- either axis, and every round makes one.
use hyperion_euntime_environ.Base.{
  ℕ, zero, suc, ◌+◌, ◌-◌, ◌*◌, ◌<◌, ◌≤◌, ◌≡◌, subst, true, false, arith, inl, inr, Bool-cases,
  leb→le, ℤ, pos, pos_part, neg_part, ◌-ℤ◌, ◌*ℤ◌, leb_ℤ, +ℤ_parts,
}
use native.Mathlib.Nat.{suc-mul}
use hyperion_euntime_environ.Canvas.{Pen, move_x, move_y, advance}
use hyperion_euntime_environ.Canvas.Line.Distance.{Away, double_parts, minus_parts}

-- With a columns and b rows to go, of dx and dy, the error term is dx - dy + a dy - b dx.
unfoldable pub Balanced : ℕ → ℕ → ℕ → ℕ → ℤ → Type 0
Balanced dx dy a b err = pos_part err + b * dx + dy ≡ neg_part err + a * dy + dx

-- A step that the error term asks for has room.
column_room :
    (dx dy a b : ℕ) (err : ℤ)
    → Balanced dx dy a b err
    → 0 < a + b
    → b ≤ dy
    → 2 * neg_part err ≤ 2 * pos_part err + dy
    → 0 < a
unfolding Balanced
column_room dx dy (suc a) b err e h k t = omega arith
column_room dx dy zero zero err e h k t = absurd (omega arith)
column_room dx dy zero (suc b) err e h k t = absurd (omega (arith, suc-mul b dx))

row_room :
    (dx dy a b : ℕ) (err : ℤ)
    → Balanced dx dy a b err
    → 0 < a + b
    → a ≤ dx
    → 2 * pos_part err ≤ 2 * neg_part err + dx
    → 0 < b
unfolding Balanced
row_room dx dy a (suc b) err e h k t = omega arith
row_room dx dy zero zero err e h k t = absurd (omega arith)
row_room dx dy (suc a) zero err e h k t = absurd (omega (arith, suc-mul a dy))

module _ (m_width : ℕ) (sx sy : ℤ) (dx dy : ℕ) (x1 y1 : ℤ) where
  pub record IsHeaded (a b : ℕ) (p : Pen) : Type 0 where
    pub columns : Away sx a p.x0 x1
    pub rows : Away sy b p.y0 y1
    pub columns_bound : a ≤ dx
    pub rows_bound : b ≤ dy
    pub balanced : Balanced dx dy a b p.err
    pub high : pos_part p.err ≤ neg_part p.err + 2 * (dx + dy)
    pub low : neg_part p.err ≤ pos_part p.err + 2 * (dx + dy)

  move_x-IsHeaded :
      (a b : ℕ) (e2 : ℤ) (p : Pen)
      → IsHeaded (suc a) b p
      → leb_ℤ (pos 0 -ℤ pos dy) e2 ≡ true
      → 2 * neg_part p.err ≤ 2 * pos_part p.err + dy
      → IsHeaded a b (move_x sx (pos 0 -ℤ pos dy) e2 p)
  unfolding move_x Away Balanced
  move_x-IsHeaded a b e2 p h t double = rw t (record {
    columns = h.columns;
    rows = h.rows;
    columns_bound = omega arith;
    rows_bound = h.rows_bound;
    balanced =
        omega (arith, suc-mul a dy, minus_parts dy, +ℤ_parts p.err (pos 0 -ℤ pos dy), h.balanced);
    high = omega (arith, minus_parts dy, +ℤ_parts p.err (pos 0 -ℤ pos dy), h.high);
    low = omega (arith, minus_parts dy, +ℤ_parts p.err (pos 0 -ℤ pos dy), double);
  })

  move_y-IsHeaded :
      (a b : ℕ) (e2 : ℤ) (p : Pen)
      → IsHeaded a (suc b) p
      → leb_ℤ e2 (pos dx) ≡ true
      → 2 * pos_part p.err ≤ 2 * neg_part p.err + dx
      → IsHeaded a b (move_y sy (pos dx) e2 p)
  unfolding move_y Away Balanced
  move_y-IsHeaded a b e2 p h t double = rw t (record {
    columns = h.columns;
    rows = h.rows;
    columns_bound = h.columns_bound;
    rows_bound = omega arith;
    balanced = omega (arith, suc-mul b dx, +ℤ_parts p.err (pos dx), h.balanced);
    high = omega (arith, +ℤ_parts p.err (pos dx), double);
    low = omega (arith, +ℤ_parts p.err (pos dx), h.low);
  })

  -- What a round of the loop reaches: fewer columns and rows to go.
  abbrev Nearer : ℕ → ℕ → Pen → Type 0
  Nearer a b p = (a' : ℕ) × (b' : ℕ) × IsHeaded a' b' p × (a' + b' < a + b)

  module _ (a b : ℕ) (p : Pen) (h : IsHeaded a b p) (far : 0 < a + b) where
    abbrev e2 : ℤ
    e2 = pos 2 *ℤ p.err

    left_room : leb_ℤ (pos 0 -ℤ pos dy) e2 ≡ true → 2 * neg_part p.err ≤ 2 * pos_part p.err + dy
    left_room t = omega (arith, double_parts p.err, minus_parts dy, leb→le _ _ t)

    right_room : leb_ℤ e2 (pos dx) ≡ true → 2 * pos_part p.err ≤ 2 * neg_part p.err + dx
    right_room t = omega (arith, double_parts p.err, leb→le _ _ t)

    step_x : leb_ℤ (pos 0 -ℤ pos dy) e2 ≡ true → 0 < a
    step_x t = column_room dx dy a b p.err h.balanced far h.rows_bound (left_room t)

    step_y : leb_ℤ e2 (pos dx) ≡ true → 0 < b
    step_y t = row_room dx dy a b p.err h.balanced far h.columns_bound (right_room t)

    some_step : leb_ℤ (pos 0 -ℤ pos dy) e2 ≡ false → leb_ℤ e2 (pos dx) ≡ true
    some_step t = ground (arith, double_parts p.err, minus_parts dy)

    abbrev moved : Pen
    moved = move_x sx (pos 0 -ℤ pos dy) e2 p

    only_y : leb_ℤ (pos 0 -ℤ pos dy) e2 ≡ false → Nearer a b (move_y sy (pos dx) e2 p)
    only_y t = (
      a,
      b - 1,
      move_y-IsHeaded a (b - 1) e2 p
          (subst (λ n. IsHeaded a n p) (omega (arith, step_y (some_step t))) h) (some_step t)
          (right_room (some_step t)),
      omega (arith, step_y (some_step t)),
    )

    first_x :
        leb_ℤ (pos 0 -ℤ pos dy) e2 ≡ true → IsHeaded (a - 1) b (move_x sx (pos 0 -ℤ pos dy) e2 p)
    first_x t =
        move_x-IsHeaded (a - 1) b e2 p (subst (λ n. IsHeaded n b p) (omega (arith, step_x t)) h) t
          (left_room t)

    -- After a step on the one axis the error term is further to the left.
    moved_right :
        leb_ℤ (pos 0 -ℤ pos dy) e2 ≡ true
        → leb_ℤ e2 (pos dx) ≡ true
        → 2 * pos_part moved.err ≤ 2 * neg_part moved.err + dx
    unfolding move_x
    moved_right t u =
        rw t (omega (arith, minus_parts dy, +ℤ_parts p.err (pos 0 -ℤ pos dy), right_room u))

    pub moved-IsHeaded : (a' : ℕ) × IsHeaded a' b moved
    unfolding move_x
    moved-IsHeaded = elim (Bool-cases (leb_ℤ (pos 0 -ℤ pos dy) e2)) [
      | inl t ↦ (a - 1, first_x t)
      | inr t ↦ rw t (a, h)
    ]

    then_y :
        leb_ℤ (pos 0 -ℤ pos dy) e2 ≡ true
        → Nearer a b (move_y sy (pos dx) e2 (move_x sx (pos 0 -ℤ pos dy) e2 p))
    unfolding move_y
    then_y t = elim (Bool-cases (leb_ℤ e2 (pos dx))) [
      | inl u ↦ (
        a - 1,
        b - 1,
        move_y-IsHeaded (a - 1) (b - 1) e2 moved
            (subst (λ n. IsHeaded (a - 1) n moved) (omega (arith, step_y u)) (first_x t)) u
            (moved_right t u),
        omega (arith, step_x t, step_y u),
      )
      | inr u ↦ rw u (a - 1, b, first_x t, omega (arith, step_x t))
    ]

    pub advance-Nearer : Nearer a b (advance m_width sx sy (pos dx) (pos 0 -ℤ pos dy) x1 y1 p)
    unfolding advance move_x
    advance-Nearer = elim (Bool-cases (leb_ℤ (pos 0 -ℤ pos dy) e2)) [
      | inl t ↦ then_y t
      | inr t ↦ rw t (only_y t)
    ]
