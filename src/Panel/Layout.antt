-- ===== src/Panel/Layout.antt =====
-- The rectangles of `render` in src/monitor/SystemMonitor.cpp lie on the screen and apart, when the
-- terminal is large enough.
use hyperion_euntime_environ.Base.{
  ℕ, ◌+◌, ◌-◌, ◌/◌, ◌≤◌, ◌≡◌, ◌⊎◌, inl, inr, pos, ◌+ℤ◌, ◌-ℤ◌, eq_of_parts, int_laws, ◌≤ℤ◌,
}
use hyperion_euntime_environ.Canvas.{Rect}
use hyperion_euntime_environ.Canvas.Box.{rect_of}
use hyperion_euntime_environ.Panel.{ghost_rect, fibers_rect, jit_rect, input_rect}

-- Between the bars of a screen, which are its first and its last row.
pub record IsBetweenBars (width height : ℕ) (r : Rect) : Type 0 where
  pub left : pos 0 ≤ℤ r.x
  pub right : r.x +ℤ r.w ≤ℤ pos width
  pub top : pos 1 ≤ℤ r.y
  pub bottom : r.y +ℤ r.h ≤ℤ pos height -ℤ pos 1
  pub wide : pos 1 ≤ℤ r.w
  pub high : pos 1 ≤ℤ r.h

-- One ends before the other begins, on an axis.
abbrev pub Apart : Rect → Rect → Type 0
Apart r s =
    ((r.x +ℤ r.w ≤ℤ s.x) ⊎ (s.x +ℤ s.w ≤ℤ r.x)) ⊎ ((r.y +ℤ r.h ≤ℤ s.y) ⊎ (s.y +ℤ s.h ≤ℤ r.y))

-- The four panels of a screen.
abbrev pub IsLayout : ℕ → ℕ → Type 0
IsLayout width height =
    let ghost = ghost_rect width height in
    let fibers = fibers_rect width height in
    let jit = jit_rect width height in
    let input = input_rect width height in
    (IsBetweenBars width height ghost
      × IsBetweenBars width height fibers
      × IsBetweenBars width height jit
      × IsBetweenBars width height input)
    × (Apart ghost fibers × Apart ghost jit × Apart ghost input)
    × (Apart fibers jit × Apart fibers input × Apart jit input)

rect-eq :
    (r : Rect) (x y w h : ℕ)
    → r.x ≡ pos x
    → r.y ≡ pos y
    → r.w ≡ pos w
    → r.h ≡ pos h
    → r ≡ rect_of x y w h
rect-eq r x y w h ex ey ew eh = λ i. record { x = ex i; y = ey i; w = ew i; h = eh i }

module _ (width height : ℕ) (wide : 6 ≤ width) (high : 13 ≤ height) where
  pub ghost_rect-eq : ghost_rect width height ≡ rect_of 1 2 (width / 2 - 2) (height - 12)
  unfolding ghost_rect
  ghost_rect-eq =
      rect-eq (ghost_rect width height) 1 2 (width / 2 - 2) (height - 12)
        (eq_of_parts _ (pos (1)) (omega int_laws)) (eq_of_parts _ (pos (2)) (omega int_laws))
        (eq_of_parts _ (pos (width / 2 - 2)) (omega int_laws))
        (eq_of_parts _ (pos (height - 12)) (omega int_laws))

  pub fibers_rect-eq :
      fibers_rect width height ≡ rect_of (width / 2 + 1) 2 (width / 2 - 2) (height - 12)
  unfolding fibers_rect
  fibers_rect-eq =
      rect-eq (fibers_rect width height) (width / 2 + 1) 2 (width / 2 - 2) (height - 12)
        (eq_of_parts _ (pos (width / 2 + 1)) (omega int_laws))
        (eq_of_parts _ (pos (2)) (omega int_laws))
        (eq_of_parts _ (pos (width / 2 - 2)) (omega int_laws))
        (eq_of_parts _ (pos (height - 12)) (omega int_laws))

  pub jit_rect-eq : jit_rect width height ≡ rect_of 1 (height - 9) (width / 2 - 2) 7
  unfolding jit_rect
  jit_rect-eq =
      rect-eq (jit_rect width height) 1 (height - 9) (width / 2 - 2) 7
        (eq_of_parts _ (pos (1)) (omega int_laws))
        (eq_of_parts _ (pos (height - 9)) (omega int_laws))
        (eq_of_parts _ (pos (width / 2 - 2)) (omega int_laws))
        (eq_of_parts _ (pos (7)) (omega int_laws))

  pub input_rect-eq :
      input_rect width height ≡ rect_of (width / 2 + 1) (height - 4) (width / 2 - 2) 3
  unfolding input_rect
  input_rect-eq =
      rect-eq (input_rect width height) (width / 2 + 1) (height - 4) (width / 2 - 2) 3
        (eq_of_parts _ (pos (width / 2 + 1)) (omega int_laws))
        (eq_of_parts _ (pos (height - 4)) (omega int_laws))
        (eq_of_parts _ (pos (width / 2 - 2)) (omega int_laws))
        (eq_of_parts _ (pos (3)) (omega int_laws))

  -- In a window of at least 6 columns and 13 rows the four panels lie between the first and the
  -- last row and do not overlap.
  pub panels-IsLayout : IsLayout width height
  unfolding ghost_rect fibers_rect jit_rect input_rect
  panels-IsLayout = (
    (omega int_laws, omega int_laws, omega int_laws, omega int_laws),
    (inl (inl (omega int_laws)), inr (inl (omega int_laws)), inl (inl (omega int_laws))),
    (inl (inr (omega int_laws)), inr (inl (omega int_laws)), inl (inl (omega int_laws))),
  )
