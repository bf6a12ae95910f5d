-- ===== src/Frame/Drawing.antt =====
-- `render` of src/monitor/SystemMonitor.cpp, from a well-formed monitor to the next: every panel, the
-- frame, and what the terminal shows after it. Then the feeders.
use hyperion_euntime_environ.Base.{
  ℕ, zero, suc, ◌+◌, ◌-◌, ◌%◌, ◌^◌, ◌<◌, refl, ◌∙◌, Bool, true, false, Option, List, [], ◌∷◌, ltb,
  ◌==◌, length, arith, inl, inr, Bool-cases, ℤ, pos, pos_part, ◌+ℤ◌, ◌-ℤ◌, ◌*ℤ◌, leb_ℤ,
}
use hyperion_euntime_environ.Base.Text.{codes}
use hyperion_euntime_environ.Canvas.{Rect, put, clear_buffer}
use hyperion_euntime_environ.Canvas.Cells.{length-put}
use hyperion_euntime_environ.Canvas.Text.{length-clear_buffer}
use hyperion_euntime_environ.Monitor.{Monitor, fast_rand}
use hyperion_euntime_environ.Monitor.Random.{fast_rand_bound}
use hyperion_euntime_environ.Panel.{text_on, box_on}
use hyperion_euntime_environ.Frame.{
  cut, jit_line, jit_loop, draw_jit_stream, is_current, visual_sp, fiber_line, fiber_loop,
  draw_fibers, flash_loop, input_border, input_line, draw_input, draw_bars, draw_frame,
}
use hyperion_euntime_environ.Frame.Validity.{
  IsValid, IsDrawing, cells-IsDrawing, counters-IsDrawing, seed-IsDrawing, text_on-IsDrawing,
  box_on-IsDrawing, draw_ghost_map-IsDrawing,
}
use hyperion_euntime_environ.Scheduler.{Scheduler, Fiber}
use hyperion_euntime_environ.MemoryManager.{Manager}

module _ (m0 : Monitor) where
  jit_loop-IsDrawing :
      (rounds i : ℕ) (r : Rect) (m : Monitor)
      → IsDrawing m0 m
      → IsDrawing m0 (jit_loop rounds i r m)
  unfolding jit_loop
  jit_loop-IsDrawing zero i r m d = d
  jit_loop-IsDrawing (suc rounds) i r m d = jit_loop-IsDrawing rounds (suc i) r _ (
      text_on-IsDrawing m0 (r.x +ℤ pos 1) (r.y +ℤ pos 1 +ℤ pos i)
        (cut (r.w -ℤ pos 2) (jit_line m.scroll_offset i)) m d)

  draw_jit_stream-IsDrawing :
      (r : Rect) (m : Monitor) → IsDrawing m0 m → IsDrawing m0 (draw_jit_stream r m)
  unfolding draw_jit_stream
  draw_jit_stream-IsDrawing r m d =
      let m1 = text_on (r.x +ℤ pos 2) r.y (codes " JIT STREAM ") (box_on r m) in
      let d1 =
        text_on-IsDrawing m0 (r.x +ℤ pos 2) r.y (codes " JIT STREAM ") (box_on r m)
          (box_on-IsDrawing m0 r m d) in
      let v = d1.valid in
      jit_loop-IsDrawing (pos_part (r.h -ℤ pos 2)) 0 r _ (
        counters-IsDrawing m0 m1 m1.rand_seed m1.spinner_idx m1.flash_timer (m1.scroll_offset + 1)
          d1 v.seed_bound v.spinner_bound v.flash_bound)

  pub visual_sp_seed : (b : Bool) (seed sp : ℕ) → seed < 2 ^ 32 → (visual_sp b seed sp).1 < 2 ^ 32
  unfolding visual_sp
  visual_sp_seed true seed sp h = fast_rand_bound seed h
  visual_sp_seed false seed sp h =
      ground
        (arith, fast_rand_bound seed h, fast_rand_bound (fast_rand seed) (fast_rand_bound seed h))

  fiber_loop-IsDrawing :
      (r : Rect) (current : Option ℕ) (fibers : List Fiber) (i row : ℕ) (m : Monitor)
      → IsDrawing m0 m
      → IsDrawing m0 (fiber_loop r current fibers i row m)
  unfolding fiber_loop
  fiber_loop-IsDrawing r current [] i row m d = d
  fiber_loop-IsDrawing r current (f ∷ fibers) i row m d =
      let shown = visual_sp (is_current current i) m.rand_seed f.stack_ptr in
      let seeded = record m { rand_seed = shown.1 } in
      let line = fiber_line m.spinner_idx (is_current current i) shown.0 f in
      let next = text_on (r.x +ℤ pos 1) (r.y +ℤ pos row) line seeded in
      let next_d : IsDrawing m0 next =
        text_on-IsDrawing m0 (r.x +ℤ pos 1) (r.y +ℤ pos row) line seeded (
          seed-IsDrawing m0 m shown.1 d
            (visual_sp_seed (is_current current i) m.rand_seed f.stack_ptr d.valid.seed_bound)) in
      elim (Bool-cases (leb_ℤ (r.h -ℤ pos 1) (pos (suc row)))) [
        | inl t ↦ rw t next_d
        | inr t ↦ rw t (fiber_loop-IsDrawing r current fibers (suc i) (suc row) next next_d)
      ]

  draw_fibers-IsDrawing :
      (k : Scheduler) (r : Rect) (m : Monitor) → IsDrawing m0 m → IsDrawing m0 (draw_fibers k r m)
  unfolding draw_fibers
  draw_fibers-IsDrawing k r m d =
      let m1 = text_on (r.x +ℤ pos 2) r.y (codes " FIBER SCHEDULER ") (box_on r m) in
      let d1 =
        text_on-IsDrawing m0 (r.x +ℤ pos 2) r.y (codes " FIBER SCHEDULER ") (box_on r m)
          (box_on-IsDrawing m0 r m d) in
      let v = d1.valid in
      fiber_loop-IsDrawing r k.current_fiber k.fibers 0 1 _ (
        counters-IsDrawing m0 m1 m1.rand_seed ((m1.spinner_idx + 1) % 4) m1.flash_timer
          m1.scroll_offset d1 v.seed_bound (omega arith) v.flash_bound)

  flash_loop-IsDrawing :
      (rounds i : ℕ) (r : Rect) (m : Monitor)
      → IsDrawing m0 m
      → IsDrawing m0 (flash_loop rounds i r m)
  unfolding flash_loop
  flash_loop-IsDrawing zero i r m d = d
  flash_loop-IsDrawing (suc rounds) i r m d =
      let row = λ (y : ℤ). y *ℤ pos m.width +ℤ r.x +ℤ pos i in
      let top = put m.back_buffer (row r.y) (61 ∷ []) in
      let both = put top (row (r.y +ℤ r.h -ℤ pos 1)) (61 ∷ []) in
      flash_loop-IsDrawing rounds (suc i) r (record m { back_buffer = both })
        (cells-IsDrawing m0 m both d (
          length-put top (row (r.y +ℤ r.h -ℤ pos 1)) (61 ∷ [])
          ∙ length-put m.back_buffer (row r.y) (61 ∷ [])))

  input_border-IsDrawing :
      (r : Rect) (m : Monitor) → IsDrawing m0 m → IsDrawing m0 (input_border r m)
  unfolding input_border
  input_border-IsDrawing r m d =
      let s = fast_rand m.rand_seed in
      let v = d.valid in
      let seeded = seed-IsDrawing m0 m s d (fast_rand_bound m.rand_seed v.seed_bound) in
      elim (Bool-cases (ltb 0 m.flash_timer)) [
        | inl t ↦ rw t (
            flash_loop-IsDrawing (pos_part r.w) 0 r _ (
              counters-IsDrawing m0 m m.rand_seed m.spinner_idx (m.flash_timer - 1) m.scroll_offset
                d v.seed_bound v.spinner_bound (omega (arith, v.flash_bound))))
        | inr t ↦ rw t (elim (Bool-cases (length m.input_text == 0)) [
          | inl e ↦ rw e (elim (Bool-cases (s % 20 == 0)) [
            | inl z ↦ rw z seeded
            | inr z ↦ rw z (box_on-IsDrawing m0 r (record m { rand_seed = s }) seeded)
          ])
          | inr e ↦ rw e (box_on-IsDrawing m0 r m d)
        ])
      ]

  input_line-IsDrawing : (r : Rect) (m : Monitor) → IsDrawing m0 m → IsDrawing m0 (input_line r m)
  unfolding input_line
  input_line-IsDrawing r m d =
      let s = fast_rand m.rand_seed in
      let seeded = seed-IsDrawing m0 m s d (fast_rand_bound m.rand_seed d.valid.seed_bound) in
      elim (Bool-cases (length m.input_text == 0)) [
        | inl e ↦ rw e (elim (Bool-cases (ltb (s % 30) 15)) [
          | inl z ↦ rw z (
              text_on-IsDrawing m0 (r.x +ℤ pos 2) (r.y +ℤ pos 1) (codes "_")
                (record m { rand_seed = s }) seeded)
          | inr z ↦ rw z seeded
        ])
        | inr e ↦ rw e (text_on-IsDrawing m0 (r.x +ℤ pos 2) (r.y +ℤ pos 1) _ m d)
      ]

  draw_input-IsDrawing : (r : Rect) (m : Monitor) → IsDrawing m0 m → IsDrawing m0 (draw_input r m)
  unfolding draw_input
  draw_input-IsDrawing r m d = input_line-IsDrawing r _ (
      text_on-IsDrawing m0 (r.x +ℤ pos 2) r.y (codes " INPUT BUFFER ") (input_border r m)
        (input_border-IsDrawing r m d))

  draw_bars-IsDrawing :
      (k : Scheduler) (g : Manager) (m : Monitor) → IsDrawing m0 m → IsDrawing m0 (draw_bars k g m)
  unfolding draw_bars
  draw_bars-IsDrawing k g m d =
      text_on-IsDrawing m0 (pos 2) (pos m.height -ℤ pos 1) _ _
        (text_on-IsDrawing m0 (pos 2) (pos 0) _ m d)

-- A frame draws over what the terminal shows.
pub draw_frame-IsDrawing :
    (k : Scheduler) (g : Manager) (m : Monitor) → IsValid m → IsDrawing m (draw_frame k g m)
unfolding draw_frame
draw_frame-IsDrawing k g m v = draw_input-IsDrawing m _ _ (
    draw_jit_stream-IsDrawing m _ _ (
      draw_fibers-IsDrawing m k _ _ (
        draw_ghost_map-IsDrawing m g.resident_pages _ _ (
          draw_bars-IsDrawing m k g _ (
            cells-IsDrawing m m (clear_buffer m.back_buffer)
              (record { valid = v; same_width = refl; same_height = refl; same_front = refl })
              (length-clear_buffer m.back_buffer))))))
