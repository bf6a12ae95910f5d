-- ===== src/Frame/Streams.antt =====
-- The panels of the instruction stream and of the fibers in src/monitor/SystemMonitor.cpp keep to their
-- rows, however many fibers there are.
use hyperion_euntime_environ.Base.{
  ℕ, zero, suc, ◌+◌, ◌-◌, ◌%◌, ◌^◌, ◌<◌, ◌≤◌, ap, ◌∙◌, Option, List, [], ◌∷◌, arith, ◌⊎◌, inl, inr,
  Bool-cases, ℤ, pos, pos_part, ◌+ℤ◌, ◌-ℤ◌, leb_ℤ, pos-add, pos-sub,
}
use hyperion_euntime_environ.Base.Text.{codes}
use hyperion_euntime_environ.Canvas.{Cell, Rect}
use hyperion_euntime_environ.Canvas.Box.{rect_of}
use hyperion_euntime_environ.Monitor.{Monitor}
use hyperion_euntime_environ.Panel.{text_on, box_on}
use hyperion_euntime_environ.Frame.{
  cut, jit_line, jit_loop, draw_jit_stream, is_current, visual_sp, fiber_line, fiber_loop,
  draw_fibers,
}
use hyperion_euntime_environ.Frame.Validity.{counters-IsDrawing, seed-IsDrawing}
use hyperion_euntime_environ.Frame.Drawing.{visual_sp_seed}
use hyperion_euntime_environ.Frame.Picture.{IsKept, text_on-IsKept}
use hyperion_euntime_environ.Frame.Rows.{titled, inner_text}
use hyperion_euntime_environ.Scheduler.{Scheduler, Fiber}

module _ (m0 : Monitor) (cx cy : ℕ) (hcx : cx < m0.width) (hcy : cy < m0.height) (old : Option Cell)
    (x y w h : ℕ) (w_two : 2 ≤ w) (h_two : 2 ≤ h) (hx : x + w ≤ m0.width)
    (above : cy < y ⊎ y + h ≤ cy) (hy : y + h ≤ m0.height) where
  abbrev pub r : Rect
  r = rect_of x y w h

  abbrev pub K : Monitor → Type 0
  K m = IsKept m0 cx cy hcx hcy old m

  pub title :
      (text : List ℕ) (m : Monitor) → K m → K (text_on (pos x +ℤ pos 2) (pos y) text (box_on r m))
  title = titled m0 cx cy hcx hcy x y w h w_two h_two hx above hy old

  pub inner :
      (dx dy : ℕ) (text : List ℕ) (m : Monitor)
      → dy < h
      → K m
      → K (text_on (pos x +ℤ pos dx) (pos y +ℤ pos dy) text m)
  inner = inner_text m0 cx cy hcx hcy x y w h w_two h_two hx above hy old

  jit_loop-IsKept :
      (rounds i : ℕ) (m : Monitor) → i + rounds ≤ h - 2 → K m → K (jit_loop rounds i r m)
  unfolding jit_loop
  jit_loop-IsKept zero i m l k = k
  jit_loop-IsKept (suc rounds) i m l k = jit_loop-IsKept rounds (suc i) _ (omega arith) (
      text_on-IsKept m0 cx cy hcx hcy old (x + 1) (y + 1 + i) (pos x +ℤ pos 1)
        (pos y +ℤ pos 1 +ℤ pos i) (cut (r.w -ℤ pos 2) (jit_line m.scroll_offset i)) m (pos-add x 1)
        (ap (λ (a : ℤ). a +ℤ pos i) (pos-add y 1) ∙ pos-add (y + 1) i) (ground (arith, above)) k)

  pub draw_jit_stream-IsKept : (m : Monitor) → K m → K (draw_jit_stream r m)
  unfolding draw_jit_stream
  draw_jit_stream-IsKept m k =
      let m1 = text_on (pos x +ℤ pos 2) (pos y) (codes " JIT STREAM ") (box_on r m) in
      let k1 : K m1 = title (codes " JIT STREAM ") m k in
      let v = k1.drawing.valid in
      jit_loop-IsKept (pos_part (r.h -ℤ pos 2)) 0 _ (omega (arith, ap pos_part (pos-sub h 2 h_two)))
        (record {
          drawing =
              counters-IsDrawing m0 m1 m1.rand_seed m1.spinner_idx m1.flash_timer
                (m1.scroll_offset + 1) k1.drawing v.seed_bound v.spinner_bound v.flash_bound;
          kept = k1.kept;
        })

  pub seed-IsKept :
      (m : Monitor) (seed : ℕ) → K m → seed < 2 ^ 32 → K (record m { rand_seed = seed })
  seed-IsKept m seed k l = record { drawing = seed-IsDrawing m0 m seed k.drawing l; kept = k.kept }

  fiber_loop-IsKept :
      (current : Option ℕ) (fibers : List Fiber) (i row : ℕ) (m : Monitor)
      → row < h
      → K m
      → K (fiber_loop r current fibers i row m)
  unfolding fiber_loop
  fiber_loop-IsKept current [] i row m l k = k
  fiber_loop-IsKept current (f ∷ fibers) i row m l k =
      let shown = visual_sp (is_current current i) m.rand_seed f.stack_ptr in
      let seeded = record m { rand_seed = shown.1 } in
      let line = fiber_line m.spinner_idx (is_current current i) shown.0 f in
      let next = text_on (pos x +ℤ pos 1) (pos y +ℤ pos row) line seeded in
      let next_k : K next = inner 1 row line seeded l (
        seed-IsKept m shown.1 k (
          visual_sp_seed m0 (is_current current i) m.rand_seed f.stack_ptr
            k.drawing.valid.seed_bound)) in
      elim (Bool-cases (leb_ℤ (r.h -ℤ pos 1) (pos (suc row)))) [
        | inl t ↦ rw t next_k
        | inr t ↦ rw t (
            fiber_loop-IsKept current fibers (suc i) (suc row) next
              (ground (arith, ap (λ (a : ℤ). leb_ℤ a (pos (suc row))) (pos-sub h 1 (omega arith))))
              next_k)
      ]

  pub draw_fibers-IsKept : (s : Scheduler) (m : Monitor) → K m → K (draw_fibers s r m)
  unfolding draw_fibers
  draw_fibers-IsKept s m k =
      let m1 = text_on (pos x +ℤ pos 2) (pos y) (codes " FIBER SCHEDULER ") (box_on r m) in
      let k1 : K m1 = title (codes " FIBER SCHEDULER ") m k in
      let v = k1.drawing.valid in
      fiber_loop-IsKept s.current_fiber s.fibers 0 1 _ (omega arith) (record {
        drawing =
            counters-IsDrawing m0 m1 m1.rand_seed ((m1.spinner_idx + 1) % 4) m1.flash_timer
              m1.scroll_offset k1.drawing v.seed_bound (omega arith) v.flash_bound;
        kept = k1.kept;
      })
