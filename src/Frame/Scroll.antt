-- ===== src/Frame/Scroll.antt =====
-- The frame counter of `draw_jit_stream` in src/monitor/SystemMonitor.cpp, a static int: each frame
-- adds one to it, and nothing else changes it. No frame changes the text in the input box.
use hyperion_euntime_environ.Base.{
  ℕ, zero, suc, ◌+◌, ◌%◌, ◌≡◌, refl, ap, ◌∙◌, Option, List, [], ◌∷◌, ltb, ◌==◌, length, inl, inr,
  Bool-cases, ℤ, pos, ◌+ℤ◌, ◌-ℤ◌, leb_ℤ,
}
use hyperion_euntime_environ.Canvas.{Rect}
use hyperion_euntime_environ.Monitor.{Monitor, Piece, fast_rand, settle, present}
use hyperion_euntime_environ.Panel.{text_on, box_on, draw_ghost_map}
use hyperion_euntime_environ.Frame.{
  jit_loop, draw_jit_stream, fiber_line, fiber_loop, visual_sp, is_current, draw_fibers, flash_loop,
  input_border, input_line, draw_input, draw_bars, draw_frame, render,
}
use hyperion_euntime_environ.Scheduler.{Scheduler, Fiber}
use hyperion_euntime_environ.MemoryManager.{Manager}

-- The counter, with the text in the input box.
abbrev pub kept : Monitor → ℕ × List ℕ
kept m = (m.scroll_offset, m.input_text)

text_on-kept : (x y : ℤ) (text : List ℕ) (m : Monitor) → kept (text_on x y text m) ≡ kept m
unfolding text_on
text_on-kept x y text m = refl

box_on-kept : (r : Rect) (m : Monitor) → kept (box_on r m) ≡ kept m
unfolding box_on
box_on-kept r m = refl

jit_loop-kept : (n i : ℕ) (r : Rect) (m : Monitor) → kept (jit_loop n i r m) ≡ kept m
unfolding jit_loop
jit_loop-kept zero i r m = refl
jit_loop-kept (suc n) i r m = jit_loop-kept n (suc i) r _ ∙ text_on-kept _ _ _ m

draw_jit_stream-kept :
    (r : Rect) (m : Monitor) → kept (draw_jit_stream r m) ≡ (m.scroll_offset + 1, m.input_text)
unfolding draw_jit_stream text_on box_on
draw_jit_stream-kept r m = jit_loop-kept _ 0 r _

fiber_loop-kept :
    (r : Rect) (current : Option ℕ) (fibers : List Fiber) (i row : ℕ) (m : Monitor)
    → kept (fiber_loop r current fibers i row m) ≡ kept m
unfolding fiber_loop
fiber_loop-kept r current [] i row m = refl
fiber_loop-kept r current (f ∷ fibers) i row m =
    let is_curr = is_current current i in
    let (sp, s) = visual_sp is_curr m.rand_seed f.stack_ptr in
    let m1 = record m { rand_seed = s } in
    let line = fiber_line m.spinner_idx is_curr sp f in
    let m' = text_on (r.x +ℤ pos 1) (r.y +ℤ pos row) line m1 in
    let same = text_on-kept (r.x +ℤ pos 1) (r.y +ℤ pos row) line m1 in
    elim (Bool-cases (leb_ℤ (r.h -ℤ pos 1) (pos (suc row)))) [
      | inl last ↦ rw last same
      | inr more ↦ rw more (fiber_loop-kept r current fibers (suc i) (suc row) m' ∙ same)
    ]

draw_fibers-kept : (k : Scheduler) (r : Rect) (m : Monitor) → kept (draw_fibers k r m) ≡ kept m
unfolding draw_fibers text_on box_on
draw_fibers-kept k r m = fiber_loop-kept r k.current_fiber k.fibers 0 1 _

flash_loop-kept : (n i : ℕ) (r : Rect) (m : Monitor) → kept (flash_loop n i r m) ≡ kept m
unfolding flash_loop
flash_loop-kept zero i r m = refl
flash_loop-kept (suc n) i r m = flash_loop-kept n (suc i) r _

input_border-kept : (r : Rect) (m : Monitor) → kept (input_border r m) ≡ kept m
unfolding input_border box_on
input_border-kept r m = elim (Bool-cases (ltb 0 m.flash_timer)) [
  | inl t ↦ rw t (flash_loop-kept _ 0 r _)
  | inr t ↦ rw t (elim (Bool-cases (length m.input_text == 0)) [
    | inl e ↦ rw e (elim (Bool-cases (fast_rand m.rand_seed % 20 == 0)) [
      | inl z ↦ rw z refl
      | inr z ↦ rw z refl
    ])
    | inr e ↦ rw e refl
  ])
]

input_line-kept : (r : Rect) (m : Monitor) → kept (input_line r m) ≡ kept m
unfolding input_line text_on
input_line-kept r m = elim (Bool-cases (length m.input_text == 0)) [
  | inl e ↦ rw e (elim (Bool-cases (ltb (fast_rand m.rand_seed % 30) 15)) [
    | inl z ↦ rw z refl
    | inr z ↦ rw z refl
  ])
  | inr e ↦ rw e refl
]

draw_input-kept : (r : Rect) (m : Monitor) → kept (draw_input r m) ≡ kept m
unfolding draw_input
draw_input-kept r m =
    input_line-kept r _ ∙ text_on-kept _ _ _ (input_border r m) ∙ input_border-kept r m

draw_frame-kept :
    (k : Scheduler) (g : Manager) (m : Monitor)
    → kept (draw_frame k g m) ≡ (m.scroll_offset + 1, m.input_text)
unfolding draw_frame draw_ghost_map draw_bars text_on box_on
draw_frame-kept k g m =
    draw_input-kept _ _
    ∙ draw_jit_stream-kept _ _
    ∙ ap (λ (q : ℕ × List ℕ). (q.0 + 1, q.1)) (draw_fibers-kept k _ _)

settle-kept : (ps : List Piece) (m : Monitor) → kept (settle ps m) ≡ kept m
unfolding settle
settle-kept [] m = refl
settle-kept (p ∷ ps) m = refl

render-kept :
    (k : Scheduler) (g : Manager) (m : Monitor)
    → kept (render k g m).1 ≡ (m.scroll_offset + 1, m.input_text)
unfolding render present
render-kept k g m = settle-kept _ (draw_frame k g m) ∙ draw_frame-kept k g m

pub render-scroll :
    (k : Scheduler) (g : Manager) (m : Monitor)
    → (render k g m).1.scroll_offset ≡ m.scroll_offset + 1
render-scroll k g m = ap (λ (q : ℕ × List ℕ). q.0) (render-kept k g m)

pub render-input :
    (k : Scheduler) (g : Manager) (m : Monitor) → (render k g m).1.input_text ≡ m.input_text
render-input k g m = ap (λ (q : ℕ × List ℕ). q.1) (render-kept k g m)
