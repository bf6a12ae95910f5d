-- ===== src/Frame.antt =====
-- src/monitor/SystemMonitor.cpp: the instruction stream, the fibers and the input box, and the frame
-- that `render` puts together and sends.
pub mod Validity
pub mod Drawing
pub mod Scroll
pub mod Session
pub mod Picture
pub mod Rows
pub mod Streams
pub mod Entry
pub mod Bars
use Prim.Native.String
use Prim.Native.String.{String}
use hyperion_euntime_environ.Base.{
  ℕ, zero, suc, ◌+◌, ◌-◌, ◌*◌, ◌/◌, ◌%◌, ◌^◌, bit_and, bit_or, Bool, true, false, ◌&&◌, ◌||◌,
  Option, none, some, List, [], ◌∷◌, ◌++◌, map, ltb, leb, ◌==◌, if◌then◌else◌, length, set, get_or,
  take, ℤ, pos, negsuc, pos_part, to_size, ◌+ℤ◌, ◌-ℤ◌, ◌*ℤ◌, quot, rem, ltb_ℤ, leb_ℤ,
}
use hyperion_euntime_environ.Base.Text.{codes, to_decimal, to_hex, pad_left_aligned, pad_zeros}
use hyperion_euntime_environ.Canvas.{Cell, Rect, blank, put, draw_text, draw_box, clear_buffer, at}
use hyperion_euntime_environ.Panel.{
  ghost_rect, fibers_rect, jit_rect, input_rect, text_on, box_on, draw_ghost_map,
}
use hyperion_euntime_environ.Monitor.{Monitor, Piece, fast_rand, present}
use hyperion_euntime_environ.Scheduler.{Scheduler, Fiber}
use hyperion_euntime_environ.MemoryManager.{Manager}

-- `dummy_asm`
abbrev dummy_asm : List (List ℕ)
dummy_asm =
    codes "MOV  RAX, 0x0"
    ∷ codes "PUSH RBP"
    ∷ codes "MOV  RBP, RSP"
    ∷ codes "SUB  RSP, 0x40"
    ∷ codes "LEA  RDI, [RIP+0x20]"
    ∷ codes "CALL 0xFADE"
    ∷ codes "TEST RAX, RAX"
    ∷ codes "JZ   0x0040"
    ∷ codes "NOP"
    ∷ codes "PAUSE"
    ∷ codes "HLT"
    ∷ []

unfoldable pub jit_line : ℕ → ℕ → List ℕ
jit_line scroll_offset i =
    let line_idx = (scroll_offset / 10 + i) % 11 in
    codes "0x"
    ++ (pad_zeros 4 (to_hex (0x1000 + line_idx * 4))
        ++ (codes ": " ++ get_or dummy_asm line_idx []))

-- `substr(0, n)` where it is cut, with n converted to a size_t.
unfoldable pub cut : ℤ → List ℕ → List ℕ
cut n line = if ltb (to_size n) (length line) then take (to_size n) line else line

unfoldable pub jit_loop : ℕ → ℕ → Rect → Monitor → Monitor
jit_loop zero i rect m = m
jit_loop (suc rounds) i rect m = jit_loop rounds (suc i) rect (
    text_on (rect.x +ℤ pos 1) (rect.y +ℤ pos 1 +ℤ pos i)
      (cut (rect.w -ℤ pos 2) (jit_line m.scroll_offset i)) m)

unfoldable pub draw_jit_stream : Rect → Monitor → Monitor
draw_jit_stream rect m =
    let m1 = text_on (rect.x +ℤ pos 2) rect.y (codes " JIT STREAM ") (box_on rect m) in
    jit_loop (pos_part (rect.h -ℤ pos 2)) 0 rect
      (record m1 { scroll_offset = m1.scroll_offset + 1 })

abbrev pub is_current : Option ℕ → ℕ → Bool
is_current none i = false
is_current (some c) i = c == i

-- The stack in use, and the stack pointer as shown: its low byte jitters for the current fiber, and
-- for three others in ten.
unfoldable pub stack_used : Fiber → ℕ
stack_used f =
    if f.stack_base == 0
    then 0
    else ((f.stack_base + f.stack_size) % 2 ^ 64 + 2 ^ 64 - f.stack_ptr) % 2 ^ 64

unfoldable pub visual_sp : Bool → ℕ → ℕ → ℕ × ℕ
visual_sp true seed sp =
    let s = fast_rand seed in (bit_or (bit_and sp (2 ^ 64 - 256)) (bit_and s 255), s)
visual_sp false seed sp =
    let s1 = fast_rand seed in
    let s2 = fast_rand s1 in
    if ltb (s1 % 10) 3 then (bit_or (bit_and sp (2 ^ 64 - 256)) (bit_and s2 255), s2) else (sp, s1)

-- The spinner's four bytes: "|/-\"
abbrev pub spinner : ℕ → ℕ
spinner i = get_or (124 ∷ 47 ∷ 45 ∷ 92 ∷ []) i 0

unfoldable pub fiber_line : ℕ → Bool → ℕ → Fiber → List ℕ
fiber_line spinner_idx is_curr shown_sp f =
    (if is_curr then spinner spinner_idx ∷ 32 ∷ [] else 32 ∷ 32 ∷ [])
    ++ (codes "ID:"
        ++ (to_decimal f.id
            ++ (codes " "
                ++ (pad_left_aligned 8 (codes f.name)
                    ++ (codes " STK:"
                        ++ (pad_left_aligned 4 (to_decimal (stack_used f))
                            ++ (codes "B" ++ (codes " SP:" ++ to_hex shown_sp))))))))

-- The loop over the fibers, with the place of the next one and its row.
unfoldable pub fiber_loop : Rect → Option ℕ → List Fiber → ℕ → ℕ → Monitor → Monitor
fiber_loop rect current [] i row m = m
fiber_loop rect current (f ∷ fibers) i row m =
    let is_curr = is_current current i in
    let (sp, s) = visual_sp is_curr m.rand_seed f.stack_ptr in
    let m' =
      text_on (rect.x +ℤ pos 1) (rect.y +ℤ pos row) (fiber_line m.spinner_idx is_curr sp f)
        (record m { rand_seed = s }) in
    let rest = fiber_loop rect current fibers (suc i) (suc row) m' in
    if leb_ℤ (rect.h -ℤ pos 1) (pos (suc row)) then m' else rest

unfoldable pub draw_fibers : Scheduler → Rect → Monitor → Monitor
draw_fibers k rect m =
    let m1 = text_on (rect.x +ℤ pos 2) rect.y (codes " FIBER SCHEDULER ") (box_on rect m) in
    fiber_loop rect k.current_fiber k.fibers 0 1
      (record m1 { spinner_idx = (m1.spinner_idx + 1) % 4 })

-- The flash: both long sides of the input box drawn with `=`.
unfoldable pub flash_loop : ℕ → ℕ → Rect → Monitor → Monitor
flash_loop zero i rect m = m
flash_loop (suc rounds) i rect m =
    let row = λ (y : ℤ). y *ℤ pos m.width +ℤ rect.x +ℤ pos i in
    flash_loop rounds (suc i) rect (record m {
      back_buffer =
          put (put m.back_buffer (row rect.y) (61 ∷ [])) (row (rect.y +ℤ rect.h -ℤ pos 1))
            (61 ∷ []);
    })

unfoldable pub input_border : Rect → Monitor → Monitor
input_border rect m =
    let s = fast_rand m.rand_seed in
    if ltb 0 m.flash_timer
    then flash_loop (pos_part rect.w) 0 rect (record m { flash_timer = m.flash_timer - 1 })
    else if length m.input_text == 0
    then (if s % 20 == 0
        then record m { rand_seed = s }
        else box_on rect (record m { rand_seed = s }))
    else box_on rect m

unfoldable pub input_line : Rect → Monitor → Monitor
input_line rect m =
    let s = fast_rand m.rand_seed in
    if length m.input_text == 0
    then (if ltb (s % 30) 15
        then text_on (rect.x +ℤ pos 2) (rect.y +ℤ pos 1) (codes "_") (record m { rand_seed = s })
        else record m { rand_seed = s })
    else text_on (rect.x +ℤ pos 2) (rect.y +ℤ pos 1) (take (to_size (rect.w -ℤ pos 4)) m.input_text)
        m

unfoldable pub draw_input : Rect → Monitor → Monitor
draw_input rect m =
    input_line rect
      (text_on (rect.x +ℤ pos 2) rect.y (codes " INPUT BUFFER ") (input_border rect m))

-- The header and the status bar.
unfoldable pub draw_bars : Scheduler → Manager → Monitor → Monitor
draw_bars k ghost m =
    text_on (pos 2) (pos m.height -ℤ pos 1)
      (codes "FAULTS: "
        ++ (to_decimal ghost.fault_count
            ++ (codes " | RESIDENT: "
                ++ (to_decimal ghost.resident_pages
                    ++ (codes " | FIBERS: " ++ to_decimal (length k.fibers))))))
      (text_on (pos 2) (pos 0)
        (if length m.header_info == 0 then codes "COGNITRON ZERO UNIKERNEL" else m.header_info) m)

-- A frame before it is sent.
unfoldable pub draw_frame : Scheduler → Manager → Monitor → Monitor
draw_frame k ghost m = draw_input (input_rect m.width m.height) (
    draw_jit_stream (jit_rect m.width m.height) (
      draw_fibers k (fibers_rect m.width m.height) (
        draw_ghost_map ghost.resident_pages (ghost_rect m.width m.height)
          (draw_bars k ghost (record m { back_buffer = clear_buffer m.back_buffer })))))

unfoldable pub render : Scheduler → Manager → Monitor → List Piece × Monitor
render k ghost m = present (draw_frame k ghost m)
