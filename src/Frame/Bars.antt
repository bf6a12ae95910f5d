-- ===== src/Frame/Bars.antt =====
-- A frame of src/monitor/SystemMonitor.cpp shows the header on the first row and the counters on the
-- last, whatever the panels show between them.
use hyperion_euntime_environ.Base.{
  ℕ, ◌+◌, ◌-◌, ◌*◌, ◌/◌, ◌<◌, ◌≤◌, ◌≡◌, refl, ap, sym, ◌∙◌, Bool, false, Option, some, List, ◌++◌,
  ◌==◌, if◌then◌else◌, length, arith, ◌⊎◌, inl, inr, pos, ◌-ℤ◌, pos-sub, subst,
}
use hyperion_euntime_environ.Base.Text.{codes, to_decimal}
use hyperion_euntime_environ.Canvas.{Cell, blank, clear_buffer}
use hyperion_euntime_environ.Canvas.Cells.{look, place_inside}
use hyperion_euntime_environ.Canvas.Text.{byte_at, length-clear_buffer, get_elem?-clear_buffer}
use hyperion_euntime_environ.Monitor.{Monitor}
use hyperion_euntime_environ.Panel.{
  text_on, draw_ghost_map, ghost_rect, fibers_rect, jit_rect, input_rect,
}
use hyperion_euntime_environ.Panel.Layout.{
  ghost_rect-eq, fibers_rect-eq, jit_rect-eq, input_rect-eq,
}
use hyperion_euntime_environ.Frame.{draw_jit_stream, draw_fibers, draw_input, draw_bars, draw_frame}
use hyperion_euntime_environ.Frame.Validity.{IsValid, IsDrawing, text_on-IsDrawing, cells-IsDrawing}
use hyperion_euntime_environ.Frame.Picture.{IsKept, cell, look-text_on}
use hyperion_euntime_environ.Frame.Rows.{draw_ghost_map-IsKept}
use hyperion_euntime_environ.Scheduler.{Scheduler}
use hyperion_euntime_environ.MemoryManager.{Manager}
use hyperion_euntime_environ.Frame.Streams.{draw_jit_stream-IsKept, draw_fibers-IsKept}
use hyperion_euntime_environ.Frame.Entry.{draw_input-IsKept}

-- What the bars say.
abbrev pub header_text : Monitor → List ℕ
header_text m =
    if length m.header_info == 0 then codes "COGNITRON ZERO UNIKERNEL" else m.header_info

abbrev pub status_text : Scheduler → Manager → List ℕ
status_text k ghost =
    codes "FAULTS: "
    ++ (to_decimal ghost.fault_count
        ++ (codes " | RESIDENT: "
            ++ (to_decimal ghost.resident_pages
                ++ (codes " | FIBERS: " ++ to_decimal (length k.fibers)))))

bar_cases :
    (height cx cy : ℕ) (status header : List ℕ) (c erased : Option Cell)
    → 14 ≤ height
    → cy ≡ 0 ⊎ cy + 1 ≡ height
    → c ≡ (if cy == 0 then byte_at 2 header cx erased else erased)
    → erased ≡ some blank
    → (if cy == height - 1 then byte_at 2 status cx c else c)
      ≡ (if cy == 0 then byte_at 2 header cx (some blank) else byte_at 2 status cx (some blank))
bar_cases height cx cy status header c erased high bar ec ee = ground arith

module _ (k : Scheduler) (g : Manager) (m : Monitor) (v : IsValid m) (wide : 8 ≤ m.width)
    (high : 14 ≤ m.height) (cx cy : ℕ) (hcx : cx < m.width) (hcy : cy < m.height)
    (bar : cy ≡ 0 ⊎ cy + 1 ≡ m.height) where
  abbrev panels : Monitor → Monitor
  panels n = draw_input (input_rect m.width m.height) (
      draw_jit_stream (jit_rect m.width m.height) (
        draw_fibers k (fibers_rect m.width m.height)
          (draw_ghost_map g.resident_pages (ghost_rect m.width m.height) n)))

  panels-IsKept :
      (old : Option Cell) (n : Monitor)
      → IsKept m cx cy hcx hcy old n
      → IsKept m cx cy hcx hcy old (panels n)
  panels-IsKept old n kn =
      let a = m.width / 2 - 2 in
      let b = m.height - 12 in
      let n1 = draw_ghost_map g.resident_pages (ghost_rect m.width m.height) n in
      let k1 : IsKept m cx cy hcx hcy old n1 =
        subst (λ r. IsKept m cx cy hcx hcy old (draw_ghost_map g.resident_pages r n))
          (sym (ghost_rect-eq m.width m.height (omega arith) (omega arith)))
          (draw_ghost_map-IsKept m cx cy hcx hcy 1 2 a b (omega arith) (omega arith) (omega arith)
            (ground (arith, bar)) (omega arith) g.resident_pages old n kn) in
      let n2 = draw_fibers k (fibers_rect m.width m.height) n1 in
      let k2 : IsKept m cx cy hcx hcy old n2 =
        subst (λ r. IsKept m cx cy hcx hcy old (draw_fibers k r n1))
          (sym (fibers_rect-eq m.width m.height (omega arith) (omega arith)))
          (draw_fibers-IsKept m cx cy hcx hcy old (m.width / 2 + 1) 2 a b (omega arith)
            (omega arith) (omega arith) (ground (arith, bar)) (omega arith) k n1 k1) in
      let n3 = draw_jit_stream (jit_rect m.width m.height) n2 in
      let k3 : IsKept m cx cy hcx hcy old n3 =
        subst (λ r. IsKept m cx cy hcx hcy old (draw_jit_stream r n2))
          (sym (jit_rect-eq m.width m.height (omega arith) (omega arith)))
          (draw_jit_stream-IsKept m cx cy hcx hcy old 1 (m.height - 9) a 7 (omega arith)
            (omega arith) (omega arith) (ground (arith, bar)) (omega arith) n2 k2) in
      subst (λ r. IsKept m cx cy hcx hcy old (draw_input r n3))
        (sym (input_rect-eq m.width m.height (omega arith) (omega arith)))
        (draw_input-IsKept m cx cy hcx hcy old (m.width / 2 + 1) (m.height - 4) a 3 (omega arith)
          (omega arith) (omega arith) (ground (arith, bar)) (omega arith) n3 k3)

  abbrev erased : Monitor
  erased = record m { back_buffer = clear_buffer m.back_buffer }

  erased-IsDrawing : IsDrawing m erased
  erased-IsDrawing =
      cells-IsDrawing m m (clear_buffer m.back_buffer)
        (record { valid = v; same_width = refl; same_height = refl; same_front = refl })
        (length-clear_buffer m.back_buffer)

  abbrev headed : Monitor
  headed = text_on (pos 2) (pos 0) (header_text m) erased

  -- A bar's cell in the frame, by the row.
  cell-draw_frame : cell m cx cy hcx hcy (draw_frame k g m).back_buffer ≡ (
      if cy == 0
      then byte_at 2 (header_text m) cx (some blank)
      else byte_at 2 (status_text k g) cx (some blank))
  unfolding draw_frame draw_bars
  cell-draw_frame =
      let blank_cell =
        get_elem?-clear_buffer m.back_buffer (cy * m.width + cx)
          (omega (arith, place_inside m.width m.height cx cy hcx hcy, v.back_cells)) in
      let headed_d = text_on-IsDrawing m (pos 2) (pos 0) (header_text m) erased erased-IsDrawing in
      let status_row = pos m.height -ℤ pos 1 in
      let barred = text_on (pos 2) status_row (status_text k g) headed in
      (panels-IsKept (cell m cx cy hcx hcy barred.back_buffer) barred (record {
        drawing = text_on-IsDrawing m (pos 2) status_row (status_text k g) headed headed_d;
        kept = refl;
      })).kept
      ∙ look-text_on m cx cy hcx hcy 2 (m.height - 1) (pos 2) status_row (status_text k g) headed
          headed_d refl (pos-sub m.height 1 (omega arith))
      ∙ bar_cases m.height cx cy (status_text k g) (header_text m)
          (cell m cx cy hcx hcy headed.back_buffer) (cell m cx cy hcx hcy erased.back_buffer) high
          bar
          (look-text_on m cx cy hcx hcy 2 0 (pos 2) (pos 0) (header_text m) erased erased-IsDrawing
            refl refl)
          blank_cell

choose : {b : Bool} (x y : Option Cell) → b ≡ false → (if b then x else y) ≡ y
choose x y e = ap (λ b. if b then x else y) e

-- In a window of at least 8 columns and 14 rows a frame of a well-formed monitor has the header
-- text, or the default title where it is empty, in its first row from column 2 on, and the fault,
-- page and fiber counts in its last row from column 2 on, each cut at the row's end, and blanks
-- elsewhere in these rows: no panel reaches into them.
pub draw_frame-bars :
    (k : Scheduler) (g : Manager) (m : Monitor) (cx : ℕ)
    → IsValid m
    → 8 ≤ m.width
    → 14 ≤ m.height
    → cx < m.width
    → (look m.width m.height cx 0 (draw_frame k g m).back_buffer
        ≡ byte_at 2 (header_text m) cx (some blank))
      × (look m.width m.height cx (m.height - 1) (draw_frame k g m).back_buffer
          ≡ byte_at 2 (status_text k g) cx (some blank))
draw_frame-bars k g m cx v wide high hcx =
    let last : m.height - 1 + 1 ≡ m.height = omega arith in
    let not_first : (m.height - 1 == 0) ≡ false = ground arith in
    (
      cell-draw_frame k g m v wide high cx 0 hcx (omega arith) (inl refl),
      cell-draw_frame k g m v wide high cx (m.height - 1) hcx (omega arith) (inr last)
          ∙ choose _ _ not_first,
    )
