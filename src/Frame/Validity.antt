-- ===== src/Frame/Validity.antt =====
-- The monitor of src/monitor/SystemMonitor.cpp stays well-formed: its feeders, and every panel of a
-- frame, which also leaves the cells that the terminal shows alone.
use hyperion_euntime_environ.Base.{
  ℕ, zero, suc, ◌*◌, ◌^◌, ◌<◌, ◌≤◌, ◌≡◌, refl, ◌∙◌, List, [], ◌∷◌, length, get_or, arith, ℤ, pos,
  ◌+ℤ◌, ◌-ℤ◌, ◌*ℤ◌, quot, rem,
}
use hyperion_euntime_environ.Base.Text.{codes}
use hyperion_euntime_environ.Canvas.{Cell, Rect, put}
use hyperion_euntime_environ.Canvas.Cells.{length-put}
use hyperion_euntime_environ.Canvas.Text.{length-draw_text}
use hyperion_euntime_environ.Canvas.Box.{length-draw_box}
use hyperion_euntime_environ.Monitor.{Monitor}
use hyperion_euntime_environ.Panel.{
  text_on, box_on, heat_loop, heat_glyph, update_heat, with_heat, draw_ghost_map,
}
use hyperion_euntime_environ.Panel.Heat.{update_heat_at, length-update_heat, update_heat_seed}

pub record IsValid (m : Monitor) : Type 0 where
  pub front_cells : length m.front_buffer ≡ m.width * m.height
  pub back_cells : length m.back_buffer ≡ m.width * m.height
  pub blocks : length m.ghost_heat_map ≡ 1024
  pub heat_bound : (i : ℕ) → i < 1024 → get_or m.ghost_heat_map i 0 ≤ 5
  pub spinner_bound : m.spinner_idx < 4
  pub flash_bound : m.flash_timer ≤ 12
  pub seed_bound : m.rand_seed < 2 ^ 32

-- A drawing over what the terminal shows.
pub record IsDrawing (m0 m : Monitor) : Type 0 where
  pub valid : IsValid m
  pub same_width : m.width ≡ m0.width
  pub same_height : m.height ≡ m0.height
  pub same_front : m.front_buffer ≡ m0.front_buffer

module _ (m0 : Monitor) where
  -- New cells of the same number.
  pub cells-IsDrawing :
      (m : Monitor) (cells : List Cell)
      → IsDrawing m0 m
      → length cells ≡ length m.back_buffer
      → IsDrawing m0 (record m { back_buffer = cells })
  cells-IsDrawing m cells d e =
      let v = d.valid in
      record {
        valid = record {
          front_cells = v.front_cells;
          back_cells = e ∙ v.back_cells;
          blocks = v.blocks;
          heat_bound = v.heat_bound;
          spinner_bound = v.spinner_bound;
          flash_bound = v.flash_bound;
          seed_bound = v.seed_bound;
        };
        same_width = d.same_width;
        same_height = d.same_height;
        same_front = d.same_front;
      }

  -- New counters within their bounds.
  pub counters-IsDrawing :
      (m : Monitor) (seed spinner timer scroll : ℕ)
      → IsDrawing m0 m
      → seed < 2 ^ 32
      → spinner < 4
      → timer ≤ 12
      → IsDrawing m0 (record m {
        rand_seed = seed;
        spinner_idx = spinner;
        flash_timer = timer;
        scroll_offset = scroll;
      })
  counters-IsDrawing m seed spinner timer scroll d hs hp ht =
      let v = d.valid in
      record {
        valid = record {
          front_cells = v.front_cells;
          back_cells = v.back_cells;
          blocks = v.blocks;
          heat_bound = v.heat_bound;
          spinner_bound = hp;
          flash_bound = ht;
          seed_bound = hs;
        };
        same_width = d.same_width;
        same_height = d.same_height;
        same_front = d.same_front;
      }

  pub seed-IsDrawing :
      (m : Monitor) (seed : ℕ)
      → IsDrawing m0 m
      → seed < 2 ^ 32
      → IsDrawing m0 (record m { rand_seed = seed })
  seed-IsDrawing m seed d h =
      counters-IsDrawing m seed m.spinner_idx m.flash_timer m.scroll_offset d h
        d.valid.spinner_bound d.valid.flash_bound

  pub text_on-IsDrawing :
      (x y : ℤ) (text : List ℕ) (m : Monitor) → IsDrawing m0 m → IsDrawing m0 (text_on x y text m)
  unfolding text_on
  text_on-IsDrawing x y text m d =
      cells-IsDrawing m _ d (length-draw_text m.width m.height m.back_buffer x y text)

  pub box_on-IsDrawing : (r : Rect) (m : Monitor) → IsDrawing m0 m → IsDrawing m0 (box_on r m)
  unfolding box_on
  box_on-IsDrawing r m d = cells-IsDrawing m _ d (length-draw_box m.width m.height r m.back_buffer)

  length-heat_loop :
      (width : ℕ) (r : Rect) (rounds i : ℕ) (heats : List ℕ) (cells : List Cell)
      → length (heat_loop width r rounds i heats cells) ≡ length cells
  unfolding heat_loop
  length-heat_loop width r zero i heats cells = refl
  length-heat_loop width r (suc rounds) i [] cells = refl
  length-heat_loop width r (suc rounds) i (h ∷ heats) cells =
      let at : ℤ =
        (r.y +ℤ pos 1 +ℤ quot i (r.w -ℤ pos 2)) *ℤ pos width
        +ℤ (r.x +ℤ pos 1 +ℤ pos (rem i (r.w -ℤ pos 2))) in
      length-heat_loop width r rounds (suc i) heats (put cells at (heat_glyph h))
      ∙ length-put cells at (heat_glyph h)

  with_heat-IsDrawing :
      (resident : ℕ) (m : Monitor)
      → IsDrawing m0 m
      → IsDrawing m0 (with_heat (update_heat resident m.rand_seed m.ghost_heat_map) m)
  with_heat-IsDrawing resident m d =
      let v = d.valid in
      record {
        valid = record {
          front_cells = v.front_cells;
          back_cells = v.back_cells;
          blocks = length-update_heat resident m.rand_seed m.ghost_heat_map ∙ v.blocks;
          heat_bound = λ i h.
              (update_heat_at resident m.rand_seed m.ghost_heat_map i (omega arith)
                (v.heat_bound i h)).0;
          spinner_bound = v.spinner_bound;
          flash_bound = v.flash_bound;
          seed_bound = update_heat_seed resident m.rand_seed m.ghost_heat_map v.seed_bound;
        };
        same_width = d.same_width;
        same_height = d.same_height;
        same_front = d.same_front;
      }

  pub draw_ghost_map-IsDrawing :
      (resident : ℕ) (r : Rect) (m : Monitor)
      → IsDrawing m0 m
      → IsDrawing m0 (draw_ghost_map resident r m)
  unfolding draw_ghost_map
  draw_ghost_map-IsDrawing resident r m d =
      let m1 = text_on (r.x +ℤ pos 2) r.y (codes " GHOST MAP (1024TB) ") (box_on r m) in
      let m2 = with_heat (update_heat resident m1.rand_seed m1.ghost_heat_map) m1 in
      cells-IsDrawing m2 _
        (with_heat-IsDrawing resident m1 (
          text_on-IsDrawing (r.x +ℤ pos 2) r.y (codes " GHOST MAP (1024TB) ") (box_on r m)
            (box_on-IsDrawing r m d)))
        (length-heat_loop m2.width r _ 0 m2.ghost_heat_map m2.back_buffer)
