-- ===== src/Frame/Entry.antt =====
-- The input box of src/monitor/SystemMonitor.cpp keeps to its rows, whether it flashes, blinks or shows
-- a text.
use hyperion_euntime_environ.Base.{
  ℕ, zero, suc, ◌+◌, ◌-◌, ◌*◌, ◌%◌, ◌^◌, ◌<◌, ◌≤◌, ◌≡◌, ◌≢◌, refl, ap, ◌∙◌, Option, List, [], ◌∷◌,
  ltb, ◌==◌, length, arith, ◌⊎◌, inl, inr, Bool-cases, ℤ, pos, ◌+ℤ◌, ◌-ℤ◌, ◌*ℤ◌, pos-add, pos-sub,
  take, to_size, eq_of_parts, int_laws,
}
use hyperion_euntime_environ.Base.Text.{codes}
use hyperion_euntime_environ.Canvas.{Cell, Rect, put}
use hyperion_euntime_environ.Canvas.Cells.{length-put}
use hyperion_euntime_environ.Canvas.Box.{rect_of}
use hyperion_euntime_environ.Monitor.{Monitor, fast_rand}
use hyperion_euntime_environ.Monitor.Random.{fast_rand_bound}
use hyperion_euntime_environ.Panel.{text_on, box_on}
use hyperion_euntime_environ.Frame.{flash_loop, input_border, input_line, draw_input}
use hyperion_euntime_environ.Frame.Validity.{counters-IsDrawing, cells-IsDrawing}
use hyperion_euntime_environ.Frame.Picture.{
  cell, back_cells, text_on-IsKept, put-kept, box_on-IsKept,
}
use hyperion_euntime_environ.Frame.Streams.{K, inner, seed-IsKept}

module _ (m0 : Monitor) (cx cy : ℕ) (hcx : cx < m0.width) (hcy : cy < m0.height) (old : Option Cell)
    (x y w h : ℕ) (w_two : 2 ≤ w) (h_two : 2 ≤ h) (hx : x + w ≤ m0.width)
    (above : cy < y ⊎ y + h ≤ cy) (hy : y + h ≤ m0.height) where
  abbrev R : Monitor → Type 0
  R m = K m0 cx cy hcx hcy old x y w h w_two h_two hx above hy m

  abbrev box : Rect
  box = rect_of x y w h

  seeded_kept : (m : Monitor) (seed : ℕ) → R m → seed < 2 ^ 32 → R (record m { rand_seed = seed })
  seeded_kept = seed-IsKept m0 cx cy hcx hcy old x y w h w_two h_two hx above hy

  -- One of the two cells of a round.
  flash_put :
      (cells : List Cell) (width : ℕ) (row : ℤ) (n i : ℕ)
      → width ≡ m0.width
      → length cells ≡ m0.width * m0.height
      → i < w
      → row ≡ pos n
      → cy ≢ n
      → cell m0 cx cy hcx hcy (put cells (row *ℤ pos width +ℤ pos x +ℤ pos i) (61 ∷ []))
        ≡ cell m0 cx cy hcx hcy cells
  flash_put cells width row n i same len l e other =
      ap (λ (a : ℕ). cell m0 cx cy hcx hcy (put cells (row *ℤ pos a +ℤ pos x +ℤ pos i) (61 ∷ [])))
        same
      ∙ ap (λ (a : ℤ). cell m0 cx cy hcx hcy (put cells a (61 ∷ [])))
          (eq_of_parts (row *ℤ pos m0.width +ℤ pos x +ℤ pos i)
            (row *ℤ pos m0.width +ℤ (pos x +ℤ pos i)) (omega int_laws))
      ∙ put-kept m0 cx cy hcx hcy cells row (pos x +ℤ pos i) n (x + i) (61 ∷ []) len (omega arith) e
          (pos-add x i) other

  flash_loop-IsKept :
      (rounds i : ℕ) (m : Monitor) → i + rounds ≤ w → R m → R (flash_loop rounds i box m)
  unfolding flash_loop
  flash_loop-IsKept zero i m l k = k
  flash_loop-IsKept (suc rounds) i m l k =
      let row = λ (a : ℤ). a *ℤ pos m.width +ℤ pos x +ℤ pos i in
      let last : ℤ = pos y +ℤ pos h -ℤ pos 1 in
      let last-pos : last ≡ pos (y + h - 1) =
        ap (λ (a : ℤ). a -ℤ pos 1) (pos-add y h) ∙ pos-sub (y + h) 1 (omega arith) in
      let top = put m.back_buffer (row (pos y)) (61 ∷ []) in
      let both = put top (row last) (61 ∷ []) in
      let len = back_cells m0 cx cy hcx hcy m k.drawing in
      let top_len = length-put m.back_buffer (row (pos y)) (61 ∷ []) in
      flash_loop-IsKept rounds (suc i) (record m { back_buffer = both }) (omega arith)
        (record {
          drawing =
              cells-IsDrawing m0 m both k.drawing (length-put top (row last) (61 ∷ []) ∙ top_len);
          kept =
              flash_put top m.width last (y + h - 1) i k.drawing.same_width (top_len ∙ len)
                (omega arith) last-pos (ground (arith, above))
              ∙ flash_put m.back_buffer m.width (pos y) y i k.drawing.same_width len (omega arith)
                  refl (ground (arith, above))
              ∙ k.kept;
        })

  boxed : (m : Monitor) → R m → R (box_on box m)
  boxed = box_on-IsKept m0 cx cy hcx hcy x y w h (omega arith) (omega arith) hx above hy old

  input_border-IsKept : (m : Monitor) → R m → R (input_border box m)
  unfolding input_border
  input_border-IsKept m k =
      let s = fast_rand m.rand_seed in
      let v = k.drawing.valid in
      let seeded = seeded_kept m s k (fast_rand_bound m.rand_seed v.seed_bound) in
      elim (Bool-cases (ltb 0 m.flash_timer)) [
        | inl t ↦ rw t (
            flash_loop-IsKept w 0 _ (omega arith) (record {
              drawing =
                  counters-IsDrawing m0 m m.rand_seed m.spinner_idx (m.flash_timer - 1)
                    m.scroll_offset k.drawing v.seed_bound v.spinner_bound
                    (omega (arith, v.flash_bound));
              kept = k.kept;
            }))
        | inr t ↦ rw t (elim (Bool-cases (length m.input_text == 0)) [
          | inl e ↦ rw e (elim (Bool-cases (s % 20 == 0)) [
            | inl z ↦ rw z seeded
            | inr z ↦ rw z (boxed (record m { rand_seed = s }) seeded)
          ])
          | inr e ↦ rw e (boxed m k)
        ])
      ]

  entry : (text : List ℕ) (m : Monitor) → R m → R (text_on (pos x +ℤ pos 2) (pos y +ℤ pos 1) text m)
  entry text m k =
      inner m0 cx cy hcx hcy old x y w h w_two h_two hx above hy 2 1 text m (omega arith) k

  input_line-IsKept : (m : Monitor) → R m → R (input_line box m)
  unfolding input_line
  input_line-IsKept m k =
      let s = fast_rand m.rand_seed in
      let seeded = seeded_kept m s k (fast_rand_bound m.rand_seed k.drawing.valid.seed_bound) in
      elim (Bool-cases (length m.input_text == 0)) [
        | inl e ↦ rw e (elim (Bool-cases (ltb (s % 30) 15)) [
          | inl z ↦ rw z (entry (codes "_") (record m { rand_seed = s }) seeded)
          | inr z ↦ rw z seeded
        ])
        | inr e ↦ rw e (entry (take (to_size (pos w -ℤ pos 4)) m.input_text) m k)
      ]

  pub draw_input-IsKept : (m : Monitor) → R m → R (draw_input box m)
  unfolding draw_input
  draw_input-IsKept m k =
      let m1 = input_border box m in
      input_line-IsKept (text_on (pos x +ℤ pos 2) (pos y) (codes " INPUT BUFFER ") m1) (
        text_on-IsKept m0 cx cy hcx hcy old (x + 2) y (pos x +ℤ pos 2) (pos y)
          (codes " INPUT BUFFER ") m1 (pos-add x 2) refl (ground (arith, above))
          (input_border-IsKept m k))
