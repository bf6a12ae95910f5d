-- ===== src/Monitor/Present.antt =====
-- `present` and `compute_buffer_diff` of src/monitor/SystemMonitor.cpp against a terminal that obeys
-- what it is sent.
use native.Mathlib.Nat.{div-add-mod'}
use hyperion_euntime_environ.Base.{
  ℕ, suc, ◌+◌, ◌-◌, ◌*◌, ◌/◌, ◌%◌, ◌≡◌, refl, ap, ap₂, sym, ◌∙◌, true, List, [], ◌∷◌, ◌++◌,
  append_assoc, arith, length, length-append, set, Bool-cases, inl, inr,
}
use hyperion_euntime_environ.Canvas.{Cell}
use hyperion_euntime_environ.Monitor.{
  Monitor, Piece, move_to, glyph, same_bytes, diff_from, compute_buffer_diff, settle, present,
}

-- A terminal: its cursor, counted from 1, and what it shows.
pub record Terminal : Type 0 where
  pub row : ℕ
  pub column : ℕ
  pub shown : List Cell

-- A glyph appears at the cursor, which moves on. What a cell holds is taken as one glyph, as it is
-- for printable ASCII and the box characters.
unfoldable obey : ℕ → Piece → Terminal → Terminal
obey width (move_to row column) t = record t { row = row; column = column }
obey width (glyph c) t = record t {
  shown = set t.shown ((t.row - 1) * width + (t.column - 1)) c;
  column = t.column + 1;
}

unfoldable pub obey_all : ℕ → List Piece → Terminal → Terminal
unfolding obey
obey_all width [] t = t
obey_all width (p ∷ ps) t = obey_all width ps (obey width p t)

same_bytes-eq : (xs ys : List ℕ) → same_bytes xs ys ≡ true → xs ≡ ys
same_bytes-eq [] [] h = refl
same_bytes-eq [] (y ∷ ys) h = cc
same_bytes-eq (x ∷ xs) [] h = cc
same_bytes-eq (x ∷ xs) (y ∷ ys) h = ground (arith, same_bytes-eq xs ys)

same_bytes_refl : (xs : List ℕ) → same_bytes xs xs ≡ true
same_bytes_refl [] = refl
same_bytes_refl (x ∷ xs) = ground (arith, same_bytes_refl xs)

set-append :
    (before : List Cell) (f b : Cell) (after : List Cell)
    → set (before ++ f ∷ after) (length before) b ≡ before ++ b ∷ after
set-append [] f b after = refl
set-append (x ∷ before) f b after = ap (λ (r : List Cell). x ∷ r) (set-append before f b after)

module _ (width : ℕ) where
  place : (i : ℕ) → (i / width + 1 - 1) * width + (i % width + 1 - 1) ≡ i
  place i =
      ap₂ (λ (a b : ℕ). a * width + b) {x = i / width + 1 - 1} {y = i / width}
        {u = i % width + 1 - 1} {v = i % width} (omega arith) (omega arith)
      ∙ div-add-mod' i width

  -- Once the cells before i are right, the pieces from i on make the rest right.
  shown-diff_from :
      (before front back : List Cell) (i : ℕ) (t : Terminal)
      → length before ≡ i
      → length front ≡ length back
      → t.shown ≡ before ++ front
      → (obey_all width (diff_from width i front back) t).shown ≡ before ++ back
  unfolding diff_from obey_all
  shown-diff_from before [] [] i t len same e = e
  shown-diff_from before [] (b ∷ back) i t len same e = absurd (omega arith)
  shown-diff_from before (f ∷ front) [] i t len same e = absurd (omega arith)
  shown-diff_from before (f ∷ front) (b ∷ back) i t len same e =
      let longer = before ++ b ∷ [] in
      let longer_len : length longer ≡ suc i = omega (arith, length-append {0} before (b ∷ [])) in
      elim (Bool-cases (same_bytes f b)) [
        | inl s ↦ rw s (
            shown-diff_from longer front back (suc i) t longer_len (omega arith) (
              e
              ∙ ap (λ (c : Cell). before ++ c ∷ front) (same_bytes-eq f b s)
              ∙ sym (append_assoc before (b ∷ []) front))
            ∙ append_assoc before (b ∷ []) back)
        | inr n ↦ rw n (
            shown-diff_from longer front back (suc i)
              (obey width (glyph b) (obey width (move_to (i / width + 1) (i % width + 1)) t))
              longer_len (omega arith)
              (ap₂ (λ (cells : List Cell) (k : ℕ). set cells k b) e (place i ∙ sym len)
                ∙ set-append before f b front
                ∙ sym (append_assoc before (b ∷ []) front))
            ∙ append_assoc before (b ∷ []) back)
      ]

  diff_from_self : (i : ℕ) (cells : List Cell) → diff_from width i cells cells ≡ []
  unfolding diff_from
  diff_from_self i [] = refl
  diff_from_self i (c ∷ cells) = rw (same_bytes_refl c) (diff_from_self (suc i) cells)

settle_keeps :
    (ps : List Piece) (m : Monitor)
    → ((settle ps m).width ≡ m.width) × ((settle ps m).back_buffer ≡ m.back_buffer)
unfolding settle
settle_keeps [] m = (refl, refl)
settle_keeps (p ∷ ps) m = (refl, refl)

settle-front :
    (ps : List Piece) (m : Monitor)
    → (ps ≡ [] → m.front_buffer ≡ m.back_buffer)
    → (settle ps m).front_buffer ≡ m.back_buffer
unfolding settle
settle-front [] m h = h refl
settle-front (p ∷ ps) m h = refl

module _ (m : Monitor) (same : length m.front_buffer ≡ length m.back_buffer) where
  abbrev diff : List Piece
  diff = compute_buffer_diff m.width m.front_buffer m.back_buffer

  diff-shows :
      (t : Terminal) → t.shown ≡ m.front_buffer → (obey_all m.width diff t).shown ≡ m.back_buffer
  unfolding compute_buffer_diff
  diff-shows t e = shown-diff_from m.width [] m.front_buffer m.back_buffer 0 t refl same e

  diff_empty : diff ≡ [] → m.front_buffer ≡ m.back_buffer
  unfolding obey_all
  diff_empty e =
      let t : Terminal = record { row = 1; column = 1; shown = m.front_buffer } in
      ap (λ (ps : List Piece). (obey_all m.width ps t).shown) (sym e) ∙ diff-shows t refl

  pub present-shows :
      (t : Terminal)
      → t.shown ≡ m.front_buffer
      → ((obey_all m.width (present m).0 t).shown ≡ m.back_buffer)
        × ((present m).1.front_buffer ≡ m.back_buffer)
        × ((present m).1.back_buffer ≡ m.back_buffer)
  unfolding present
  present-shows t e = (diff-shows t e, settle-front diff m diff_empty, (settle_keeps diff m).1)

  present-present : (present (present m).1).0 ≡ []
  unfolding present compute_buffer_diff
  present-present =
      ap₂ (λ (f b : List Cell). diff_from (settle diff m).width 0 f b)
        (settle-front diff m diff_empty) (settle_keeps diff m).1
      ∙ diff_from_self (settle diff m).width 0 m.back_buffer
