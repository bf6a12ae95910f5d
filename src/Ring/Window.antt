-- ===== src/Ring/Window.antt =====
-- The slots of the ring buffer that hold a queue, and what writes leave of them.
use native.Mathlib.Nat.{mod-eq_of_lt, mod-eq-sub-mod, mod-add-mod, add-zero}
use hyperion_euntime_environ.Base.{
  ℕ, suc, ◌+◌, ◌-◌, ◌%◌, ◌^◌, ◌<◌, ◌≡◌, sym, ap, ◌∙◌, ◌≢◌, some, List, [], ◌∷◌, ◌++◌, arith, dec_lt,
  length, get_elem?, set, get_elem?-set_ne,
}
use hyperion_euntime_environ.Base.Bits.{bit_and_mask}
use hyperion_euntime_environ.Ring.{next_index}

-- The mask of a power of two is the remainder: stepping an index goes round at the capacity.
pub next_index-mod : (k i : ℕ) → 2 ^ k < 2 ^ 64 → i < 2 ^ k → next_index k i ≡ (i + 1) % 2 ^ k
unfolding next_index
next_index-mod k i small h =
    bit_and_mask k ((i + 1) % 2 ^ 64)
    ∙ ap (λ (t : ℕ). t % 2 ^ k) (mod-eq_of_lt {n = i + 1} {m = 2 ^ 64} (omega arith))

-- Fewer steps than the capacity do not lead back.
pub round-ne : (c h j : ℕ) → h < c → suc j < c → (h + suc j) % c ≢ h
round-ne c h j hh hj = elim (dec_lt (h + suc j) c) [
  | yes p ↦ omega (arith, mod-eq_of_lt p)
  | no p ↦ omega (
    arith,
    mod-eq-sub-mod {n = h + suc j} {m = c} (omega arith),
    mod-eq_of_lt {n = h + suc j - c} {m = c} (omega arith),
  )
]

pub shift_start : (c h n : ℕ) → ((h + 1) % c + n) % c ≡ (h + suc n) % c
shift_start c h n = mod-add-mod (h + 1) c n ∙ ap (λ (t : ℕ). t % c) (omega arith)

module _ {ℓ} {A : Type ℓ} (c : ℕ) where
  -- From slot `h` on, going round at `c`, the buffer holds `q`.
  abbrev pub Window : List A → ℕ → List A → Type ℓ
  Window buf h [] = Unit
  Window buf h (x ∷ q) = (get_elem? buf h ≡ some x) × Window buf ((h + 1) % c) q

  -- A write to the slot behind the window leaves the window.
  pub Window-set :
      (buf q : List A) (h t : ℕ) (x : A)
      → h < c
      → length q < c
      → t ≡ (h + length q) % c
      → Window buf h q
      → Window (set buf t x) h q
  Window-set buf [] h t x hh hq e w = tt
  Window-set buf (y ∷ q) h t x hh hq e w = (
    get_elem?-set_ne buf t h x (λ p. round-ne c h (length q) hh hq (sym e ∙ p)) ∙ w.0,
    Window-set buf q ((h + 1) % c) t x (omega arith) (omega arith)
        (e ∙ sym (shift_start c h (length q))) w.1,
  )

  -- A window whose next slot holds `x` is longer by `x`.
  pub Window-snoc :
      (buf q : List A) (h t : ℕ) (x : A)
      → h < c
      → t ≡ (h + length q) % c
      → get_elem? buf t ≡ some x
      → Window buf h q
      → Window buf h (q ++ x ∷ [])
  Window-snoc buf [] h t x hh e at w =
      (ap (λ (j : ℕ). get_elem? buf j) (sym (e ∙ rw add-zero (mod-eq_of_lt hh))) ∙ at, tt)
  Window-snoc buf (y ∷ q) h t x hh e at w = (
    w.0,
    Window-snoc buf q ((h + 1) % c) t x (omega arith) (e ∙ sym (shift_start c h (length q))) at w.1,
  )
