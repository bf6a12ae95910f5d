-- ===== src/Slab/Alloc/FirstFit.antt =====
-- The first-fit loop of `Allocate` over a free list.
use hyperion_euntime_environ.Base.{
  ℕ, zero, suc, ◌≤◌, ◌<◌, ◌≡◌, inl, inr, some, List, [], ◌∷◌, arith, length, leb, Bool-cases,
  leb→le,
}
use hyperion_euntime_environ.Slab.{Memory, next_offset}
use hyperion_euntime_environ.Slab.Header.{get_size}
use hyperion_euntime_environ.Slab.Alloc.{first_fit}
use hyperion_euntime_environ.Slab.FreeList.Links.{Linked}

abbrev pub AllSmaller : Memory → ℕ → List ℕ → Type 0
AllSmaller m required [] = Unit
AllSmaller m required (o ∷ os) = (get_size (m o) < required) × AllSmaller m required os

-- `found` is the first block of the list that has the size, or 0 if none has.
pub data FirstFit (m : Memory) (required : ℕ) : List ℕ → ℕ → Type 0 where
  end : FirstFit m required [] 0
  here : {o : ℕ} {os : List ℕ} → required ≤ get_size (m o) → FirstFit m required (o ∷ os) o
  later :
      {o found : ℕ} {os : List ℕ}
      → get_size (m o) < required
      → FirstFit m required os found
      → FirstFit m required (o ∷ os) found

-- With more fuel than the list has blocks the loop ends, at the first block that is large enough, or
-- at 0 when every block is too small.
pub first_fit-FirstFit :
    (fuel : ℕ) (m : Memory) (required p c : ℕ) (os : List ℕ)
    → Linked m p c os
    → length os < fuel
    → (found : ℕ) × (first_fit fuel m required c ≡ some found) × FirstFit m required os found
unfolding first_fit
first_fit-FirstFit zero m required p c os l h = absurd (omega arith)
first_fit-FirstFit (suc fuel) m required p c [] l h = (0, ground arith, end)
first_fit-FirstFit (suc fuel) m required p c (o ∷ os) l h =
    elim (Bool-cases (leb required (get_size (m o)))) [
      | inl fits ↦ (o, ground (arith, l.0, l.1), here (leb→le required (get_size (m o)) fits))
      | inr small ↦
          let (found, e, first) =
            first_fit-FirstFit fuel m required o (m (next_offset o)) os l.4 (omega arith) in
          (found, ground (arith, l.0, l.1), later (ground arith) first)
    ]
