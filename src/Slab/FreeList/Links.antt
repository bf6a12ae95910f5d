-- ===== src/Slab/FreeList/Links.antt =====
-- The free list as the list of its blocks' offsets, and what its two operations make of it.
use hyperion_euntime_environ.Base.{ℕ, ◌%◌, ◌≡◌, sym, ◌∙◌, subst, ◌≢◌, List, [], ◌∷◌}
use hyperion_euntime_environ.Slab.{Slab, Memory, next_offset, prev_offset}

-- From `c` on the blocks of the list follow one another, each at a multiple of 64 and each with its
-- predecessor's offset, the first with `p`.
abbrev pub Linked : Memory → ℕ → ℕ → List ℕ → Type 0
Linked m p c [] = c ≡ 0
Linked m p c (o ∷ os) =
    (c ≡ o) × (o ≢ 0) × (o % 64 ≡ 0) × (m (prev_offset o) ≡ p) × Linked m o (m (next_offset o)) os

abbrev pub Fresh : ℕ → List ℕ → Type 0
Fresh b [] = Unit
Fresh b (o ∷ os) = (o ≢ b) × Fresh b os

abbrev pub Distinct : List ℕ → Type 0
Distinct [] = Unit
Distinct (o ∷ os) = Fresh o os × Distinct os

pub record IsFreeList (s : Slab) (blocks : List ℕ) : Type 0 where
  pub linked : Linked s.memory 0 s.free_list_head blocks
  pub distinct : Distinct blocks

-- Two memories agree on the links of a list.
abbrev pub Agree : Memory → Memory → List ℕ → Type 0
Agree m m' [] = Unit
Agree m m' (o ∷ os) =
    (m' (next_offset o) ≡ m (next_offset o))
    × (m' (prev_offset o) ≡ m (prev_offset o))
    × Agree m m' os

pub Linked-Agree :
    (m m' : Memory) (p c : ℕ) (os : List ℕ) → Agree m m' os → Linked m p c os → Linked m' p c os
Linked-Agree m m' p c [] a l = l
Linked-Agree m m' p c (o ∷ os) (n, b, a) (e, ne, al, pe, l) = (
  e,
  ne,
  al,
  b ∙ pe,
  subst (λ d. Linked m' o d os) (sym n) (Linked-Agree m m' o (m (next_offset o)) os a l),
)

pub Fresh-zero : (m : Memory) (p c : ℕ) (os : List ℕ) → Linked m p c os → Fresh 0 os
Fresh-zero m p c [] l = tt
Fresh-zero m p c (o ∷ os) l = (l.1, Fresh-zero m o (m (next_offset o)) os l.4)
