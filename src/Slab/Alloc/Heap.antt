-- ===== src/Slab/Alloc/Heap.antt =====
-- Free blocks that do not overlap, and the writes to one of them.
use hyperion_euntime_environ.Base.{
  ℕ, ◌+◌, ◌-◌, ◌%◌, ◌^◌, ◌<◌, ◌≤◌, ◌≡◌, ◌≢◌, ◌⊎◌, inr, Bool, List, [], ◌∷◌, ◌++◌, arith,
}
use hyperion_euntime_environ.Slab.{Memory, next_offset, prev_offset, footer_size}
use hyperion_euntime_environ.Slab.Header.{get_size, is_free}
use hyperion_euntime_environ.Slab.FreeList.Links.{Linked, Agree}
use hyperion_euntime_environ.Slab.FreeList.Bypass.{last}

-- A free block: a header word, of a multiple of 64 bytes, at least 128, below 2 ^ 64.
pub record IsBlock (m : Memory) (b : ℕ) : Type 0 where
  pub word : m b < 2 ^ 64
  pub sized : get_size (m b) % 64 ≡ 0
  pub large : 128 ≤ get_size (m b)
  pub inside : b + get_size (m b) < 2 ^ 64

-- A block ends before any of the others or begins behind it.
abbrev pub AllApart : Memory → ℕ → List ℕ → Type 0
AllApart m b [] = Unit
AllApart m b (o ∷ os) = ((b + get_size (m b) ≤ o) ⊎ (o + get_size (m o) ≤ b)) × AllApart m b os

abbrev pub IsHeap : Memory → List ℕ → Type 0
IsHeap m [] = Unit
IsHeap m (o ∷ os) = IsBlock m o × AllApart m o os × IsHeap m os

-- The links of some blocks lie outside the block at `b`.
abbrev pub Off : ℕ → ℕ → List ℕ → Type 0
Off b size [] = Unit
Off b size (o ∷ os) = ((b + size ≤ o) ⊎ (o + 80 ≤ b)) × Off b size os

pub block_in : (m : Memory) (b : ℕ) (xs ys : List ℕ) → IsHeap m (xs ++ b ∷ ys) → IsBlock m b
block_in m b [] ys h = h.0
block_in m b (x ∷ xs) ys h = block_in m b xs ys h.2

pub off_after :
    (m : Memory) (b : ℕ) (ys : List ℕ) → AllApart m b ys → IsHeap m ys → Off b (get_size (m b)) ys
off_after m b [] a h = tt
off_after m b (y ∷ ys) a h = (ground (arith, a.0, h.0.large), off_after m b ys a.1 h.2)

pub off_behind :
    (m : Memory) (b : ℕ) (xs ys : List ℕ) → IsHeap m (xs ++ b ∷ ys) → Off b (get_size (m b)) ys
off_behind m b [] ys h = off_after m b ys h.1 h.2
off_behind m b (x ∷ xs) ys h = off_behind m b xs ys h.2

apart_from :
    (m : Memory) (x b : ℕ) (xs ys : List ℕ)
    → AllApart m x (xs ++ b ∷ ys)
    → (x + get_size (m x) ≤ b) ⊎ (b + get_size (m b) ≤ x)
apart_from m x b [] ys a = a.0
apart_from m x b (z ∷ xs) ys a = apart_from m x b xs ys a.1

pub off_before :
    (m : Memory) (b : ℕ) (xs ys : List ℕ) → IsHeap m (xs ++ b ∷ ys) → Off b (get_size (m b)) xs
off_before m b [] ys h = tt
off_before m b (x ∷ xs) ys h =
    (ground (arith, apart_from m x b xs ys h.1, h.0.large), off_before m b xs ys h.2)

pub off_others :
    (b size : ℕ) (xs ys : List ℕ) → Off b size xs → Off b size ys → Off b size (xs ++ ys)
off_others b size [] ys f g = g
off_others b size (x ∷ xs) ys f g = (f.0, off_others b size xs ys f.1 g)

-- The last of some blocks, or the end of the list before them.
pub last-Off :
    (b size p : ℕ) (xs : List ℕ)
    → (p ≡ 0) ⊎ ((b + size ≤ p) ⊎ (p + 80 ≤ b))
    → Off b size xs
    → (last p xs ≡ 0) ⊎ ((b + size ≤ last p xs) ⊎ (last p xs + 80 ≤ b))
last-Off b size p [] h f = h
last-Off b size p (x ∷ xs) h f = last-Off b size x xs (inr f.0) f.1

-- Writes to footers, and to one word at a multiple of 64, leave links alone.
pub marks-Agree :
    (m m' : Memory) (b size p c : ℕ) (os : List ℕ)
    → ((a : ℕ) → a % 64 ≢ 56 → a ≢ b → m' a ≡ m a)
    → 64 ≤ size
    → b % 64 ≡ 0
    → Linked m p c os
    → Off b size os
    → Agree m m' os
marks-Agree m m' b size p c [] keeps large al l f = tt
marks-Agree m m' b size p c (o ∷ os) keeps large al l f = (
  keeps (next_offset o) (omega (arith, l.2)) (ground (arith, f.0)),
  keeps (prev_offset o) (omega (arith, l.2)) (omega (arith, l.2, al)),
  marks-Agree m m' b size o (m (next_offset o)) os keeps large al l.4 f.1,
)

-- A block with its header and its footer.
pub record HasBlock (m : Memory) (b size : ℕ) (free : Bool) : Type 0 where
  pub says_size : get_size (m b) ≡ size
  pub says_free : is_free (m b) ≡ free
  pub footer : m (b + size - footer_size) ≡ m b
