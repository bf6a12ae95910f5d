-- ===== src/Slab/FreeList/Replace.antt =====
-- The free list with one node replaced by another in its place.
use hyperion_euntime_environ.Base.{ℕ, ◌%◌, ◌≡◌, sym, ◌∙◌, subst, refl, ◌≢◌, List, [], ◌∷◌, ◌++◌}
use hyperion_euntime_environ.Slab.{Memory, next_offset, prev_offset}
use hyperion_euntime_environ.Slab.FreeList.Links.{Linked, Agree, Linked-Agree}
use hyperion_euntime_environ.Slab.FreeList.Bypass.{last, start_past}

module _ (m m' : Memory) (n : ℕ) where
  -- What the nodes in front keep: the last one leads to the new node.
  abbrev pub Fore : List ℕ → Type 0
  Fore [] = Unit
  Fore (x ∷ xs) =
      (m' (prev_offset x) ≡ m (prev_offset x))
      × (m' (next_offset x) ≡ start_past xs n (m (next_offset x)))
      × Fore xs

  -- What the nodes behind keep: the first one leads back to the new node.
  abbrev pub Aft : List ℕ → Type 0
  Aft [] = Unit
  Aft (y ∷ ys) = (m' (prev_offset y) ≡ n) × (m' (next_offset y) ≡ m (next_offset y)) × Agree m m' ys

  pub aft-Linked : (b c : ℕ) (ys : List ℕ) → Linked m b c ys → Aft ys → Linked m' n c ys
  aft-Linked b c [] l a = l
  aft-Linked b c (y ∷ ys) (e, ne, al, pe, l) (back, next, agree) = (
    e,
    ne,
    al,
    back,
    subst (λ d. Linked m' y d ys) (sym next) (Linked-Agree m m' y (m (next_offset y)) ys agree l),
  )

  pub replace-Linked :
      (p c b : ℕ) (xs ys : List ℕ)
      → Linked m p c (xs ++ b ∷ ys)
      → Fore xs
      → n ≢ 0
      → n % 64 ≡ 0
      → m' (prev_offset n) ≡ last p xs
      → Linked m' n (m' (next_offset n)) ys
      → Linked m' p (start_past xs n c) (xs ++ n ∷ ys)
  replace-Linked p c b [] ys l f ne al back rest = (refl, ne, al, back, rest)
  replace-Linked p c b (x ∷ xs) ys (e, xne, xal, pe, l) (prev, next, f) ne al back rest = (
    e,
    xne,
    xal,
    prev ∙ pe,
    subst (λ d. Linked m' x d (xs ++ n ∷ ys)) (sym next)
        (replace-Linked x (m (next_offset x)) b xs ys l f ne al back rest),
  )
