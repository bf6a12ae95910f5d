-- ===== src/Slab/Alloc/Others.antt =====
-- The other blocks of a free list when one of them is replaced.
use hyperion_euntime_environ.Base.{ℕ, ◌+◌, ◌<◌, ◌≤◌, ◌≢◌, sym, List, [], ◌∷◌, ◌++◌, arith, subst}
use hyperion_euntime_environ.Slab.{Memory, next_offset}
use hyperion_euntime_environ.Slab.FreeList.Links.{Linked, Fresh, Distinct}
use hyperion_euntime_environ.Slab.FreeList.Bypass.{last}
use hyperion_euntime_environ.Slab.Alloc.Heap.{Off}

pub Fresh-tail : (x b : ℕ) (xs ys : List ℕ) → Fresh x (xs ++ b ∷ ys) → Fresh x ys
Fresh-tail x b [] ys f = f.1
Fresh-tail x b (z ∷ xs) ys f = Fresh-tail x b xs ys f.1

pub last_behind :
    (p b : ℕ) (xs ys : List ℕ) → Fresh p ys → Distinct (xs ++ b ∷ ys) → Fresh (last p xs) ys
last_behind p b [] ys f d = f
last_behind p b (x ∷ xs) ys f d = last_behind x b xs ys (Fresh-tail x b xs ys d.0) d.1

pub Linked-behind :
    (m : Memory) (p c b : ℕ) (xs ys : List ℕ)
    → Linked m p c (xs ++ b ∷ ys)
    → Linked m b (m (next_offset b)) ys
Linked-behind m p c b [] ys l = subst (λ o. Linked m b (m (next_offset b)) ys) l.0 l.4
Linked-behind m p c b (x ∷ xs) ys l = Linked-behind m x (m (next_offset x)) b xs ys l.4

pub Distinct-behind : (b : ℕ) (xs ys : List ℕ) → Distinct (xs ++ b ∷ ys) → Distinct ys
Distinct-behind b [] ys d = d.1
Distinct-behind b (x ∷ xs) ys d = Distinct-behind b xs ys d.1

-- A node inside the block is none of the others.
pub Off-Fresh : (b size n : ℕ) (os : List ℕ) → b ≤ n → n < b + size → Off b size os → Fresh n os
Off-Fresh b size n [] l h f = tt
Off-Fresh b size n (o ∷ os) l h f = (ground (arith, f.0), Off-Fresh b size n os l h f.1)

pub Fresh-replaced :
    (x b n : ℕ) (xs ys : List ℕ) → n ≢ x → Fresh x (xs ++ b ∷ ys) → Fresh x (xs ++ n ∷ ys)
Fresh-replaced x b n [] ys ne f = (ne, f.1)
Fresh-replaced x b n (z ∷ xs) ys ne f = (f.0, Fresh-replaced x b n xs ys ne f.1)

pub Distinct-replaced :
    (b n : ℕ) (xs ys : List ℕ)
    → Fresh n xs
    → Fresh n ys
    → Distinct (xs ++ b ∷ ys)
    → Distinct (xs ++ n ∷ ys)
Distinct-replaced b n [] ys f g d = (g, d.1)
Distinct-replaced b n (x ∷ xs) ys f g d =
    (Fresh-replaced x b n xs ys (λ e. f.0 (sym e)) d.0, Distinct-replaced b n xs ys f.1 g d.1)
