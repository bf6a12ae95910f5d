-- ===== src/Slab/FreeList/Bypass.antt =====
-- The free list with one node's neighbours linked past it.
use hyperion_euntime_environ.Base.{
  ℕ, ◌%◌, ◌≡◌, refl, sym, ap, ◌∙◌, subst, ◌≢◌, List, [], ◌∷◌, ◌++◌, arith, ◌==◌, if◌then◌else◌,
}
use hyperion_euntime_environ.Slab.{Memory, write, next_offset, prev_offset}
use hyperion_euntime_environ.Slab.FreeList.Links.{Linked, Fresh, Distinct, Agree, Linked-Agree}

-- The memory once the links around a node lead past it, from `pv` to `nx` and back.
abbrev pub bypass : Memory → ℕ → ℕ → Memory
bypass m pv nx =
    let m1 = if pv == 0 then m else write m (next_offset pv) nx in
    if nx == 0 then m1 else write m1 (prev_offset nx) pv

module _ (m : Memory) (pv nx : ℕ) (pv_at : pv % 64 ≡ 0) (nx_at : nx % 64 ≡ 0) where
  bypass-next_ne :
      (o : ℕ) → o % 64 ≡ 0 → o ≢ pv → bypass m pv nx (next_offset o) ≡ m (next_offset o)
  unfolding write
  bypass-next_ne o al ne = ground arith

  bypass-next_self : pv ≢ 0 → bypass m pv nx (next_offset pv) ≡ nx
  unfolding write
  bypass-next_self ne = ground arith

  bypass-prev_ne :
      (o : ℕ) → o % 64 ≡ 0 → o ≢ nx → bypass m pv nx (prev_offset o) ≡ m (prev_offset o)
  unfolding write
  bypass-prev_ne o al ne = ground arith

  bypass-prev_self : nx ≢ 0 → bypass m pv nx (prev_offset nx) ≡ pv
  unfolding write
  bypass-prev_self ne = ground arith

  bypass-Agree :
      (p c : ℕ) (os : List ℕ)
      → Linked m p c os
      → Fresh pv os
      → Fresh nx os
      → Agree m (bypass m pv nx) os
  bypass-Agree p c [] l fp fn = tt
  bypass-Agree p c (o ∷ os) l fp fn = (
    bypass-next_ne o l.2 fp.0,
    bypass-prev_ne o l.2 fn.0,
    bypass-Agree o (m (next_offset o)) os l.4 fp.1 fn.1,
  )

abbrev pub last : ℕ → List ℕ → ℕ
last p [] = p
last p (x ∷ xs) = last x xs

-- Where the list starts once the node behind `xs` is gone.
abbrev pub start_past : List ℕ → ℕ → ℕ → ℕ
start_past [] nx c = nx
start_past (x ∷ xs) nx c = c

pub prev-eq-last :
    (m : Memory) (p c b : ℕ) (xs ys : List ℕ)
    → Linked m p c (xs ++ b ∷ ys)
    → m (prev_offset b) ≡ last p xs
prev-eq-last m p c b [] ys l = l.3
prev-eq-last m p c b (x ∷ xs) ys l = prev-eq-last m x (m (next_offset x)) b xs ys l.4

pub last-aligned :
    (m : Memory) (p c b : ℕ) (xs ys : List ℕ)
    → p % 64 ≡ 0
    → Linked m p c (xs ++ b ∷ ys)
    → last p xs % 64 ≡ 0
last-aligned m p c b [] ys al l = al
last-aligned m p c b (x ∷ xs) ys al l = last-aligned m x (m (next_offset x)) b xs ys l.2 l.4

pub next-aligned :
    (m : Memory) (p c b : ℕ) (xs ys : List ℕ)
    → Linked m p c (xs ++ b ∷ ys)
    → m (next_offset b) % 64 ≡ 0
next-aligned m p c b [] [] l = omega (arith, l.4)
next-aligned m p c b [] (y ∷ ys) l = omega (arith, l.4.0, l.4.2)
next-aligned m p c b (x ∷ xs) ys l = next-aligned m x (m (next_offset x)) b xs ys l.4

pub last-Fresh : (x y b : ℕ) (xs ys : List ℕ) → Fresh x ((y ∷ xs) ++ b ∷ ys) → last y xs ≢ x
last-Fresh x y b [] ys f = f.0
last-Fresh x y b (z ∷ xs) ys f = last-Fresh x z b xs ys f.1

-- What a list without `x` keeps without it, past one node.
Fresh-past : (x b : ℕ) (xs ys : List ℕ) → Fresh x (xs ++ b ∷ ys) → Fresh x (xs ++ ys)
Fresh-past x b [] ys f = f.1
Fresh-past x b (y ∷ xs) ys f = (f.0, Fresh-past x b xs ys f.1)

pub Distinct-past : (b : ℕ) (xs ys : List ℕ) → Distinct (xs ++ b ∷ ys) → Distinct (xs ++ ys)
Distinct-past b [] ys d = d.1
Distinct-past b (x ∷ xs) ys d = (Fresh-past x b xs ys d.0, Distinct-past b xs ys d.1)

pub next-ne :
    (m : Memory) (p c b x : ℕ) (xs ys : List ℕ)
    → x ≢ 0
    → Linked m p c (xs ++ b ∷ ys)
    → Fresh x (xs ++ b ∷ ys)
    → x ≢ m (next_offset b)
next-ne m p c b x [] [] ne l f e = ne (e ∙ l.4)
next-ne m p c b x [] (y ∷ ys) ne l f e = f.1.0 (sym (e ∙ l.4.0))
next-ne m p c b x (z ∷ xs) ys ne l f e = next-ne m z (m (next_offset z)) b x xs ys ne l.4 f.1 e

-- The node before the gap points past it, and every other keeps its successor.
bypass-start :
    (m : Memory) (b pv nx x d : ℕ) (xs ys : List ℕ)
    → pv % 64 ≡ 0
    → nx % 64 ≡ 0
    → x ≢ 0
    → x % 64 ≡ 0
    → Fresh x (xs ++ b ∷ ys)
    → pv ≡ last x xs
    → d ≡ m (next_offset x)
    → bypass m pv nx (next_offset x) ≡ start_past xs nx d
bypass-start m b pv nx x d [] ys pa na nz al f ep ed =
    ap (λ o. bypass m pv nx (next_offset o)) (sym ep)
    ∙ bypass-next_self m pv nx pa na (λ e. nz (sym ep ∙ e))
bypass-start m b pv nx x d (y ∷ xs) ys pa na nz al f ep ed =
    bypass-next_ne m pv nx pa na x al (λ e. last-Fresh x y b xs ys f (sym (e ∙ ep))) ∙ sym ed

-- Past the node behind `xs` the links are those of the list without it.
pub bypass-Linked :
    (m : Memory) (p c b pv nx : ℕ) (xs ys : List ℕ)
    → pv % 64 ≡ 0
    → nx % 64 ≡ 0
    → Fresh p (xs ++ b ∷ ys)
    → Linked m p c (xs ++ b ∷ ys)
    → Distinct (xs ++ b ∷ ys)
    → pv ≡ last p xs
    → nx ≡ m (next_offset b)
    → Linked (bypass m pv nx) p (start_past xs nx c) (xs ++ ys)
bypass-Linked m p c b pv nx [] [] pa na f l d ep en = en ∙ l.4
bypass-Linked m p c b pv nx [] (y ∷ ys) pa na f l d ep en = (
  en ∙ l.4.0,
  l.4.1,
  l.4.2,
  ap (λ o. bypass m pv nx (prev_offset o)) (sym (en ∙ l.4.0))
      ∙ bypass-prev_self m pv nx pa na (λ e. l.4.1 (sym (en ∙ l.4.0) ∙ e))
      ∙ ep,
  subst (λ c'. Linked (bypass m pv nx) y c' ys)
      (sym (bypass-next_ne m pv nx pa na y l.4.2 (λ e. f.1.0 (e ∙ ep))))
      (Linked-Agree m (bypass m pv nx) y (m (next_offset y)) ys
        (bypass-Agree m pv nx pa na y (m (next_offset y)) ys l.4.4
          (subst (λ o. Fresh o ys) (sym ep) f.1.1)
          (subst (λ o. Fresh o ys) (sym (en ∙ l.4.0)) d.1.0))
        l.4.4),
)
bypass-Linked m p c b pv nx (x ∷ xs) ys pa na f l d ep en = (
  l.0,
  l.1,
  l.2,
  bypass-prev_ne m pv nx pa na x l.2
        (λ e. next-ne m x (m (next_offset x)) b x xs ys l.1 l.4 d.0 (e ∙ en))
      ∙ l.3,
  subst (λ c'. Linked (bypass m pv nx) x c' (xs ++ ys))
      (sym (bypass-start m b pv nx x (m (next_offset x)) xs ys pa na l.1 l.2 d.0 ep refl))
      (bypass-Linked m x (m (next_offset x)) b pv nx xs ys pa na d.0 l.4 d.1 ep en),
)
