-- ===== src/Ring/Refine.antt =====
-- The calls of include/core/LockFreeRingBuffer.hpp against a bounded queue.
use native.Mathlib.Nat.{mod-eq_of_lt, mod-eq-sub-mod, mod-add-mod, one-le-pow}
use hyperion_euntime_environ.Base.{
  ℕ, suc, ◌+◌, ◌-◌, ◌%◌, ◌^◌, ◌<◌, ◌≡◌, sym, ap, subst, ◌∙◌, Bool, true, false, Option, none, some,
  List, [], ◌∷◌, ◌++◌, arith, length, set, length-set, length-replicate, length-append,
  get_elem?-set_self, dec_lt, ltb, if◌then◌else◌,
}
use hyperion_euntime_environ.Ring.{Ring, next_index, fresh, push, pop, peek}
use hyperion_euntime_environ.Ring.Window.{
  next_index-mod, round-ne, shift_start, Window, Window-set, Window-snoc,
}

-- What the queue promises: first in, first out, and full at `limit` items.
unfoldable pub enqueue {ℓ} : {A : Type ℓ} → ℕ → List A → A → Bool × List A
enqueue limit q x = if ltb (length q) limit then (true, q ++ x ∷ []) else (false, q)

unfoldable pub dequeue {ℓ} : {A : Type ℓ} → List A → Option A × List A
dequeue [] = (none, [])
dequeue (x ∷ q) = (some x, q)

-- The ring holds exactly `q`, oldest first, in slots that lie in its buffer.
pub record Holds {ℓ} {A : Type ℓ} (k : ℕ) (r : Ring A) (q : List A) : Type ℓ where
  pub slots : length r.buffer ≡ 2 ^ k
  pub head_in : r.head < 2 ^ k
  pub count : length q < 2 ^ k
  pub tail_at : r.tail ≡ (r.head + length q) % 2 ^ k
  pub items : Window (2 ^ k) r.buffer r.head q

-- One slot further on from the slot of the `n`th item.
pub next_index-round :
    (k h n t : ℕ)
    → 2 ^ k < 2 ^ 64
    → h < 2 ^ k
    → t ≡ (h + n) % 2 ^ k
    → next_index k t ≡ (h + suc n) % 2 ^ k
next_index-round k h n t small hh e =
    next_index-mod k t small (omega arith)
    ∙ ap (λ (i : ℕ). (i + 1) % 2 ^ k) e
    ∙ mod-add-mod (h + n) (2 ^ k) 1
    ∙ ap (λ (i : ℕ). i % 2 ^ k) (omega arith)

-- Going all the way round leads back.
pub round_self : (c h n : ℕ) → h < c → suc n ≡ c → (h + suc n) % c ≡ h
round_self c h n hh e =
    mod-eq-sub-mod {n = h + suc n} {m = c} (omega arith)
    ∙ ap (λ (i : ℕ). i % c) (omega arith)
    ∙ mod-eq_of_lt hh

module _ {ℓ} {A : Type ℓ} (k : ℕ) (small : 2 ^ k < 2 ^ 64) where
  -- A new ring holds the empty queue.
  pub fresh-Holds : (default : A) → Holds k (fresh k default) []
  unfolding fresh
  fresh-Holds default = record {
    slots = length-replicate (2 ^ k) default;
    head_in = one-le-pow k 2 (omega arith);
    count = one-le-pow k 2 (omega arith);
    tail_at = omega arith;
    items = tt;
  }

  -- The write and the new tail, where there is room.
  pushed-Holds :
      (r : Ring A) (q : List A) (x : A)
      → Holds k r q
      → suc (length q) < 2 ^ k
      → Holds k
          (record r { buffer = set r.buffer r.tail x; tail = next_index k r.tail })
          (q ++ x ∷ [])
  pushed-Holds r q x v room = record {
    slots = length-set r.buffer r.tail x ∙ v.slots;
    head_in = v.head_in;
    count = omega (arith, length-append q (x ∷ []));
    tail_at =
        next_index-round k r.head (length q) r.tail small v.head_in v.tail_at
        ∙ ap (λ (n : ℕ). (r.head + n) % 2 ^ k) (omega (arith, length-append q (x ∷ [])));
    items =
        Window-snoc (2 ^ k) (set r.buffer r.tail x) q r.head r.tail x v.head_in v.tail_at
          (get_elem?-set_self r.buffer r.tail x (omega (arith, v.slots, v.tail_at)))
          (Window-set (2 ^ k) r.buffer q r.head r.tail x v.head_in v.count v.tail_at v.items);
  }

  -- For a capacity 2 ^ k below 2 ^ 64, on a ring that holds a queue `push` accepts and refuses as
  -- the queue bounded by one less than the capacity does, and then the ring holds the queue's new
  -- content.
  pub push_refines :
      (r : Ring A) (q : List A) (x : A)
      → Holds k r q
      → ((push k r x).0 ≡ (enqueue (2 ^ k - 1) q x).0)
        × Holds k (push k r x).1 (enqueue (2 ^ k - 1) q x).1
  unfolding push enqueue
  push_refines r q x v = elim (dec_lt (suc (length q)) (2 ^ k)) [
    | yes room ↦ ground (
      arith,
      pushed-Holds r q x v room,
      next_index-round k r.head (length q) r.tail small v.head_in v.tail_at,
      round-ne (2 ^ k) r.head (length q) v.head_in room,
    )
    | no full ↦ ground (
      arith,
      next_index-round k r.head (length q) r.tail small v.head_in v.tail_at,
      round_self (2 ^ k) r.head (length q) v.head_in (omega (arith, v.count)),
    )
  ]

  pub popped-Holds :
      (r : Ring A) (x : A) (q : List A)
      → Holds k r (x ∷ q)
      → Holds k (record r { head = next_index k r.head }) q
  popped-Holds r x q v = record {
    slots = v.slots;
    head_in = omega (arith, step);
    count = omega (arith, v.count);
    tail_at =
        v.tail_at
        ∙ sym (shift_start (2 ^ k) r.head (length q))
        ∙ ap (λ (h : ℕ). (h + length q) % 2 ^ k) (sym step);
    items = subst (λ h. Window (2 ^ k) r.buffer h q) (sym step) v.items.1;
  }
    where
      step : next_index k r.head ≡ (r.head + 1) % 2 ^ k
      step = next_index-mod k r.head small v.head_in

  -- For a capacity below 2 ^ 64, on a ring that holds a queue `pop` returns what the queue returns,
  -- and then the ring holds the queue's new content.
  pub pop_refines :
      (r : Ring A) (q : List A)
      → Holds k r q
      → ((pop k r).0 ≡ (dequeue q).0) × Holds k (pop k r).1 (dequeue q).1
  unfolding pop dequeue
  pop_refines r [] v = ground (arith, v.tail_at, mod-eq_of_lt v.head_in)
  pop_refines r (x ∷ q) v =
      ground
        (arith, popped-Holds r x q v, round-ne (2 ^ k) r.head (length q) v.head_in v.count, v.items)

  -- `peek` shows what `pop` would return.
  peek_refines : (r : Ring A) (q : List A) → Holds k r q → peek r ≡ (dequeue q).0
  unfolding peek dequeue
  peek_refines r [] v = ground (arith, v.tail_at, mod-eq_of_lt v.head_in)
  peek_refines r (x ∷ q) v =
      ground (arith, round-ne (2 ^ k) r.head (length q) v.head_in v.count, v.items)
