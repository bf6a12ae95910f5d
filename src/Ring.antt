-- ===== src/Ring.antt =====
-- include/core/LockFreeRingBuffer.hpp: `LockFreeRingBuffer<T, Capacity>`, the queue between the
-- ingesting fiber and the analysis thread. The capacity is `2 ^ k`, as its static_assert demands.
-- Here each call runs alone; `Ring.Spsc` interleaves the two threads access by access.
pub mod Window
pub mod Refine
pub mod Spsc
use hyperion_euntime_environ.Base.{
  ℕ, ◌+◌, ◌-◌, ◌%◌, ◌^◌, bit_and, Bool, true, false, Option, none, some, List, ◌==◌, if◌then◌else◌,
  get_elem?, set, replicate,
}

-- `m_head`, `m_tail`, `m_buffer`
pub record Ring {ℓ} (A : Type ℓ) : Type ℓ where
  pub head : ℕ
  pub tail : ℕ
  pub buffer : List A

-- `(i + 1) & (Capacity - 1)` over size_t
unfoldable pub next_index : ℕ → ℕ → ℕ
next_index k i = bit_and ((i + 1) % 2 ^ 64) (2 ^ k - 1)

module _ {ℓ} {A : Type ℓ} (k : ℕ) where
  -- The constructor: both indices 0, every slot default-initialised.
  unfoldable pub fresh : A → Ring A
  fresh default = record { head = 0; tail = 0; buffer = replicate (2 ^ k) default }

  unfoldable pub push : Ring A → A → Bool × Ring A
  push r item =
      let next_tail = next_index k r.tail in
      if next_tail == r.head
      then (false, r)
      else (true, record r { buffer = set r.buffer r.tail item; tail = next_tail })

  -- The slot that is read lies in the buffer whenever the indices do (`Refine`).
  unfoldable pub pop : Ring A → Option A × Ring A
  pop r =
      if r.head == r.tail
      then (none, r)
      else (get_elem? r.buffer r.head, record r { head = next_index k r.head })

unfoldable pub peek {ℓ} : {A : Type ℓ} → Ring A → Option A
peek r = if r.head == r.tail then none else get_elem? r.buffer r.head
