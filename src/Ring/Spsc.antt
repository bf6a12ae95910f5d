-- ===== src/Ring/Spsc.antt =====
-- include/core/LockFreeRingBuffer.hpp under its two threads: the producer inside `push` and the
-- consumer inside `pop`, interleaved shared access by shared access. A store with `release` that a
-- load with `acquire` reads makes what precedes it visible, so the accesses are taken in one order.
pub mod Safety
use hyperion_euntime_environ.Base.{
  ℕ, ◌≡◌, ◌≢◌, ◌+◌, ◌^◌, Option, none, some, List, [], ◌∷◌, ◌++◌, get_elem?, set,
}
use hyperion_euntime_environ.Ring.{Ring, next_index, fresh}

-- Where the producer stands in `push`, with its locals.
pub data Producer {ℓ} (A : Type ℓ) : Type ℓ where
  idle : Producer A
  loaded_tail : (item : A) (current_tail : ℕ) → Producer A
  has_room : (item : A) (current_tail : ℕ) → Producer A
  written : (item : A) (current_tail : ℕ) → Producer A

-- Where the consumer stands in `pop`, with its locals.
pub data Consumer {ℓ} (A : Type ℓ) : Type ℓ where
  idle : Consumer A
  loaded_head : (current_head : ℕ) → Consumer A
  not_empty : (current_head : ℕ) → Consumer A
  copied : (item : A) (current_head : ℕ) → Consumer A

-- The buffer, the two threads, and what `push` accepted and `pop` returned so far, oldest first.
pub record System {ℓ} (A : Type ℓ) : Type ℓ where
  pub ring : Ring A
  pub producer : Producer A
  pub consumer : Consumer A
  pub accepted : List A
  pub returned : List A

module _ {ℓ} {A : Type ℓ} (k : ℕ) where
  abbrev pub start : A → System A
  start default = record {
    ring = fresh k default;
    producer = Producer.idle;
    consumer = Consumer.idle;
    accepted = [];
    returned = [];
  }

-- One shared access of one thread: the load or the store, and the test that follows it.
pub data Step {ℓ} {A : Type ℓ} (k : ℕ) (s : System A) : System A → Type ℓ where
  load_own_tail :
      (item : A)
      → s.producer ≡ Producer.idle
      → Step k s (record s { producer = Producer.loaded_tail item s.ring.tail })
  find_full :
      (item : A) (current_tail : ℕ)
      → s.producer ≡ Producer.loaded_tail item current_tail
      → next_index k current_tail ≡ s.ring.head
      → Step k s (record s { producer = Producer.idle })
  find_room :
      (item : A) (current_tail : ℕ)
      → s.producer ≡ Producer.loaded_tail item current_tail
      → next_index k current_tail ≢ s.ring.head
      → Step k s (record s { producer = Producer.has_room item current_tail })
  write_slot :
      (item : A) (current_tail : ℕ)
      → s.producer ≡ Producer.has_room item current_tail
      → Step k s (record s {
        ring = record (s.ring) { buffer = set s.ring.buffer current_tail item };
        producer = Producer.written item current_tail;
      })
  publish_tail :
      (item : A) (current_tail : ℕ)
      → s.producer ≡ Producer.written item current_tail
      → Step k s (record s {
        ring = record (s.ring) { tail = next_index k current_tail };
        producer = Producer.idle;
        accepted = s.accepted ++ item ∷ [];
      })
  load_own_head :
      s.consumer ≡ Consumer.idle
      → Step k s (record s { consumer = Consumer.loaded_head s.ring.head })
  find_empty :
      (current_head : ℕ)
      → s.consumer ≡ Consumer.loaded_head current_head
      → current_head ≡ s.ring.tail
      → Step k s (record s { consumer = Consumer.idle })
  find_item :
      (current_head : ℕ)
      → s.consumer ≡ Consumer.loaded_head current_head
      → current_head ≢ s.ring.tail
      → Step k s (record s { consumer = Consumer.not_empty current_head })
  copy_slot :
      (item : A) (current_head : ℕ)
      → s.consumer ≡ Consumer.not_empty current_head
      → get_elem? s.ring.buffer current_head ≡ some item
      → Step k s (record s { consumer = Consumer.copied item current_head })
  publish_head :
      (item : A) (current_head : ℕ)
      → s.consumer ≡ Consumer.copied item current_head
      → Step k s (record s {
        ring = record (s.ring) { head = next_index k current_head };
        consumer = Consumer.idle;
        returned = s.returned ++ item ∷ [];
      })

pub data Reach {ℓ} {A : Type ℓ} (k : ℕ) (default : A) : System A → Type ℓ where
  begin : Reach k default (start k default)
  later : {s t : System A} → Reach k default s → Step k s t → Reach k default t
