-- ===== src/Ring/Spsc/Safety.antt =====
-- What every interleaving of the producer and the consumer keeps.
use native.Mathlib.Nat.{mod-eq_of_lt, add-zero}
use hyperion_euntime_environ.Base.{
  ℕ, suc, ◌+◌, ◌%◌, ◌^◌, ◌<◌, ◌≡◌, refl, sym, ap, subst, ◌∙◌, ◌≢◌, some, List, [], ◌∷◌, ◌++◌, arith,
  length, get_elem?, set, append_assoc, get_elem?-set_self, length-set, length-append, dec_lt,
}
use hyperion_euntime_environ.Ring.{Ring, next_index}
use hyperion_euntime_environ.Ring.Window.{Window-set, Window-snoc, round-ne}
use hyperion_euntime_environ.Ring.Refine.{
  Holds, fresh-Holds, popped-Holds, next_index-round, round_self,
}
use hyperion_euntime_environ.Ring.Spsc.{Producer, Consumer, System, Step, Reach}

-- What the producer's locals say of the shared indices: the tail is its own, and the room that it
-- saw cannot go away.
abbrev ProducerFits {ℓ} : {A : Type ℓ} → ℕ → Ring A → List A → Producer A → Type ℓ
ProducerFits k r q (Producer.loaded_tail item t) = (t ≡ r.tail) × Unit
ProducerFits k r q (Producer.has_room item t) = (t ≡ r.tail) × (suc (length q) < 2 ^ k) × Unit
ProducerFits k r q (Producer.written item t) =
    (t ≡ r.tail) × (suc (length q) < 2 ^ k) × (get_elem? r.buffer t ≡ some item)
ProducerFits k r q _ = Unit

-- The same for the consumer: the item that it saw stays at the front.
abbrev ConsumerFits {ℓ} : {A : Type ℓ} → ℕ → Ring A → List A → Consumer A → Type ℓ
ConsumerFits k r q (Consumer.loaded_head h) = (h ≡ r.head) × Unit
ConsumerFits k r q (Consumer.not_empty h) = (h ≡ r.head) × (0 < length q) × Unit
ConsumerFits {A} k r q (Consumer.copied item h) = (h ≡ r.head) × (rest : List A) × (q ≡ item ∷ rest)
ConsumerFits k r q _ = Unit

-- `queue` is what was accepted and not yet returned.
record Inv {ℓ} {A : Type ℓ} (k : ℕ) (s : System A) : Type ℓ where
  pub queue : List A
  pub holds : Holds k s.ring queue
  pub ledger : s.returned ++ queue ≡ s.accepted
  pub producer_fits : ProducerFits k s.ring queue s.producer
  pub consumer_fits : ConsumerFits k s.ring queue s.consumer

module _ {ℓ} {A : Type ℓ} (k : ℕ) (small : 2 ^ k < 2 ^ 64) where
  -- The next slot belongs to the head exactly if there is no room.
  room_of_ne :
      (r : Ring A) (q : List A) (t : ℕ)
      → Holds k r q
      → t ≡ r.tail
      → next_index k t ≢ r.head
      → suc (length q) < 2 ^ k
  room_of_ne r q t v e ne = elim (dec_lt (suc (length q)) (2 ^ k)) [
    | yes room ↦ room
    | no full ↦ absurd (
        ne (
          next_index-round k r.head (length q) t small v.head_in (e ∙ v.tail_at)
          ∙ round_self (2 ^ k) r.head (length q) v.head_in (omega (arith, v.count))))
  ]

  items_of_ne :
      (r : Ring A) (q : List A) (h : ℕ) → Holds k r q → h ≡ r.head → h ≢ r.tail → 0 < length q
  items_of_ne r [] h v e ne =
      absurd (ne (e ∙ sym (v.tail_at ∙ rw add-zero (mod-eq_of_lt v.head_in))))
  items_of_ne r (x ∷ q) h v e ne = omega arith

  front_item :
      (r : Ring A) (q : List A) (h : ℕ) (item : A)
      → Holds k r q
      → h ≡ r.head
      → 0 < length q
      → get_elem? r.buffer h ≡ some item
      → (rest : List A) × (q ≡ item ∷ rest)
  front_item r [] h item v e lt at = absurd (omega arith)
  front_item r (x ∷ q) h item v e lt at = (q, ground (arith, v.items, at, e))

  tail-ne-head : (r : Ring A) (q : List A) → Holds k r q → 0 < length q → r.tail ≢ r.head
  tail-ne-head r [] v lt e = absurd (omega arith)
  tail-ne-head r (x ∷ q) v lt e =
      round-ne (2 ^ k) r.head (length q) v.head_in v.count (sym v.tail_at ∙ e)

  written-Holds :
      (r : Ring A) (q : List A) (t : ℕ) (item : A)
      → Holds k r q
      → t ≡ r.tail
      → Holds k (record r { buffer = set r.buffer t item }) q
  written-Holds r q t item v e = record {
    slots = length-set r.buffer t item ∙ v.slots;
    head_in = v.head_in;
    count = v.count;
    tail_at = v.tail_at;
    items = Window-set (2 ^ k) r.buffer q r.head t item v.head_in v.count (e ∙ v.tail_at) v.items;
  }

  published-Holds :
      (r : Ring A) (q : List A) (t : ℕ) (item : A)
      → Holds k r q
      → t ≡ r.tail
      → suc (length q) < 2 ^ k
      → get_elem? r.buffer t ≡ some item
      → Holds k (record r { tail = next_index k t }) (q ++ item ∷ [])
  published-Holds r q t item v e room at = record {
    slots = v.slots;
    head_in = v.head_in;
    count = omega (arith, length-append q (item ∷ []));
    tail_at =
        next_index-round k r.head (length q) t small v.head_in (e ∙ v.tail_at)
        ∙ ap (λ (n : ℕ). (r.head + n) % 2 ^ k) (omega (arith, length-append q (item ∷ [])));
    items = Window-snoc (2 ^ k) r.buffer q r.head t item v.head_in (e ∙ v.tail_at) at v.items;
  }

  -- Whatever the producer does to the queue's end, the consumer's view of its front stands.
  ConsumerFits-snoc :
      (r : Ring A) (q : List A) (x : A) (t : ℕ) (c : Consumer A)
      → ConsumerFits k r q c
      → ConsumerFits k (record r { tail = t }) (q ++ x ∷ []) c
  ConsumerFits-snoc r q x t Consumer.idle f = tt
  ConsumerFits-snoc r q x t (Consumer.loaded_head h) f = f
  ConsumerFits-snoc r q x t (Consumer.not_empty h) f =
      (f.0, omega (arith, f.1, length-append q (x ∷ [])), tt)
  ConsumerFits-snoc r q x t (Consumer.copied item h) (e, rest, p) =
      (e, rest ++ x ∷ [], ap (λ l. l ++ x ∷ []) p)

  ConsumerFits-set :
      (r : Ring A) (q : List A) (b : List A) (c : Consumer A)
      → ConsumerFits k r q c
      → ConsumerFits k (record r { buffer = b }) q c
  ConsumerFits-set r q b Consumer.idle f = tt
  ConsumerFits-set r q b (Consumer.loaded_head h) f = f
  ConsumerFits-set r q b (Consumer.not_empty h) f = f
  ConsumerFits-set r q b (Consumer.copied item h) f = f

  ProducerFits-tail :
      (r : Ring A) (q : List A) (x : A) (h : ℕ) (p : Producer A)
      → ProducerFits k r (x ∷ q) p
      → ProducerFits k (record r { head = h }) q p
  ProducerFits-tail r q x h Producer.idle f = tt
  ProducerFits-tail r q x h (Producer.loaded_tail item t) f = f
  ProducerFits-tail r q x h (Producer.has_room item t) f = (f.0, omega (arith, f.1), tt)
  ProducerFits-tail r q x h (Producer.written item t) f = (f.0, omega (arith, f.1), f.2)

  Step-Inv : {s t : System A} → Step k s t → Inv k s → Inv k t
  Step-Inv {s} (Step.load_own_tail item e) v = record {
    queue = v.queue;
    holds = v.holds;
    ledger = v.ledger;
    producer_fits = (refl, tt);
    consumer_fits = v.consumer_fits;
  }
  Step-Inv {s} (Step.find_full item t e p) v = record {
    queue = v.queue;
    holds = v.holds;
    ledger = v.ledger;
    producer_fits = tt;
    consumer_fits = v.consumer_fits;
  }
  Step-Inv {s} (Step.find_room item t e p) v =
      let f = subst (ProducerFits k s.ring v.queue) e v.producer_fits in
      record {
        queue = v.queue;
        holds = v.holds;
        ledger = v.ledger;
        producer_fits = (f.0, room_of_ne s.ring v.queue t v.holds f.0 p, tt);
        consumer_fits = v.consumer_fits;
      }
  Step-Inv {s} (Step.write_slot item t e) v =
      let f = subst (ProducerFits k s.ring v.queue) e v.producer_fits in
      record {
        queue = v.queue;
        holds = written-Holds s.ring v.queue t item v.holds f.0;
        ledger = v.ledger;
        producer_fits = (
          f.0,
          f.1,
          get_elem?-set_self s.ring.buffer t item
              (omega (arith, f.0, v.holds.slots, v.holds.tail_at)),
        );
        consumer_fits =
            ConsumerFits-set s.ring v.queue (set s.ring.buffer t item) s.consumer v.consumer_fits;
      }
  Step-Inv {s} (Step.publish_tail item t e) v =
      let f = subst (ProducerFits k s.ring v.queue) e v.producer_fits in
      record {
        queue = v.queue ++ item ∷ [];
        holds = published-Holds s.ring v.queue t item v.holds f.0 f.1 f.2;
        ledger =
            sym (append_assoc s.returned v.queue (item ∷ [])) ∙ ap (λ l. l ++ item ∷ []) v.ledger;
        producer_fits = tt;
        consumer_fits =
            ConsumerFits-snoc s.ring v.queue item (next_index k t) s.consumer v.consumer_fits;
      }
  Step-Inv {s} (Step.load_own_head e) v = record {
    queue = v.queue;
    holds = v.holds;
    ledger = v.ledger;
    producer_fits = v.producer_fits;
    consumer_fits = (refl, tt);
  }
  Step-Inv {s} (Step.find_empty h e p) v = record {
    queue = v.queue;
    holds = v.holds;
    ledger = v.ledger;
    producer_fits = v.producer_fits;
    consumer_fits = tt;
  }
  Step-Inv {s} (Step.find_item h e p) v =
      let f = subst (ConsumerFits k s.ring v.queue) e v.consumer_fits in
      record {
        queue = v.queue;
        holds = v.holds;
        ledger = v.ledger;
        producer_fits = v.producer_fits;
        consumer_fits = (f.0, items_of_ne s.ring v.queue h v.holds f.0 p, tt);
      }
  Step-Inv {s} (Step.copy_slot item h e at) v =
      let f = subst (ConsumerFits k s.ring v.queue) e v.consumer_fits in
      let front = front_item s.ring v.queue h item v.holds f.0 f.1 at in
      record {
        queue = v.queue;
        holds = v.holds;
        ledger = v.ledger;
        producer_fits = v.producer_fits;
        consumer_fits = (f.0, front.0, front.1);
      }
  Step-Inv {s} (Step.publish_head item h e) v =
      let f = subst (ConsumerFits k s.ring v.queue) e v.consumer_fits in
      record {
        queue = f.1;
        holds =
            subst (λ i. Holds k (record (s.ring) { head = next_index k i }) f.1) (sym f.0)
              (popped-Holds k small s.ring item f.1 (subst (Holds k s.ring) f.2 v.holds));
        ledger =
            append_assoc s.returned (item ∷ []) f.1
            ∙ ap (λ l. s.returned ++ l) (sym f.2)
            ∙ v.ledger;
        producer_fits =
            ProducerFits-tail s.ring f.1 item (next_index k h) s.producer
              (subst (λ q. ProducerFits k s.ring q s.producer) f.2 v.producer_fits);
        consumer_fits = tt;
      }

  Reach-Inv : {default : A} {s : System A} → Reach k default s → Inv k s
  Reach-Inv {default} Reach.begin = record {
    queue = [];
    holds = fresh-Holds k small default;
    ledger = refl;
    producer_fits = tt;
    consumer_fits = tt;
  }
  Reach-Inv (Reach.later r st) = Step-Inv st (Reach-Inv r)

  -- For a capacity 2 ^ k below 2 ^ 64, in every state that the producer and the consumer reach by
  -- interleaving their shared accesses, what `pop` returned, followed by what the ring still holds,
  -- fewer items than the capacity, is what `push` accepted: nothing is lost, doubled or reordered.
  pub returned-accepted :
      {default : A} {s : System A}
      → Reach k default s
      → (queue : List A) × Holds k s.ring queue
        × (s.returned ++ queue ≡ s.accepted)
        × (length queue < 2 ^ k)
  returned-accepted r = let v = Reach-Inv r in (v.queue, v.holds, v.ledger, v.holds.count)

  -- For a capacity below 2 ^ 64, in no reachable state does the producer stand before a write to
  -- the slot that the consumer stands before reading.
  pub no_data_race :
      {default : A} {s : System A}
      → Reach k default s
      → (item : A) (current_tail current_head : ℕ)
      → s.producer ≡ Producer.has_room item current_tail
      → s.consumer ≡ Consumer.not_empty current_head
      → current_tail ≢ current_head
  no_data_race {s = s} r item t h ep ec same =
      let v = Reach-Inv r in
      let f = subst (ProducerFits k s.ring v.queue) ep v.producer_fits in
      let g = subst (ConsumerFits k s.ring v.queue) ec v.consumer_fits in
      tail-ne-head s.ring v.queue v.holds g.1 (sym f.0 ∙ same ∙ g.0)
