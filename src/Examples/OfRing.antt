-- ===== src/Examples/OfRing.antt =====
-- include/core/LockFreeRingBuffer.hpp at a capacity of 4.
use hyperion_euntime_environ.Base.{ℕ, ◌^◌, ◌<◌, ◌≡◌, ◌≢◌, refl, List, [], ◌∷◌, ◌++◌, arith, length}
use hyperion_euntime_environ.Ring.{Ring, next_index, fresh, push, pop}
use hyperion_euntime_environ.Ring.Refine.{Holds, enqueue, dequeue, push_refines, pop_refines}
use hyperion_euntime_environ.Ring.Spsc.{Producer, Consumer, System, Step, Reach}
use hyperion_euntime_environ.Ring.Spsc.Safety.{returned-accepted, no_data_race}

-- Two items at the places 3 and 0.
abbrev wrapped : Ring ℕ
wrapped = record { head = 3; tail = 1; buffer = 8 ∷ 0 ∷ 0 ∷ 7 ∷ [] }

abbrev held : List ℕ
held = 7 ∷ 8 ∷ []

wrapped-Holds : Holds 2 wrapped held
wrapped-Holds = record {
  slots = refl;
  head_in = omega arith;
  count = omega arith;
  tail_at = refl;
  items = (refl, (refl, tt));
}

push_refines_example :
    ((push 2 wrapped 9).0 ≡ (enqueue 3 held 9).0)
    × Holds 2 (push 2 wrapped 9).1 (enqueue 3 held 9).1
push_refines_example = push_refines 2 (omega arith) wrapped held 9 wrapped-Holds

pop_refines_example :
    ((pop 2 wrapped).0 ≡ (dequeue held).0) × Holds 2 (pop 2 wrapped).1 (dequeue held).1
pop_refines_example = pop_refines 2 (omega arith) wrapped held wrapped-Holds

-- With one slot to fill at a time: the first item is in, the second is written next while the consumer
-- is about to copy the first.
abbrev state : List ℕ → ℕ → Producer ℕ → Consumer ℕ → List ℕ → System ℕ
state buffer tail producer consumer accepted = record {
  ring = record { head = 0; tail = tail; buffer = buffer };
  producer = producer;
  consumer = consumer;
  accepted = accepted;
  returned = [];
}

abbrev empty_slots : List ℕ
empty_slots = 0 ∷ 0 ∷ 0 ∷ 0 ∷ []

abbrev one_slot : List ℕ
one_slot = 7 ∷ 0 ∷ 0 ∷ 0 ∷ []

abbrev racing : System ℕ
racing = state one_slot 1 (Producer.has_room 8 1) (Consumer.not_empty 0) (7 ∷ [])

pushed-Reach : Reach 2 0 (state one_slot 1 Producer.idle Consumer.idle (7 ∷ []))
unfolding fresh next_index
pushed-Reach =
    Reach.later {s = state one_slot 0 (Producer.written 7 0) Consumer.idle []}
      (Reach.later {s = state empty_slots 0 (Producer.has_room 7 0) Consumer.idle []}
        (Reach.later {s = state empty_slots 0 (Producer.loaded_tail 7 0) Consumer.idle []}
          (Reach.later {s = state empty_slots 0 Producer.idle Consumer.idle []} Reach.begin
            (Step.load_own_tail 7 refl))
          (Step.find_room 7 0 refl (omega arith)))
        (Step.write_slot 7 0 refl))
      (Step.publish_tail 7 0 refl)

racing-Reach : Reach 2 0 racing
unfolding next_index
racing-Reach =
    Reach.later {s = state one_slot 1 (Producer.has_room 8 1) (Consumer.loaded_head 0) (7 ∷ [])}
      (Reach.later {s = state one_slot 1 (Producer.has_room 8 1) Consumer.idle (7 ∷ [])}
        (Reach.later {s = state one_slot 1 (Producer.loaded_tail 8 1) Consumer.idle (7 ∷ [])}
          (Reach.later {s = state one_slot 1 Producer.idle Consumer.idle (7 ∷ [])} pushed-Reach
            (Step.load_own_tail 8 refl))
          (Step.find_room 8 1 refl (omega arith)))
        (Step.load_own_head refl))
      (Step.find_item 0 refl (omega arith))

returned-accepted_example :
    (queue : List ℕ) × Holds 2 racing.ring queue
    × (racing.returned ++ queue ≡ racing.accepted)
    × (length queue < 2 ^ 2)
returned-accepted_example = returned-accepted 2 (omega arith) racing-Reach

no_data_race_example : ◌≢◌ {A = ℕ} 1 0
no_data_race_example = no_data_race 2 (omega arith) racing-Reach 8 1 0 refl refl
