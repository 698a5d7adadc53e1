-- ===== src/Common/SpscQueue/Tests.antt =====
-- Runs of include/smartquant/common/spsc_queue.hpp with four slots, and its theorems at them.
use smart_quant.Prelude.{
  ℕ, ◌+◌, ◌^◌, ◌≤◌, ◌≡◌, ◌≢◌, refl, true, false, none, some, List, [], ◌∷◌, ◌++◌, ◌⊎◌, arith,
  length,
}
use smart_quant.Common.SpscQueue.{SpscQueue, QueueCall, pushes, pops, init, push, pop, run}
use smart_quant.Common.SpscQueue.Refine.{
  Represents, init-Represents, run_spec, ring_refines, push_refines, push_spec,
}
use smart_quant.Common.SpscQueue.Threads.{
  Producer, Consumer, Threads, begin, load_head, see_room, write_slot, store_head, load_tail,
  see_item, read_slot, store_tail, Reach, Step, start, later,
}
use smart_quant.Common.SpscQueue.Threads.WaitFree.{
  Interleaving-wait_free, Interleaving, by_push, by_pop, PushReturned, PopReturned, push_accesses,
  pop_accesses,
}
use smart_quant.Common.SpscQueue.Threads.Safety.{Reach-fifo, Reach-apart}

abbrev calls : List (QueueCall ℕ)
calls = pops ∷ pushes 5 ∷ pushes 6 ∷ pushes 7 ∷ pushes 8 ∷ pops ∷ pushes 9 ∷ pops ∷ []

-- The fourth push finds the ring full.
run_value :
    run 2 0 (init 2 0) calls
    ≡ (false, none)
      ∷ (true, none)
      ∷ (true, none)
      ∷ (true, none)
      ∷ (false, none)
      ∷ (false, some 5)
      ∷ (true, none)
      ∷ (false, some 6)
      ∷ []
unfolding run push pop
run_value = refl

ring_refines_example : run 2 0 (init 2 0) calls ≡ run_spec 2 [] calls
ring_refines_example = ring_refines 2 0 (init 2 0) [] calls (omega arith) (init-Represents 2 0)

abbrev five : List ℕ
five = 5 ∷ []

abbrev holding : SpscQueue ℕ
unfolding push
holding = (push 2 (init 2 0) 5).0

one_in : Represents 2 0 holding five
unfolding push_spec push
one_in = (push_refines 2 0 (init 2 0) [] 5 (omega arith) (init-Represents 2 0)).1

-- One item is in, a second is about to be written while the first is about to be read.
abbrev midway : Threads ℕ
midway = record {
  q = record { head = 1; tail = 0; buf = 5 ∷ 0 ∷ 0 ∷ 0 ∷ [] };
  producer = Producer.checked 6 1;
  consumer = Consumer.checked 0;
  sent = 5 ∷ [];
  received = [];
}

one_sent : Reach 2 0 (record midway { producer = Producer.ready; consumer = Consumer.ready })
one_sent =
    later
      (later
        (later (later start (load_head (begin 2 0) 5 refl))
          (see_room (record (begin 2 0) { producer = Producer.loaded 5 0 }) 5 0 refl (omega arith)))
        (write_slot (record (begin 2 0) { producer = Producer.checked 5 0 }) 5 0 refl))
      (store_head
        (record (begin 2 0) {
          q = record { head = 0; tail = 0; buf = 5 ∷ 0 ∷ 0 ∷ 0 ∷ [] };
          producer = Producer.written 5 0;
        })
        5 0 refl)

midway-Reach : Reach 2 0 midway
midway-Reach =
    later
      (later
        (later
          (later one_sent (
            load_head (record midway { producer = Producer.ready; consumer = Consumer.ready }) 6
              refl))
          (load_tail (record midway { producer = Producer.loaded 6 1; consumer = Consumer.ready })
            refl))
        (see_room (record midway { producer = Producer.loaded 6 1; consumer = Consumer.loaded 0 }) 6
          1 refl (omega arith)))
      (see_item (record midway { consumer = Consumer.loaded 0 }) 0 refl (omega arith))

Reach-fifo_example : (xs : List ℕ) × (midway.sent ≡ midway.received ++ xs) × (length xs + 1 ≤ 2 ^ 2)
Reach-fifo_example = Reach-fifo 2 0 (omega arith) midway-Reach

abbrev head_slot : ℕ
head_slot = 1

abbrev tail_slot : ℕ
tail_slot = 0

Reach-apart_example : head_slot ≢ tail_slot
Reach-apart_example = Reach-apart 2 0 (omega arith) 6 head_slot tail_slot midway-Reach refl refl

abbrev drained : Threads ℕ
drained = record midway {
  q = record { head = 1; tail = 1; buf = 5 ∷ 0 ∷ 0 ∷ 0 ∷ [] };
  consumer = Consumer.ready;
  received = 5 ∷ [];
}

drained-Reach : Reach 2 0 drained
drained-Reach =
    later (later midway-Reach (read_slot midway 0 refl))
      (store_tail (record midway { consumer = Consumer.taken 5 0 }) 5 0 refl)

-- A push of 5 is under way; the consumer begins a pop, and both go on.
abbrev under_way : Threads ℕ
under_way = record (begin 2 0) { producer = Producer.loaded 5 0 }

abbrev after_room : Threads ℕ
after_room = record under_way { producer = Producer.checked 5 0; consumer = Consumer.loaded 0 }

one_each : Interleaving 2 0 under_way after_room
one_each =
    Interleaving.then_step
      (Interleaving.then_step Interleaving.here
        (Step.see_room under_way 5 0 refl (λ e. omega arith)))
      (Step.load_tail (record under_way { producer = Producer.checked 5 0 }) refl)

Interleaving-wait_free_example :
    ((u : Threads ℕ) × (st : Step 2 0 under_way u) × (by_push st ≡ 1))
    × ((u : Threads ℕ) × (st : Step 2 0 under_way u) × (by_pop st ≡ 1))
    × (PushReturned one_each ⊎ (push_accesses one_each ≤ 2))
    × (PopReturned one_each ⊎ (pop_accesses one_each ≤ 2))
Interleaving-wait_free_example = Interleaving-wait_free 2 0 under_way after_room 6 one_each
