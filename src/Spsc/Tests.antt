-- ===== src/Spsc/Tests.antt =====
-- A run of the two threads of engine/include/engine/ipc/ring_buffer.hpp.
use real_time_paper_trading.Base.{
  ◌≡◌, refl, false, List, [], ◌∷◌, arith, replicate, length-replicate,
}
use real_time_paper_trading.Ring.{BookDelta, ring_buffer_capacity}
use real_time_paper_trading.Ring.Window.{blank}
use real_time_paper_trading.Spsc.{
  Consumer, System, is_full, store_slot, Push, writing, write, finish, publish, Pop, init, Reach,
  start, push, pop,
}
use real_time_paper_trading.Spsc.Order.{IsQueue, queue_lem}

abbrev slots : List BookDelta
slots = replicate ring_buffer_capacity blank

abbrev first : BookDelta
first = record blank { seq = 1 }

abbrev torn : BookDelta
torn = record blank { seq = 7 }

-- The first push is done, the second is in its assignment, and the pop reads the first slot.
abbrev reading : System
reading = record {
  ring =
      store_slot 1 torn
        (record (store_slot 0 first (store_slot 0 torn (init slots).ring)) { write_index = 1 });
  producer = writing blank 1;
  consumer = Consumer.cleared 0;
  pushed = first ∷ [];
  popped = [];
}

has_room : is_full 0 0 ≡ false
unfolding is_full
has_room = refl

has_room_for_second : is_full 1 0 ≡ false
unfolding is_full
has_room_for_second = refl

queue_example : IsQueue reading
unfolding store_slot
queue_example =
    let first_begun : Reach slots _ = push start (Push.begin first refl) in
    let first_tested =
      push (push first_begun (Push.compare first 0 refl)) (Push.clear first 0 0 refl has_room) in
    let first_written = push (push first_tested (write first torn 0 refl)) (finish first 0 refl) in
    let first_done = push first_written (publish first 0 refl) in
    let popping = pop (pop first_done (Pop.begin refl)) (Pop.compare 0 refl) in
    let second_begun = push (push popping (Push.begin blank refl)) (Push.compare blank 1 refl) in
    let read = pop second_begun (Pop.clear 0 1 refl refl) in
    queue_lem (length-replicate ring_buffer_capacity blank) (omega arith)
      (push (push read (Push.clear blank 1 0 refl has_room_for_second)) (write blank torn 1 refl))
